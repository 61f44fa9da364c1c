-- ===== src/Room/Opening.antt =====
-- internal/room/room.go, lines 186 to 201 and 281 to 303: the round that `Create` opens.
use wordbreak_backend.Base.{
  ℕ, zero, suc, ◌+◌, ◌/◌, false, Bool-cases, ◌≡◌, refl, ap, subst, ◌∙◌, inl, inr, some, List, arith,
}
use wordbreak_backend.Room.{Room, second, stake_window}
use wordbreak_backend.Room.Services.{Services, Reader, Writer, Reply-cases, ok, returns}
use wordbreak_backend.Room.Manager.{open_round, fresh_round_id, big_endian}

-- The round of a staked room, which no round of the contract had as its number, and whose
-- transaction has come through.
pub record IsOpened (s : Services) (now stake : ℕ) (r : Room) : Type 0 where
  pub reader : Reader
  pub writer : Writer
  pub round : ℕ
  pub reads_chain : s.reader ≡ some reader
  pub writes_chain : s.writer ≡ some writer
  pub was_free : reader.round_exists round ≡ ok false
  pub is_open : writer.create_round round stake ((now + stake_window) / second) ≡ ok tt
  pub kept : r.round_id ≡ some round
  pub kept_end : r.stake_ends_at ≡ now + stake_window

fresh_round_id_free :
    (n : ℕ) (c : Reader) (reads : ℕ → List ℕ) (id : ℕ)
    → fresh_round_id n c reads ≡ ok id
    → c.round_exists id ≡ ok false
unfolding fresh_round_id
fresh_round_id_free zero c reads id h = absurd (cc h)
fresh_round_id_free (suc n) c reads id h =
    elim (Reply-cases (c.round_exists (big_endian 0 (reads n) / 2))) [
      | inr (e, f) ↦ absurd (ground arith)
      | inl (exists, f) ↦ elim (Bool-cases exists) [
        | inl taken ↦ fresh_round_id_free n c reads id (ground arith)
        | inr free ↦
            let same : big_endian 0 (reads n) / 2 ≡ id = ground arith in
            subst (λ (k : ℕ). c.round_exists k ≡ ok false) same (f ∙ ap ok free)
      ]
    ]

pub open_round_opens :
    (c : Reader) (w : Writer) (reads : ℕ → List ℕ) (stake now : ℕ) (p : ℕ × ℕ)
    → open_round c w reads stake now ≡ returns p
    → (c.round_exists p.0 ≡ ok false)
      × (w.create_round p.0 stake ((now + stake_window) / second) ≡ ok tt)
      × (p.1 ≡ now + stake_window)
unfolding open_round
open_round_opens c w reads stake now p h = elim (Reply-cases (fresh_round_id 5 c reads)) [
  | inr (e, f) ↦ absurd (ground arith)
  | inl (id, f) ↦ elim (Reply-cases (w.create_round id stake ((now + stake_window) / second))) [
    | inr (e, g) ↦ absurd (ground arith)
    | inl (done, g) ↦
        let same : (id, now + stake_window) ≡ p = ground arith in
        subst
          (λ (q : ℕ × ℕ).
            (c.round_exists q.0 ≡ ok false)
            × (w.create_round q.0 stake ((now + stake_window) / second) ≡ ok tt)
            × (q.1 ≡ now + stake_window))
          same (fresh_round_id_free 5 c reads id f, g, refl)
  ]
]
