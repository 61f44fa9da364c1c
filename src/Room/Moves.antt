-- ===== src/Room/Moves.antt =====
-- Each call on a room, and each part of a settlement, keeps the room valid.
use wordbreak_backend.Base.{ℕ, ◌≡◌, inl, inr, Option, some, arith, Bool-cases, Option-cases}
use wordbreak_backend.Base.Text.{Text, UnicodeTables, eq_text}
use wordbreak_backend.Dictionary.Words.{normal}
use wordbreak_backend.Rack.{Rng}
use wordbreak_backend.Room.{
  Room, lobby, racing, done, maybe_finish, snapshot, is_lobby, is_done, pending, settled, failed,
}
use wordbreak_backend.Room.Services.{Addresses, Reader, Writer, Signer, Reply, ok, fault}
use wordbreak_backend.Room.Submission.{submit_cases, join_cases}
use wordbreak_backend.Room.Settle.{begin_settle, is_unsettled, end_settle, settle_room}
use wordbreak_backend.Room.Race.{join_room, start_room, submit_room}
use wordbreak_backend.Room.Invariant.{
  IsValid, maybe_finish-IsValid, mark-IsValid, add_player-IsValid, credit-IsValid,
}

module _ ⦃u : UnicodeTables⦄ where
  pub submit_room-IsValid :
      (r : Room) (id word : Text) (now : ℕ) → IsValid r → IsValid (submit_room r id word now).0
  submit_room-IsValid r id word now v = elim (submit_cases r id word now) [
    | inl idle ↦ rw idle.room_same (maybe_finish-IsValid r now v)
    | inr (p, c) ↦
        rw c.room_credited
          (credit-IsValid r id p (normal word) c.running c.is_player c.is_new c.is_playable v)
  ]

  pub join_room-IsValid :
      (eth : Addresses) (reader : Option Reader) (r : Room) (id name : Text) (now : ℕ)
      → IsValid r
      → IsValid (join_room eth reader r id name now).0
  join_room-IsValid eth reader r id name now v = elim (join_cases eth reader r id name now) [
    | inl same ↦ elim same [ inl e ↦ rw e v | inr e ↦ rw e (maybe_finish-IsValid r now v) ]
    | inr c ↦ rw c.room_joined (
        maybe_finish-IsValid _ now
          (add_player-IsValid r id name c.in_lobby c.was_absent c.had_room v))
  ]

  deal-IsValid :
      (r : Room) (letters : Text) (ends_at : ℕ)
      → r.state ≡ lobby
      → IsValid r
      → IsValid (record r { letters = letters; state = racing; ends_at = ends_at })
  deal-IsValid r letters ends_at l v = record {
    distinct = v.distinct;
    bounded = v.bounded;
    sized = v.sized;
    seated = v.seated;
    tallies = λ id p e.
        let t = v.tallies id p e in
        let none_yet = v.fresh id p l e in
        record {
          scored = t.scored;
          counted = t.counted;
          unique = t.unique;
          playable = rw none_yet tt;
        };
    fresh = λ id p s e. cc;
    settled_done = λ h. cc (v.settled_done h, l);
  }

  pub start_room-IsValid :
      (rng : Rng) (g : rng.Source) (r : Room) (id : Text) (now : ℕ)
      → IsValid r
      → IsValid (start_room rng g r id now).0
  unfolding start_room snapshot
  start_room-IsValid rng g r id now v = elim (Bool-cases (eq_text id r.host)) [
    | inr e ↦ rw e v
    | inl e ↦ elim (Bool-cases (is_lobby r.state)) [
      | inr l ↦ rw (e, l) v
      | inl l ↦ rw (e, l) (maybe_finish-IsValid _ now (deal-IsValid r _ _ (ground arith) v))
    ]
  ]

  pub begin_settle-IsValid : (r : Room) (now : ℕ) → IsValid r → IsValid (begin_settle r now).0
  unfolding begin_settle
  begin_settle-IsValid r now v =
      let w = maybe_finish-IsValid r now v in
      elim (Bool-cases (is_done (maybe_finish r now).state)) [
        | inr e ↦ rw e w
        | inl e ↦ elim (Bool-cases (is_unsettled (maybe_finish r now).settle_status)) [
          | inr k ↦ rw (e, k) w
          | inl k ↦
              rw (e, k)
                (mark-IsValid (maybe_finish r now) pending (maybe_finish r now).settle_err
                  (ground arith) w)
        ]
      ]

  pub end_settle-IsValid :
      (r : Room) (outcome : Reply (Unit {0}))
      → r.state ≡ done
      → IsValid r
      → IsValid (end_settle r outcome)
  unfolding end_settle
  end_settle-IsValid r (fault e) d v = mark-IsValid r failed e d v
  end_settle-IsValid r (ok x) d v = mark-IsValid r settled r.settle_err d v

  begin_settle_done :
      (r : Room) (now : ℕ) {job : Text × Option ℕ}
      → (begin_settle r now).1 ≡ some job
      → (begin_settle r now).0.state ≡ done
  unfolding begin_settle
  begin_settle_done r now h = ground arith

  pub settle_room-IsValid :
      (eth : Addresses) (reader : Reader) (signer : Signer) (writer : Writer) (r : Room) (now : ℕ)
      → IsValid r
      → IsValid (settle_room eth reader signer writer r now).0
  unfolding settle_room
  settle_room-IsValid eth reader signer writer r now v =
      elim (Option-cases (begin_settle r now).1) [
        | inl e ↦ rw (e, settle_room) (begin_settle-IsValid r now v)
        | inr (job, e) ↦
            rw (e, settle_room)
              (end_settle-IsValid _ _ (begin_settle_done r now e) (begin_settle-IsValid r now v))
      ]
