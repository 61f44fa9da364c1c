-- ===== src/Room/Paid.antt =====
-- A room is settled once, whatever calls come between: the manager's calls, and the parts of those
-- that release the lock.
use wordbreak_backend.Base.{
  ℕ, ◌≡◌, sym, ap, subst, ◌∙◌, ◌≢◌, inl, inr, Option, none, some, List, arith, Bool-cases,
  Option-cases,
}
use wordbreak_backend.Base.Text.{Text, UnicodeTables, to_upper, eq_text, eq_text_iff}
use wordbreak_backend.Base.Assoc.{
  lookup, lookup-insert, lookup-insert_self, lookup-insert_ne, lookup-delete,
}
use wordbreak_backend.Rack.{Rng}
use wordbreak_backend.Room.{Room, RoomView, done}
use wordbreak_backend.Room.Services.{Addresses, Services, Result, Result-cases, refuse, returns}
use wordbreak_backend.Room.Settle.{Payment, begin_settle}
use wordbreak_backend.Room.Over.{snapshot_over, join_room_over, start_room_over, submit_room_over}
use wordbreak_backend.Room.Manager.{
  Manager, CreateOpts, put_room, drop, find_room, get, join, start, submit, create, create_rest,
  new_room, open_round,
}
use wordbreak_backend.Room.Creation.{create_refused, create_returned}
use wordbreak_backend.Room.Codes.{fresh_code-free}
use wordbreak_backend.Room.Registry.{
  Call, CallPart, Served, registers, opens, seats, begins_settling, ends_settling, gets, joins,
  starts, submits, creates, runs_part, settles, idle, then_call,
}
use wordbreak_backend.Room.Begun.{
  IsBegun, end_settle-IsBegun, begin_settle_begun, settle_room_begun, begin_settle-IsBegun,
  StaysSettled,
}

-- The room under `code` is one of which a settlement has begun.
abbrev HasBegun : Room → Text → Manager → Type 0
HasBegun b code m = (r : Room) × (lookup code m.rooms ≡ some r) × IsBegun b r

module _ (b : Room) (code : Text) where
  put_room-HasBegun :
      (m : Manager) (c : Text) (r r' : Room)
      → lookup c m.rooms ≡ some r
      → (IsBegun b r → IsBegun b r')
      → HasBegun b code m
      → HasBegun b code (put_room m c r')
  put_room-HasBegun m c r r' here keeps (q, found, h) = elim (Bool-cases (eq_text c code)) [
    | inl same ↦
        let known : q ≡ r = ground (arith, eq_text_iff c code) in
        (r', ground (arith, lookup-insert c code r' m.rooms), keeps (subst (IsBegun b) known h))
    | inr other ↦ (q, ground (arith, lookup-insert c code r' m.rooms), h)
  ]

  same-HasBegun :
      (m : Manager) (c : Text) (r r' : Room)
      → lookup c m.rooms ≡ some r
      → (r.state ≡ done → r' ≡ r)
      → HasBegun b code m
      → HasBegun b code (put_room m c r')
  same-HasBegun m c r r' here same =
      put_room-HasBegun m c r r' here (λ h. subst (IsBegun b) (sym (same h.over)) h)

  -- A write or a delete under another code.
  other-HasBegun :
      (m n : Manager)
      → lookup code n.rooms ≡ lookup code m.rooms
      → HasBegun b code m
      → HasBegun b code n
  other-HasBegun m n same (q, found, h) = (q, same ∙ found, h)

  dropped : (m : Manager) (c : Text) → c ≢ code → lookup code (drop m c).rooms ≡ lookup code m.rooms
  dropped m c other = ground (arith, lookup-delete c code m.rooms, eq_text_iff c code)

  create_rest_other :
      (s : Services) (reads : ℕ → List ℕ) (m : Manager) (c : Text) (r : Room) (id name : Text)
      (now : ℕ)
      → c ≢ code
      → lookup code (create_rest s reads m c r id name now).0.rooms ≡ lookup code m.rooms
  unfolding create_rest
  create_rest_other s reads m c r id name now other = elim (Option-cases r.stake) [
    | inl free ↦ rw (free, create_rest) (lookup-insert_ne c code _ m.rooms other)
    | inr (stake, staked) ↦ elim (Option-cases s.reader) [
      | inl gone ↦ rw (staked, create_rest) (rw (gone, create_rest) (dropped m c other))
      | inr (x, here) ↦ elim (Option-cases s.writer) [
        | inl gone ↦
            rw (staked, create_rest)
              (rw (here, create_rest) (rw (gone, create_rest) (dropped m c other)))
        | inr (w, there) ↦ elim (Result-cases (open_round x w reads stake now)) [
          | inr (e, f) ↦
              rw (staked, create_rest)
                (rw (here, create_rest)
                  (rw (there, create_rest) (rw (f, create_rest) (dropped m c other))))
          | inl (p, f) ↦
              rw (staked, create_rest)
                (rw (here, create_rest)
                  (rw (there, create_rest)
                    (rw (f, create_rest) (lookup-insert_ne c code _ m.rooms other))))
        ]
      ]
    ]
  ]

  create-HasBegun :
      ⦃u : UnicodeTables⦄ (eth : Addresses) (s : Services) (bufs : List (List ℕ))
      (reads : ℕ → List ℕ) (m : Manager) (id name : Text) (opts : CreateOpts) (now : ℕ)
      (out : Manager × Result RoomView)
      → create eth s bufs reads m id name opts now ≡ some out
      → HasBegun b code m
      → HasBegun b code out.0
  create-HasBegun eth s bufs reads m id name opts now (m', refuse e) h has =
      other-HasBegun m m' (create_refused eth s bufs reads m id name opts now m' e h code) has
  create-HasBegun eth s bufs reads m id name opts now (m', returns v) h has =
      let (free, new, others) = create_returned eth s bufs reads m id name opts now m' v h in
      other-HasBegun m m' (others code (λ e. cc (free, has.1, ap (λ t. lookup t m.rooms) e))) has

  opens-HasBegun :
      (s : Services) (reads : ℕ → List ℕ) (m : Manager) (c : Text) (r : Room) (id name : Text)
      (now : ℕ)
      → lookup c m.rooms ≡ some r
      → ¬ IsBegun b r
      → HasBegun b code m
      → HasBegun b code (create_rest s reads m c r id name now).0
  opens-HasBegun s reads m c r id name now here fresh (q, found, h) =
      let known : c ≡ code → q ≡ r = λ e. cc (here, found, ap (λ t. lookup t m.rooms) e) in
      other-HasBegun m (create_rest s reads m c r id name now).0
        (create_rest_other s reads m c r id name now (λ e. fresh (subst (IsBegun b) (known e) h)))
        (q, found, h)

  module _ ⦃u : UnicodeTables⦄ (on_chain : b.round_id ≢ none) (rng : Rng) where
    part-HasBegun : {m n : Manager} → CallPart rng m n → HasBegun b code m → HasBegun b code n
    part-HasBegun {m} (registers eth s bufs id opts c good got) has =
        let free = fresh_code-free m.rooms bufs c got in
        other-HasBegun m (put_room m c (new_room m c id opts))
          (lookup-insert_ne c code _ m.rooms
            (λ e. cc (free.0, has.1, ap (λ t. lookup t m.rooms) e)))
          has
    part-HasBegun {m} (opens s reads c r id name now stake here staked unopened) has =
        opens-HasBegun s reads m c r id name now here (λ h. on_chain (sym h.round_kept ∙ unopened))
          has
    part-HasBegun {m} (seats s reads c r id name now here free l absent seat) has =
        opens-HasBegun s reads m c r id name now here (λ h. cc (h.over, l)) has
    part-HasBegun {m} (begins_settling c r now here) has =
        put_room-HasBegun m c r _ here
          (λ h.
            subst (IsBegun b)
              (sym (
                ap (λ (q : Room × Option (Text × Option ℕ)). q.0)
                  (begin_settle_begun r now h.over h.begun)))
              h)
          has
    part-HasBegun {m} (ends_settling c r outcome here waits) has =
        put_room-HasBegun m c r _ here (end_settle-IsBegun b r outcome) has

    Call-HasBegun : {m n : Manager} → Call rng m n → HasBegun b code m → HasBegun b code n
    unfolding find_room get join start submit
    Call-HasBegun {m} (gets c viewer now) has = elim (Option-cases (lookup (to_upper c) m.rooms)) [
      | inl e ↦ rw (e, get) has
      | inr (r, e) ↦
          rw (e, get) (same-HasBegun m (to_upper c) r _ e (λ d. snapshot_over r d viewer now) has)
    ]
    Call-HasBegun {m} (joins eth s c id name now) has =
        elim (Option-cases (lookup (to_upper c) m.rooms)) [
          | inl e ↦ rw (e, join) has
          | inr (r, e) ↦
              rw (e, join)
                (same-HasBegun m (to_upper c) r _ e
                  (λ d. join_room_over r d eth s.reader id name now) has)
        ]
    Call-HasBegun {m} (starts g c id now) has = elim (Option-cases (lookup (to_upper c) m.rooms)) [
      | inl e ↦ rw (e, start) has
      | inr (r, e) ↦
          rw (e, start)
            (same-HasBegun m (to_upper c) r _ e (λ d. start_room_over r d rng g id now) has)
    ]
    Call-HasBegun {m} (submits c id word now) has =
        elim (Option-cases (lookup (to_upper c) m.rooms)) [
          | inl e ↦ rw (e, submit) has
          | inr (r, e) ↦
              rw (e, submit)
                (same-HasBegun m (to_upper c) r _ e (λ d. submit_room_over r d id word now) has)
        ]
    Call-HasBegun {m} (creates eth s bufs reads id name opts now out h) has =
        create-HasBegun eth s bufs reads m id name opts now out h has
    Call-HasBegun {m} (runs_part part) has = part-HasBegun part has
    Call-HasBegun {m} (settles eth reader signer writer c r now here) has =
        put_room-HasBegun m c r _ here
          (λ h.
            subst (IsBegun b)
              (sym (
                ap (λ (q : Room × Option Payment). q.0)
                  (settle_room_begun eth reader signer writer r now h.over h.begun)))
              h)
          has

    Served-HasBegun : {m n : Manager} → HasBegun b code m → Served rng m n → HasBegun b code n
    Served-HasBegun has idle = has
    Served-HasBegun has (then_call k c) = Call-HasBegun c (Served-HasBegun has k)

module _ ⦃u : UnicodeTables⦄ (rng : Rng) where
  -- When a settlement of a room whose round is on chain has begun, then, whatever calls come after
  -- it, the room stays settled under its code.
  pub Served-settles_once :
      (m n : Manager) (code : Text) (r : Room) (now : ℕ)
      → lookup code m.rooms ≡ some r
      → r.round_id ≢ none
      → (begin_settle r now).1 ≢ none
      → Served rng (put_room m code (begin_settle r now).0) n
      → (r' : Room) × (lookup code n.rooms ≡ some r') × StaysSettled r r'
  Served-settles_once m n code r now here on_chain begins calls =
      let began = begin_settle-IsBegun r now begins in
      let (r', found, h) =
        Served-HasBegun r code on_chain rng
          ((begin_settle r now).0, lookup-insert_self code (begin_settle r now).0 m.rooms, began)
          calls in
      (
        r',
        found,
        record {
          round_kept = h.round_kept;
          players_kept = h.players_kept;
          finds_nothing = λ later. begin_settle_begun r' later h.over h.begun;
          pays_nothing = λ eth reader signer writer later.
              settle_room_begun eth reader signer writer r' later h.over h.begun;
        },
      )
