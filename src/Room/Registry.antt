-- ===== src/Room/Registry.antt =====
-- All rooms of a manager: every call, and every settlement, keeps each of them valid.
use wordbreak_backend.Base.{
  ℕ, ◌<◌, ◌≡◌, refl, subst, inl, inr, Option, none, some, List, [], length, arith, Option-cases,
}
use wordbreak_backend.Base.Text.{Text, UnicodeTables}
use wordbreak_backend.Base.Assoc.{lookup, lookup-empty}
use wordbreak_backend.Dictionary.{Dictionary}
use wordbreak_backend.Rack.{Rng}
use wordbreak_backend.Room.{Room, RoomView, Player, lobby, max_players, pending}
use wordbreak_backend.Room.Services.{
  Addresses, Reply, Services, Reader, Writer, Signer, Result, Result-cases, refuse,
}
use wordbreak_backend.Room.Invariant.{IsValid, add_player-IsValid, snapshot-IsValid}
use wordbreak_backend.Room.Moves.{settle_room-IsValid, begin_settle-IsValid, end_settle-IsValid}
use wordbreak_backend.Room.Settle.{settle_room, begin_settle, end_settle}
use wordbreak_backend.Room.Manager.{
  Manager, CreateOpts, new_manager, put_room, get, join, start, submit, create, create_check,
  create_rest, fresh_code, new_room, open_round,
}
use wordbreak_backend.Room.Kept.{
  AllValid, put_room-AllValid, get-AllValid, join-AllValid, start-AllValid, submit-AllValid,
  new_room-IsValid, opened-IsValid, drop-AllValid,
}

module _ ⦃u : UnicodeTables⦄ where
  -- The end of `Create` for a staked room, whatever was done to the room since it was registered.
  staked_rest-AllValid :
      (s : Services) (reads : ℕ → List ℕ) (m : Manager) (code : Text) (r : Room) (id name : Text)
      (now stake : ℕ)
      → r.stake ≡ some stake
      → IsValid r
      → AllValid m
      → AllValid (create_rest s reads m code r id name now).0
  unfolding create_rest
  staked_rest-AllValid s reads m code r id name now stake staked v all =
      elim (Option-cases s.reader) [
        | inl gone ↦ rw (staked, create_rest) (rw (gone, create_rest) (drop-AllValid m code all))
        | inr (c, here) ↦ elim (Option-cases s.writer) [
          | inl gone ↦
              rw (staked, create_rest)
                (rw (here, create_rest) (rw (gone, create_rest) (drop-AllValid m code all)))
          | inr (w, there) ↦ elim (Result-cases (open_round c w reads stake now)) [
            | inr (e, f) ↦
                rw (staked, create_rest)
                  (rw (here, create_rest)
                    (rw (there, create_rest) (rw (f, create_rest) (drop-AllValid m code all))))
            | inl (p, f) ↦
                rw (staked, create_rest)
                  (rw (here, create_rest)
                    (rw (there, create_rest)
                      (rw (f, create_rest)
                        (put_room-AllValid m code _
                          (snapshot-IsValid _ id now (opened-IsValid r (some p.0) p.1 v)) all))))
          ]
        ]
      ]

  -- The end of `Create` for a free room in the lobby that has a seat left for its host.
  free_rest-AllValid :
      (s : Services) (reads : ℕ → List ℕ) (m : Manager) (code : Text) (r : Room) (id name : Text)
      (now : ℕ)
      → r.stake ≡ none
      → r.state ≡ lobby
      → lookup id r.players ≡ none
      → length r.players < max_players
      → IsValid r
      → AllValid m
      → AllValid (create_rest s reads m code r id name now).0
  unfolding create_rest
  free_rest-AllValid s reads m code r id name now free l absent seat v all =
      rw (free, create_rest)
        (put_room-AllValid m code _
          (snapshot-IsValid _ id now (add_player-IsValid r id name l absent seat v)) all)

  create_rest-AllValid :
      (s : Services) (reads : ℕ → List ℕ) (m : Manager) (code : Text) (r : Room) (id name : Text)
      (now : ℕ)
      → r.state ≡ lobby
      → r.players ≡ []
      → IsValid r
      → AllValid m
      → AllValid (create_rest s reads m code r id name now).0
  create_rest-AllValid s reads m code r id name now l empty v all = elim (Option-cases r.stake) [
    | inl free ↦
        free_rest-AllValid s reads m code r id name now free l (rw empty (lookup-empty Player id))
          (rw empty (omega arith)) v all
    | inr (stake, staked) ↦ staked_rest-AllValid s reads m code r id name now stake staked v all
  ]

  create-AllValid :
      (eth : Addresses) (s : Services) (bufs : List (List ℕ)) (reads : ℕ → List ℕ) (m : Manager)
      (id name : Text) (opts : CreateOpts) (now : ℕ) (out : Manager × Result RoomView)
      → create eth s bufs reads m id name opts now ≡ some out
      → AllValid m
      → AllValid out.0
  unfolding create
  create-AllValid eth s bufs reads m id name opts now out h all =
      elim (Option-cases (create_check eth s id opts)) [
        | inr (x, bad) ↦
            let same : (m, refuse x) ≡ out = ground arith in
            subst (λ (q : Manager × Result RoomView). AllValid q.0) same all
        | inl good ↦ elim (Option-cases (fresh_code m.rooms bufs)) [
          | inl more ↦ absurd (ground arith)
          | inr (code, got) ↦
              let r = new_room m code id opts in
              let same : create_rest s reads (put_room m code r) code r id name now ≡ out =
                ground arith in
              subst (λ (q : Manager × Result RoomView). AllValid q.0) same
                (create_rest-AllValid s reads (put_room m code r) code r id name now
                  (unfold new_room in refl) (unfold new_room in refl)
                  (new_room-IsValid m code id opts)
                  (put_room-AllValid m code r (new_room-IsValid m code id opts) all))
        ]
      ]

  module _ (rng : Rng) where
    -- The parts that other calls may come between, first those of `Create`: a room is registered;
    -- the round of a staked one that has none yet is opened, or the room is dropped; the host of a
    -- free one is seated, where it is still in the lobby with a seat left and the host has not
    -- joined already. Likewise the parts of a settlement: it begins, and ends for a room whose
    -- settlement is pending, with whatever outcome the payment has. The room is what the calls
    -- before have made of it.
    pub data CallPart (m : Manager) : Manager → Type 0 where
      registers :
          (eth : Addresses) (s : Services) (bufs : List (List ℕ)) (id : Text) (opts : CreateOpts)
          (code : Text)
          → create_check eth s id opts ≡ none
          → fresh_code m.rooms bufs ≡ some code
          → CallPart m (put_room m code (new_room m code id opts))
      opens :
          (s : Services) (reads : ℕ → List ℕ) (code : Text) (r : Room) (id name : Text)
          (now stake : ℕ)
          → lookup code m.rooms ≡ some r
          → r.stake ≡ some stake
          → r.round_id ≡ none
          → CallPart m (create_rest s reads m code r id name now).0
      seats :
          (s : Services) (reads : ℕ → List ℕ) (code : Text) (r : Room) (id name : Text) (now : ℕ)
          → lookup code m.rooms ≡ some r
          → r.stake ≡ none
          → r.state ≡ lobby
          → lookup id r.players ≡ none
          → length r.players < max_players
          → CallPart m (create_rest s reads m code r id name now).0
      begins_settling :
          (code : Text) (r : Room) (now : ℕ)
          → lookup code m.rooms ≡ some r
          → CallPart m (put_room m code (begin_settle r now).0)
      ends_settling :
          (code : Text) (r : Room) (outcome : Reply (Unit {0}))
          → lookup code m.rooms ≡ some r
          → r.settle_status ≡ pending
          → CallPart m (put_room m code (end_settle r outcome))

    -- The calls of the HTTP layer, and the settlements that the timer runs.
    pub data Call (m : Manager) : Manager → Type 0 where
      gets : (code viewer : Text) (now : ℕ) → Call m (get m code viewer now).0
      joins :
          (eth : Addresses) (s : Services) (code id name : Text) (now : ℕ)
          → Call m (join eth s m code id name now).0
      starts : (g : rng.Source) (code id : Text) (now : ℕ) → Call m (start rng g m code id now).0
      submits : (code id word : Text) (now : ℕ) → Call m (submit m code id word now).0
      creates :
          (eth : Addresses) (s : Services) (bufs : List (List ℕ)) (reads : ℕ → List ℕ)
          (id name : Text) (opts : CreateOpts) (now : ℕ) (out : Manager × Result RoomView)
          → create eth s bufs reads m id name opts now ≡ some out
          → Call m out.0
      runs_part : {n : Manager} → CallPart m n → Call m n
      settles :
          (eth : Addresses) (reader : Reader) (signer : Signer) (writer : Writer) (code : Text)
          (r : Room) (now : ℕ)
          → lookup code m.rooms ≡ some r
          → Call m (put_room m code (settle_room eth reader signer writer r now).0)

    pub data Served (m : Manager) : Manager → Type 0 where
      idle : Served m m
      then_call : {n k : Manager} → Served m n → Call n k → Served m k

    part-AllValid : {m n : Manager} → CallPart m n → AllValid m → AllValid n
    part-AllValid {m} (registers eth s bufs id opts code good got) all =
        put_room-AllValid m code _ (new_room-IsValid m code id opts) all
    part-AllValid {m} (opens s reads code r id name now stake here staked unopened) all =
        staked_rest-AllValid s reads m code r id name now stake staked (all code r here) all
    part-AllValid {m} (seats s reads code r id name now here free l absent seat) all =
        free_rest-AllValid s reads m code r id name now free l absent seat (all code r here) all
    part-AllValid {m} (begins_settling code r now here) all =
        put_room-AllValid m code _ (begin_settle-IsValid r now (all code r here)) all
    part-AllValid {m} (ends_settling code r outcome here waits) all =
        let v = all code r here in
        put_room-AllValid m code _
          (end_settle-IsValid r outcome (v.settled_done (λ e. absurd (cc (waits, e)))) v) all

    pub Call-AllValid : {m n : Manager} → Call m n → AllValid m → AllValid n
    Call-AllValid {m} (gets code viewer now) all = get-AllValid m code viewer now all
    Call-AllValid {m} (joins eth s code id name now) all =
        join-AllValid eth s m code id name now all
    Call-AllValid {m} (starts g code id now) all = start-AllValid rng g m code id now all
    Call-AllValid {m} (submits code id word now) all = submit-AllValid m code id word now all
    Call-AllValid {m} (creates eth s bufs reads id name opts now out h) all =
        create-AllValid eth s bufs reads m id name opts now out h all
    Call-AllValid {m} (runs_part part) all = part-AllValid part all
    Call-AllValid {m} (settles eth reader signer writer code r now h) all =
        put_room-AllValid m code _
          (settle_room-IsValid eth reader signer writer r now (all code r h)) all

    -- From a new manager, whatever calls come in, in any order, every room it holds is valid.
    pub Served-AllValid :
        (d : Dictionary) (env : Option ℕ) (m : Manager) → Served (new_manager d env) m → AllValid m
    Served-AllValid d env m idle =
        λ code r e. absurd (unfold new_manager in cc (lookup-empty Room code, e))
    Served-AllValid d env m (then_call k c) = Call-AllValid c (Served-AllValid d env _ k)
