-- ===== src/Room/Creation.antt =====
-- What `Create` leaves behind, on success and on each error.
use wordbreak_backend.Base.{
  ℕ, ◌+◌, ◌/◌, ◌≡◌, refl, sym, ap, subst, ◌∙◌, inl, inr, ◌≢◌, none, some, List, [], ◌∷◌, arith,
  Option-cases, In,
}
use wordbreak_backend.Base.Text.{Text, UnicodeTables, to_upper, eq_text_iff}
use wordbreak_backend.Base.Assoc.{lookup, insert, lookup-insert, lookup-insert_self, lookup-delete}
use wordbreak_backend.Room.{
  Room, RoomView, lobby, add_player, snapshot, maybe_finish, second, stake_window,
}
use wordbreak_backend.Room.Services.{
  Addresses, Services, ok, Result, Result-cases, returns, refuse, RoomError,
}
use wordbreak_backend.Room.Manager.{
  Manager, CreateOpts, rand_code, fresh_code, new_room, put_room, drop, create_check, create_rest,
  create, open_round, positive_stake, find_room,
}
use wordbreak_backend.Room.Codes.{fresh_code-free, fresh_code_found, to_upper-rand_code}
use wordbreak_backend.Room.Opening.{IsOpened, open_round_opens}

lookup-put-drop :
    (m : Manager) (code : Text) (r : Room) (j : Text)
    → lookup code m.rooms ≡ none
    → lookup j (drop (put_room m code r) code).rooms ≡ lookup j m.rooms
lookup-put-drop m code r j free = ground (
  arith,
  lookup-delete code j (insert code r m.rooms),
  lookup-insert code j r m.rooms,
  eq_text_iff code j,
)

-- What `Create` has done when it registered its room: on an error the room is gone again.
create_rest_refused :
    (s : Services) (reads : ℕ → List ℕ) (m : Manager) (code : Text) (r : Room) (id name : Text)
    (now : ℕ) (e : RoomError)
    → (create_rest s reads m code r id name now).1 ≡ refuse e
    → (create_rest s reads m code r id name now).0 ≡ drop m code
unfolding create_rest
create_rest_refused s reads m code r id name now e h = ground arith

new_room_facts :
    (m : Manager) (code id : Text) (opts : CreateOpts)
    → ((new_room m code id opts).state ≡ lobby)
      × ((new_room m code id opts).order ≡ [])
      × ((new_room m code id opts).code ≡ code)
      × ((new_room m code id opts).host ≡ id)
      × ((new_room m code id opts).stake ≡ positive_stake opts.stake)
unfolding new_room
new_room_facts m code id opts = (refl, refl, refl, refl, refl)

-- The room that a successful `Create` leaves under its code.
pub record IsCreated (s : Services) (now : ℕ) (opts : CreateOpts) (id : Text) (r : Room)
    : Type 0 where
  pub in_lobby : r.state ≡ lobby
  pub hosted : r.host ≡ id
  pub staked : r.stake ≡ positive_stake opts.stake
  pub free_host : positive_stake opts.stake ≡ none → r.order ≡ id ∷ []
  pub staked_round :
      (stake : ℕ) → positive_stake opts.stake ≡ some stake → (r.order ≡ []) × IsOpened s now stake r

create_rest_returned :
    (s : Services) (reads : ℕ → List ℕ) (m : Manager) (code : Text) (r : Room) (id name : Text)
    (now : ℕ) (v : RoomView)
    → r.state ≡ lobby
    → r.order ≡ []
    → (create_rest s reads m code r id name now).1 ≡ returns v
    → (q : Room) × ((create_rest s reads m code r id name now).0 ≡ put_room m code q)
      × (v.code ≡ r.code)
      × (q.state ≡ lobby)
      × (q.host ≡ r.host)
      × (q.stake ≡ r.stake)
      × (r.stake ≡ none → q.order ≡ id ∷ [])
      × ((stake : ℕ) → r.stake ≡ some stake → (q.order ≡ []) × IsOpened s now stake q)
unfolding create_rest snapshot maybe_finish add_player
create_rest_returned s reads m code r id name now v l o h = elim (Option-cases r.stake) [
  | inl free ↦ (
    add_player r id name,
    ground arith,
    ground arith,
    ground arith,
    ground arith,
    ground arith,
    λ k. ground arith,
    λ n k. absurd (cc (free, k)),
  )
  | inr (stake, staked) ↦ elim (Option-cases s.reader) [
    | inl gone ↦ absurd (ground arith)
    | inr (c, here) ↦ elim (Option-cases s.writer) [
      | inl gone ↦ absurd (ground arith)
      | inr (w, there) ↦ elim (Result-cases (open_round c w reads stake now)) [
        | inr (e, f) ↦ absurd (ground arith)
        | inl (p, f) ↦ (
          record r { round_id = some p.0; stake_ends_at = p.1 },
          ground arith,
          ground arith,
          l,
          refl,
          refl,
          λ k. absurd (cc (staked, k)),
          λ n k. (
            o,
            let (was_free, opened, ends) = open_round_opens c w reads stake now p f in
                let same : stake ≡ n = ground (arith, staked, k) in
                record {
                  reader = c;
                  writer = w;
                  round = p.0;
                  reads_chain = here;
                  writes_chain = there;
                  was_free = was_free;
                  is_open =
                      subst
                        (λ (m : ℕ). w.create_round p.0 m ((now + stake_window) / second) ≡ ok tt)
                        same opened;
                  kept = refl;
                  kept_end = ends;
                },
          ),
        )
      ]
    ]
  ]
]

-- `Create` returns as soon as one of the random reads gives a code that no room has.
pub create_answers :
    (eth : Addresses) (s : Services) (bufs : List (List ℕ)) (reads : ℕ → List ℕ) (m : Manager)
    (id name : Text) (opts : CreateOpts) (now : ℕ) (buf : List ℕ)
    → In buf bufs
    → lookup (rand_code buf) m.rooms ≡ none
    → (out : Manager × Result RoomView) × (create eth s bufs reads m id name opts now ≡ some out)
unfolding create
create_answers eth s bufs reads m id name opts now buf here free =
    elim (Option-cases (create_check eth s id opts)) [
      | inr (x, bad) ↦ ((m, refuse x), ground (arith, bad))
      | inl good ↦
          let (code, found) = fresh_code_found m.rooms bufs buf here free in
          (
            create_rest s reads (put_room m code (new_room m code id opts)) code
                (new_room m code id opts) id name now,
            ground (arith, good, found),
          )
    ]

-- A `Create` that is refused leaves every room as it was.
pub create_refused :
    (eth : Addresses) (s : Services) (bufs : List (List ℕ)) (reads : ℕ → List ℕ) (m : Manager)
    (id name : Text) (opts : CreateOpts) (now : ℕ) (m' : Manager) (e : RoomError)
    → create eth s bufs reads m id name opts now ≡ some (m', refuse e)
    → (j : Text) → lookup j m'.rooms ≡ lookup j m.rooms
unfolding create
create_refused eth s bufs reads m id name opts now m' e h j =
    elim (Option-cases (create_check eth s id opts)) [
      | inr (x, bad) ↦ ground arith
      | inl good ↦ elim (Option-cases (fresh_code m.rooms bufs)) [
        | inl more ↦ absurd (ground arith)
        | inr (code, got) ↦
            let r = new_room m code id opts in
            let out : create_rest s reads (put_room m code r) code r id name now ≡ (m', refuse e) =
              ground arith in
            let gone =
              create_rest_refused s reads (put_room m code r) code r id name now e
                (ap (λ (q : Manager × Result RoomView). q.1) out) in
            ap (λ (q : Manager). lookup j q.rooms)
              (sym (ap (λ (q : Manager × Result RoomView). q.0) out) ∙ gone)
            ∙ lookup-put-drop m code r j (fresh_code-free m.rooms bufs code got).0
      ]
    ]

module _ ⦃u : UnicodeTables⦄ where
  -- A successful `Create` adds one room in the lobby, under a code that was free and that finds
  -- it, and touches no other room. The host is a player of a free room from the start. Of a staked
  -- room nobody is, and it has a round under a number that the contract did not know, which the
  -- contract has opened with the room's stake and the end of the stake window.
  pub create_returned :
      (eth : Addresses) (s : Services) (bufs : List (List ℕ)) (reads : ℕ → List ℕ) (m : Manager)
      (id name : Text) (opts : CreateOpts) (now : ℕ) (m' : Manager) (v : RoomView)
      → create eth s bufs reads m id name opts now ≡ some (m', returns v)
      → (lookup v.code m.rooms ≡ none)
        × ((r : Room) × (find_room m' v.code ≡ some r) × IsCreated s now opts id r)
        × ((j : Text) → j ≢ v.code → lookup j m'.rooms ≡ lookup j m.rooms)
  unfolding create find_room
  create_returned eth s bufs reads m id name opts now m' v h =
      elim (Option-cases (create_check eth s id opts)) [
        | inr (x, bad) ↦ absurd (ground arith)
        | inl good ↦ elim (Option-cases (fresh_code m.rooms bufs)) [
          | inl more ↦ absurd (ground arith)
          | inr (code, got) ↦
              let r = new_room m code id opts in
              let out : create_rest s reads (put_room m code r) code r id name now
                  ≡ (m', returns v) =
                ground arith in
              let (q, left, same, a, b, c, d, f) =
                create_rest_returned s reads (put_room m code r) code r id name now v
                  (new_room_facts m code id opts).0 (new_room_facts m code id opts).1
                  (ap (λ (x : Manager × Result RoomView). x.1) out) in
              let free = fresh_code-free m.rooms bufs code got in
              let known : v.code ≡ code = same ∙ (new_room_facts m code id opts).2 in
              let rooms : m'.rooms ≡ insert code q (insert code r m.rooms) =
                ap (λ (x : Manager). x.rooms)
                  (sym (ap (λ (x : Manager × Result RoomView). x.0) out) ∙ left) in
              (
                rw known free.0,
                (
                  q,
                  rw (known, rooms)
                      (subst (λ t. lookup t (insert code q (insert code r m.rooms)) ≡ some q)
                        (sym (
                          subst (λ t. to_upper t ≡ t) (sym free.1.1) (to_upper-rand_code free.1.0)))
                        (lookup-insert_self code q _)),
                  record {
                    in_lobby = a;
                    hosted = b ∙ (new_room_facts m code id opts).3;
                    staked = c ∙ (new_room_facts m code id opts).4;
                    free_host = λ k. d ((new_room_facts m code id opts).4 ∙ k);
                    staked_round = λ n k. f n ((new_room_facts m code id opts).4 ∙ k);
                  },
                ),
                λ j ne. rw rooms (
                    ground (
                      arith,
                      lookup-insert code j q (insert code r m.rooms),
                      lookup-insert code j r m.rooms,
                      eq_text_iff code j,
                    )),
              )
        ]
      ]
