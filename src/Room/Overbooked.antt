-- ===== src/Room/Overbooked.antt =====
-- internal/room/room.go, lines 154 to 218: `Create` lets go of the manager's lock before it seats
-- the host of a free room, and seats it without the test for a full room. The room is public or
-- not; `List` shows a public one as soon as it is registered.
use wordbreak_backend.Base.{
  ℕ, suc, ◌+◌, ◌≤◌, ◌≡◌, refl, inl, inr, Option, none, List, [], ◌∷◌, arith, length, length-append,
  In, Distinct, sym, ap, subst, ◌∙◌, Bool-cases, leb, true, false,
}
use wordbreak_backend.Base.Text.{Text, UnicodeTables, eq_text, eq_text_iff}
use wordbreak_backend.Base.Assoc.{
  Map, insert, lookup, lookup-insert, lookup-empty, length-insert_new,
}
use wordbreak_backend.Room.{
  Room, Player, lobby, max_players, add_player, snapshot, maybe_finish, is_lobby,
}
use wordbreak_backend.Room.Services.{Addresses, Reader, Services}
use wordbreak_backend.Room.Race.{join_room, stake_check}
use wordbreak_backend.Room.Manager.{
  Manager, CreateOpts, new_room, put_room, create_rest, positive_stake,
}
use wordbreak_backend.Room.Invariant.{IsValid}

-- A free room in the lobby, where none of `ids` sits.
record Awaits (ids : List Text) (r : Room) : Type 0 where
  pub waiting : r.state ≡ lobby
  pub free : r.stake ≡ none
  pub sized : length r.players ≡ length r.order
  pub absent : (id : Text) → In id ids → lookup id r.players ≡ none

lookup_other :
    (k j : Text) (v : Player) (m : Map Player)
    → eq_text k j ≡ false
    → lookup j m ≡ none
    → lookup j (insert k v m) ≡ none
lookup_other k j v m other gone = ground (arith, lookup-insert k j v m)

add_player-Awaits :
    (r : Room) (id name : Text) (ids : List Text)
    → Distinct (id ∷ ids)
    → Awaits (id ∷ ids) r
    → Awaits ids (add_player r id name)
unfolding add_player
add_player-Awaits r id name ids d a = record {
  waiting = a.waiting;
  free = a.free;
  sized = omega (
    arith,
    a.sized,
    length-append r.order (id ∷ []),
    length-insert_new id _ r.players (a.absent id (inl refl)),
  );
  absent = λ j m. elim (Bool-cases (eq_text id j)) [
    | inl same ↦ absurd (d.0 (subst (λ (k : Text). In k ids) (sym ((eq_text_iff id j).0 same)) m))
    | inr other ↦ lookup_other id j _ r.players other (a.absent j (inr m))
  ];
}

unopened_finish : (r : Room) (now : ℕ) → r.state ≡ lobby → maybe_finish r now ≡ r
unfolding maybe_finish
unopened_finish r now l = ground arith

module _ ⦃u : UnicodeTables⦄ (eth : Addresses) (reader : Option Reader) (now : ℕ) where
  join_free :
      (r : Room) (id name : Text) (ids : List Text)
      → Awaits (id ∷ ids) r
      → suc (length r.order) ≤ max_players
      → (join_room eth reader r id name now).0 ≡ add_player r id name
  unfolding join_room stake_check
  join_free r id name ids a room =
      let new = a.absent id (inl refl) in
      let checked : stake_check eth reader r id ≡ none = rw (a.free, stake_check) refl in
      let open_lobby : is_lobby r.state ≡ true = rw a.waiting refl in
      let seat : leb max_players (length r.players) ≡ false = ground (arith, a.sized) in
      rw (new, join_room)
        (rw (open_lobby, seat)
          (rw (checked, join_room)
            (unfold snapshot in
              unopened_finish (add_player r id name) now (unfold add_player in a.waiting))))

  -- The players join one after another, by the id as their name.
  abbrev pub join_all : Room → List Text → Room
  join_all r [] = r
  join_all r (id ∷ ids) = join_all (join_room eth reader r id id now).0 ids

  join_all-Awaits :
      (ids : List Text) (r : Room)
      → Distinct ids
      → length r.order + length ids ≤ max_players
      → Awaits ids r
      → Awaits [] (join_all r ids) × (length (join_all r ids).order ≡ length r.order + length ids)
  join_all-Awaits [] r d room a = (a, omega arith)
  join_all-Awaits (id ∷ ids) r d room a =
      let longer : length (add_player r id id).order ≡ suc (length r.order) =
        unfold add_player in omega (arith, length-append r.order (id ∷ [])) in
      let next =
        join_all-Awaits ids (add_player r id id) d.1 (omega (arith, longer))
          (add_player-Awaits r id id ids d a) in
      subst
        (λ (q : Room).
          Awaits [] (join_all q ids)
          × (length (join_all q ids).order ≡ length r.order + suc (length ids)))
        (sym (join_free r id id ids a (omega arith))) (next.0, omega (arith, next.1, longer))

  new_room-Awaits :
      (m : Manager) (code host : Text) (opts : CreateOpts) (ids : List Text)
      → positive_stake opts.stake ≡ none
      → Awaits ids (new_room m code host opts) × ((new_room m code host opts).order ≡ [])
  unfolding new_room
  new_room-Awaits m code host opts ids free = (
    record { waiting = refl; free = free; sized = refl; absent = λ j k. lookup-empty Player j },
    refl,
  )

  seat_host :
      (s : Services) (reads : ℕ → List ℕ) (m : Manager) (code : Text) (r : Room) (host name : Text)
      → Awaits [] r
      → (create_rest s reads m code r host name now).0 ≡ put_room m code (add_player r host name)
  unfolding create_rest
  seat_host s reads m code r host name a =
      let seated : (create_rest s reads m code r host name now).0
          ≡ put_room m code (snapshot (add_player r host name) host now).0 =
        ground (arith, a.free) in
      seated
      ∙ (unfold snapshot in
          ap (put_room m code)
            (unopened_finish (add_player r host name) now (unfold add_player in a.waiting)))

  -- If five players join a free room after `Create` has registered it and before it seats the
  -- host, `Create` leaves a room of six, which the bound of five players does not allow.
  pub create_overbooks :
      (s : Services) (reads : ℕ → List ℕ) (m : Manager) (code host name : Text) (opts : CreateOpts)
      (ids : List Text)
      → positive_stake opts.stake ≡ none
      → Distinct ids
      → length ids ≡ max_players
      → let r = join_all (new_room m code host opts) ids in
        (q : Room) × ((create_rest s reads (put_room m code r) code r host name now).0
          ≡ put_room (put_room m code r) code q)
        × (length q.order ≡ suc max_players)
        × (¬ IsValid q)
  create_overbooks s reads m code host name opts ids free d five =
      let (a, none_yet) = new_room-Awaits m code host opts ids free in
      let r = join_all (new_room m code host opts) ids in
      let (after, seats) =
        join_all-Awaits ids (new_room m code host opts) d (omega (arith, ap length none_yet)) a in
      let six : length (add_player r host name).order ≡ suc max_players =
        unfold add_player in
        omega (arith, seats, length-append r.order (host ∷ []), ap length none_yet) in
      (
        add_player r host name,
        seat_host s reads _ code r host name after,
        six,
        λ v. absurd (omega (arith, v.bounded)),
      )
