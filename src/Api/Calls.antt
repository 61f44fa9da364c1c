-- ===== src/Api/Calls.antt =====
-- internal/api/api.go: a request of a room, as a call of the manager.
use wordbreak_backend.Base.{
  ℕ, ◌≡◌, refl, subst, ◌⊎◌, inl, inr, Option, none, some, List, arith, Bool-cases, Option-cases,
  ◌||◌,
}
use wordbreak_backend.Base.Text.{Text, UnicodeTables}
use wordbreak_backend.Game.{is_empty}
use wordbreak_backend.Room.{RoomView}
use wordbreak_backend.Room.Manager
use wordbreak_backend.Room.Manager.{Manager, CreateOpts, put_room}
use wordbreak_backend.Room.Registry.{Call, gets, joins, starts, submits, creates}
use wordbreak_backend.Api.{Platform, Server, Response}
use wordbreak_backend.Api.Rooms.{
  RoomCreateRequest, RoomJoinRequest, RoomStartRequest, RoomSubmitRequest, read_stake,
  handle_room_create, handle_room_join, handle_room_start, handle_room_submit, handle_room_get,
}

module _ (w : Platform) ⦃u : UnicodeTables⦄ where
  -- A request of a room: the days stay as they are, and the rooms by at most one call.
  pub record CallsRoom (s t : Server w) : Type 0 where
    pub store_same : t.store ≡ s.store
    pub words_same : (t.dict ≡ s.dict) × (t.grid_trie ≡ s.grid_trie)
    pub rooms_called : (t.rooms ≡ s.rooms) ⊎ Call w.rng s.rooms t.rooms

  no_call : (s : Server w) → CallsRoom s s
  no_call s = record { store_same = refl; words_same = (refl, refl); rooms_called = inl refl }

  called :
      (s : Server w) (m : Manager) → Call w.rng s.rooms m → CallsRoom s (record s { rooms = m })
  called s m c = record { store_same = refl; words_same = (refl, refl); rooms_called = inr c }

  pub room_join-CallsRoom :
      (s : Server w) (body : Option RoomJoinRequest) (now : ℕ)
      → CallsRoom s (handle_room_join w s body now).0
  unfolding handle_room_join
  room_join-CallsRoom s none now = no_call s
  room_join-CallsRoom s (some req) now =
      elim (Bool-cases (is_empty req.player_id || is_empty req.code)) [
        | inl empty ↦ rw (empty, handle_room_join) (no_call s)
        | inr full ↦
            rw (full, handle_room_join)
              (called s _ (joins w.eth s.room_services req.code req.player_id req.name now))
      ]

  pub room_start-CallsRoom :
      (g : w.rng.Source) (s : Server w) (body : Option RoomStartRequest) (now : ℕ)
      → CallsRoom s (handle_room_start w g s body now).0
  unfolding handle_room_start
  room_start-CallsRoom g s none now = no_call s
  room_start-CallsRoom g s (some req) now = called s _ (starts g req.code req.player_id now)

  pub room_submit-CallsRoom :
      (s : Server w) (body : Option RoomSubmitRequest) (now : ℕ)
      → CallsRoom s (handle_room_submit w s body now).0
  unfolding handle_room_submit
  room_submit-CallsRoom s none now = no_call s
  room_submit-CallsRoom s (some req) now = called s _ (submits req.code req.player_id req.word now)

  pub room_get-CallsRoom :
      (s : Server w) (code you : Text) (now : ℕ) → CallsRoom s (handle_room_get w s code you now).0
  unfolding handle_room_get
  room_get-CallsRoom s code you now = elim (Option-cases (Manager.get s.rooms code you now).1) [
    | inl gone ↦ rw (gone, handle_room_get) (called s _ (gets code you now))
    | inr (v, found) ↦ rw (found, handle_room_get) (called s _ (gets code you now))
  ]

  pub room_create-CallsRoom :
      (bufs : List (List ℕ)) (reads : ℕ → List ℕ) (s : Server w) (body : Option RoomCreateRequest)
      (now : ℕ) (out : Server w × Response RoomView)
      → handle_room_create w bufs reads s body now ≡ some out
      → CallsRoom s out.0
  unfolding handle_room_create
  room_create-CallsRoom bufs reads s none now out h =
      let same : s ≡ out.0 = ground arith in subst (CallsRoom s) same (no_call s)
  room_create-CallsRoom bufs reads s (some req) now out h =
      elim (Bool-cases (is_empty req.player_id)) [
        | inl empty ↦ let same : s ≡ out.0 = ground arith in subst (CallsRoom s) same (no_call s)
        | inr full ↦ elim (Option-cases (read_stake req.stake)) [
          | inl bad ↦ let same : s ≡ out.0 = ground arith in subst (CallsRoom s) same (no_call s)
          | inr (stake, read) ↦
              let opts : CreateOpts = record { public = req.public; stake = stake } in
              elim (Option-cases (
                Manager.create w.eth s.room_services bufs reads s.rooms req.player_id req.name opts
                  now)) [
                    | inl more ↦ absurd (ground arith)
                    | inr (made, e) ↦
                        let same : record s { rooms = made.0 } ≡ out.0 = ground arith in
                        subst (CallsRoom s) same (
                          called s made.0 (
                            creates w.eth s.room_services bufs reads req.player_id req.name opts now
                              made e))
                  ]
        ]
      ]
