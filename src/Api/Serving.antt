-- ===== src/Api/Serving.antt =====
-- internal/api/api.go: the server over a sequence of requests, with the settlements that the timer
-- runs between them. A request that calls the chain may be one step, or its parts may be steps of
-- their own, with others between them: a room is registered and later opened, a submission is
-- scored after its gate, the days of a pool are registered after its round is open, and a
-- settlement begins and ends.
use wordbreak_backend.Base.{ℕ, ◌≡◌, refl, ◌∙◌, ◌⊎◌, inl, inr, Option, some, List}
use wordbreak_backend.Base.Text.{Text, UnicodeTables}
use wordbreak_backend.Base.Assoc.{lookup}
use wordbreak_backend.Store.{Daily}
use wordbreak_backend.Store.Keyed.{AllKeyed}
use wordbreak_backend.Store.Steady.{Keeps, Keeps-refl, Keeps-trans}
use wordbreak_backend.Room.{Room, RoomView}
use wordbreak_backend.Room.Services.{Reader, Writer, Signer, Services}
use wordbreak_backend.Room.Settle.{settle_room}
use wordbreak_backend.Room.Manager.{Manager, put_room, new_manager}
use wordbreak_backend.Dictionary.{Dictionary}
use wordbreak_backend.Room.Registry.{
  Call-AllValid, settles, idle, Served-AllValid, CallPart, runs_part,
}
use wordbreak_backend.Room.Kept.{AllValid}
use wordbreak_backend.Api.{Platform, Server, Response}
use wordbreak_backend.Api.Days.{
  DailySubmitRequest, handle_daily, handle_daily_submit, handle_leaderboard, score_day,
}
use wordbreak_backend.Api.Rooms.{
  RoomCreateRequest, RoomJoinRequest, RoomStartRequest, RoomSubmitRequest, handle_room_create,
  handle_room_join, handle_room_start, handle_room_submit, handle_room_get,
}
use wordbreak_backend.Api.Admin.{
  OpenDailyRequest, CreatePoolRequest, handle_open_daily, handle_create_pool, register_pool,
}
use wordbreak_backend.Api.Steady.{
  KeepsDays, daily-KeepsDays, leaderboard-KeepsDays, daily_submit-KeepsDays, open_daily-KeepsDays,
  creates_pool-KeepsDays, score_day-KeepsDays, register_pool-KeepsDays,
}
use wordbreak_backend.Api.Calls.{
  CallsRoom, room_join-CallsRoom, room_start-CallsRoom, room_submit-CallsRoom, room_get-CallsRoom,
  room_create-CallsRoom,
}

module _ (w : Platform) ⦃u : UnicodeTables⦄ where
  -- The requests that may change the server, and the settlements of the timer.
  pub data Request (s : Server w) : Server w → Type 0 where
    daily : (now : ℕ) → Request s (handle_daily w s now).0
    daily_submit :
        (body : Option DailySubmitRequest) (now : ℕ)
        → Request s (handle_daily_submit w s body now).0
    leaderboard : (date : Text) (now : ℕ) → Request s (handle_leaderboard w s date now).0
    open_daily :
        (token : Text) (body : Option OpenDailyRequest) (now : ℕ)
        → Request s (handle_open_daily w s token body now).0
    creates_pool :
        (reads : ℕ → List ℕ) (token : Text) (body : Option CreatePoolRequest) (now : ℕ)
        → Request s (handle_create_pool w reads s token body now).0
    room_create :
        (bufs : List (List ℕ)) (reads : ℕ → List ℕ) (body : Option RoomCreateRequest) (now : ℕ)
        (out : Server w × Response RoomView)
        → handle_room_create w bufs reads s body now ≡ some out
        → Request s out.0
    room_join :
        (body : Option RoomJoinRequest) (now : ℕ) → Request s (handle_room_join w s body now).0
    room_start :
        (g : w.rng.Source) (body : Option RoomStartRequest) (now : ℕ)
        → Request s (handle_room_start w g s body now).0
    room_submit :
        (body : Option RoomSubmitRequest) (now : ℕ) → Request s (handle_room_submit w s body now).0
    room_get : (code you : Text) (now : ℕ) → Request s (handle_room_get w s code you now).0
    -- The parts of a request or a settlement that the calls to the chain lie between.
    room_part : (m : Manager) → CallPart w.rng s.rooms m → Request s (record s { rooms = m })
    submit_part :
        (date_key : Text) (d : Daily) (req : DailySubmitRequest) (now : ℕ)
        → lookup date_key s.store.dailies ≡ some d
        → Request s (score_day w s (s.store, d) date_key req now).0
    pool_part : (id fee days now : ℕ) → Request s (register_pool w s id fee days now).0
    -- The chain, the database and the services answer otherwise from now on.
    outside_changes :
        (persist : Option w.persister.Db) (chain : Option Reader) (writer : Option Writer)
        (services : Services)
        → Request s (record s {
          store = record s.store { persist = persist };
          chain = chain;
          writer = writer;
          room_services = services;
        })
    settlement :
        (reader : Reader) (signer : Signer) (writer : Writer) (code : Text) (r : Room) (now : ℕ)
        → lookup code s.rooms.rooms ≡ some r
        → Request s (record s {
          rooms = put_room s.rooms code (settle_room w.eth reader signer writer r now).0;
        })

  -- Any number of them, one after another.
  pub data Serves (s : Server w) : Server w → Type 0 where
    nothing : Serves s s
    then_request : {t v : Server w} → Serves s t → Request t v → Serves s v

  pub Serves-trans : (s t v : Server w) → Serves s t → Serves t v → Serves s v
  Serves-trans s t v k nothing = k
  Serves-trans s t v k (then_request {t = mid} l q) = then_request (Serves-trans s t mid k l) q

  -- A request is one of the days, or one of the rooms.
  pub request_cases : {s t : Server w} → Request s t → KeepsDays w s t ⊎ CallsRoom w s t
  request_cases {s} (daily now) = inl (daily-KeepsDays w s now)
  request_cases {s} (daily_submit body now) = inl (daily_submit-KeepsDays w s body now)
  request_cases {s} (leaderboard date now) = inl (leaderboard-KeepsDays w s date now)
  request_cases {s} (open_daily token body now) = inl (open_daily-KeepsDays w s token body now)
  request_cases {s} (creates_pool reads token body now) =
      inl (creates_pool-KeepsDays w reads s token body now)
  request_cases {s} (room_create bufs reads body now out h) =
      inr (room_create-CallsRoom w bufs reads s body now out h)
  request_cases {s} (room_join body now) = inr (room_join-CallsRoom w s body now)
  request_cases {s} (room_start g body now) = inr (room_start-CallsRoom w g s body now)
  request_cases {s} (room_submit body now) = inr (room_submit-CallsRoom w s body now)
  request_cases {s} (room_get code you now) = inr (room_get-CallsRoom w s code you now)
  request_cases {s} (room_part m part) =
      inr (record {
        store_same = refl;
        words_same = (refl, refl);
        rooms_called = inr (runs_part part);
      })
  request_cases {s} (submit_part date_key d req now h) = inl (
      score_day-KeepsDays w s s.store d date_key req now (Keeps-refl s.store.dailies) (λ all. all)
        h)
  request_cases {s} (pool_part id fee days now) = inl (register_pool-KeepsDays w s id fee days now)
  request_cases {s} (outside_changes persist chain writer services) = inl (record {
    rooms_same = refl;
    words_same = (refl, refl);
    rounds_kept = Keeps-refl s.store.dailies;
    keys_kept = λ all. all;
  })
  request_cases {s} (settlement reader signer writer code r now h) = inr (record {
    store_same = refl;
    words_same = (refl, refl);
    rooms_called = inr (settles w.eth reader signer writer code r now h);
  })

  request-Keeps :
      {s t : Server w}
      → Request s t
      → Keeps s.store.dailies t.store.dailies
        × (AllKeyed s.store.dailies → AllKeyed t.store.dailies)
        × (AllValid s.rooms → AllValid t.rooms)
  request-Keeps {s} {t} q = elim (request_cases q) [
    | inl k ↦ (k.rounds_kept, k.keys_kept, λ all. rw k.rooms_same all)
    | inr c ↦ (
      rw c.store_same (Keeps-refl s.store.dailies),
      λ all. rw c.store_same all,
      λ all. elim c.rooms_called [
        | inl same ↦ rw same all
        | inr call ↦ Call-AllValid w.rng call all
      ],
    )
  ]

  -- Whatever requests come in, in whatever order, also between the parts of one that calls the
  -- chain, and whatever the chain and the database answer: every daily round that the server holds
  -- keeps its rack, a paid one stays paid, and every player's result in it is kept or gives way to
  -- one that is as good.
  pub Serves-Keeps : (s t : Server w) → Serves s t → Keeps s.store.dailies t.store.dailies
  Serves-Keeps s t nothing = Keeps-refl s.store.dailies
  Serves-Keeps s v (then_request {t} k q) =
      Keeps-trans s.store.dailies t.store.dailies v.store.dailies (Serves-Keeps s t k)
        (request-Keeps q).0

  request_words : {s t : Server w} → Request s t → (t.dict ≡ s.dict) × (t.grid_trie ≡ s.grid_trie)
  request_words q = elim (request_cases q) [ inl k ↦ k.words_same | inr c ↦ c.words_same ]

  -- No request changes the words that the server knows.
  pub Serves-words : (s t : Server w) → Serves s t → (t.dict ≡ s.dict) × (t.grid_trie ≡ s.grid_trie)
  Serves-words s t nothing = (refl, refl)
  Serves-words s v (then_request {t} k q) =
      let (dict, trie) = Serves-words s t k in
      let (dict', trie') = request_words q in (dict' ∙ dict, trie' ∙ trie)

  -- Whatever requests come in, every daily round stays under its own date, and every result under
  -- the lower case of its own address.
  pub Serves-AllKeyed :
      (s t : Server w) → Serves s t → AllKeyed s.store.dailies → AllKeyed t.store.dailies
  Serves-AllKeyed s t nothing all = all
  Serves-AllKeyed s v (then_request {t} k q) all = (request-Keeps q).1 (Serves-AllKeyed s t k all)

  Serves-AllValid' : (s t : Server w) → Serves s t → AllValid s.rooms → AllValid t.rooms
  Serves-AllValid' s t nothing all = all
  Serves-AllValid' s v (then_request {t} k q) all = (request-Keeps q).2 (Serves-AllValid' s t k all)

  -- From a server with a new manager, whatever requests come in, in whatever order, also between
  -- the parts of one that calls the chain, whatever the chain answers and whatever settlements run
  -- between them or between whose parts they come, every room is valid. Where other requests come
  -- between the registration of a free room and the seating of its host, they have left the room in
  -- the lobby with a seat for it, and the host has not joined it.
  pub Serves-AllValid :
      (s t : Server w) (d : Dictionary) (race_seconds : Option ℕ)
      → s.rooms ≡ new_manager d race_seconds
      → Serves s t
      → AllValid t.rooms
  Serves-AllValid s t d race_seconds fresh k =
      Serves-AllValid' s t k (rw fresh (Served-AllValid w.rng d race_seconds _ idle))
