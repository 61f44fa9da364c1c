-- ===== src/Api/Http/Dispatch.antt =====
-- internal/api/api.go, lines 85 to 107 and 643 to 654: the handler that a request goes to, and the
-- reply over HTTP.
use wordbreak_backend.Base.{ℕ, Option, none, some, List, [], ◌∷◌, if◌then◌else◌}
use mathlib.Core.Option
use wordbreak_backend.Base.Text.{Text, UnicodeTables, text, eq_text}
use wordbreak_backend.Base.Assoc.{lookup}
use wordbreak_backend.Room.Services.{Reader, Writer, Signer}
use wordbreak_backend.Room.Settle.{settle_room}
use wordbreak_backend.Room.Manager.{put_room}
use wordbreak_backend.Api.{Platform, Server, Response}
use wordbreak_backend.Api.Solo.{
  handle_health, handle_referee, handle_solo_rack, handle_solo_grid, handle_solo_score,
}
use wordbreak_backend.Api.Days.{handle_daily, handle_daily_submit, handle_leaderboard}
use wordbreak_backend.Api.Admin.{handle_open_daily, handle_create_pool, handle_list_pools}
use wordbreak_backend.Api.Sign.{handle_sign_settlement}
use wordbreak_backend.Api.Rooms.{
  handle_room_create, handle_room_join, handle_room_start, handle_room_submit, handle_room_get,
  handle_room_list,
}
use wordbreak_backend.Api.Http.{
  words_known, address, rack, board, score, day_view, day_result, standings, paid_round, pool,
  pools, signature, room, rooms, word, health, referee, solo_rack, solo_grid, solo_score, daily,
  daily_submit, leaderboard, open_daily, create_pool, list_pools, sign_settlement, room_create,
  room_join, room_start, room_submit, room_list, room_get, goes_to, no_route, HttpRequest, Json,
  Route, Shown, HttpReply, route, reply, plain, decode,
}

module _ (w : Platform) where
  -- What a request meets outside the server: the clock, a freshly seeded random source, the reads
  -- of the random bytes, the answers of the chain, and what has happened to the database.
  pub record Outside : Type 0 where
    pub now : ℕ
    pub source : w.rng.Source
    pub bufs : List (List ℕ)
    pub reads : ℕ → List ℕ
    pub reader : Reader
    pub writer : Writer
    pub database : w.persister.Db → w.persister.Db

  -- A request, or a settlement that the timer runs, under the answers of its time.
  pub data Event : Type 0 where
    request : Outside → HttpRequest → Event
    settlement : Reader → Writer → Signer → Text → ℕ → Event

  abbrev pub answer {ℓ} :
      {A : Type ℓ} → (A → Shown) → Server w × Response A → Option (Server w × HttpReply)
  answer f (s, r) = some (s, reply f r)

  module _ ⦃u : UnicodeTables⦄ (json : Json) where
    -- The handler of a route. none where `Create` needs more random reads than there are.
    unfoldable pub dispatch :
        Outside → Server w → HttpRequest → Route → Option (Server w × HttpReply)
    dispatch o s req health = some (s, reply words_known (handle_health w s))
    dispatch o s req referee = some (s, reply address (handle_referee w s))
    dispatch o s req solo_rack =
        some (s, reply rack (handle_solo_rack w o.source s (req.query (text "size"))))
    dispatch o s req solo_grid =
        some (s, reply board (handle_solo_grid w o.source s (req.query (text "size"))))
    dispatch o s req solo_score =
        some (s, reply score (handle_solo_score w s (decode json.solo_score req.body)))
    dispatch o s req daily = answer day_view (handle_daily w s o.now)
    dispatch o s req daily_submit =
        answer day_result (handle_daily_submit w s (decode json.daily_submit req.body) o.now)
    dispatch o s req leaderboard =
        answer standings (handle_leaderboard w s (req.query (text "date")) o.now)
    dispatch o s req open_daily = answer paid_round (
        handle_open_daily w s (req.header (text "X-Admin-Token")) (decode json.open_daily req.body)
          o.now)
    dispatch o s req create_pool = answer pool (
        handle_create_pool w o.reads s (req.header (text "X-Admin-Token"))
          (decode json.create_pool req.body) o.now)
    dispatch o s req list_pools =
        some (s, reply pools (handle_list_pools w s (req.header (text "X-Admin-Token"))))
    dispatch o s req sign_settlement = some (
      s,
      reply signature (
          handle_sign_settlement w s (req.header (text "X-Admin-Token"))
            (decode json.sign_settlement req.body)),
    )
    dispatch o s req room_create =
        Option.map (λ (s', r). (s', reply room r))
          (handle_room_create w o.bufs o.reads s (decode json.room_create req.body) o.now)
    dispatch o s req room_join =
        answer room (handle_room_join w s (decode json.room_join req.body) o.now)
    dispatch o s req room_start =
        answer room (handle_room_start w o.source s (decode json.room_start req.body) o.now)
    dispatch o s req room_submit =
        answer word (handle_room_submit w s (decode json.room_submit req.body) o.now)
    dispatch o s req room_list = some (s, reply rooms (handle_room_list w s o.now))
    dispatch o s req (room_get code) =
        answer room (handle_room_get w s code (req.query (text "you")) o.now)

    -- `Routes`: the mux behind `withCORS`.
    unfoldable pub serve : Outside → Server w → HttpRequest → Option (Server w × HttpReply)
    serve o s req =
        if eq_text req.method (text "OPTIONS")
        then some (s, plain 204)
        else elim (route req.method req.path) [
          | no_route status ↦ some (s, plain status)
          | goes_to r ↦ dispatch o s req r
        ]

    -- The server under the answers that the chain and the database give at the time of `o`.
    abbrev pub meet : Outside → Server w → Server w
    meet o s = record s {
      store = record s.store { persist = Option.map o.database s.store.persist };
      chain = Option.map (λ _. o.reader) s.chain;
      writer = Option.map (λ _. o.writer) s.writer;
      room_services = record s.room_services {
        reader = Option.map (λ _. o.reader) s.room_services.reader;
        writer = Option.map (λ _. o.writer) s.room_services.writer;
      };
    }

    -- `settleRoom` on the room of a code, if there is one.
    unfoldable pub settle_at : Reader → Writer → Signer → Server w → Text → ℕ → Server w
    settle_at reader writer signer s code now = elim (lookup code s.rooms.rooms) [
      | none ↦ s
      | some r ↦ record s {
        rooms = put_room s.rooms code (settle_room w.eth reader signer writer r now).0;
      }
    ]

    -- Requests, and settlements that the timer runs, one after another.
    unfoldable pub serve_all : Server w → List Event → Option (Server w)
    serve_all s [] = some s
    serve_all s (request o req ∷ events) = elim (serve o (meet o s) req) [
      | none ↦ none
      | some (s', _) ↦ serve_all s' events
    ]
    serve_all s (settlement reader writer signer code now ∷ events) =
        serve_all (settle_at reader writer signer s code now) events
