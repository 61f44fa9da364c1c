-- ===== src/Api/Http.antt =====
-- internal/api/api.go, lines 85 to 107 and 625 to 654: the routes, the decoding of bodies and the
-- wrapper for CORS. A request's path is given by its segments and its query by its values, as
-- `net/http` takes them apart; a reply shows the value that `writeJSON` encodes. Decoding JSON is a
-- parameter. That HEAD takes the routes of GET, and the replies 404 and 405 for a request without
-- a route, are those of `http.ServeMux`.
pub mod Routing
pub mod Patterns
pub mod Dispatch
pub mod Missing
pub mod Serving
pub mod Refused
use wordbreak_backend.Base.{
  ℕ, ◌^◌, Bool, true, false, not, ◌&&◌, ◌||◌, Option, none, some, List, [], ◌∷◌, if◌then◌else◌,
  take, ◌++◌,
}
use mathlib.Core.Option
use wordbreak_backend.Base.Text.{Text, UnicodeTables, text, eq_text}
use wordbreak_backend.Game
use wordbreak_backend.Game.{is_empty}
use wordbreak_backend.Store.{PaidRoundInfo}
use wordbreak_backend.Room.{RoomView}
use wordbreak_backend.Api.{Platform, Server, Response, ok_json, error_json}
use wordbreak_backend.Api.Solo.{
  SoloScoreRequest, SoloRack, SoloGrid, handle_health, handle_referee, handle_solo_rack,
  handle_solo_grid, handle_solo_score,
}
use wordbreak_backend.Api.Days.{
  DailyView, DailySubmitRequest, DailyResult, Standings, handle_daily, handle_daily_submit,
  handle_leaderboard,
}
use wordbreak_backend.Api.Admin.{
  OpenDailyRequest, CreatePoolRequest, PoolCreated, handle_open_daily, handle_create_pool,
  handle_list_pools,
}
use wordbreak_backend.Api.Sign.{SignRequest, Signature, handle_sign_settlement}
use wordbreak_backend.Api.Rooms.{
  RoomCreateRequest, RoomJoinRequest, RoomStartRequest, RoomSubmitRequest, WordReply,
  handle_room_create, handle_room_join, handle_room_start, handle_room_submit, handle_room_get,
  handle_room_list,
}

pub record HttpRequest : Type 0 where
  pub method : Text
  pub path : List Text
  pub query : Text → Text
  pub header : Text → Text
  pub body : List ℕ

-- `json.NewDecoder(...).Decode` into the struct of each handler; none for an error.
pub record Json : Type 0 where
  pub solo_score : List ℕ → Option SoloScoreRequest
  pub daily_submit : List ℕ → Option DailySubmitRequest
  pub open_daily : List ℕ → Option OpenDailyRequest
  pub create_pool : List ℕ → Option CreatePoolRequest
  pub sign_settlement : List ℕ → Option SignRequest
  pub room_create : List ℕ → Option RoomCreateRequest
  pub room_join : List ℕ → Option RoomJoinRequest
  pub room_start : List ℕ → Option RoomStartRequest
  pub room_submit : List ℕ → Option RoomSubmitRequest

-- The patterns of `Routes`; the last one has a code.
pub data Route : Type 0 where
  health : Route
  referee : Route
  solo_rack : Route
  solo_grid : Route
  solo_score : Route
  daily : Route
  daily_submit : Route
  leaderboard : Route
  open_daily : Route
  create_pool : Route
  list_pools : Route
  sign_settlement : Route
  room_create : Route
  room_join : Route
  room_start : Route
  room_submit : Route
  room_list : Route
  room_get : Text → Route

-- What a reply shows.
pub data Shown : Type 0 where
  nothing : Shown
  words_known : ℕ → Shown
  message : Text → Shown
  address : Text → Shown
  rack : SoloRack → Shown
  board : SoloGrid → Shown
  score : Game.Result → Shown
  day_view : DailyView → Shown
  day_result : DailyResult → Shown
  standings : Standings → Shown
  paid_round : PaidRoundInfo → Shown
  pool : PoolCreated → Shown
  pools : List PaidRoundInfo → Shown
  signature : Signature → Shown
  room : RoomView → Shown
  rooms : List RoomView → Shown
  word : WordReply → Shown

pub record HttpReply : Type 0 where
  pub status : ℕ
  pub headers : List (Text × Text)
  pub shown : Shown

abbrev pub get_routes : List (List Text × Route)
get_routes =
    (text "health" ∷ [], health)
    ∷ (text "api" ∷ text "referee" ∷ [], referee)
    ∷ (text "api" ∷ text "solo" ∷ text "rack" ∷ [], solo_rack)
    ∷ (text "api" ∷ text "solo" ∷ text "grid" ∷ [], solo_grid)
    ∷ (text "api" ∷ text "daily" ∷ [], daily)
    ∷ (text "api" ∷ text "daily" ∷ text "leaderboard" ∷ [], leaderboard)
    ∷ (text "api" ∷ text "admin" ∷ text "pool" ∷ text "list" ∷ [], list_pools)
    ∷ (text "api" ∷ text "room" ∷ text "list" ∷ [], room_list)
    ∷ []

abbrev pub post_routes : List (List Text × Route)
post_routes =
    (text "api" ∷ text "solo" ∷ text "score" ∷ [], solo_score)
    ∷ (text "api" ∷ text "daily" ∷ text "submit" ∷ [], daily_submit)
    ∷ (text "api" ∷ text "admin" ∷ text "daily" ∷ text "open" ∷ [], open_daily)
    ∷ (text "api" ∷ text "admin" ∷ text "pool" ∷ text "create" ∷ [], create_pool)
    ∷ (text "api" ∷ text "admin" ∷ text "sign-settlement" ∷ [], sign_settlement)
    ∷ (text "api" ∷ text "room" ∷ text "create" ∷ [], room_create)
    ∷ (text "api" ∷ text "room" ∷ text "join" ∷ [], room_join)
    ∷ (text "api" ∷ text "room" ∷ text "start" ∷ [], room_start)
    ∷ (text "api" ∷ text "room" ∷ text "submit" ∷ [], room_submit)
    ∷ []

unfoldable pub eq_path : List Text → List Text → Bool
eq_path [] [] = true
eq_path (a ∷ p) (b ∷ q) = eq_text a b && eq_path p q
eq_path [] (b ∷ q) = false
eq_path (a ∷ p) [] = false

unfoldable pub find_route : List Text → List (List Text × Route) → Option Route
unfolding eq_path
find_route path [] = none
find_route path ((p, r) ∷ table) =
    let rest = find_route path table in if eq_path path p then some r else rest

-- The pattern `/api/room/{code}`, whose last segment is not empty.
unfoldable pub room_code : List Text → Option Route
room_code (a ∷ b ∷ code ∷ []) =
    if eq_text a (text "api") && eq_text b (text "room") && not (is_empty code)
    then some (room_get code)
    else none
room_code _ = none

-- A pattern with a literal path goes before one with a wildcard.
unfoldable pub get_route : List Text → Option Route
unfolding find_route room_code
get_route path = elim (find_route path get_routes) [ some r ↦ some r | none ↦ room_code path ]

unfoldable pub post_route : List Text → Option Route
unfolding find_route
post_route path = find_route path post_routes

abbrev pub is_get : Text → Bool
is_get m = eq_text m (text "GET") || eq_text m (text "HEAD")

abbrev pub is_post : Text → Bool
is_post m = eq_text m (text "POST")

abbrev pub is_some {ℓ} : {A : Type ℓ} → Option A → Bool
is_some none = false
is_some (some a) = true

-- The route of a request, or the status of the mux's own reply.
pub data Routed : Type 0 where
  goes_to : Route → Routed
  no_route : ℕ → Routed

-- The reply where the method has no route of this path: another method may have one.
abbrev pub missing : List Text → Routed
missing path =
    if is_some (get_route path) || is_some (post_route path) then no_route 405 else no_route 404

abbrev pub or_missing : List Text → Option Route → Routed
or_missing path none = missing path
or_missing path (some r) = goes_to r

unfoldable pub route : Text → List Text → Routed
unfolding get_route post_route
route m path =
    if is_get m
    then or_missing path (get_route path)
    else if is_post m
    then or_missing path (post_route path)
    else missing path

abbrev pub cors_headers : List (Text × Text)
cors_headers =
    (text "Access-Control-Allow-Origin", text "*")
    ∷ (text "Access-Control-Allow-Methods", text "GET, POST, OPTIONS")
    ∷ (text "Access-Control-Allow-Headers", text "Content-Type, X-Admin-Token")
    ∷ []

-- `writeJSON`, behind the headers of CORS.
unfoldable pub write_json : ℕ → Shown → HttpReply
write_json status shown = record {
  status = status;
  headers = cors_headers ++ (text "Content-Type", text "application/json") ∷ [];
  shown = shown;
}

-- The reply of a handler: `writeJSON` with status 200, or `writeErr`.
unfoldable pub reply {ℓ} : {A : Type ℓ} → (A → Shown) → Response A → HttpReply
reply f (ok_json a) = write_json 200 (f a)
reply f (error_json status e) = write_json status (message e)

-- A reply without a JSON body.
abbrev pub plain : ℕ → HttpReply
plain status = record { status = status; headers = cors_headers; shown = nothing }

-- `decode`: the decoder reads at most 2^20 bytes, and a value that they cut off is an error.
unfoldable pub decode {ℓ} : {A : Type ℓ} → (List ℕ → Option A) → List ℕ → Option A
decode read body = read (take (2 ^ 20) body)
