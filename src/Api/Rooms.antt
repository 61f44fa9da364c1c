-- ===== src/Api/Rooms.antt =====
-- internal/api/api.go: the handlers of the multiplayer rooms, over the manager of the rooms.
use wordbreak_backend.Base.{ℕ, Bool, ◌||◌, Option, none, some, List, ◌++◌, if◌then◌else◌}
use wordbreak_backend.Base.Int.{ℤ, pos}
use wordbreak_backend.Base.Decimal.{parse_int}
use wordbreak_backend.Base.Text.{Text, UnicodeTables, text, eq_text}
use wordbreak_backend.Game.{is_empty}
use wordbreak_backend.Room.{RoomView}
use wordbreak_backend.Room.Services.{
  Result, RoomError, returns, refuse, wallet_needed, staking_off, round_not_prepared,
  stake_not_opened, stake_unverified, room_not_found, race_started, room_full, connect_wallet,
  stake_first, not_host, already_started, not_running, not_in_room,
}
use wordbreak_backend.Room.Race.{Submitted}
use wordbreak_backend.Room.Manager
use wordbreak_backend.Room.Manager.{CreateOpts, list}
use wordbreak_backend.Api.{Platform, Server, Response, ok_json, error_json}
use wordbreak_backend.Api.Admin.{positive}

-- `Error` of each error of a room.
abbrev pub error_text : RoomError → Text
error_text wallet_needed = text "staked rooms need a connected wallet"
error_text staking_off = text "staking isn't available on this server right now"
error_text (round_not_prepared e) = text "could not prepare the on-chain round: " ++ e
error_text (stake_not_opened e) = text "could not open the stake on-chain: " ++ e
error_text (stake_unverified e) = text "could not verify your stake: " ++ e
error_text room_not_found = text "room not found"
error_text race_started = text "this race already started"
error_text room_full = text "room is full"
error_text connect_wallet = text "this room is staked — connect your wallet first"
error_text stake_first = text "stake first: approve and enter on-chain before joining"
error_text not_host = text "only the host can start"
error_text already_started = text "already started"
error_text not_running = text "race is not running"
error_text not_in_room = text "you're not in this room"

pub record RoomCreateRequest : Type 0 where
  pub player_id : Text
  pub name : Text
  pub public : Bool
  pub stake : Text

pub record RoomJoinRequest : Type 0 where
  pub code : Text
  pub player_id : Text
  pub name : Text

pub record RoomStartRequest : Type 0 where
  pub code : Text
  pub player_id : Text

pub record RoomSubmitRequest : Type 0 where
  pub code : Text
  pub player_id : Text
  pub word : Text

pub record WordReply : Type 0 where
  pub accepted : Bool
  pub points : ℕ
  pub room : Option RoomView

-- The stake of a request: `some none` for a free room, none for an amount that is refused.
unfoldable pub read_stake : Text → Option (Option ℤ)
read_stake stake =
    if is_empty stake || eq_text stake (text "0")
    then some none
    else elim (positive (parse_int stake)) [ none ↦ none | some n ↦ some (some (pos n)) ]

-- The reply to a call of the manager.
abbrev pub reply_of : Result RoomView → Response RoomView
reply_of (refuse e) = error_json 400 (error_text e)
reply_of (returns v) = ok_json v

abbrev pub submit_reply : Submitted → Response WordReply
submit_reply out = elim out.error [
  | some e ↦ error_json 400 (error_text e)
  | none ↦ ok_json (record { accepted = out.accepted; points = out.points; room = out.view })
]

module _ (w : Platform) where
  -- none where `Create` needs more random reads than `bufs` holds.
  unfoldable pub handle_room_create :
      List (List ℕ)
      → (ℕ → List ℕ)
      → Server w
      → Option RoomCreateRequest
      → ℕ
      → Option (Server w × Response RoomView)
  handle_room_create bufs reads s none now = some (s, error_json 400 (text "invalid JSON body"))
  handle_room_create bufs reads s (some req) now =
      if is_empty req.player_id
      then some (s, error_json 400 (text "playerId required"))
      else elim (read_stake req.stake) [
        | none ↦ some (s, error_json 400 (text "invalid stake amount"))
        | some stake ↦
            elim (Manager.create w.eth s.room_services bufs reads s.rooms req.player_id req.name
              (record { public = req.public; stake = stake }) now) [
                | none ↦ none
                | some (rooms, r) ↦ some (record s { rooms = rooms }, reply_of r)
              ]
      ]

  unfoldable pub handle_room_list : Server w → ℕ → Response (List RoomView)
  handle_room_list s now = ok_json (list s.rooms now)

  module _ ⦃u : UnicodeTables⦄ where
    unfoldable pub handle_room_join :
        Server w → Option RoomJoinRequest → ℕ → Server w × Response RoomView
    handle_room_join s none now = (s, error_json 400 (text "invalid JSON body"))
    handle_room_join s (some req) now =
        if is_empty req.player_id || is_empty req.code
        then (s, error_json 400 (text "code and playerId required"))
        else let (rooms, r) =
            Manager.join w.eth s.room_services s.rooms req.code req.player_id req.name now in
          (record s { rooms = rooms }, reply_of r)

    unfoldable pub handle_room_start :
        w.rng.Source → Server w → Option RoomStartRequest → ℕ → Server w × Response RoomView
    handle_room_start g s none now = (s, error_json 400 (text "invalid JSON body"))
    handle_room_start g s (some req) now =
        let (rooms, r) = Manager.start w.rng g s.rooms req.code req.player_id now in
        (record s { rooms = rooms }, reply_of r)

    unfoldable pub handle_room_submit :
        Server w → Option RoomSubmitRequest → ℕ → Server w × Response WordReply
    handle_room_submit s none now = (s, error_json 400 (text "invalid JSON body"))
    handle_room_submit s (some req) now =
        let (rooms, out) = Manager.submit s.rooms req.code req.player_id req.word now in
        (record s { rooms = rooms }, submit_reply out)

    -- `you` is the query's value, empty if it is missing.
    unfoldable pub handle_room_get : Server w → Text → Text → ℕ → Server w × Response RoomView
    handle_room_get s code you now =
        let (rooms, found) = Manager.get s.rooms code you now in
        elim found [
          | none ↦ (record s { rooms = rooms }, error_json 404 (text "room not found"))
          | some v ↦ (record s { rooms = rooms }, ok_json v)
        ]
