-- ===== src/Room.antt =====
-- internal/room/room.go, lines 44 to 75, 116 to 144 and 467 to 592: a room, its players, their
-- ranking and the snapshot that every call returns. Times are nanoseconds since the epoch, and
-- one call reads the clock once. Scores are Go `int`s far from their bound.
pub mod Services
pub mod Race
pub mod Settle
pub mod Manager
pub mod Ranking
pub mod Submission
pub mod Invariant
pub mod Moves
pub mod Kept
pub mod Codes
pub mod Opening
pub mod Settlement
pub mod Payment
pub mod Entry
pub mod Creation
pub mod Answers
pub mod Overbooked
pub mod Over
pub mod Begun
pub mod Lifecycle
pub mod Listing
pub mod Registry
pub mod Paid
use wordbreak_backend.Base.{
  ℕ, zero, suc, ◌+◌, ◌-◌, ◌*◌, ◌/◌, Bool, true, false, not, ◌&&◌, Option, none, some, List, [], ◌∷◌,
  ◌++◌, map, ltb, leb, ◌==◌, if◌then◌else◌, length, take, drop,
}
use wordbreak_backend.Base.Int.{ℤ, sub_ℕ}
use wordbreak_backend.Base.Text.{Text, text, eq_text, bytes}
use wordbreak_backend.Base.Assoc.{Map, lookup, insert}
use wordbreak_backend.Base.Sort.{sort}
use wordbreak_backend.Dictionary.{Dictionary}

abbrev pub max_players : ℕ
max_players = 5

abbrev pub rack_size : ℕ
rack_size = 6

abbrev pub code_len : ℕ
code_len = 4

abbrev pub second : ℕ
second = 1000000000

abbrev pub stake_window : ℕ
stake_window = 180 * second

abbrev pub bps_denominator : ℕ
bps_denominator = 10000

-- A name is kept as bytes: `shortID` cuts it at byte positions.
pub record Player : Type 0 where
  pub id : Text
  pub name : List ℕ
  pub score : ℕ
  pub words : ℕ
  pub found : List Text

pub data State : Type 0 where
  lobby racing done : State

pub data SettleStatus : Type 0 where
  unsettled pending settled failed : SettleStatus

-- `stake` is none for a free room; `round_id` is none until the round is open on chain.
pub record Room : Type 0 where
  pub code : Text
  pub host : Text
  pub public : Bool
  pub state : State
  pub letters : Text
  pub ends_at : ℕ
  pub players : Map Player
  pub order : List Text
  pub dict : Dictionary
  pub race_seconds : ℕ
  pub stake : Option ℕ
  pub round_id : Option ℕ
  pub stake_ends_at : ℕ
  pub settle_status : SettleStatus
  pub settle_err : Text

pub record PlayerView : Type 0 where
  pub id : Text
  pub name : List ℕ
  pub score : ℕ
  pub words : ℕ

-- `round_id` is none for the empty string of a free room, and `some none` for the "<nil>" of a
-- staked room whose round is not open yet.
pub record RoomView : Type 0 where
  pub code : Text
  pub state : State
  pub host : Text
  pub public : Bool
  pub letters : Text
  pub time_left : ℕ
  pub players : List PlayerView
  pub winner : Text
  pub you : Text
  pub stake : ℕ
  pub pot : ℕ
  pub round_id : Option (Option ℕ)
  pub stake_ends_in : ℕ
  pub settle_status : SettleStatus
  pub settle_err : Text

has_prefix_0x : List ℕ → Bool
has_prefix_0x (a ∷ b ∷ _) = a == b'0' && b == b'x'
has_prefix_0x _ = false

-- The three bytes 226 128 166 are the ellipsis.
unfoldable pub short_id : Text → List ℕ
unfolding has_prefix_0x
short_id id =
    let b = bytes id in
    if leb 6 (length b) && has_prefix_0x b
    then take 6 b ++ 226 ∷ 128 ∷ 166 ∷ drop (length b - 4) b
    else if ltb 8 (length b)
    then take 8 b
    else b

unfoldable pub add_player : Room → Text → Text → Room
add_player r id name =
    let shown = if eq_text name [] then short_id id else bytes name in
    record r {
      players =
          insert id (record { id = id; name = shown; score = 0; words = 0; found = [] }) r.players;
      order = r.order ++ id ∷ [];
    }

abbrev pub is_racing : State → Bool
is_racing racing = true
is_racing _ = false

abbrev pub is_lobby : State → Bool
is_lobby lobby = true
is_lobby _ = false

abbrev pub is_done : State → Bool
is_done done = true
is_done _ = false

unfoldable pub maybe_finish : Room → ℕ → Room
maybe_finish r now =
    if is_racing r.state && not (ltb now r.ends_at) then record r { state = done } else r

-- The map `pos` of `rankedIDsLocked`, from index `i` on.
positions : ℕ → List Text → Map ℕ → Map ℕ
positions i [] pos = pos
positions i (id ∷ ids) pos = positions (suc i) ids (insert id i pos)

abbrev pub or_zero : Option ℕ → ℕ
or_zero none = 0
or_zero (some n) = n

-- `r.players[id].score`. The code would fault on a missing player; `IsValid` excludes it.
unfoldable pub score_of : Map Player → Text → ℕ
score_of players id = elim (lookup id players) [ none ↦ 0 | some p ↦ p.score ]

-- The test of `sort.SliceStable`.
unfoldable pub ranks_before : Map Player → Map ℕ → Text → Text → Bool
ranks_before players pos a b =
    if score_of players a == score_of players b
    then ltb (or_zero (lookup a pos)) (or_zero (lookup b pos))
    else ltb (score_of players b) (score_of players a)

unfoldable pub ranked_ids : Room → List Text
unfolding positions
ranked_ids r = sort (ranks_before r.players (positions 0 r.order [])) r.order

abbrev pub first_or_empty : List Text → Text
first_or_empty [] = []
first_or_empty (id ∷ ids) = id

unfoldable pub leader : Room → Text
leader r = first_or_empty (ranked_ids r)

unfoldable pub player_view : Map Player → Text → PlayerView
player_view players id = elim (lookup id players) [
  | none ↦ record { id = id; name = []; score = 0; words = 0 }
  | some p ↦ record { id = id; name = p.name; score = p.score; words = p.words }
]

-- `maybeFinishLocked` runs first, so a snapshot may end the race.
unfoldable pub snapshot : Room → Text → ℕ → Room × RoomView
snapshot r₀ viewer now =
    let r = maybe_finish r₀ now in
    let ids = ranked_ids r in
    (
      r,
      record {
        code = r.code;
        state = r.state;
        host = r.host;
        public = r.public;
        letters = if is_lobby r.state then [] else r.letters;
        time_left = if is_racing r.state then (r.ends_at - now) / second else 0;
        players = map (player_view r.players) ids;
        winner = if is_done r.state then first_or_empty ids else [];
        you = viewer;
        stake = or_zero r.stake;
        pot = or_zero r.stake * length ids;
        round_id = elim r.stake [ none ↦ none | some _ ↦ some r.round_id ];
        stake_ends_in = elim r.stake [ none ↦ 0 | some _ ↦ (r.stake_ends_at - now) / second ];
        settle_status = r.settle_status;
        settle_err = r.settle_err;
      },
    )

-- `payoutAfterRake`; `Div` is exact division of numbers that are not negative.
unfoldable pub payout_after_rake : ℕ → ℕ → ℤ
payout_after_rake pot rake_bps = sub_ℕ pot (pot * rake_bps / bps_denominator)
