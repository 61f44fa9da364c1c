-- ===== src/Room/Manager.antt =====
-- internal/room/room.go, lines 77 to 114 and 146 to 342: the rooms by their codes, and the calls
-- that the HTTP layer makes. The manager's lock is held for each part between two calls of the
-- chain; `create` runs its parts with no other call between them, Room.Registry also with others.
use wordbreak_backend.Base.{
  ℕ, zero, suc, ◌+◌, ◌*◌, ◌/◌, ◌%◌, Bool, true, false, not, ◌&&◌, Option, none, some, List, [], ◌∷◌,
  map, ltb, if◌then◌else◌, length, get_or, filter,
}
use wordbreak_backend.Base.Int.{ℤ, pos}
use wordbreak_backend.Base.Text.{Text, UnicodeTables, text, to_upper}
use wordbreak_backend.Base.Assoc.{Map, lookup, insert, delete, has_key, values}
use wordbreak_backend.Base.Sort.{sort}
use wordbreak_backend.Dictionary.{Dictionary}
use wordbreak_backend.Rack.{Rng}
use wordbreak_backend.Room.{
  Room, RoomView, lobby, unsettled, max_players, second, stake_window, add_player, is_lobby,
  snapshot,
}
use wordbreak_backend.Room.Services.{
  Addresses, Reader, Writer, Services, Reply, ok, fault, Result, returns, refuse, RoomError,
  wallet_needed, staking_off, round_not_prepared, stake_not_opened, room_not_found,
}
use wordbreak_backend.Room.Race.{Submitted, join_room, start_room, submit_room}

abbrev pub code_alphabet : Text
code_alphabet = text "ABCDEFGHJKLMNPQRSTUVWXYZ23456789"

pub record Manager : Type 0 where
  pub rooms : Map Room
  pub dict : Dictionary
  pub race_seconds : ℕ

-- `NewManager`, with the value of RACE_SECONDS where it is a positive number.
unfoldable pub new_manager : Dictionary → Option ℕ → Manager
new_manager d env = record {
  rooms = [];
  dict = d;
  race_seconds = elim env [ none ↦ 60 | some n ↦ if ltb 0 n then n else 60 ];
}

pub record CreateOpts : Type 0 where
  pub public : Bool
  pub stake : Option ℤ

abbrev is_some {ℓ} : {A : Type ℓ} → Option A → Bool
is_some none = false
is_some (some a) = true

unfoldable pub staking_enabled : Services → Bool
staking_enabled s = is_some s.writer && is_some s.reader && is_some s.signer

-- `opts.Stake != nil && opts.Stake.Sign() > 0`, with the stake where that holds.
unfoldable pub positive_stake : Option ℤ → Option ℕ
positive_stake (some (pos (suc n))) = some (suc n)
positive_stake _ = none

-- `randCode` on the four random bytes that it reads.
unfoldable pub rand_code : List ℕ → Text
rand_code buf = map (λ b. get_or code_alphabet (b % length code_alphabet) 0) buf

-- `freshCode` on the successive reads of the random source: none is a loop that needs more reads.
unfoldable pub fresh_code : Map Room → List (List ℕ) → Option Text
fresh_code rooms [] = none
fresh_code rooms (buf ∷ bufs) =
    let rest = fresh_code rooms bufs in
    if has_key (rand_code buf) rooms then rest else some (rand_code buf)

-- `new(big.Int).SetBytes(buf)`, then `n.Rsh(n, 1)`.
unfoldable pub big_endian : ℕ → List ℕ → ℕ
big_endian n [] = n
big_endian n (b ∷ bs) = big_endian (n * 256 + b) bs

-- The loop of `freshRoundID` with `n` tries left, on the successive reads of eight bytes.
unfoldable pub fresh_round_id : ℕ → Reader → (ℕ → List ℕ) → Reply ℕ
unfolding big_endian
fresh_round_id zero c reads = fault (text "could not find a free round id")
fresh_round_id (suc n) c reads =
    let id = big_endian 0 (reads n) / 2 in
    let rest = fresh_round_id n c reads in
    elim (c.round_exists id) [ fault e ↦ fault e | ok exists ↦ if exists then rest else ok id ]

-- The two checks at the head of `Create`.
unfoldable pub create_check : Addresses → Services → Text → CreateOpts → Option RoomError
create_check eth s id opts = elim (positive_stake opts.stake) [
  | none ↦ none
  | some _ ↦
      if not (eth.is_hex_address id)
      then some wallet_needed
      else if not (staking_enabled s)
      then some staking_off
      else none
]

-- The room that `Create` registers.
unfoldable pub new_room : Manager → Text → Text → CreateOpts → Room
new_room m code id opts = record {
  code = code;
  host = id;
  public = opts.public;
  state = lobby;
  letters = [];
  ends_at = 0;
  players = [];
  order = [];
  dict = m.dict;
  race_seconds = m.race_seconds;
  stake = positive_stake opts.stake;
  round_id = none;
  stake_ends_at = 0;
  settle_status = unsettled;
  settle_err = [];
}

abbrev pub put_room : Manager → Text → Room → Manager
put_room m code r = record m { rooms = insert code r m.rooms }

abbrev pub drop : Manager → Text → Manager
drop m code = record m { rooms = delete code m.rooms }

-- `freshRoundID` and `CreateRound`: the round that is open on chain from then on.
unfoldable pub open_round : Reader → Writer → (ℕ → List ℕ) → ℕ → ℕ → Result (ℕ × ℕ)
open_round c w reads stake now = elim (fresh_round_id 5 c reads) [
  | fault e ↦ refuse (round_not_prepared e)
  | ok id ↦
      let ends_at = now + stake_window in
      elim (w.create_round id stake (ends_at / second)) [
        | fault e ↦ refuse (stake_not_opened e)
        | ok _ ↦ returns (id, ends_at)
      ]
]

-- The rest of `Create`, for the room that was registered under `code`. The writer and the reader
-- of a staked room are there: `create_check` has seen them.
unfoldable pub create_rest :
    Services → (ℕ → List ℕ) → Manager → Text → Room → Text → Text → ℕ → Manager × Result RoomView
create_rest s reads m code r id name now = elim r.stake [
  | none ↦ let (r', v) = snapshot (add_player r id name) id now in (put_room m code r', returns v)
  | some stake ↦ elim s.reader [
    | none ↦ (drop m code, refuse staking_off)
    | some c ↦ elim s.writer [
      | none ↦ (drop m code, refuse staking_off)
      | some w ↦ elim (open_round c w reads stake now) [
        | refuse e ↦ (drop m code, refuse e)
        | returns (round_id, ends_at) ↦
            let (r', v) =
              snapshot (record r { round_id = some round_id; stake_ends_at = ends_at }) id now in
            (put_room m code r', returns v)
      ]
    ]
  ]
]

-- `Create`; none if the code loop needs more random reads than `bufs` holds.
unfoldable pub create :
    Addresses
    → Services
    → List (List ℕ)
    → (ℕ → List ℕ)
    → Manager
    → Text
    → Text
    → CreateOpts
    → ℕ
    → Option (Manager × Result RoomView)
create eth s bufs reads m id name opts now = elim (create_check eth s id opts) [
  | some e ↦ some (m, refuse e)
  | none ↦ elim (fresh_code m.rooms bufs) [
    | none ↦ none
    | some code ↦
        let r = new_room m code id opts in
        some (create_rest s reads (put_room m code r) code r id name now)
  ]
]

module _ ⦃u : UnicodeTables⦄ where
  unfoldable pub find_room : Manager → Text → Option Room
  find_room m code = lookup (to_upper code) m.rooms

  -- `Get`; none where the code finds no room.
  unfoldable pub get : Manager → Text → Text → ℕ → Manager × Option RoomView
  get m code viewer now = elim (find_room m code) [
    | none ↦ (m, none)
    | some r ↦ let (r', v) = snapshot r viewer now in (put_room m (to_upper code) r', some v)
  ]

  unfoldable pub join :
      Addresses → Services → Manager → Text → Text → Text → ℕ → Manager × Result RoomView
  join eth s m code id name now = elim (find_room m code) [
    | none ↦ (m, refuse room_not_found)
    | some r ↦
        let (r', v) = join_room eth s.reader r id name now in (put_room m (to_upper code) r', v)
  ]

  unfoldable pub start :
      (rng : Rng) → rng.Source → Manager → Text → Text → ℕ → Manager × Result RoomView
  start rng g m code id now = elim (find_room m code) [
    | none ↦ (m, refuse room_not_found)
    | some r ↦ let (r', v) = start_room rng g r id now in (put_room m (to_upper code) r', v)
  ]

  unfoldable pub submit : Manager → Text → Text → Text → ℕ → Manager × Submitted
  submit m code id word now = elim (find_room m code) [
    | none ↦ (m, record { accepted = false; points = 0; view = none; error = some room_not_found })
    | some r ↦ let (r', v) = submit_room r id word now in (put_room m (to_upper code) r', v)
  ]

-- The order of Go strings: that of their bytes, which for UTF-8 is that of the runes.
unfoldable pub text_before : Text → Text → Bool
text_before [] [] = false
text_before [] (b ∷ t) = true
text_before (a ∷ s) [] = false
text_before (a ∷ s) (b ∷ t) =
    let rest = text_before s t in if ltb a b then true else if ltb b a then false else rest

abbrev pub is_open : Room → Bool
is_open r = is_lobby r.state && r.public && ltb (length r.players) max_players

-- `List`: a snapshot of a room in the lobby leaves it as it was.
unfoldable pub list : Manager → ℕ → List RoomView
list m now =
    sort (λ (a b : RoomView). text_before a.code b.code)
      (map (λ r. (snapshot r [] now).1) (filter is_open (values m.rooms)))
