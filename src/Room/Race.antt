-- ===== src/Room/Race.antt =====
-- internal/room/room.go, lines 313 to 413: `Join`, `Start` and `Submit` on the room that was
-- found, under its lock. Each returns the room with its reply.
use wordbreak_backend.Base.{
  ℕ, suc, ◌+◌, ◌-◌, ◌*◌, ◌%◌, ◌^◌, ltb, Bool, true, false, not, Option, none, some, [], ◌∷◌, leb,
  if◌then◌else◌, length,
}
use wordbreak_backend.Base.Text.{
  Text, UnicodeTables, eq_text, to_upper, trim_space, has_text, add_key,
}
use wordbreak_backend.Base.Assoc.{lookup, insert}
use wordbreak_backend.Game
use wordbreak_backend.Rack.{Rng, generate_solo}
use wordbreak_backend.Room.{
  Room, RoomView, Player, racing, max_players, rack_size, second, add_player, is_lobby, is_racing,
  maybe_finish, snapshot,
}
use wordbreak_backend.Room.Services.{
  Addresses, Reader, ok, fault, Result, returns, refuse, RoomError, race_started, room_full,
  connect_wallet, staking_off, stake_unverified, stake_first, not_host, already_started,
  not_running, not_in_room,
}

-- A snapshot as the reply of a call.
abbrev pub reply : Room × RoomView → Room × Result RoomView
reply (r, v) = (r, returns v)

-- The checks of `Join` on a staked room: none where the player may come in.
unfoldable pub stake_check : Addresses → Option Reader → Room → Text → Option RoomError
stake_check eth reader r id = elim r.stake [
  | none ↦ none
  | some _ ↦ if not (eth.is_hex_address id) then some connect_wallet else elim reader [
    | none ↦ some staking_off
    | some c ↦ elim (c.has_entered r.round_id (eth.hex_to_address id)) [
      | fault e ↦ some (stake_unverified e)
      | ok entered ↦ if entered then none else some stake_first
    ]
  ]
]

unfoldable pub join_room :
    Addresses → Option Reader → Room → Text → Text → ℕ → Room × Result RoomView
join_room eth reader r id name now = elim (lookup id r.players) [
  | some _ ↦ reply (snapshot r id now)
  | none ↦
      if not (is_lobby r.state)
      then (r, refuse race_started)
      else if leb max_players (length r.players)
      then (r, refuse room_full)
      else elim (stake_check eth reader r id) [
        | some e ↦ (r, refuse e)
        | none ↦ reply (snapshot (add_player r id name) id now)
      ]
]

-- What `Submit` returns: accepted, points, view and error.
pub record Submitted : Type 0 where
  pub accepted : Bool
  pub points : ℕ
  pub view : Option RoomView
  pub error : Option RoomError

-- `time.Now().Add(time.Duration(r.raceSeconds) * time.Second)`: a duration is a signed 64-bit number
-- of nanoseconds, and a product that does not fit wraps around. 0 stands for a time before 1970.
unfoldable pub race_end : ℕ → ℕ → ℕ
race_end now seconds =
    let d = seconds * second % 2 ^ 64 in if ltb d (2 ^ 63) then now + d else now - (2 ^ 64 - d)

module _ ⦃u : UnicodeTables⦄ where
  -- `g` is the fresh random source of `rack.GenerateSolo`.
  unfoldable pub start_room : (rng : Rng) → rng.Source → Room → Text → ℕ → Room × Result RoomView
  start_room rng g r id now =
      if not (eq_text id r.host)
      then (r, refuse not_host)
      else if not (is_lobby r.state)
      then (r, refuse already_started)
      else reply (
          snapshot
            (record r {
              letters = (generate_solo rng r.dict rack_size g).letters;
              state = racing;
              ends_at = race_end now r.race_seconds;
            })
            id now)

  -- The end of `Submit` for an accepted word.
  unfoldable pub credit : Room → Text → Player → Text → ℕ → Room
  credit r id p w pts = record r {
    players =
        insert id
          (record p { score = p.score + pts; words = suc p.words; found = add_key p.found w })
          r.players;
  }

  -- The body of `Submit` for a player of the room: the credited room and the points, if the word
  -- counts.
  unfoldable pub try_word : Room → Text → Player → Text → Option (Room × ℕ)
  try_word r id p word =
      let w = to_upper (trim_space word) in
      if has_text p.found w then none else elim (Game.score r.dict r.letters (w ∷ [])).accepted [
        | x ∷ [] ↦ some (credit r id p w x.points, x.points)
        | _ ↦ none
      ]

  -- `Submit` from the look-up of the player on, for a race that is running.
  unfoldable pub submit_running : Room → Text → Text → ℕ → Room × Submitted
  submit_running r id word now = elim (lookup id r.players) [
    | none ↦ (r, record { accepted = false; points = 0; view = none; error = some not_in_room })
    | some p ↦ elim (try_word r id p word) [
      | none ↦ (
        (snapshot r id now).0,
        record { accepted = false; points = 0; view = some (snapshot r id now).1; error = none },
      )
      | some (r', pts) ↦ (
        (snapshot r' id now).0,
        record { accepted = true; points = pts; view = some (snapshot r' id now).1; error = none },
      )
    ]
  ]

  unfoldable pub submit_room : Room → Text → Text → ℕ → Room × Submitted
  submit_room r₀ id word now =
      let r = maybe_finish r₀ now in
      if not (is_racing r.state)
      then (
        (snapshot r id now).0,
        record {
          accepted = false;
          points = 0;
          view = some (snapshot r id now).1;
          error = some not_running;
        },
      )
      else submit_running r id word now
