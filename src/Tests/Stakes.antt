-- ===== src/Tests/Stakes.antt =====
-- The theorems on stakes, settlements and the creation of rooms, at concrete inputs.
use wordbreak_backend.Base.{
  ℕ, ◌+◌, ◌-◌, ◌*◌, ◌≤◌, ◌<◌, ◌≡◌, refl, ◌↔◌, ◌≢◌, true, none, some, List, [], ◌∷◌, arith, length,
  All, In,
}
use wordbreak_backend.Base.Int.{pos}
use wordbreak_backend.Base.Text.{Text, text, ascii_tables, to_upper, eq_text, eq_text_iff, has_text}
use wordbreak_backend.Base.Assoc.{lookup, insert, lookup-empty, has_key}
use wordbreak_backend.Room.{
  Room, RoomView, second, maybe_finish, payout_after_rake, add_player, snapshot, stake_window,
}
use wordbreak_backend.Room.Services.{Reader, Result, ok, returns, refuse, wallet_needed}
use wordbreak_backend.Room.Race.{join_room, start_room, stake_check}
use wordbreak_backend.Room.Settle.{settle_time, begin_settle}
use wordbreak_backend.Room.Settlement.{
  Settles, payout_after_rake_bounds, settle_pays_leader, start_settles_early_iff,
}
use wordbreak_backend.Room.Entry.{join_room_paid, join_room_alias}
use wordbreak_backend.Room.Manager.{
  Manager, CreateOpts, rand_code, fresh_code, find_room, create, create_check, new_room,
  positive_stake, create_rest, put_room, open_round, fresh_round_id, staking_enabled,
}
use wordbreak_backend.Room.Answers.{create_terminates}
use wordbreak_backend.Room.Creation.{IsCreated, create_returned}
use wordbreak_backend.Tests.{
  small, first_letters, ann, ann_upper, wallets, pool, referee, chain, fresh_room, over,
}

settle_pays_leader_example : Settles wallets pool referee over 9
settle_pays_leader_example = settle_pays_leader wallets pool referee over 9

payout_after_rake_bounds_example :
    (p : ℕ) × (payout_after_rake 1000 500 ≡ pos p)
    × (p ≤ 1000)
    × (1000 * (10000 - 500) ≤ p * 10000)
    × (p * 10000 < 1000 * (10000 - 500) + 10000)
payout_after_rake_bounds_example = payout_after_rake_bounds 1000 500 (omega arith)

start_settles_early_iff_example :
    let r' = (start_room first_letters tt fresh_room ann 5).0 in
    ((begin_settle r' (settle_time r' 5)).1 ≡ none) ↔ (0 + 2 * second < 5 + 60 * second)
start_settles_early_iff_example =
    start_settles_early_iff first_letters tt fresh_room 5 refl refl (omega arith) (omega arith)

ann-comes_in : has_key ann (join_room wallets (some pool) fresh_room ann [] 5).0.players ≡ true
unfolding join_room lookup insert stake_check add_player snapshot maybe_finish has_text eq_text
ann-comes_in = refl

join_room_paid_example :
    (wallets.is_hex_address ann ≡ true)
    × ((c : Reader) × (some pool ≡ some c)
        × (c.has_entered (some 7) (wallets.hex_to_address ann) ≡ ok true))
join_room_paid_example =
    join_room_paid wallets (some pool) fresh_room ann [] 5 500 refl (lookup-empty _ ann)
      ann-comes_in

ann-differs : ann ≢ ann_upper
unfolding eq_text
ann-differs e = let same : eq_text ann ann_upper ≡ true = (eq_text_iff ann ann_upper).1 e in cc same

join_room_alias_example :
    let r₁ = (join_room wallets (some pool) fresh_room ann [] 5).0 in
    let r₂ = (join_room wallets (some pool) r₁ ann_upper [] 6).0 in
    (has_key ann r₂.players ≡ true)
    × (has_key ann_upper r₂.players ≡ true)
    × (length r₂.players ≡ 0 + 2)
unfolding has_text eq_text to_upper
join_room_alias_example =
    join_room_alias wallets pool fresh_room ann ann_upper [] 5 6 refl (omega arith)
      (lookup-empty _ ann) (lookup-empty _ ann_upper) ann-differs refl refl refl refl

abbrev server : Manager
server = record { rooms = []; dict = small; race_seconds = 60 }

abbrev staked_opts : CreateOpts
staked_opts = record { public = true; stake = some (pos 500) }

abbrev reads : ℕ → List ℕ
reads i = 0 ∷ 0 ∷ 0 ∷ 0 ∷ 0 ∷ 0 ∷ 0 ∷ 14 ∷ []

abbrev bufs : List (List ℕ)
bufs = (0 ∷ 1 ∷ 2 ∷ 3 ∷ []) ∷ []

fresh_code-first : fresh_code [] bufs ≡ some (text "ABCD")
unfolding fresh_code rand_code lookup
fresh_code-first = refl

create-refuses :
    create wallets chain bufs reads server (text "eve") [] staked_opts 5
    ≡ some (server, refuse wallet_needed)
unfolding create create_check positive_stake has_text eq_text
create-refuses = refl

abbrev made_room : Room
made_room = record (new_room server (text "ABCD") ann staked_opts) {
  round_id = some 7;
  stake_ends_at = 5 + stake_window;
}

abbrev made : Manager
made =
    put_room (put_room server (text "ABCD") (new_room server (text "ABCD") ann staked_opts))
      (text "ABCD") (snapshot made_room ann 5).0

create-makes :
    create wallets chain bufs reads server ann [] staked_opts 5
    ≡ some (made, returns (snapshot made_room ann 5).1)
unfolding create create_check positive_stake fresh_code rand_code create_rest open_round
    fresh_round_id staking_enabled new_room lookup has_text eq_text
create-makes = refl

create_returned_example :
    (lookup (snapshot made_room ann 5).1.code server.rooms ≡ none)
    × ((r : Room) × (find_room made (snapshot made_room ann 5).1.code ≡ some r)
        × IsCreated chain 5 staked_opts ann r)
    × ((j : Text)
        → j ≢ (snapshot made_room ann 5).1.code
        → lookup j made.rooms ≡ lookup j server.rooms)
create_returned_example =
    create_returned wallets chain bufs reads server ann [] staked_opts 5 made
      (snapshot made_room ann 5).1 create-makes

create_terminates_example :
    (buf : List ℕ) × (length buf ≡ 0 + 4)
    × All (λ (b : ℕ). b < 256) buf
    × ((bufs : List (List ℕ))
        → In buf bufs
        → (out : Manager × Result RoomView) × (create wallets chain bufs reads server ann []
              staked_opts 5
            ≡ some out))
create_terminates_example =
    create_terminates wallets chain reads server ann [] staked_opts 5 (omega arith)
