-- ===== src/Tests/Races.antt =====
-- The theorems on the life, the ranking and the words of a race, at concrete inputs.
use wordbreak_backend.Base.{◌∷◌, inl, ◌≡◌, refl, sym, some, ◌⊎◌, ◌≢◌, none, [], arith, In}
use wordbreak_backend.Base.Text.{Text, text, eq_text, ascii_tables, has_text}
use wordbreak_backend.Base.Assoc.{lookup, lookup-empty, has_key-empty}
use wordbreak_backend.Base.Sort.{sort}
use wordbreak_backend.Room.{Room, Player, leader, score_of, ranked_ids, ranks_before, snapshot}
use wordbreak_backend.Room.Race.{join_room, start_room}
use wordbreak_backend.Room.Settle.{begin_settle}
use wordbreak_backend.Room.Ranking.{Beats, leader_wins}
use wordbreak_backend.Room.Submission.{IsIdle, IsCredited, submit_cases}
use wordbreak_backend.Room.Invariant.{IsValid}
use wordbreak_backend.Room.Manager.{Manager, new_manager, list}
use wordbreak_backend.Room.Lifecycle.{
  Reach, here, next, joins, starts, settles, IsFrozen, Reach-IsFrozen,
}
use wordbreak_backend.Tests.{small, first_letters, ann, bob, wallets, pool, fresh_room, race, over}

fresh_room-IsValid : IsValid fresh_room
fresh_room-IsValid = record {
  distinct = tt;
  bounded = omega arith;
  sized = refl;
  seated = λ j. unfold has_text in sym (has_key-empty Player j);
  tallies = λ j p e. absurd (cc (lookup-empty Player j, e));
  fresh = λ j p l e. absurd (cc (lookup-empty Player j, e));
  settled_done = λ h. absurd (h refl);
}

abbrev joined : Room
joined = (join_room wallets (some pool) fresh_room ann [] 5).0

abbrev started : Room
started = (start_room first_letters tt joined ann 6).0

abbrev journey : Reach first_letters wallets fresh_room started
journey = next (next here (joins (some pool) ann [] 5)) (starts tt ann 6)

Reach-IsFrozen_example :
    IsFrozen over (begin_settle over 9).0 × (leader (begin_settle over 9).0 ≡ leader over)
Reach-IsFrozen_example =
    Reach-IsFrozen first_letters wallets {r = over} refl (next here (settles 9))

leader_wins_example :
    In (leader race) race.order
    × ((id : Text) → In id race.order → id ≢ leader race → Beats race (leader race) id)
leader_wins_example = leader_wins race ((λ m. ground arith), ((λ m. m), tt)) (λ e. cc)

bob-leads : leader race ≡ bob
unfolding leader ranked_ids score_of sort ranks_before lookup eq_text
bob-leads = refl

submit_cases_example :
    IsIdle race ann (text "cart") 3 ⊎ (p : Player) × IsCredited race ann (text "cart") 3 p
submit_cases_example = submit_cases race ann (text "cart") 3

abbrev server : Manager
server = new_manager small none

abbrev two_rooms : Manager
two_rooms = record {
  rooms = (text "WXYZ", record race { code = text "WXYZ" }) ∷ (text "ABCD", fresh_room) ∷ [];
  dict = small;
  race_seconds = 60;
}

open-listed : In (snapshot fresh_room [] 4).1 (list two_rooms 4)
unfolding list sort
open-listed = inl refl
