-- ===== src/Tests/Days.antt =====
-- The theorems on the daily rounds, at concrete inputs.
use wordbreak_backend.Base.{ℕ, false, ◌≡◌, refl, ◌≢◌, true, none, some, List, [], ◌∷◌, arith}
use mathlib.Core.Option
use wordbreak_backend.Base.Text.{Text, text, eq_text, eq_text_iff}
use wordbreak_backend.Base.Assoc.{lookup, lookup-empty}
use wordbreak_backend.Base.Sort.{sort}
use wordbreak_backend.Store.{
  Submission, Persister, Daily, LeaderboardEntry, Store, rows, leaderboard, places_before,
  new_daily, get_or_create_daily, open_paid_daily, submit_daily, lower, restore,
}
use wordbreak_backend.Db.{Db, load_daily_round, load_submissions}
use wordbreak_backend.Db.Restart.{outage_unpaid, restart_may_lose}
use wordbreak_backend.Db.Persisted.{postgres}
use wordbreak_backend.Store.Best.{IsBest, submit_all, submit_all-IsBest}
use wordbreak_backend.Store.Recovery.{paid_daily_recovered, open_paid_daily_forgets, kept_row}

-- A database whose columns keep every time as it is.
abbrev pub table : Persister
table = postgres (λ t. t)

abbrev pub empty_db : Db
empty_db = record { online = true; players = []; daily_rounds = []; daily_submissions = [] }

abbrev pub result : Text → ℕ → ℕ → Submission
result who score at_time = record { address = who; score = score; words = 1; at_time = at_time }

abbrev results : List Submission
results =
    result (text "0xAb") 4 1
    ∷ result (text "0xcd") 7 2
    ∷ result (text "0xab") 6 3
    ∷ result (text "0xCD") 5 4
    ∷ []

submit_all-IsBest_example :
    IsBest results (submit_all table none (new_daily (text "d1") (text "CARTX")) results).1
submit_all-IsBest_example = submit_all-IsBest table results none (text "d1") (text "CARTX")

abbrev pub day : Daily
day = record (new_daily (text "d1") (text "CARTX")) {
  submissions =
      (text "0xab", result (text "0xab") 6 3) ∷ (text "0xcd", result (text "0xcd") 7 2) ∷ [];
}

abbrev board_row : ℕ → Text → ℕ → LeaderboardEntry
board_row rank who score = record { rank = rank; address = who; score = score; words = 1 }

day-leaderboard : leaderboard day ≡ board_row 1 (text "0xcd") 7 ∷ board_row 2 (text "0xab") 6 ∷ []
unfolding leaderboard rows sort places_before
day-leaderboard = refl

abbrev empty_store : Store table
empty_store = record { dailies = []; persist = some empty_db }

abbrev opened : Store table × Daily
opened = open_paid_daily table empty_store (text "d1") (text "7") 9 (text "CARTX")

opened-letters : (kept_row table empty_db (text "d1") opened.1.letters (text "7") 9).letters ≢ []
unfolding open_paid_daily lookup load_daily_round
opened-letters = λ e. cc

paid_daily_recovered_example :
    let d =
      (get_or_create_daily table
        (record { dailies = []; persist = opened.0.persist })
        (text "d1")
        (text "OTHER")).1 in
    (d.paid ≡ true) × (d.round_id ≡ text "7") × (d.end_time ≡ 9) × (d.letters ≡ text "CARTX")
unfolding load_daily_round lookup open_paid_daily
paid_daily_recovered_example =
    paid_daily_recovered table empty_store (text "d1") (text "7") (text "CARTX") (text "OTHER") 9
      empty_db refl refl opened-letters

open_paid_daily_forgets_example :
    (let (later, d) = get_or_create_daily table opened.0 (text "d1") (text "OTHER") in
      (later ≡ opened.0) × (leaderboard d ≡ []))
open_paid_daily_forgets_example =
    open_paid_daily_forgets table empty_store (text "d1") (text "7") (text "CARTX") (text "OTHER") 9
      (lookup-empty Daily (text "d1"))

-- The database knows of a paid round, but does not answer.
abbrev down_db : Db
down_db = record {
  online = false;
  players = [];
  daily_rounds =
      (
        text "d1",
        record {
          date_key = text "d1";
          letters = text "CARTX";
          paid = true;
          round_id = text "7";
          end_time = some 9;
        },
      )
      ∷ [];
  daily_submissions = [];
}

abbrev down_store : Store table
down_store = record { dailies = []; persist = some down_db }

outage_unpaid_example :
    let (s', d) = get_or_create_daily table down_store (text "d1") (text "OTHER") in
    let back : Store table = record s' { persist = some (record down_db { online = true }) } in
    (d.paid ≡ false) × ((get_or_create_daily table back (text "d1") (text "ANOTHER")).1 ≡ d)
outage_unpaid_example =
    outage_unpaid (λ t. t) down_store (text "d1") (text "OTHER") (text "ANOTHER") down_db
      (record down_db { online = true }) (lookup-empty Daily (text "d1")) refl refl

abbrev first_try : Submission
first_try = result (text "0xAb") 4 1

abbrev second_try : Submission
second_try = result (text "0xab") 6 2

two-spellings : text "0xAb" ≢ text "0xab"
unfolding eq_text
two-spellings e =
    let same : eq_text (text "0xAb") (text "0xab") ≡ true =
      (eq_text_iff (text "0xAb") (text "0xab")).1 e in
    cc same

one-player : lower (text "0xAb") ≡ lower (text "0xab")
unfolding lower
one-player = refl

restart_may_lose_example :
    let d = new_daily (text "d1") (text "CARTX") in
    let (q, d₁) = submit_daily table (some empty_db) d first_try in
    let (q', d₂) = submit_daily table q d₁ second_try in
    (lookup (lower (text "0xab")) d₂.submissions ≡ some second_try)
    × (Option.map (load_submissions (text "d1")) q' ≡ some (first_try ∷ second_try ∷ []))
    × (lookup (lower (text "0xab")) (restore [] (second_try ∷ first_try ∷ [])) ≡ some first_try)
restart_may_lose_example =
    restart_may_lose (λ t. t) (text "d1") (text "CARTX") [] [] first_try second_try two-spellings
      one-player (omega arith)
