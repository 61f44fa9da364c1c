-- ===== src/Store.antt =====
-- internal/store/store.go: the daily rounds, the best result of each player and the leaderboard.
-- A persister is an interface, which Db fills: operations on a database, which `persist` holds
-- where one is attached. Scores and word counts are not negative; times are nanoseconds.
pub mod Best
pub mod Board
pub mod Recovery
pub mod Steady
pub mod Keyed
use wordbreak_backend.Base.{
  ℕ, suc, ◌+◌, ◌≡◌, Bool, true, false, not, Option, none, some, List, [], ◌∷◌, map, filter, ltb,
  leb, ◌==◌, if◌then◌else◌,
}
use wordbreak_backend.Base.Text.{Text, is_A_Z}
use wordbreak_backend.Base.Assoc.{Map, lookup, insert, values}
use wordbreak_backend.Base.Sort.{sort}
use wordbreak_backend.Room.Manager.{text_before}

pub record Submission : Type 0 where
  pub address : Text
  pub score : ℕ
  pub words : ℕ
  pub at_time : ℕ

pub record PaidRoundInfo : Type 0 where
  pub date_key : Text
  pub letters : Text
  pub round_id : Text
  pub end_time : ℕ

-- A row of the persisted rounds.
pub record DailyRound : Type 0 where
  pub letters : Text
  pub paid : Bool
  pub round_id : Text
  pub end_time : ℕ

-- A write to a date that has a row keeps the letters of that row.
abbrev pub keep_letters : Option DailyRound → DailyRound → DailyRound
keep_letters none row = row
keep_letters (some old) row = record row { letters = old.letters }

-- `Persister`. `kept_time` is the time that a column gives back. While the database answers, a
-- round that is written is the one that is loaded afterwards, but for the letters of an old row.
pub record Persister : Type 1 where
  pub Db : Type 0
  pub is_online : Db → Bool
  pub kept_time : ℕ → ℕ
  pub upsert_daily_round : Text → DailyRound → Db → Db
  pub load_daily_round : Text → Db → Option DailyRound
  pub list_paid_daily_rounds : Db → List PaidRoundInfo
  pub upsert_submission : Text → Submission → Db → Db
  pub load_submissions : Text → Db → List Submission
  pub upsert_player_name : Text → Text → Db → Db
  pub load_upsert :
      (date_key : Text) (row : DailyRound) (db : Db)
      → is_online db ≡ true
      → load_daily_round date_key (upsert_daily_round date_key row db)
        ≡ some (
            keep_letters
              (load_daily_round date_key db)
              (record row { end_time = kept_time row.end_time }))

pub record Daily : Type 0 where
  pub date_key : Text
  pub letters : Text
  pub paid : Bool
  pub round_id : Text
  pub end_time : ℕ
  pub submissions : Map Submission

pub record LeaderboardEntry : Type 0 where
  pub rank : ℕ
  pub address : Text
  pub score : ℕ
  pub words : ℕ

-- The lower case of the ASCII letters; the bytes of other runes are left as they are.
unfoldable pub lower : Text → Text
lower s = map (λ c. if is_A_Z c then c + 32 else c) s

-- The test of the sort in `Leaderboard`.
unfoldable pub places_before : Submission → Submission → Bool
places_before a b = if a.score == b.score then ltb a.at_time b.at_time else ltb b.score a.score

-- The rows from index `i` on.
unfoldable pub rows : ℕ → List Submission → List LeaderboardEntry
rows i [] = []
rows i (s ∷ subs) =
    record { rank = suc i; address = s.address; score = s.score; words = s.words }
    ∷ rows (suc i) subs

unfoldable pub leaderboard : Daily → List LeaderboardEntry
leaderboard d = rows 0 (sort places_before (values d.submissions))

-- The loop of `GetOrCreateDaily` over the persisted submissions.
unfoldable pub restore : Map Submission → List Submission → Map Submission
restore m [] = m
restore m (s ∷ subs) = restore (insert (lower s.address) s m) subs

-- The test of `Submit`: the player's earlier result is as good.
unfoldable pub is_beaten : Map Submission → Submission → Bool
is_beaten m s = elim (lookup (lower s.address) m) [
  | none ↦ false
  | some old ↦ leb s.score old.score
]

abbrev pub new_daily : Text → Text → Daily
new_daily date_key letters = record {
  date_key = date_key;
  letters = letters;
  paid = false;
  round_id = [];
  end_time = 0;
  submissions = [];
}

unfoldable pub fill_letters : Daily → Text → Daily
fill_letters d gen = elim d.letters [ [] ↦ record d { letters = gen } | _ ∷ _ ↦ d ]

abbrev pub mark_paid : Daily → Text → ℕ → Daily
mark_paid d round_id end_time = record d { paid = true; round_id = round_id; end_time = end_time }

abbrev pub info_of : Daily → PaidRoundInfo
info_of d = record {
  date_key = d.date_key;
  letters = d.letters;
  round_id = d.round_id;
  end_time = d.end_time;
}

module _ (p : Persister) where
  pub record Store : Type 0 where
    pub dailies : Map Daily
    pub persist : Option p.Db

  -- `New`, and `NewWithPersistence`.
  abbrev pub new_store : Store
  new_store = record { dailies = []; persist = none }

  abbrev pub new_with_persistence : p.Db → Store
  new_with_persistence db = record { dailies = []; persist = some db }

  -- `Submit` on a daily and the database that it shares with its store.
  unfoldable pub submit_daily : Option p.Db → Daily → Submission → Option p.Db × Daily
  submit_daily persist d s = if is_beaten d.submissions s then (persist, d) else (
    elim persist [ none ↦ none | some db ↦ some (p.upsert_submission d.date_key s db) ],
    record d { submissions = insert (lower s.address) s d.submissions },
  )

  -- What the database still knows of a date.
  unfoldable pub load_daily : Option p.Db → Text → Daily
  load_daily none date_key = new_daily date_key []
  load_daily (some db) date_key = elim (p.load_daily_round date_key db) [
    | none ↦ new_daily date_key []
    | some row ↦ record {
      date_key = date_key;
      letters = row.letters;
      paid = row.paid;
      round_id = row.round_id;
      end_time = row.end_time;
      submissions = restore [] (p.load_submissions date_key db);
    }
  ]

  -- `gen` is the rack that the callback would make.
  unfoldable pub get_or_create_daily : Store → Text → Text → Store × Daily
  get_or_create_daily s date_key gen = elim (lookup date_key s.dailies) [
    | some d ↦ (s, d)
    | none ↦
        let d = fill_letters (load_daily s.persist date_key) gen in
        (record s { dailies = insert date_key d s.dailies }, d)
  ]

  unfoldable pub open_paid_daily : Store → Text → Text → ℕ → Text → Store × Daily
  open_paid_daily s date_key round_id end_time letters =
      let old : Daily = elim (lookup date_key s.dailies) [
        | none ↦ new_daily date_key letters
        | some d ↦ d
      ] in
      let d = mark_paid old round_id end_time in
      let row : DailyRound = record {
        letters = d.letters;
        paid = true;
        round_id = round_id;
        end_time = end_time;
      } in
      (
        record {
          dailies = insert date_key d s.dailies;
          persist = elim s.persist [
            | none ↦ none
            | some db ↦ some (p.upsert_daily_round date_key row db)
          ];
        },
        d,
      )

  unfoldable pub list_paid_dailies : Store → List PaidRoundInfo
  list_paid_dailies s = elim s.persist [
    | some db ↦ p.list_paid_daily_rounds db
    | none ↦
        sort (λ (a b : PaidRoundInfo). text_before b.date_key a.date_key)
          (map info_of (filter (λ (d : Daily). d.paid) (values s.dailies)))
  ]
