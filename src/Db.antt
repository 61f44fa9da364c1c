-- ===== src/Db.antt =====
-- internal/db/db.go: the persister over Postgres. The tables are maps by their primary keys, and
-- each method is what its SQL statement does to them; `online` tells whether the queries of a call
-- succeed. An order that no ORDER BY fixes is some order. Columns that the code never reads, such
-- as `updated_at`, are left out, and a score fits the column's INT.
pub mod Persisted
pub mod Rows
pub mod Written
pub mod Restart
pub mod Restored
use wordbreak_backend.Base.{
  ℕ, ◌≡◌, Bool, true, false, not, ◌||◌, Option, none, some, List, [], ◌∷◌, map, filter, ltb, ◌==◌,
  if◌then◌else◌,
}
use mathlib.Core.Option
use wordbreak_backend.Base.Text.{Text}
use wordbreak_backend.Base.Assoc.{Map, lookup, insert, values}
use wordbreak_backend.Base.Sort.{sort}
use wordbreak_backend.Room.Manager.{text_before}
use wordbreak_backend.Game.{is_empty}
use wordbreak_backend.Room.Services.{Reply, ok}
use wordbreak_backend.Chain.{◌>>=◌}
use wordbreak_backend.Store.{Submission, PaidRoundInfo, DailyRound}

-- A row of `daily_rounds`; `end_time` is none for NULL.
pub record RoundRow : Type 0 where
  pub date_key : Text
  pub letters : Text
  pub paid : Bool
  pub round_id : Text
  pub end_time : Option ℕ

-- The tables `players`, `daily_rounds` and `daily_submissions`, the last by date and address.
pub record Db : Type 0 where
  pub online : Bool
  pub players : Map Text
  pub daily_rounds : Map RoundRow
  pub daily_submissions : Map (Map Submission)

-- The submissions of a date.
abbrev pub submissions_of : Db → Text → Map Submission
submissions_of db date_key = elim (lookup date_key db.daily_submissions) [ none ↦ [] | some m ↦ m ]

-- The zero time is the end of a NULL column.
abbrev pub or_zero_time : Option ℕ → ℕ
or_zero_time none = 0
or_zero_time (some t) = t

-- The letters of a row that is there: `DO UPDATE SET` does not name them.
abbrev pub letters_or : Option RoundRow → Text → Text
letters_or none letters = letters
letters_or (some row) letters = row.letters

-- The row that the statement leaves, after `old` or a new one.
abbrev pub row_after : (ℕ → ℕ) → Option RoundRow → Text → DailyRound → RoundRow
row_after stored_time old date_key r = record {
  date_key = date_key;
  letters = letters_or old r.letters;
  paid = r.paid;
  round_id = r.round_id;
  end_time = if r.end_time == 0 then none else some (stored_time r.end_time);
}

-- `stored_time` is the time that a TIMESTAMPTZ column gives back.
module _ (stored_time : ℕ → ℕ) where
  unfoldable pub upsert_daily_round : Text → DailyRound → Db → Db
  upsert_daily_round date_key r db = if not db.online then db else record db {
    daily_rounds =
        insert date_key (row_after stored_time (lookup date_key db.daily_rounds) date_key r)
          db.daily_rounds;
  }

  -- The statement writes the row of (date_key, address), unless its score is as good.
  unfoldable pub upsert_submission : Text → Submission → Db → Db
  upsert_submission date_key s db =
      let write : Db = record db {
        daily_submissions =
            insert date_key
              (insert s.address (record s { at_time = stored_time s.at_time })
                (submissions_of db date_key))
              db.daily_submissions;
      } in
      if not db.online then db else elim (lookup s.address (submissions_of db date_key)) [
        | none ↦ write
        | some old ↦ if ltb old.score s.score then write else db
      ]

abbrev pub to_daily_round : RoundRow → DailyRound
to_daily_round r = record {
  letters = r.letters;
  paid = r.paid;
  round_id = r.round_id;
  end_time = or_zero_time r.end_time;
}

-- `found` is none where the query fails, as where there is no row.
unfoldable pub load_daily_round : Text → Db → Option DailyRound
load_daily_round date_key db =
    if not db.online then none else Option.map to_daily_round (lookup date_key db.daily_rounds)

abbrev pub info_of_row : RoundRow → PaidRoundInfo
info_of_row r = record {
  date_key = r.date_key;
  letters = r.letters;
  round_id = r.round_id;
  end_time = or_zero_time r.end_time;
}

-- ORDER BY date_key DESC.
unfoldable pub list_paid_daily_rounds : Db → List PaidRoundInfo
list_paid_daily_rounds db =
    if not db.online
    then []
    else map info_of_row (
        sort (λ (a b : RoundRow). text_before b.date_key a.date_key)
          (filter (λ (r : RoundRow). r.paid) (values db.daily_rounds)))

unfoldable pub load_submissions : Text → Db → List Submission
load_submissions date_key db = if not db.online then [] else values (submissions_of db date_key)

unfoldable pub upsert_player_name : Text → Text → Db → Db
upsert_player_name address name db =
    if is_empty name || not db.online
    then db
    else record db { players = insert address name db.players }

-- pgx: a pool of connections, its calls, and the tables that it reaches once they exist;
-- `create_tables` runs the statements of `schema`.
pub record Pgx : Type 1 where
  pub Pool : Type 0
  pub new_pool : Text → Reply Pool
  pub ping : Pool → Reply (Unit {0})
  pub create_tables : Pool → Reply (Unit {0})
  pub tables : Pool → Db

-- `New`.
unfoldable pub new_db : (pgx : Pgx) → Text → Reply Db
new_db pgx database_url = do
  pool ← pgx.new_pool database_url
  _ ← pgx.ping pool
  _ ← pgx.create_tables pool
  ok (pgx.tables pool)
