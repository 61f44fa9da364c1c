-- ===== src/Db/Persisted.antt =====
-- The database fills the persister's interface.
use wordbreak_backend.Base.{ℕ, ◌≡◌, ap, true, not, Option, none, some, arith, ◌==◌, if◌then◌else◌}
use mathlib.Core.Option
use wordbreak_backend.Base.Text.{Text}
use wordbreak_backend.Base.Assoc.{lookup, lookup-insert_self}
use wordbreak_backend.Store.{DailyRound, Persister, keep_letters}
use wordbreak_backend.Db.{
  Db, RoundRow, upsert_daily_round, load_daily_round, list_paid_daily_rounds, upsert_submission,
  load_submissions, upsert_player_name, row_after, to_daily_round,
}

module _ (stored_time : ℕ → ℕ) where
  abbrev pub column_time : ℕ → ℕ
  column_time t = if t == 0 then 0 else stored_time t

  -- A round that is written while the database answers is loaded back, with the letters of the
  -- old row if there was one.
  pub load-upsert_daily_round :
      (date_key : Text) (r : DailyRound) (db : Db)
      → db.online ≡ true
      → load_daily_round date_key (upsert_daily_round stored_time date_key r db)
        ≡ some (
            keep_letters
              (load_daily_round date_key db)
              (record r { end_time = column_time r.end_time }))
  unfolding load_daily_round upsert_daily_round
  load-upsert_daily_round date_key r db live = rw (ap not live) (
      rw
        (
          ap not live,
          lookup-insert_self date_key
              (row_after stored_time (lookup date_key db.daily_rounds) date_key r) db.daily_rounds,
          load_daily_round,
        )
        (row_loaded (lookup date_key db.daily_rounds)))
    where
      row_loaded :
          (old : Option RoundRow)
          → ◌≡◌ {A = Option DailyRound}
              (some (to_daily_round (row_after stored_time old date_key r)))
              (some (
                keep_letters
                  (Option.map to_daily_round old)
                  (record r { end_time = column_time r.end_time })))
      row_loaded none = ground arith
      row_loaded (some old) = ground arith

  abbrev pub postgres : Persister
  postgres = record {
    Db = Db;
    is_online = λ db. db.online;
    kept_time = column_time;
    upsert_daily_round = upsert_daily_round stored_time;
    load_daily_round = load_daily_round;
    list_paid_daily_rounds = list_paid_daily_rounds;
    upsert_submission = upsert_submission stored_time;
    load_submissions = load_submissions;
    upsert_player_name = upsert_player_name;
    load_upsert = load-upsert_daily_round;
  }
