-- ===== src/Db/Restored.antt =====
-- A restart of the server on the database, where each player spells one address one way: what the
-- table gives back is what the round held.
use wordbreak_backend.Base.{ℕ, ◌≡◌, true, Option, some}
use mathlib.Core.Option
use wordbreak_backend.Base.Text.{Text}
use wordbreak_backend.Base.Assoc.{Map, lookup}
use wordbreak_backend.Store.{Submission, Daily, lower}
use wordbreak_backend.Db.{Db, submissions_of}
use wordbreak_backend.Db.Restart.{row_of}
use wordbreak_backend.Db.Rows.{Unique}

module _ (stored_time : ℕ → ℕ) (spelled : Text → Text) where
  -- The rows hold exactly what the round holds, each under its address.
  record Mirrors (held rows : Map Submission) : Type 0 where
    pub unique : Unique rows
    pub back :
        (a : Text) (x : Submission)
        → lookup a rows ≡ some x
        → (s : Submission) × (lookup (lower a) held ≡ some s)
          × (x ≡ row_of stored_time s)
          × (s.address ≡ a)
    pub forth :
        (k : Text) (s : Submission)
        → lookup k held ≡ some s
        → (lookup s.address rows ≡ some (row_of stored_time s))
          × (lower s.address ≡ k)
          × (s.address ≡ spelled k)

  -- The database that a round writes to answers, and its rows mirror the round.
  record Synced (q : Option Db) (d : Daily) : Type 0 where
    pub db : Db
    pub there : q ≡ some db
    pub answers : db.online ≡ true
    pub mirrors : Mirrors d.submissions (submissions_of db d.date_key)
