-- ===== src/Db/Written.antt =====
-- internal/db/db.go, the row of a submission that beats the one before.
use wordbreak_backend.Base.{
  ℕ, ◌<◌, ◌≡◌, ap, inl, inr, true, false, Option, none, some, [], arith, Option-cases,
}
use wordbreak_backend.Base.Text.{Text}
use wordbreak_backend.Base.Assoc.{Map, lookup, insert, lookup-insert_self}
use wordbreak_backend.Store.{Submission, is_beaten, lower}
use wordbreak_backend.Db.{Db, upsert_submission, submissions_of}
use wordbreak_backend.Db.Restart.{row_of}

-- Only a better result is written.
pub beats :
    (m : Map Submission) (s b : Submission)
    → is_beaten m s ≡ false
    → lookup (lower s.address) m ≡ some b
    → b.score < s.score
unfolding is_beaten
beats m s b best held = ground (arith, best, held)

module _ (stored_time : ℕ → ℕ) where
  -- The database with the row of a submission.
  abbrev pub written : Text → Submission → Db → Db
  written date_key s db = record db {
    daily_submissions =
        insert date_key (insert s.address (row_of stored_time s) (submissions_of db date_key))
          db.daily_submissions;
  }

  pub upsert-written :
      (date_key : Text) (s : Submission) (db : Db)
      → db.online ≡ true
      → ((old : Submission)
          → lookup s.address (submissions_of db date_key) ≡ some old
          → old.score < s.score)
      → upsert_submission stored_time date_key s db ≡ written date_key s db
  unfolding upsert_submission
  upsert-written date_key s db live better =
      elim (Option-cases (lookup s.address (submissions_of db date_key))) [
        | inl new ↦ ground (arith, live, new)
        | inr (old, e) ↦ ground (arith, live, e, better old e)
      ]

  pub submissions_of-written :
      (date_key : Text) (s : Submission) (db : Db)
      → submissions_of (written date_key s db) date_key
        ≡ insert s.address (row_of stored_time s) (submissions_of db date_key)
  submissions_of-written date_key s db =
      ap (λ (found : Option (Map Submission)). elim found [ none ↦ [] | some m ↦ m ])
        (lookup-insert_self date_key
          (insert s.address (row_of stored_time s) (submissions_of db date_key))
          db.daily_submissions)
