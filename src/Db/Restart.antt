-- ===== src/Db/Restart.antt =====
-- A restart of the server on the database: what an outage hides, and what two spellings of one
-- address lose.
use wordbreak_backend.Base.{
  ℕ, ◌<◌, ◌≡◌, refl, ap, ◌∙◌, ◌≢◌, true, false, not, none, some, [], ◌∷◌, arith,
}
use mathlib.Core.Option
use wordbreak_backend.Base.Text.{Text, eq_text, eq_text_iff, eq_text_refl}
use wordbreak_backend.Base.Assoc.{Map, lookup, insert, lookup-insert_self}
use wordbreak_backend.Store.{
  Submission, Store, get_or_create_daily, load_daily, fill_letters, submit_daily, is_beaten, lower,
  restore, new_daily,
}
use wordbreak_backend.Db.{Db, RoundRow, load_daily_round, upsert_submission, load_submissions}
use wordbreak_backend.Db.Persisted.{postgres}

module _ (stored_time : ℕ → ℕ) where
  loaded_unpaid :
      (db : Db) (date_key gen : Text)
      → db.online ≡ false
      → (fill_letters (load_daily (postgres stored_time) (some db) date_key) gen).paid ≡ false
  unfolding load_daily load_daily_round fill_letters
  loaded_unpaid db date_key gen off = rw (ap not off, load_daily) refl

  -- If the first request for a day after a restart meets an outage, the day is an unpaid one,
  -- whatever its row says, and it stays so for later requests, also when the database is back.
  pub outage_unpaid :
      (s : Store (postgres stored_time)) (date_key gen other : Text) (db later : Db)
      → lookup date_key s.dailies ≡ none
      → s.persist ≡ some db
      → db.online ≡ false
      → let (s', d) = get_or_create_daily (postgres stored_time) s date_key gen in
        let back : Store (postgres stored_time) = record s' { persist = some later } in
        (d.paid ≡ false) × ((get_or_create_daily (postgres stored_time) back date_key other).1 ≡ d)
  unfolding get_or_create_daily
  outage_unpaid s date_key gen other db later new held off =
      rw (new, get_or_create_daily)
        (
          rw held (loaded_unpaid db date_key gen off),
          rw (
            lookup-insert_self date_key
                (fill_letters (load_daily (postgres stored_time) s.persist date_key) gen) s.dailies,
            get_or_create_daily,
          ),
        )

  -- The row of a submission.
  abbrev pub row_of : Submission → Submission
  row_of s = record s { at_time = stored_time s.at_time }

  differs : (a b : Text) → a ≢ b → eq_text a b ≡ false
  differs a b n = ground (arith, eq_text_iff a b)

  first_not_beaten : (s : Submission) → is_beaten [] s ≡ false
  unfolding is_beaten lookup
  first_not_beaten s = refl

  later_not_beaten :
      (key : Text) (s t : Submission)
      → key ≡ lower t.address
      → s.score < t.score
      → is_beaten ((key, s) ∷ []) t ≡ false
  unfolding is_beaten lookup
  later_not_beaten key s t e better =
      let same = (eq_text_iff key (lower t.address)).1 e in rw (same, is_beaten) (ground arith)

  abbrev bare : Map Text → Map RoundRow → Map (Map Submission) → Db
  bare players rounds submissions = record {
    online = true;
    players = players;
    daily_rounds = rounds;
    daily_submissions = submissions;
  }

  second_row :
      (date_key : Text) (players : Map Text) (rounds : Map RoundRow) (s t : Submission)
      → s.address ≢ t.address
      → let held = bare players rounds ((date_key, (s.address, row_of s) ∷ []) ∷ []) in
        upsert_submission stored_time date_key t held
        ≡ bare players rounds ((date_key, (s.address, row_of s) ∷ (t.address, row_of t) ∷ []) ∷ [])
  unfolding upsert_submission lookup insert
  second_row date_key players rounds s t n =
      ground (arith, eq_text_refl date_key, differs s.address t.address n)

  rows_after :
      (date_key : Text) (players : Map Text) (rounds : Map RoundRow) (s t : Submission)
      → s.address ≢ t.address
      → load_submissions date_key (
          upsert_submission stored_time date_key t
            (upsert_submission stored_time date_key s (bare players rounds [])))
        ≡ row_of s ∷ row_of t ∷ []
  unfolding upsert_submission load_submissions lookup insert
  rows_after date_key players rounds s t n =
      ap (load_submissions date_key) (second_row date_key players rounds s t n)
      ∙ ground (arith, eq_text_refl date_key)

  -- Where a player submits to a new round under two spellings of one address, the second time with
  -- a better score, the round holds the better one and the table both; a restart that reads the
  -- rows in the other order restores the worse one.
  pub restart_may_lose :
      (date_key letters : Text) (players : Map Text) (rounds : Map RoundRow) (s t : Submission)
      → s.address ≢ t.address
      → lower s.address ≡ lower t.address
      → s.score < t.score
      → let d = new_daily date_key letters in
        let db : Db = record {
          online = true;
          players = players;
          daily_rounds = rounds;
          daily_submissions = [];
        } in
        let (q, d₁) = submit_daily (postgres stored_time) (some db) d s in
        let (q', d₂) = submit_daily (postgres stored_time) q d₁ t in
        (lookup (lower t.address) d₂.submissions ≡ some t)
        × (Option.map (load_submissions date_key) q' ≡ some (row_of s ∷ row_of t ∷ []))
        × (lookup (lower t.address) (restore [] (row_of t ∷ row_of s ∷ [])) ≡ some (row_of s))
  unfolding submit_daily restore lookup insert is_beaten
  restart_may_lose date_key letters players rounds s t differ same better =
      let key = eq_text_refl (lower t.address) in
      rw (first_not_beaten s, same)
        (rw (later_not_beaten (lower t.address) s t refl better) (
          rw key (rw key refl),
          ap some (rows_after date_key players rounds s t differ),
          rw key (rw key refl),
        ))
