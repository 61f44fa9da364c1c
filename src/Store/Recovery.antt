-- ===== src/Store/Recovery.antt =====
-- The rounds of a day over time and over a restart of the server.
use wordbreak_backend.Base.{
  ℕ, ◌≡◌, refl, sym, ◌∙◌, ◌≢◌, inl, inr, true, Option, none, some, [], arith, Option-cases,
}
use wordbreak_backend.Base.Text.{Text}
use wordbreak_backend.Base.Assoc.{lookup, lookup-insert_self, lookup-empty}
use wordbreak_backend.Store.{
  Store, Persister, Daily, DailyRound, keep_letters, get_or_create_daily, open_paid_daily,
  load_daily, fill_letters, new_daily, mark_paid, leaderboard, rows,
}
use wordbreak_backend.Base.Sort.{sort}

module _ (p : Persister) where
  -- The first request of a day fixes its round: a later one gets the same round and changes
  -- nothing, whatever rack it would have made.
  pub get_or_create_daily_once :
      (s : Store p) (date_key gen other : Text)
      → get_or_create_daily p (get_or_create_daily p s date_key gen).0 date_key other
        ≡ get_or_create_daily p s date_key gen
  unfolding get_or_create_daily
  get_or_create_daily_once s date_key gen other = elim (Option-cases (lookup date_key s.dailies)) [
    | inr (d, e) ↦
        rw (e, get_or_create_daily) (rw (e, get_or_create_daily) (rw (e, get_or_create_daily)))
    | inl e ↦
        rw (e, get_or_create_daily)
          (rw
            (
              lookup-insert_self date_key (fill_letters (load_daily p s.persist date_key) gen)
                  s.dailies,
              get_or_create_daily,
            )
            (rw (e, get_or_create_daily)))
  ]

  fill_letters_keeps :
      (d : Daily) (gen : Text)
      → ((fill_letters d gen).paid ≡ d.paid)
        × ((fill_letters d gen).round_id ≡ d.round_id)
        × ((fill_letters d gen).end_time ≡ d.end_time)
        × (d.letters ≢ [] → (fill_letters d gen).letters ≡ d.letters)
  unfolding fill_letters
  fill_letters_keeps d gen = ground arith

  created_of_empty :
      (q : Option p.Db) (date_key gen : Text)
      → (get_or_create_daily p (record { dailies = []; persist = q }) date_key gen).1
        ≡ fill_letters (load_daily p q date_key) gen
  unfolding get_or_create_daily
  created_of_empty q date_key gen = rw (lookup-empty Daily date_key, get_or_create_daily)

  row_of : Daily → Text → ℕ → DailyRound
  row_of d round_id end_time = record {
    letters = d.letters;
    paid = true;
    round_id = round_id;
    end_time = end_time;
  }

  opened_persist :
      (s : Store p) (date_key round_id letters : Text) (end_time : ℕ) (db : p.Db)
      → s.persist ≡ some db
      → let opened = open_paid_daily p s date_key round_id end_time letters in
        opened.0.persist
        ≡ some (p.upsert_daily_round date_key (row_of opened.1 round_id end_time) db)
  unfolding open_paid_daily row_of
  opened_persist s date_key round_id letters end_time db e = rw (e, open_paid_daily)

  -- What the row of a paid round keeps: an old row keeps its letters.
  abbrev pub kept_row : p.Db → Text → Text → Text → ℕ → DailyRound
  kept_row db date_key letters round_id end_time =
      keep_letters (p.load_daily_round date_key db) (record {
        letters = letters;
        paid = true;
        round_id = round_id;
        end_time = p.kept_time end_time;
      })

  keep_letters_paid :
      (old : Option DailyRound) (row : DailyRound)
      → ((keep_letters old row).paid ≡ row.paid)
        × ((keep_letters old row).round_id ≡ row.round_id)
        × ((keep_letters old row).end_time ≡ row.end_time)
  keep_letters_paid none row = (refl, refl, refl)
  keep_letters_paid (some old) row = (refl, refl, refl)

  loaded :
      (date_key : Text) (row : DailyRound) (db : p.Db)
      → p.load_daily_round date_key db ≡ some row
      → let d = load_daily p (some db) date_key in
        (d.paid ≡ row.paid)
        × (d.round_id ≡ row.round_id)
        × (d.end_time ≡ row.end_time)
        × (d.letters ≡ row.letters)
  unfolding load_daily
  loaded date_key row db h = rw (h, load_daily) (refl, refl, refl, refl)

  -- A paid round that was opened while the database answered is, after a restart, a paid round of
  -- the same contract round with the end that the column keeps. Its rack is the one of the row, if
  -- that is not empty: the rack it was opened with, or that of an older row of the date.
  pub paid_daily_recovered :
      (s : Store p) (date_key round_id letters gen : Text) (end_time : ℕ) (db : p.Db)
      → s.persist ≡ some db
      → p.is_online db ≡ true
      → let opened = open_paid_daily p s date_key round_id end_time letters in
        let row = kept_row db date_key opened.1.letters round_id end_time in
        let restarted : Store p = record { dailies = []; persist = opened.0.persist } in
        let d = (get_or_create_daily p restarted date_key gen).1 in
        row.letters ≢ []
        → (d.paid ≡ true)
          × (d.round_id ≡ round_id)
          × (d.end_time ≡ p.kept_time end_time)
          × (d.letters ≡ row.letters)
  unfolding row_of
  paid_daily_recovered s date_key round_id letters gen end_time db e live n =
      let opened = open_paid_daily p s date_key round_id end_time letters in
      let written = row_of opened.1 round_id end_time in
      let after = p.upsert_daily_round date_key written db in
      let kept = fill_letters_keeps (load_daily p (some after) date_key) gen in
      let row = kept_row db date_key opened.1.letters round_id end_time in
      let had = loaded date_key row after (p.load_upsert date_key written db live) in
      let same =
        keep_letters_paid (p.load_daily_round date_key db)
          (record written { end_time = p.kept_time end_time }) in
      rw
        (
          created_of_empty opened.0.persist date_key gen,
          opened_persist s date_key round_id letters end_time db e,
        )
        (
          kept.0 ∙ had.0 ∙ same.0,
          kept.1 ∙ had.1 ∙ same.1,
          kept.2 ∙ had.2 ∙ same.2,
          kept.3 (λ empty. n (sym had.3 ∙ empty)) ∙ had.3,
        )

  -- Opening a paid round that this process has not seen drops what was submitted to it before:
  -- the round, and every later request of the day, starts with an empty leaderboard, whatever
  -- the database holds.
  pub open_paid_daily_forgets :
      (s : Store p) (date_key round_id letters gen : Text) (end_time : ℕ)
      → lookup date_key s.dailies ≡ none
      → let opened = open_paid_daily p s date_key round_id end_time letters in
        let (later, d) = get_or_create_daily p opened.0 date_key gen in
        (later ≡ opened.0) × (leaderboard d ≡ [])
  unfolding open_paid_daily get_or_create_daily leaderboard rows sort
  open_paid_daily_forgets s date_key round_id letters gen end_time e = ground (
    arith,
    e,
    lookup-insert_self date_key (mark_paid (new_daily date_key letters) round_id end_time)
        s.dailies,
  )
