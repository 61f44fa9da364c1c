-- ===== src/Store/Keyed.antt =====
-- The keys of the daily rounds and of their results.
use wordbreak_backend.Base.{
  ℕ, ◌≡◌, refl, sym, subst, ap, ◌∙◌, inl, inr, Option, none, some, List, [], ◌∷◌, arith, Bool-cases,
  Option-cases,
}
use wordbreak_backend.Base.Text.{Text, eq_text, eq_text_iff}
use wordbreak_backend.Base.Assoc.{Map, lookup, lookup-empty, insert, lookup-insert}
use wordbreak_backend.Store.{
  Store, Persister, Daily, Submission, get_or_create_daily, open_paid_daily, submit_daily,
  load_daily, fill_letters, is_beaten, lower, restore,
}

-- Every result is found under the lower case of its own address.
abbrev pub ByAddress : Map Submission → Type 0
ByAddress m = (key : Text) (s : Submission) → lookup key m ≡ some s → key ≡ lower s.address

-- Every round is found under its own date, and its results under their addresses.
abbrev pub AllKeyed : Map Daily → Type 0
AllKeyed m =
    (key : Text) (d : Daily) → lookup key m ≡ some d → (d.date_key ≡ key) × ByAddress d.submissions

empty-ByAddress : ByAddress []
empty-ByAddress key s e = absurd (cc (lookup-empty Submission key, e))

insert-ByAddress :
    (m : Map Submission) (s : Submission) → ByAddress m → ByAddress (insert (lower s.address) s m)
insert-ByAddress m s keyed key t e = elim (Bool-cases (eq_text (lower s.address) key)) [
  | inl same ↦
      let new : s ≡ t = ground (arith, lookup-insert (lower s.address) key s m) in
      sym ((eq_text_iff (lower s.address) key).0 same)
      ∙ ap (λ (x : Submission). lower x.address) new
  | inr other ↦ keyed key t (ground (arith, lookup-insert (lower s.address) key s m))
]

restore-ByAddress :
    (subs : List Submission) (m : Map Submission) → ByAddress m → ByAddress (restore m subs)
unfolding restore
restore-ByAddress [] m keyed = keyed
restore-ByAddress (s ∷ subs) m keyed =
    restore-ByAddress subs (insert (lower s.address) s m) (insert-ByAddress m s keyed)

insert-AllKeyed :
    (m : Map Daily) (key : Text) (d : Daily)
    → d.date_key ≡ key
    → ByAddress d.submissions
    → AllKeyed m
    → AllKeyed (insert key d m)
insert-AllKeyed m key d dated keyed all k e h = elim (Bool-cases (eq_text key k)) [
  | inl same ↦
      let new : d ≡ e = ground (arith, lookup-insert key k d m) in
      subst (λ (x : Daily). (x.date_key ≡ k) × ByAddress x.submissions) new
        (dated ∙ (eq_text_iff key k).0 same, keyed)
  | inr other ↦ all k e (ground (arith, lookup-insert key k d m))
]

fill_letters_keeps :
    (d : Daily) (gen : Text)
    → ((fill_letters d gen).date_key ≡ d.date_key)
      × ((fill_letters d gen).submissions ≡ d.submissions)
unfolding fill_letters
fill_letters_keeps d gen = ground arith

filled-ByAddress :
    (d : Daily) (date_key gen : Text)
    → d.date_key ≡ date_key
    → ByAddress d.submissions
    → ((fill_letters d gen).date_key ≡ date_key) × ByAddress (fill_letters d gen).submissions
filled-ByAddress d date_key gen dated keyed =
    let (same_date, same_results) = fill_letters_keeps d gen in
    (same_date ∙ dated, rw same_results keyed)

module _ (p : Persister) where
  loaded-ByAddress :
      (db : Option p.Db) (date_key gen : Text)
      → let d = fill_letters (load_daily p db date_key) gen in
        (d.date_key ≡ date_key) × ByAddress d.submissions
  unfolding load_daily
  loaded-ByAddress none date_key gen = filled-ByAddress _ date_key gen refl empty-ByAddress
  loaded-ByAddress (some db) date_key gen = elim (Option-cases (p.load_daily_round date_key db)) [
    | inl gone ↦ rw (gone, load_daily) (filled-ByAddress _ date_key gen refl empty-ByAddress)
    | inr (row, found) ↦
        rw (found, load_daily)
          (filled-ByAddress _ date_key gen refl
            (restore-ByAddress (p.load_submissions date_key db) [] empty-ByAddress))
  ]

  pub get_or_create-AllKeyed :
      (s : Store p) (date_key gen : Text)
      → AllKeyed s.dailies
      → AllKeyed (get_or_create_daily p s date_key gen).0.dailies
  unfolding get_or_create_daily
  get_or_create-AllKeyed s date_key gen all = elim (Option-cases (lookup date_key s.dailies)) [
    | inr (d, e) ↦ rw (e, get_or_create_daily) all
    | inl e ↦
        let (dated, keyed) = loaded-ByAddress s.persist date_key gen in
        rw (e, get_or_create_daily) (insert-AllKeyed s.dailies date_key _ dated keyed all)
  ]

  pub open_paid-AllKeyed :
      (s : Store p) (date_key round_id : Text) (end_time : ℕ) (letters : Text)
      → AllKeyed s.dailies
      → AllKeyed (open_paid_daily p s date_key round_id end_time letters).0.dailies
  unfolding open_paid_daily
  open_paid-AllKeyed s date_key round_id end_time letters all =
      elim (Option-cases (lookup date_key s.dailies)) [
        | inl e ↦
            rw (e, open_paid_daily) (insert-AllKeyed s.dailies date_key _ refl empty-ByAddress all)
        | inr (d, e) ↦
            rw (e, open_paid_daily)
              (insert-AllKeyed s.dailies date_key _ (all date_key d e).0 (all date_key d e).1 all)
      ]

  submit_daily-ByAddress :
      (db : Option p.Db) (d : Daily) (s : Submission)
      → ByAddress d.submissions
      → ByAddress (submit_daily p db d s).1.submissions
        × ((submit_daily p db d s).1.date_key ≡ d.date_key)
  unfolding submit_daily
  submit_daily-ByAddress db d s keyed = elim (Bool-cases (is_beaten d.submissions s)) [
    | inl beaten ↦ rw beaten (keyed, refl)
    | inr better ↦ rw better (insert-ByAddress d.submissions s keyed, refl)
  ]

  pub submit-AllKeyed :
      (m : Map Daily) (db : Option p.Db) (key : Text) (d : Daily) (s : Submission)
      → lookup key m ≡ some d
      → AllKeyed m
      → AllKeyed (insert key (submit_daily p db d s).1 m)
  submit-AllKeyed m db key d s held all =
      let (keyed, dated) = submit_daily-ByAddress db d s (all key d held).1 in
      insert-AllKeyed m key _ (dated ∙ (all key d held).0) keyed all
