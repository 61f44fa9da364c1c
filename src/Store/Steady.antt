-- ===== src/Store/Steady.antt =====
-- What stays of the rounds that a store holds, whatever is done with it.
use wordbreak_backend.Base.{
  ℕ, ◌≤◌, ◌≡◌, refl, subst, ◌∙◌, inl, inr, true, false, Option, some, arith, Option-cases,
  Bool-cases,
}
use wordbreak_backend.Base.Text.{Text, eq_text, eq_text_iff}
use wordbreak_backend.Base.Assoc.{Map, lookup, insert, lookup-insert, lookup-insert_self}
use wordbreak_backend.Store.{
  Store, Persister, Daily, Submission, get_or_create_daily, open_paid_daily, submit_daily,
  load_daily, fill_letters, is_beaten, lower, mark_paid,
}

-- Every result is kept, or gives way to one that is as good.
abbrev pub ScoresKept : Map Submission → Map Submission → Type 0
ScoresKept m n =
    (address : Text) (old : Submission)
    → lookup address m ≡ some old
    → (new : Submission) × (lookup address n ≡ some new) × (old.score ≤ new.score)

-- The rack of a round stays, a paid one stays paid, and no result is lost or gets worse.
pub record IsKept (d e : Daily) : Type 0 where
  pub letters_kept : e.letters ≡ d.letters
  pub paid_kept : d.paid ≡ true → e.paid ≡ true
  pub scores_kept : ScoresKept d.submissions e.submissions

scores_same : (m : Map Submission) → ScoresKept m m
scores_same m address old e = (old, e, omega arith)

pub IsKept-refl : (d : Daily) → IsKept d d
IsKept-refl d = record {
  letters_kept = refl;
  paid_kept = λ e. e;
  scores_kept = scores_same d.submissions;
}

pub IsKept-trans : (d e f : Daily) → IsKept d e → IsKept e f → IsKept d f
IsKept-trans d e f k l = record {
  letters_kept = l.letters_kept ∙ k.letters_kept;
  paid_kept = λ paid. l.paid_kept (k.paid_kept paid);
  scores_kept = λ address old h.
      let (mid, there, better) = k.scores_kept address old h in
      let (new, here, best) = l.scores_kept address mid there in (new, here, omega arith);
}

mark_paid-IsKept :
    (d : Daily) (round_id : Text) (end_time : ℕ) → IsKept d (mark_paid d round_id end_time)
mark_paid-IsKept d round_id end_time = record {
  letters_kept = refl;
  paid_kept = λ e. refl;
  scores_kept = scores_same d.submissions;
}

submit_keeps_scores :
    (m : Map Submission) (s : Submission)
    → is_beaten m s ≡ false
    → ScoresKept m (insert (lower s.address) s m)
unfolding is_beaten
submit_keeps_scores m s h address old e = elim (Bool-cases (eq_text (lower s.address) address)) [
  | inr other ↦ (old, lookup-insert (lower s.address) address s m ∙ rw other e, omega arith)
  | inl same ↦
      let key = (eq_text_iff (lower s.address) address).0 same in
      (
        s,
        lookup-insert (lower s.address) address s m ∙ rw same refl,
        (let there : lookup (lower s.address) m ≡ some old = rw key e in ground arith),
      )
]

-- Every round that `m` holds is there in `n`, as `IsKept` says.
abbrev pub Keeps : Map Daily → Map Daily → Type 0
Keeps m n =
    (date_key : Text) (d : Daily)
    → lookup date_key m ≡ some d
    → (e : Daily) × (lookup date_key n ≡ some e) × IsKept d e

pub Keeps-refl : (m : Map Daily) → Keeps m m
Keeps-refl m date_key d h = (d, h, IsKept-refl d)

pub Keeps-trans : (m n o : Map Daily) → Keeps m n → Keeps n o → Keeps m o
Keeps-trans m n o k l date_key d h =
    let (e, there, kept) = k date_key d h in
    let (f, here, kept') = l date_key e there in (f, here, IsKept-trans d e f kept kept')

-- A write of a round that keeps the one held under its date, if any.
pub insert-Keeps :
    (m : Map Daily) (key : Text) (new : Daily)
    → ((d : Daily) → lookup key m ≡ some d → IsKept d new)
    → Keeps m (insert key new m)
insert-Keeps m key new k date_key d h = elim (Bool-cases (eq_text key date_key)) [
  | inr other ↦ (d, lookup-insert key date_key new m ∙ rw other h, IsKept-refl d)
  | inl same ↦
      let there = (eq_text_iff key date_key).0 same in
      (new, lookup-insert key date_key new m ∙ rw same refl, k d (rw there h))
]

module _ (p : Persister) where
  pub submit_daily-IsKept :
      (q : Option p.Db) (d : Daily) (s : Submission) → IsKept d (submit_daily p q d s).1
  unfolding submit_daily
  submit_daily-IsKept q d s = elim (Bool-cases (is_beaten d.submissions s)) [
    | inl beaten ↦ rw (beaten, submit_daily) (IsKept-refl d)
    | inr better ↦
        rw (better, submit_daily)
          (record {
            letters_kept = refl;
            paid_kept = λ e. e;
            scores_kept = submit_keeps_scores d.submissions s better;
          })
  ]

  -- The round that a request gets is the one that the store holds from then on.
  pub get_or_create_held :
      (s : Store p) (date_key gen : Text)
      → let (t, d) = get_or_create_daily p s date_key gen in lookup date_key t.dailies ≡ some d
  unfolding get_or_create_daily
  get_or_create_held s date_key gen = elim (Option-cases (lookup date_key s.dailies)) [
    | inr (d, e) ↦ rw (e, get_or_create_daily) (rw (e, get_or_create_daily) refl)
    | inl e ↦
        rw (e, get_or_create_daily)
          (lookup-insert_self date_key (fill_letters (load_daily p s.persist date_key) gen)
            s.dailies)
  ]

  pub get_or_create-Keeps :
      (s : Store p) (date_key gen : Text)
      → Keeps s.dailies (get_or_create_daily p s date_key gen).0.dailies
  unfolding get_or_create_daily
  get_or_create-Keeps s date_key gen = elim (Option-cases (lookup date_key s.dailies)) [
    | inr (d, e) ↦ rw (e, get_or_create_daily) (Keeps-refl s.dailies)
    | inl e ↦
        rw (e, get_or_create_daily) (insert-Keeps s.dailies date_key _ (λ d h. absurd (cc (e, h))))
  ]

  pub open_paid-Keeps :
      (s : Store p) (date_key round_id : Text) (end_time : ℕ) (letters : Text)
      → Keeps s.dailies (open_paid_daily p s date_key round_id end_time letters).0.dailies
  unfolding open_paid_daily
  open_paid-Keeps s date_key round_id end_time letters =
      elim (Option-cases (lookup date_key s.dailies)) [
        | inr (d, e) ↦
            rw (e, open_paid_daily)
              (insert-Keeps s.dailies date_key _ (λ d' h.
                let same : d ≡ d' = ground arith in
                subst (λ x. IsKept x (mark_paid d round_id end_time)) same
                  (mark_paid-IsKept d round_id end_time)))
        | inl e ↦
            rw (e, open_paid_daily) (insert-Keeps s.dailies date_key _ (λ d h. absurd (cc (e, h))))
      ]
