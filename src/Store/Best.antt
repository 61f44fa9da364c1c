-- ===== src/Store/Best.antt =====
-- The daily round keeps the best result of each player.
use wordbreak_backend.Base.{
  ◌≤◌, ◌≡◌, inl, inr, ◌⊎◌, true, false, Option, some, List, [], ◌∷◌, ◌++◌, arith, In, In-append,
  In-append_left, In-append_right, Bool-cases, Option-cases, leb, subst, sym, append_nil,
  append_assoc,
}
use wordbreak_backend.Base.Text.{Text, eq_text, eq_text_iff}
use wordbreak_backend.Base.Assoc.{lookup, lookup-insert, lookup-empty}
use wordbreak_backend.Store.{
  Submission, Persister, Daily, submit_daily, is_beaten, lower, new_daily,
}

-- What a round holds after the submissions `seen`: for each player, under the lower-cased
-- address, one of that player's own submissions, and none of them has a higher score.
pub record IsBest (seen : List Submission) (d : Daily) : Type 0 where
  pub own :
      (key : Text) (b : Submission)
      → lookup key d.submissions ≡ some b
      → In b seen × (lower b.address ≡ key)
  pub best :
      (s : Submission)
      → In s seen
      → (b : Submission) × (lookup (lower s.address) d.submissions ≡ some b) × (s.score ≤ b.score)

pub is_beaten_cases :
    (d : Daily) (s : Submission)
    → ((is_beaten d.submissions s ≡ true)
        × ((b : Submission) × (lookup (lower s.address) d.submissions ≡ some b)
            × (s.score ≤ b.score)))
      ⊎ (is_beaten d.submissions s ≡ false)
        × ((b : Submission) → lookup (lower s.address) d.submissions ≡ some b → b.score ≤ s.score)
unfolding is_beaten
is_beaten_cases d s = elim (Option-cases (lookup (lower s.address) d.submissions)) [
  | inl e ↦ inr (rw (e, is_beaten), λ b f. absurd (cc (e, f)))
  | inr (b, e) ↦ elim (Bool-cases (leb s.score b.score)) [
    | inl h ↦ inl (rw (e, is_beaten) h, (b, e, ground arith))
    | inr h ↦ inr (rw (e, is_beaten) h, λ c f. ground (arith, e, f))
  ]
]

module _ (p : Persister) where
  submit_daily-IsBest :
      (seen : List Submission) (db : Option p.Db) (d : Daily) (s : Submission)
      → IsBest seen d
      → IsBest (seen ++ s ∷ []) (submit_daily p db d s).1
  unfolding submit_daily
  submit_daily-IsBest seen db d s v = elim (is_beaten_cases d s) [
    | inl (h, old) ↦ rw h (record {
      own = λ key b e. let k = v.own key b e in (In-append_left b seen (s ∷ []) k.0, k.1);
      best = λ t m. elim (In-append t seen (s ∷ []) m) [
        | inl before ↦ v.best t before
        | inr last ↦ elim last [ inl same ↦ rw same old | inr no_more ↦ absurd no_more ]
      ];
    })
    | inr (h, better) ↦ rw h (record {
      own = λ key b e. elim (Bool-cases (eq_text (lower s.address) key)) [
        | inl same ↦
            let new : s ≡ b = ground (arith, lookup-insert (lower s.address) key s d.submissions) in
            (
              In-append_right b seen (s ∷ []) (inl (sym new)),
              subst (λ (t : Submission). lower t.address ≡ key) new
                  ((eq_text_iff (lower s.address) key).0 same),
            )
        | inr other ↦
            let k =
              v.own key b (ground (arith, lookup-insert (lower s.address) key s d.submissions)) in
            (In-append_left b seen (s ∷ []) k.0, k.1)
      ];
      best = λ t m. elim (In-append t seen (s ∷ []) m) [
        | inr last ↦ elim last [
          | inr no_more ↦ absurd no_more
          | inl same ↦ rw same (
            s,
            ground (
              arith,
              lookup-insert (lower s.address) (lower s.address) s d.submissions,
              eq_text_iff (lower s.address) (lower s.address),
            ),
            omega arith,
          )
        ]
        | inl before ↦
            let (b, e, le) = v.best t before in
            elim (Bool-cases (eq_text (lower s.address) (lower t.address))) [
              | inl same ↦ (
                s,
                ground (arith, lookup-insert (lower s.address) (lower t.address) s d.submissions),
                omega (
                  arith,
                  le,
                  better b (
                      subst (λ (k : Text). lookup k d.submissions ≡ some b)
                        (sym ((eq_text_iff (lower s.address) (lower t.address)).0 same)) e),
                ),
              )
              | inr other ↦ (
                b,
                ground
                    (arith, lookup-insert (lower s.address) (lower t.address) s d.submissions, e),
                le,
              )
            ]
      ];
    })
  ]

  -- The submissions of a day, in the order in which they come in.
  abbrev pub submit_all : Option p.Db → Daily → List Submission → Option p.Db × Daily
  submit_all db d [] = (db, d)
  submit_all db d (s ∷ subs) = submit_all (submit_daily p db d s).0 (submit_daily p db d s).1 subs

  submit_all_from :
      (seen subs : List Submission) (db : Option p.Db) (d : Daily)
      → IsBest seen d
      → IsBest (seen ++ subs) (submit_all db d subs).1
  submit_all_from seen [] db d v = rw (append_nil seen) v
  submit_all_from seen (s ∷ subs) db d v =
      subst (λ (xs : List Submission). IsBest xs (submit_all db d (s ∷ subs)).1)
        (append_assoc seen (s ∷ []) subs)
        (submit_all_from (seen ++ s ∷ []) subs _ _ (submit_daily-IsBest seen db d s v))

  -- After any submissions to a new round, it holds for each player, under the lower-cased address,
  -- one of that player's own submissions, and none of them has a higher score.
  pub submit_all-IsBest :
      (subs : List Submission) (db : Option p.Db) (date_key letters : Text)
      → IsBest subs (submit_all db (new_daily date_key letters) subs).1
  submit_all-IsBest subs db date_key letters = submit_all_from [] subs db _ (record {
    own = λ key b e. absurd (cc (lookup-empty Submission key, e));
    best = λ s m. absurd m;
  })
