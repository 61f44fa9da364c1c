-- ===== src/Db/Rows.antt =====
-- The rows of a date, and what `restore` makes of them.
use wordbreak_backend.Base.{
  ◌≡◌, refl, sym, subst, ap, ◌∙◌, inl, inr, ◌⊎◌, ◌≢◌, none, some, List, [], ◌∷◌, arith, In,
  Bool-cases,
}
use wordbreak_backend.Base.Text.{Text, eq_text, eq_text_iff, eq_text_refl}
use wordbreak_backend.Base.Assoc.{Map, lookup, insert, values, lookup-insert}
use wordbreak_backend.Store.{Submission, lower, restore}

-- A map that has each of its keys once.
abbrev pub Unique : Map Submission → Type 0
Unique [] = Unit {0}
Unique ((k, v) ∷ m) = (lookup k m ≡ none) × Unique m

pub insert-Unique :
    (k : Text) (v : Submission) (m : Map Submission) → Unique m → Unique (insert k v m)
unfolding insert lookup
insert-Unique k v [] d = (refl, tt)
insert-Unique k v ((j, w) ∷ m) d = elim (Bool-cases (eq_text j k)) [
  | inl same ↦ rw same (ap (λ (x : Text). lookup x m) (sym ((eq_text_iff j k).0 same)) ∙ d.0, d.1)
  | inr other ↦ rw other (
    (ground (arith, lookup-insert k j v m, eq_text_iff k j, eq_text_iff j k, d.0)),
    insert-Unique k v m d.1,
  )
]

pub lookup_of_values :
    (m : Map Submission) (v : Submission)
    → Unique m
    → In v (values m)
    → (k : Text) × (lookup k m ≡ some v)
unfolding lookup
lookup_of_values [] v d i = absurd i
lookup_of_values ((j, w) ∷ m) v d (inl e) = (j, rw (eq_text_refl j) (ap some (sym e)))
lookup_of_values ((j, w) ∷ m) v d (inr i) =
    let (k, there) = lookup_of_values m v d.1 i in
    elim (Bool-cases (eq_text j k)) [
      | inr other ↦ (k, rw other there)
      | inl same ↦
          absurd (cc (d.0, there, ap (λ (x : Text). lookup x m) ((eq_text_iff j k).0 same)))
    ]

-- What `restore` leaves under a key is one of the results with that key, if there is one.
pub restore_cases :
    (xs : List Submission) (m : Map Submission) (key : Text)
    → ((x : Submission) × In x xs × (lower x.address ≡ key) × (lookup key (restore m xs) ≡ some x))
      ⊎ (((x : Submission) → In x xs → lower x.address ≢ key)
          × (lookup key (restore m xs) ≡ lookup key m))
unfolding restore
restore_cases [] m key = inr (λ x i. absurd i, refl)
restore_cases (s ∷ xs) m key = elim (restore_cases xs (insert (lower s.address) s m) key) [
  | inl (x, i, e, found) ↦ inl (x, inr i, e, found)
  | inr (none_later, kept) ↦ elim (Bool-cases (eq_text (lower s.address) key)) [
    | inl same ↦ inl (
      s,
      inl refl,
      (eq_text_iff (lower s.address) key).0 same,
      kept ∙ lookup-insert (lower s.address) key s m ∙ rw same refl,
    )
    | inr other ↦ inr (
      λ x i. elim i [
        | inl here ↦ λ e. absurd (
            cc (
              other,
              (eq_text_iff (lower s.address) key).1
                  (subst (λ (y : Submission). lower y.address ≡ key) here e),
            ))
        | inr later ↦ none_later x later
      ],
      kept ∙ lookup-insert (lower s.address) key s m ∙ rw other refl,
    )
  ]
]
