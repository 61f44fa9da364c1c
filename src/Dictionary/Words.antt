-- ===== src/Dictionary/Words.antt =====
-- What the constructors put into the set, what `Contains` answers and what `FindWords` finds.
use wordbreak_backend.Base.{
  ℕ, ◌≤◌, ◌≡◌, refl, sym, subst, ◌↔◌, ◌⊎◌, inl, inr, true, ◌&&◌, List, [], ◌∷◌, arith, leb, In, All,
  Distinct, In-filter, All_In, All-of_In, Bool-cases, ap,
}
use wordbreak_backend.Base.Text.{
  Text, UnicodeTables, IsUpperAlpha, count, to_upper, trim_space, byte_len, has_text_iff, add_key,
  In-add_key, add_key-Distinct, to_upper_of_IsUpperAlpha,
}
use wordbreak_backend.Dictionary.{
  Dictionary, is_alpha, can_build, letter_counts, scan_line, scan_lines, new_from_reader, take_word,
  take_words, new_from_words, contains, find_words, min_word_len,
}
use wordbreak_backend.Dictionary.Letters.{is_alpha_iff, can_build_iff}

-- A word that the dictionary may hold.
abbrev pub IsWord : Text → Type 0
IsWord w = IsUpperAlpha w × (3 ≤ byte_len w)

-- The set holds A-Z words of three letters or more, each once.
pub record IsValid (d : Dictionary) : Type 0 where
  pub shaped : All IsWord d.words
  pub unique : Distinct d.words

module _ ⦃u : UnicodeTables⦄ where
  abbrev pub normal : Text → Text
  normal s = to_upper (trim_space s)

  take_word_cases :
      (words : List Text) (raw : Text)
      → (IsWord (normal raw) × (take_word words raw ≡ add_key words (normal raw)))
        ⊎ ((¬ IsWord (normal raw)) × (take_word words raw ≡ words))
  unfolding take_word
  take_word_cases words raw =
      elim (Bool-cases (leb min_word_len (byte_len (normal raw)) && is_alpha (normal raw))) [
        | inl e ↦ inl (ground (arith, is_alpha_iff (normal raw)), rw e)
        | inr e ↦ inr (λ h. ground (arith, is_alpha_iff (normal raw), h), rw e)
      ]

  take_word-IsValid :
      (words : List Text) (raw : Text)
      → All IsWord words × Distinct words
      → All IsWord (take_word words raw) × Distinct (take_word words raw)
  take_word-IsValid words raw v = elim (take_word_cases words raw) [
    | inl (h, e) ↦ rw e (
      All-of_In IsWord _ (λ w m. elim ((In-add_key words (normal raw) w).0 m) [
        | inl old ↦ All_In IsWord w words v.0 old
        | inr same ↦ subst IsWord (sym same) h
      ]),
      add_key-Distinct words (normal raw) v.1,
    )
    | inr (h, e) ↦ rw e v
  ]

  take_words-IsValid :
      (words ws : List Text)
      → All IsWord words × Distinct words
      → All IsWord (take_words words ws) × Distinct (take_words words ws)
  unfolding take_words
  take_words-IsValid words [] v = v
  take_words-IsValid words (w ∷ ws) v =
      take_words-IsValid (take_word words w) ws (take_word-IsValid words w v)

  -- The words that a constructor takes in are distinct A-Z words of three letters or more.
  pub new_from_words-IsValid : (ws : List Text) → IsValid (new_from_words ws)
  unfolding new_from_words
  new_from_words-IsValid ws =
      let v = take_words-IsValid [] ws (tt, tt) in record { shaped = v.0; unique = v.1 }

  -- A text comes from a list of raw words: it is the normal form of one, and is a word.
  abbrev pub ComesFrom : List Text → Text → Type 0
  ComesFrom ws w = IsWord w × ((raw : Text) × In raw ws × (normal raw ≡ w))

  In-take_word :
      (words : List Text) (raw w : Text)
      → In w (take_word words raw) ↔ (In w words ⊎ (IsWord w × (normal raw ≡ w)))
  In-take_word words raw w = elim (take_word_cases words raw) [
    | inl (h, e) ↦ rw e (
      (λ m. elim ((In-add_key words (normal raw) w).0 m) [
        | inl old ↦ inl old
        | inr same ↦ inr (subst IsWord (sym same) h, sym same)
      ]),
      (λ m.
          (In-add_key words (normal raw) w).1
            (elim m [ inl old ↦ inl old | inr new ↦ inr (sym new.1) ])),
    )
    | inr (h, e) ↦
        rw e (
          inl,
          λ m. elim m [ inl old ↦ old | inr new ↦ absurd (h (subst IsWord (sym new.1) new.0)) ],
        )
  ]

  ComesFrom-uncons :
      (raw : Text) (ws : List Text) (w : Text)
      → ComesFrom (raw ∷ ws) w
      → (IsWord w × (normal raw ≡ w)) ⊎ ComesFrom ws w
  ComesFrom-uncons raw ws w (h, (r, inl e, n)) = inl (h, subst (λ x. normal x ≡ w) e n)
  ComesFrom-uncons raw ws w (h, (r, inr m, n)) = inr (h, (r, m, n))

  In-take_words :
      (words ws : List Text) (w : Text) → In w (take_words words ws) ↔ (In w words ⊎ ComesFrom ws w)
  unfolding take_words
  In-take_words words [] w = (inl, λ m. elim m [ inl old ↦ old | inr new ↦ absurd new.1.1 ])
  In-take_words words (raw ∷ ws) w =
      let ih = In-take_words (take_word words raw) ws w in
      let one = In-take_word words raw w in
      (
        (λ m. elim (ih.0 m) [
          | inl first ↦ elim (one.0 first) [
            | inl old ↦ inl old
            | inr new ↦ inr (new.0, (raw, inl refl, new.1))
          ]
          | inr later ↦ inr (later.0, (later.1.0, inr later.1.1, later.1.2))
        ]),
        (λ m. ih.1 (elim m [
          | inl old ↦ inl (one.1 (inl old))
          | inr new ↦ elim (ComesFrom-uncons raw ws w new) [
            | inl here ↦ inl (one.1 (inr here))
            | inr later ↦ inr later
          ]
        ])),
      )

  -- `Contains` holds of a query exactly when its upper case is the normal form of a given word
  -- that has three letters or more, all of them A-Z.
  pub contains-new_from_words :
      (ws : List Text) (q : Text)
      → (contains (new_from_words ws) q ≡ true) ↔ ComesFrom ws (to_upper q)
  unfolding contains new_from_words
  contains-new_from_words ws q =
      let stored = has_text_iff (take_words [] ws) (to_upper q) in
      let origin = In-take_words [] ws (to_upper q) in
      (
        (λ h. elim (origin.0 (stored.0 h)) [ inl none_yet ↦ absurd none_yet | inr new ↦ new ]),
        (λ c. stored.1 (origin.1 (inr c))),
      )

  -- `FindWords` returns the dictionary's words that the rack spells, and no others.
  pub In-find_words :
      (d : Dictionary) (rack w : Text)
      → In w (find_words d rack)
        ↔ (In w d.words × IsUpperAlpha w × ((c : ℕ) → count c w ≤ count c (to_upper rack)))
  unfolding find_words
  In-find_words d rack w =
      let kept = In-filter (λ v. can_build v (letter_counts rack)) w d.words in
      let fits = can_build_iff w rack in
      (
        (λ m. let k = kept.0 m in let f = fits.0 k.1 in (k.0, f.0, f.1)),
        (λ k. kept.1 (k.0, fits.1 (k.1, k.2))),
      )

  -- A word that `FindWords` returns is one that `Contains` accepts.
  pub contains_of_In-find_words :
      (d : Dictionary) (rack w : Text) → In w (find_words d rack) → contains d w ≡ true
  unfolding contains
  contains_of_In-find_words d rack w m =
      let k = (In-find_words d rack w).0 m in
      rw (to_upper_of_IsUpperAlpha w k.1) ((has_text_iff d.words w).1 k.0)

  -- The two constructors read a word the same way: one skips on the negated test of the other.
  pub new_from_reader-eq-new_from_words : (ls : List Text) → new_from_reader ls ≡ new_from_words ls
  unfolding new_from_reader new_from_words
  new_from_reader-eq-new_from_words ls = ap (λ ws. record { words = ws }) (loops [] ls)
    where
      rounds : (words : List Text) (l : Text) → scan_line words l ≡ take_word words l
      rounds words l = unfold scan_line take_word in ground arith

      loops : (words ls : List Text) → scan_lines words ls ≡ take_words words ls
      loops words [] = refl
      loops words (l ∷ ls) = rw (rounds words l) (loops (take_word words l) ls)
