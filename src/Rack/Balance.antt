-- ===== src/Rack/Balance.antt =====
-- The size of a rack and its vowels.
use wordbreak_backend.Base.{
  ℕ, zero, suc, ◌+◌, ◌-◌, ◌*◌, ◌≤◌, ◌<◌, ◌≡◌, [], ◌∷◌, ◌++◌, arith, length, length-append, get_or,
  max, All,
}
use wordbreak_backend.Base.Int.{pos_part, neg_part}
use wordbreak_backend.Base.Text.{
  Text, UnicodeTables, IsUpperAlpha, count, to_upper, to_upper_of_IsUpperAlpha,
}
use wordbreak_backend.Dictionary.Letters.{count_of_IsUpperAlpha}
use wordbreak_backend.Rack.{Rng, vowel_count, vowel_bag, consonant_bag, draw_letters, draw_rack}

-- How many of A, E, I, O and U a text holds.
abbrev pub vowels : Text → ℕ
vowels s = count b'A' s + count b'E' s + count b'I' s + count b'O' s + count b'U' s

-- Of a rack of four letters or more at least two are vowels and at least two consonants.
pub vowel_count_bounds :
    (size : ℕ)
    → 4 ≤ size
    → (2 ≤ pos_part (vowel_count size))
      × (pos_part (vowel_count size) + 2 ≤ size)
      × (neg_part (vowel_count size) ≡ 0)
unfolding vowel_count
vowel_count_bounds size h = ground arith

count-append : (c : ℕ) (s t : Text) → count c (s ++ t) ≡ count c s + count c t
count-append c [] t = omega arith
count-append c (x ∷ s) t = omega (arith, count-append c s t)

-- What a bag's letters have in common: they are A-Z, and each counts `k` as a vowel.
abbrev pub IsBag : ℕ → Text → Type 0
IsBag k = All (λ c. (65 ≤ c) × (c ≤ 90) × (vowels (c ∷ []) ≡ k))

vowel_bag-IsBag : IsBag 1 vowel_bag
vowel_bag-IsBag = omega arith

consonant_bag-IsBag : IsBag 0 consonant_bag
consonant_bag-IsBag = omega arith

get_or-All {κ} :
    (P : ℕ → Type κ) (bag : Text) (i d : ℕ) → i < length bag → All P bag → P (get_or bag i d)
get_or-All P [] i d h a = elim h [ ]
get_or-All P (c ∷ bag) zero d h a = a.0
get_or-All P (c ∷ bag) (suc i) d h a = get_or-All P bag i d (omega arith) a.1

IsUpperAlpha-snoc :
    (s : Text) (c : ℕ) → IsUpperAlpha s → 65 ≤ c → c ≤ 90 → IsUpperAlpha (s ++ c ∷ [])
IsUpperAlpha-snoc [] c a h k = (h, k, tt)
IsUpperAlpha-snoc (x ∷ s) c a h k = (a.0, a.1, IsUpperAlpha-snoc s c a.2 h k)

IsUpperAlpha-of_count :
    (s : Text) → ((c : ℕ) → 0 < count c s → (65 ≤ c) × (c ≤ 90)) → IsUpperAlpha s
IsUpperAlpha-of_count [] h = tt
IsUpperAlpha-of_count (x ∷ s) h =
    let first = h x (ground arith) in
    (first.0, first.1, IsUpperAlpha-of_count s (λ c k. h c (omega arith)))

module _ (rng : Rng) where
  -- What the loops keep: `n` more letters, `k * n` more vowels, A-Z throughout.
  draw_letters_lem :
      (k : ℕ) (bag : Text) (n : ℕ) (b : Text) (g : rng.Source)
      → 0 < length bag
      → IsBag k bag
      → IsUpperAlpha b
      → (length (draw_letters rng bag n b g).0 ≡ length b + n)
        × (vowels (draw_letters rng bag n b g).0 ≡ vowels b + k * n)
        × IsUpperAlpha (draw_letters rng bag n b g).0
  unfolding draw_letters
  draw_letters_lem k bag zero b g some_bag h a = (omega arith, omega arith, a)
  draw_letters_lem k bag (suc n) b g some_bag h a =
      let i = (rng.intn (length bag) g).0 in
      let c = get_or bag i 0 in
      let fits = get_or-All _ bag i 0 (rng.intn_lt (length bag) g some_bag) h in
      let ih =
        draw_letters_lem k bag n (b ++ c ∷ []) (rng.intn (length bag) g).1 some_bag h
          (IsUpperAlpha-snoc b c a fits.0 fits.1) in
      (
        omega (arith, ih.0, length-append b (c ∷ [])),
        omega (
          arith,
          ih.1,
          fits.2,
          count-append 65 b (c ∷ []),
          count-append 69 b (c ∷ []),
          count-append 73 b (c ∷ []),
          count-append 79 b (c ∷ []),
          count-append 85 b (c ∷ []),
        ),
        ih.2,
      )

  module _ ⦃u : UnicodeTables⦄ where
    -- Vowels from one bag and then consonants from another, shuffled and in upper case.
    abbrev pub mixed : Text → Text → ℕ → ℕ → rng.Source → Text
    mixed vowel_bag consonant_bag nv rest g =
        let (vs, g₁) = draw_letters rng vowel_bag nv [] g in
        let (b, g₂) = draw_letters rng consonant_bag rest vs g₁ in to_upper (rng.shuffle b g₂).0

    pub mixed_lem :
        (vowel_bag consonant_bag : Text) (nv rest : ℕ) (g : rng.Source)
        → 0 < length vowel_bag
        → 0 < length consonant_bag
        → IsBag 1 vowel_bag
        → IsBag 0 consonant_bag
        → let s = mixed vowel_bag consonant_bag nv rest g in
          (length s ≡ nv + rest) × (vowels s ≡ nv) × IsUpperAlpha s
    mixed_lem vowel_bag consonant_bag nv rest g v c vs_bag cs_bag =
        let first = draw_letters_lem 1 vowel_bag nv [] g v vs_bag tt in
        let second = draw_letters_lem 0 consonant_bag rest vs.0 vs.1 c cs_bag first.2 in
        let alpha : IsUpperAlpha s = IsUpperAlpha-of_count s (λ k h.
          count_of_IsUpperAlpha b.0 k second.2 (omega (arith, rng.shuffle_count k b.0 b.1))) in
        rw (to_upper_of_IsUpperAlpha s alpha) (
          omega (arith, first.0, second.0, rng.shuffle_length b.0 b.1),
          omega (
            arith,
            first.1,
            second.1,
            rng.shuffle_count 65 b.0 b.1,
            rng.shuffle_count 69 b.0 b.1,
            rng.shuffle_count 73 b.0 b.1,
            rng.shuffle_count 79 b.0 b.1,
            rng.shuffle_count 85 b.0 b.1,
          ),
          alpha,
        )
      where
        vs : Text × rng.Source
        vs = draw_letters rng vowel_bag nv [] g

        b : Text × rng.Source
        b = draw_letters rng consonant_bag rest vs.0 vs.1

        s : Text
        s = (rng.shuffle b.0 b.1).0

    -- A rack has the size asked for, and never fewer than two letters; all are A-Z, and as many
    -- are vowels as `vowelCount` says, none where that is negative.
    pub draw_rack_lem :
        (size : ℕ) (g : rng.Source)
        → (length (draw_rack rng size g).0 ≡ max size 2)
          × (vowels (draw_rack rng size g).0 ≡ pos_part (vowel_count size))
          × IsUpperAlpha (draw_rack rng size g).0
    unfolding draw_rack
    draw_rack_lem size g =
        let nv = pos_part (vowel_count size) in
        let (long, vs, upper) =
          mixed_lem vowel_bag consonant_bag nv (size + neg_part (vowel_count size) - nv) g
            (omega arith) (omega arith) vowel_bag-IsBag consonant_bag-IsBag in
        (unfold vowel_count in ground (arith, long), vs, upper)
