-- ===== src/Base/Text.antt =====
-- Go strings as the program uses them: valid UTF-8, so a text is the list of its runes, and
-- `len` counts the bytes of their encoding. `strings.ToUpper`, `strings.TrimSpace` and `==`.
use Prim.Native.Char.{code}
use Prim.Native.String.{String}
use Prim.Native.Nat.{ℕ, ◌+◌, ◌-◌, ◌/◌, ◌%◌, ◌≤◌, ◌<◌}
use mathlib.Core.Path.{◌≡◌, refl, ap, ◌∙◌}
use mathlib.Core.Logic.{◌↔◌, ◌⊎◌, inl, inr, ◌≢◌}
use mathlib.Core.Bool.{Bool, true, false, ◌&&◌, ◌||◌}
use mathlib.Core.List.{List, [], ◌∷◌, ◌++◌, map}
use native.Mathlib.Omega.{arith}
use wordbreak_backend.Base.Tests.{ltb, leb, ◌==◌, if◌then◌else◌, Bool-cases}
use wordbreak_backend.Base.Lists.{
  In, length, Distinct, In-append, In-append_left, In-append_right, Distinct-snoc,
}

abbrev pub Text : Type 0
Text = List ℕ

-- The runes of a literal.
abbrev pub text : String → Text
text String.[] = []
text (String.◌∷◌ c s) = code c ∷ text s

unfoldable pub eq_text : Text → Text → Bool
eq_text [] [] = true
eq_text (a ∷ s) (b ∷ t) = a == b && eq_text s t
eq_text _ _ = false

pub eq_text_iff : (s t : Text) → (eq_text s t ≡ true) ↔ (s ≡ t)
unfolding eq_text
eq_text_iff [] [] = ground arith
eq_text_iff (a ∷ s) (b ∷ t) = ground (arith, eq_text_iff s t)
eq_text_iff [] (b ∷ t) = ground arith
eq_text_iff (a ∷ s) [] = ground arith

pub eq_text_refl : (s : Text) → eq_text s s ≡ true
eq_text_refl s = (eq_text_iff s s).1 refl

-- A Go `map[string]struct{}` or `map[string]bool` as the list of its keys.
unfoldable pub has_text : List Text → Text → Bool
has_text [] s = false
has_text (t ∷ ts) s = eq_text s t || has_text ts s

pub has_text_iff : (ts : List Text) (s : Text) → (has_text ts s ≡ true) ↔ In s ts
unfolding has_text
has_text_iff [] s = ground arith
has_text_iff (t ∷ ts) s = ground (arith, eq_text_iff s t, has_text_iff ts s)

unfoldable pub add_key : List Text → Text → List Text
add_key ts s = if has_text ts s then ts else ts ++ s ∷ []

pub In-add_key : (ts : List Text) (s t : Text) → In t (add_key ts s) ↔ (In t ts ⊎ (t ≡ s))
unfolding add_key
In-add_key ts s t = elim (Bool-cases (has_text ts s)) [
  | inl e ↦ rw e (inl, λ m. elim m [ inl old ↦ old | inr same ↦ rw same ((has_text_iff ts s).0 e) ])
  | inr e ↦ rw e (
    (λ m. elim (In-append t ts (s ∷ []) m) [
      | inl old ↦ inl old
      | inr last ↦ elim last [ inl same ↦ inr same | inr no_more ↦ absurd no_more ]
    ]),
    (λ m. elim m [
      | inl old ↦ In-append_left t ts (s ∷ []) old
      | inr same ↦ In-append_right t ts (s ∷ []) (inl same)
    ]),
  )
]

pub has_text_snoc :
    (ts : List Text) (s t : Text) → has_text (ts ++ s ∷ []) t ≡ (has_text ts t || eq_text t s)
unfolding has_text
has_text_snoc [] s t = ground arith
has_text_snoc (x ∷ ts) s t = ground (arith, has_text_snoc ts s t)

pub has_text-add_key_ne :
    (ts : List Text) (s t : Text)
    → s ≢ t
    → has_text ts t ≡ false
    → has_text (add_key ts s) t ≡ false
has_text-add_key_ne ts s t n h =
    ground (arith, has_text_iff (add_key ts s) t, has_text_iff ts t, In-add_key ts s t)

pub add_key-Distinct : (ts : List Text) (s : Text) → Distinct ts → Distinct (add_key ts s)
unfolding add_key
add_key-Distinct ts s d = elim (Bool-cases (has_text ts s)) [
  | inl e ↦ rw e d
  | inr e ↦ rw e (Distinct-snoc s ts d (λ m. ground (arith, has_text_iff ts s, m)))
]

-- The number of times that a rune stands in a text.
abbrev pub count : ℕ → Text → ℕ
count a [] = 0
count a (c ∷ s) = (if c == a then 1 else 0) + count a s

abbrev pub is_A_Z : ℕ → Bool
is_A_Z c = leb 65 c && leb c 90

-- Every rune is one of A-Z.
abbrev pub IsUpperAlpha : Text → Type 0
IsUpperAlpha [] = Unit {0}
IsUpperAlpha (c ∷ s) = (65 ≤ c) × (c ≤ 90) × IsUpperAlpha s

-- The bytes of a rune in UTF-8.
abbrev pub rune_len : ℕ → ℕ
rune_len c = if ltb c 0x80 then 1 else if ltb c 0x800 then 2 else if ltb c 0x10000 then 3 else 4

-- `len(s)`.
unfoldable pub byte_len : Text → ℕ
byte_len [] = 0
byte_len (c ∷ s) = rune_len c + byte_len s

-- The UTF-8 encoding, for the code that cuts a string at byte positions.
abbrev pub rune_bytes : ℕ → List ℕ
rune_bytes c =
    if ltb c 0x80
    then c ∷ []
    else if ltb c 0x800
    then (192 + c / 64) ∷ (128 + c % 64) ∷ []
    else if ltb c 0x10000
    then (224 + c / 4096) ∷ (128 + c / 64 % 64) ∷ (128 + c % 64) ∷ []
    else (240 + c / 262144) ∷ (128 + c / 4096 % 64) ∷ (128 + c / 64 % 64) ∷ (128 + c % 64) ∷ []

abbrev pub bytes : Text → List ℕ
bytes [] = []
bytes (c ∷ s) = rune_bytes c ++ bytes s

pub byte_len-eq-zero : (s : Text) → (byte_len s ≡ 0) ↔ (s ≡ [])
unfolding byte_len
byte_len-eq-zero [] = ground arith
byte_len-eq-zero (c ∷ s) = ground arith

-- Go's Unicode tables: `unicode.ToUpper` and `unicode.IsSpace` above ASCII. The laws are those of
-- the published tables: an upper case is its own upper case, and case does not make white space.
pub record UnicodeTables : Type 0 where
  pub upper : ℕ → ℕ
  pub space : ℕ → Bool
  pub upper_ascii : (c : ℕ) → 128 ≤ c → upper c < 128 → (65 ≤ upper c) × (upper c ≤ 90)
  pub upper_fixed : (c : ℕ) → 128 ≤ c → 128 ≤ upper c → upper (upper c) ≡ upper c
  pub upper_space : (c : ℕ) → 128 ≤ c → 128 ≤ upper c → space (upper c) ≡ space c
  pub ascii_space : (c : ℕ) → 128 ≤ c → upper c < 128 → space c ≡ false

module _ ⦃u : UnicodeTables⦄ where
  unfoldable pub to_upper_rune : ℕ → ℕ
  to_upper_rune c = if ltb c 128 then (if leb 97 c && leb c 122 then c - 32 else c) else u.upper c

  unfoldable pub is_space : ℕ → Bool
  is_space c = if ltb c 128 then (leb 9 c && leb c 13) || c == 32 else u.space c

  unfoldable pub to_upper : Text → Text
  unfolding to_upper_rune
  to_upper s = map to_upper_rune s

  trim_left : Text → Text
  unfolding is_space
  trim_left [] = []
  trim_left (c ∷ s) = if is_space c then trim_left s else c ∷ s

  trim_right : Text → Text
  unfolding is_space
  trim_right [] = []
  trim_right (c ∷ s) = elim (trim_right s) [
    | [] ↦ if is_space c then [] else c ∷ []
    | d ∷ t ↦ c ∷ d ∷ t
  ]

  -- `strings.TrimSpace`.
  unfoldable pub trim_space : Text → Text
  unfolding trim_left trim_right
  trim_space s = trim_right (trim_left s)

  to_upper_rune_idem : (c : ℕ) → to_upper_rune (to_upper_rune c) ≡ to_upper_rune c
  unfolding to_upper_rune
  to_upper_rune_idem c = ground (arith, u.upper_ascii c, u.upper_fixed c)

  is_space-upper : (c : ℕ) → is_space (to_upper_rune c) ≡ is_space c
  unfolding to_upper_rune is_space
  is_space-upper c = ground (arith, u.upper_ascii c, u.upper_space c, u.ascii_space c)

  pub to_upper_idem : (s : Text) → to_upper (to_upper s) ≡ to_upper s
  unfolding to_upper
  to_upper_idem [] = refl
  to_upper_idem (c ∷ s) = cc (to_upper_rune_idem c, to_upper_idem s)

  trim_left-upper : (s : Text) → trim_left (to_upper s) ≡ to_upper (trim_left s)
  unfolding trim_left to_upper
  trim_left-upper [] = refl
  trim_left-upper (c ∷ s) = ground (arith, is_space-upper c, trim_left-upper s)

  trim_right-upper : (s : Text) → trim_right (to_upper s) ≡ to_upper (trim_right s)
  unfolding trim_right to_upper
  trim_right-upper [] = refl
  trim_right-upper (c ∷ s) = ground (arith, is_space-upper c, trim_right-upper s)

  trim_right_idem : (s : Text) → trim_right (trim_right s) ≡ trim_right s
  unfolding trim_right
  trim_right_idem [] = refl
  trim_right_idem (c ∷ s) = ground (arith, trim_right_idem s)

  -- What `trim_left` leaves is empty or begins with a visible rune.
  trim_left_cases :
      (s : Text)
      → (trim_left s ≡ []) ⊎ ((c : ℕ) × (t : Text) × (trim_left s ≡ c ∷ t) × (is_space c ≡ false))
  unfolding trim_left
  trim_left_cases [] = inl refl
  trim_left_cases (c ∷ s) = elim (Bool-cases (is_space c)) [
    | inl e ↦ rw e (trim_left_cases s)
    | inr e ↦ inr (c, s, rw e, e)
  ]

  trim_left-trim_right :
      (c : ℕ) (t : Text) → is_space c ≡ false → trim_left (trim_right (c ∷ t)) ≡ trim_right (c ∷ t)
  unfolding trim_right trim_left
  trim_left-trim_right c t e = ground arith

  trim_space_idem : (s : Text) → trim_space (trim_space s) ≡ trim_space s
  unfolding trim_space
  trim_space_idem s = elim (trim_left_cases s) [
    | inl e ↦ rw e (unfold trim_left trim_right in refl)
    | inr (c, t, e, v) ↦ rw e (ap trim_right (trim_left-trim_right c t v) ∙ trim_right_idem (c ∷ t))
  ]

  trim_space-upper : (s : Text) → trim_space (to_upper s) ≡ to_upper (trim_space s)
  unfolding trim_space
  trim_space-upper s = ap trim_right (trim_left-upper s) ∙ trim_right-upper (trim_left s)

  -- A trimmed upper-case word is its own normal form.
  pub normal_idem :
      (s : Text) → to_upper (trim_space (to_upper (trim_space s))) ≡ to_upper (trim_space s)
  normal_idem s =
      ap to_upper (trim_space-upper (trim_space s) ∙ ap to_upper (trim_space_idem s))
      ∙ to_upper_idem (trim_space s)

  pub is_A_Z-upper : (c : ℕ) → is_A_Z c ≡ true → to_upper_rune c ≡ c
  unfolding to_upper_rune
  is_A_Z-upper c h = ground arith

  pub to_upper_of_IsUpperAlpha : (s : Text) → IsUpperAlpha s → to_upper s ≡ s
  unfolding to_upper
  to_upper_of_IsUpperAlpha [] h = refl
  to_upper_of_IsUpperAlpha (c ∷ s) h =
      ground (arith, is_A_Z-upper c, to_upper_of_IsUpperAlpha s h.2)

-- An A-Z word has as many bytes as runes.
pub byte_len_of_IsUpperAlpha : (s : Text) → IsUpperAlpha s → byte_len s ≡ length s
unfolding byte_len
byte_len_of_IsUpperAlpha [] h = refl
byte_len_of_IsUpperAlpha (c ∷ s) h = ground (arith, byte_len_of_IsUpperAlpha s h.2)

-- The tables of an ASCII-only world, at which the tests run.
instance abbrev pub ascii_tables : UnicodeTables
ascii_tables = record {
  upper = λ c. c;
  space = λ c. false;
  upper_ascii = λ c h k. absurd (omega arith);
  upper_fixed = λ c h k. refl;
  upper_space = λ c h k. refl;
  ascii_space = λ c h k. refl;
}
