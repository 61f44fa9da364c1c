-- ===== src/Rack.antt =====
-- internal/rack/rack.go: racks drawn from the letter bags until one is playable. `math/rand` and
-- the FNV hash that seeds the daily rack are parameters, with the ranges that they document.
-- `size` is not negative: `make` panics for a negative capacity.
pub mod Balance
pub mod Playable
use wordbreak_backend.Base.{
  ℕ, zero, suc, ◌+◌, ◌-◌, ◌/◌, ◌<◌, ◌≡◌, List, [], ◌∷◌, ◌++◌, length, get_or, if◌then◌else◌, ltb,
  leb, ◌==◌,
}
use wordbreak_backend.Base.Int.{ℤ, pos, pos_part, neg_part, sub_ℕ}
use wordbreak_backend.Base.Text.{Text, UnicodeTables, text, count, to_upper}
use wordbreak_backend.Dictionary.{Dictionary, find_words}

abbrev pub consonant_bag : Text
consonant_bag = text "BBCCDDDDFFGGGHHJKLLLLMMNNNNNNPPRRRRRRSSSSTTTTTTVWWXYZ"

abbrev pub vowel_bag : Text
vowel_bag = text "AAAAEEEEEEIIIIOOOOUU"

pub record Result : Type 0 where
  pub letters : Text
  pub words : List Text

-- `*rand.Rand`: the state of the generator, `Intn` and `Shuffle`; `seeded` is
-- `rand.New(rand.NewSource(int64(fnv64a(key))))`.
pub record Rng : Type 1 where
  pub Source : Type 0
  pub intn : ℕ → Source → ℕ × Source
  pub shuffle : Text → Source → Text × Source
  pub seeded : Text → Source
  pub intn_lt : (n : ℕ) (g : Source) → 0 < n → (intn n g).0 < n
  pub shuffle_length : (s : Text) (g : Source) → length (shuffle s g).0 ≡ length s
  pub shuffle_count : (c : ℕ) (s : Text) (g : Source) → count c (shuffle s g).0 ≡ count c s

unfoldable pub min_words : ℕ → ℕ
min_words size =
    if leb size 3
    then 2
    else if size == 4
    then 4
    else if size == 5
    then 6
    else if size == 6
    then 10
    else if size == 7
    then 14
    else 18

-- Negative for a rack of fewer than two letters.
unfoldable pub vowel_count : ℕ → ℤ
vowel_count size =
    let v = if ltb (size / 3) 2 then 2 else size / 3 in
    if ltb size (v + 2) then sub_ℕ size 2 else pos v

abbrev pub max_tries : ℕ
max_tries = 300

module _ (rng : Rng) where
  open rng use {Source, intn, shuffle, seeded}

  -- `n` rounds of `b = append(b, bag[rng.Intn(len(bag))])`.
  unfoldable pub draw_letters : Text → ℕ → Text → Source → Text × Source
  draw_letters bag zero b g = (b, g)
  draw_letters bag (suc n) b g =
      let (i, g') = intn (length bag) g in draw_letters bag n (b ++ get_or bag i 0 ∷ []) g'

  module _ ⦃u : UnicodeTables⦄ where
    -- The first loop runs `nv` rounds, none if `nv` is negative; the second runs `size - nv`.
    unfoldable pub draw_rack : ℕ → Source → Text × Source
    unfolding draw_letters
    draw_rack size g =
        let nv = vowel_count size in
        let (vowels, g₁) = draw_letters vowel_bag (pos_part nv) [] g in
        let (b, g₂) = draw_letters consonant_bag (size + neg_part nv - pos_part nv) vowels g₁ in
        let (s, g₃) = shuffle b g₂ in (to_upper s, g₃)

    -- The loop of `generate` with `n` tries left.
    unfoldable pub try_racks : Dictionary → ℕ → ℕ → Result → Source → Result
    try_racks d size zero best g = best
    try_racks d size (suc n) best g =
        let (letters, g') = draw_rack size g in
        let words = find_words d letters in
        let drawn : Result = record { letters = letters; words = words } in
        let rest =
          try_racks d size n (if ltb (length best.words) (length words) then drawn else best) g' in
        if leb (min_words size) (length words) then drawn else rest

    unfoldable pub generate : Dictionary → ℕ → Source → Result
    unfolding try_racks
    generate d size g = try_racks d size max_tries (record { letters = []; words = [] }) g

    -- `g` is the source of a fresh random seed.
    unfoldable pub generate_solo : Dictionary → ℕ → Source → Result
    generate_solo d size g = generate d size g

    unfoldable pub generate_daily : Dictionary → Text → ℕ → Result
    generate_daily d date_key size = generate d size (seeded date_key)
