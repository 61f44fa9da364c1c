-- ===== src/Grid/Board.antt =====
-- internal/grid/grid.go: boards drawn until the solver finds enough words. A board has nine cells
-- or more where `vowelCount` keeps three consonants; for fewer than three cells it is negative.
use wordbreak_backend.Base.{
  ℕ, zero, suc, ◌+◌, ◌-◌, ◌*◌, ◌/◌, List, [], ltb, leb, if◌then◌else◌, length,
}
use wordbreak_backend.Base.Int.{ℤ, pos, pos_part, neg_part, sub_ℕ}
use wordbreak_backend.Base.Text.{Text, UnicodeTables, text, to_upper}
use wordbreak_backend.Rack.{Rng, draw_letters}
use wordbreak_backend.Grid.{Trie, solve}

abbrev pub consonant_bag : Text
consonant_bag = text "BBCCDDDDFFGGGHHJKLLLLMMNNNNNNPPRRRRRRSSSSTTTTTTVWWXYZ"

abbrev pub vowel_bag : Text
vowel_bag = text "AAAAAEEEEEEEIIIIIOOOOOUUU"

pub record Result : Type 0 where
  pub letters : Text
  pub width : ℕ
  pub height : ℕ
  pub words : List Text

unfoldable pub min_words : ℕ → ℕ
min_words size = if leb size 16 then 8 else if leb size 25 then 16 else 24

unfoldable pub vowel_count : ℕ → ℤ
vowel_count size =
    let v = if ltb (size / 3) 3 then 3 else size / 3 in
    if ltb size (v + 3) then sub_ℕ size 3 else pos v

abbrev pub max_tries : ℕ
max_tries = 300

module _ (rng : Rng) ⦃u : UnicodeTables⦄ where
  open rng use {Source, shuffle, seeded}

  unfoldable pub draw_grid : ℕ → Source → Text × Source
  draw_grid size g =
      let nv = vowel_count size in
      let (vowels, g₁) = draw_letters rng vowel_bag (pos_part nv) [] g in
      let (b, g₂) = draw_letters rng consonant_bag (size + neg_part nv - pos_part nv) vowels g₁ in
      let (s, g₃) = shuffle b g₂ in (to_upper s, g₃)

  -- The loop of `generate` with `n` tries left.
  unfoldable pub try_boards : Trie → ℕ → ℕ → ℕ → Result → Source → Result
  try_boards t w h zero best g = best
  try_boards t w h (suc n) best g =
      let (letters, g') = draw_grid (w * h) g in
      let words = solve t letters w h in
      let drawn : Result = record { letters = letters; width = w; height = h; words = words } in
      let rest =
        try_boards t w h n (if ltb (length best.words) (length words) then drawn else best) g' in
      if leb (min_words (w * h)) (length words) then drawn else rest

  unfoldable pub generate : Trie → ℕ → ℕ → Source → Result
  generate t w h g =
      try_boards t w h max_tries (record { letters = []; width = 0; height = 0; words = [] }) g

  unfoldable pub generate_solo : Trie → ℕ → ℕ → Source → Result
  generate_solo t w h g = generate t w h g

  unfoldable pub generate_daily : Trie → ℕ → ℕ → Text → Result
  generate_daily t w h date_key = generate t w h (seeded date_key)
