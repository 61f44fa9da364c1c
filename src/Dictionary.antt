-- ===== src/Dictionary.antt =====
-- internal/dictionary/dictionary.go: the word list, the validity test and the words that a rack
-- spells. The set `words` is the list of its keys; the 26-slot arrays are functions of the index.
-- The embedded file's lines, as `bufio.Scanner` cuts them, are an argument.
pub mod Letters
pub mod Words
use wordbreak_backend.Base.{ℕ, suc, ◌-◌, Bool, true, false, not, ◌&&◌, ◌||◌, List, [], ◌∷◌}
use wordbreak_backend.Base.{leb, ltb, ◌==◌, if◌then◌else◌, length, filter}
use wordbreak_backend.Base.Text.{
  Text, UnicodeTables, to_upper, trim_space, byte_len, is_A_Z, has_text, add_key,
}

abbrev pub min_word_len : ℕ
min_word_len = 3

pub record Dictionary : Type 0 where
  pub words : List Text

-- `[26]int`.
abbrev pub Counts : Type 0
Counts = ℕ → ℕ

abbrev pub no_counts : Counts
no_counts i = 0

abbrev pub bump : ℕ → Counts → Counts
bump i c j = if i == j then suc (c j) else c j

unfoldable pub is_alpha : Text → Bool
is_alpha [] = true
is_alpha (r ∷ s) = if not (is_A_Z r) then false else is_alpha s

-- The loop of `letterCounts`.
unfoldable pub letter_counts_from : Counts → Text → Counts
letter_counts_from c [] = c
letter_counts_from c (r ∷ s) = letter_counts_from (if is_A_Z r then bump (r - 65) c else c) s

-- The loop of `canBuild`; `need` is what the runes before take.
unfoldable pub can_build_from : Counts → Counts → Text → Bool
can_build_from need have [] = true
can_build_from need have (r ∷ w) =
    let more = bump (r - 65) need in
    let rest = can_build_from more have w in
    if not (is_A_Z r) then false else if ltb (have (r - 65)) (more (r - 65)) then false else rest

unfoldable pub can_build : Text → Counts → Bool
unfolding can_build_from
can_build word have = can_build_from no_counts have word

unfoldable pub size : Dictionary → ℕ
size d = length d.words

-- In some order: a Go map has none.
unfoldable pub all_words : Dictionary → List Text
all_words d = d.words

module _ ⦃u : UnicodeTables⦄ where
  unfoldable pub letter_counts : Text → Counts
  unfolding letter_counts_from
  letter_counts s = letter_counts_from no_counts (to_upper s)

  -- One round of the loop of `newFromReader`.
  unfoldable pub scan_line : List Text → Text → List Text
  unfolding is_alpha
  scan_line words line =
      let w = to_upper (trim_space line) in
      if ltb (byte_len w) min_word_len || not (is_alpha w) then words else add_key words w

  scan_lines : List Text → List Text → List Text
  unfolding scan_line
  scan_lines words [] = words
  scan_lines words (l ∷ ls) = scan_lines (scan_line words l) ls

  unfoldable pub new_from_reader : List Text → Dictionary
  unfolding scan_lines
  new_from_reader lines = record { words = scan_lines [] lines }

  -- One round of the loop of `NewFromWords`.
  unfoldable pub take_word : List Text → Text → List Text
  unfolding is_alpha
  take_word words raw =
      let w = to_upper (trim_space raw) in
      if leb min_word_len (byte_len w) && is_alpha w then add_key words w else words

  take_words : List Text → List Text → List Text
  unfolding take_word
  take_words words [] = words
  take_words words (w ∷ ws) = take_words (take_word words w) ws

  unfoldable pub new_from_words : List Text → Dictionary
  unfolding take_words
  new_from_words ws = record { words = take_words [] ws }

  unfoldable pub contains : Dictionary → Text → Bool
  contains d word = has_text d.words (to_upper word)

  -- In the order of the set.
  unfoldable pub find_words : Dictionary → Text → List Text
  find_words d rack = let have = letter_counts rack in filter (λ w. can_build w have) d.words
