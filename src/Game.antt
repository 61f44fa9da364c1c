-- ===== src/Game.antt =====
-- internal/game/score.go: the judgment of a submission. Points and totals are Go `int`s that a
-- request of at most 1 MB cannot bring near their bound, so they are not wrapped.
pub mod Points
pub mod Verdicts
pub mod Kept
pub mod Accepted
pub mod Rejected
pub mod Single
use wordbreak_backend.Base.{
  ℕ, ◌+◌, ◌-◌, ◌*◌, Bool, true, false, not, List, [], ◌∷◌, ◌++◌, ltb, leb, ◌==◌, if◌then◌else◌,
}
use wordbreak_backend.Base.Text.{
  Text, UnicodeTables, to_upper, trim_space, byte_len, is_A_Z, has_text, add_key,
}
use wordbreak_backend.Dictionary.{Dictionary, Counts, no_counts, bump, min_word_len}
use wordbreak_backend.Dictionary

pub data Reason : Type 0 where
  too_short not_in_rack not_a_word duplicate : Reason

pub record WordScore : Type 0 where
  pub word : Text
  pub points : ℕ

pub record Rejection : Type 0 where
  pub word : Text
  pub reason : Reason

pub record Result : Type 0 where
  pub total : ℕ
  pub accepted : List WordScore
  pub rejected : List Rejection

unfoldable pub word_points : ℕ → ℕ
word_points n =
    if ltb n 3
    then 0
    else if n == 3
    then 1
    else if n == 4
    then 2
    else if n == 5
    then 4
    else if n == 6
    then 6
    else if n == 7
    then 10
    else 10 + (n - 7) * 4

unfoldable pub letter_counts_from : Counts → Text → Counts
letter_counts_from c [] = c
letter_counts_from c (r ∷ s) = letter_counts_from (if is_A_Z r then bump (r - 65) c else c) s

unfoldable pub fits_rack_from : Counts → Counts → Text → Bool
fits_rack_from need have [] = true
fits_rack_from need have (r ∷ w) =
    let more = bump (r - 65) need in
    let rest = fits_rack_from more have w in
    if not (is_A_Z r) then false else if ltb (have (r - 65)) (more (r - 65)) then false else rest

unfoldable pub fits_rack : Text → Counts → Bool
unfolding fits_rack_from
fits_rack word have = fits_rack_from no_counts have word

abbrev pub is_empty : Text → Bool
is_empty [] = true
is_empty (c ∷ s) = false

-- The variables of the loop of `Score`.
pub record Progress : Type 0 where
  pub seen : List Text
  pub result : Result

abbrev pub reject : Progress → Text → Reason → Progress
reject p w why = record p {
  result = record (p.result) {
    rejected = p.result.rejected ++ record { word = w; reason = why } ∷ [];
  };
}

abbrev pub accept : Progress → Text → ℕ → Progress
accept p w n = record p {
  result = record (p.result) {
    total = p.result.total + n;
    accepted = p.result.accepted ++ record { word = w; points = n } ∷ [];
  };
}

abbrev pub no_result : Result
no_result = record { total = 0; accepted = []; rejected = [] }

module _ ⦃u : UnicodeTables⦄ where
  unfoldable pub letter_counts : Text → Counts
  unfolding letter_counts_from
  letter_counts s = letter_counts_from no_counts (to_upper s)

  -- The checks on a word that was not seen before.
  unfoldable pub judge : Dictionary → Counts → Progress → Text → Progress
  judge d have p w =
      if ltb (byte_len w) min_word_len
      then reject p w too_short
      else if not (fits_rack w have)
      then reject p w not_in_rack
      else if not (Dictionary.contains d w)
      then reject p w not_a_word
      else accept p w (word_points (byte_len w))

  -- One round of the loop of `Score`.
  unfoldable pub score_word : Dictionary → Counts → Progress → Text → Progress
  score_word d have p raw =
      let w = to_upper (trim_space raw) in
      if is_empty w
      then p
      else if has_text p.seen w
      then reject p w duplicate
      else judge d have (record p { seen = add_key p.seen w }) w

  unfoldable pub score_words : Dictionary → Counts → Progress → List Text → Progress
  score_words d have p [] = p
  score_words d have p (w ∷ ws) = score_words d have (score_word d have p w) ws

  unfoldable pub score : Dictionary → Text → List Text → Result
  unfolding score_words
  score d rack_letters words =
      (score_words d (letter_counts rack_letters) (record { seen = []; result = no_result })
        words).result
