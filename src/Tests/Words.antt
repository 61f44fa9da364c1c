-- ===== src/Tests/Words.antt =====
-- The theorems on words, submissions and racks, at concrete inputs.
use wordbreak_backend.Base.{◌≤◌, ◌≡◌, refl, ◌↔◌, inl, ◌⊎◌, true, [], ◌∷◌, In, List}
use wordbreak_backend.Base.Text.{
  Text, text, ascii_tables, trim_space, has_text, eq_text, add_key, to_upper, byte_len,
}
use wordbreak_backend.Dictionary.{contains, new_from_words}
use wordbreak_backend.Dictionary.Words.{ComesFrom, contains-new_from_words}
use wordbreak_backend.Game.{
  Rejection, duplicate, word_points, fits_rack, letter_counts, score, score_words, score_word,
  judge,
}
use wordbreak_backend.Game.Verdicts.{IsPlayable, Breaks}
use wordbreak_backend.Game.Accepted.{In-accepted}
use wordbreak_backend.Game.Kept.{IsSubmitted}
use wordbreak_backend.Game.Rejected.{occurrences, rejected_sound}
use wordbreak_backend.Tests.{small}

abbrev submission : List Text
submission = text " cat" ∷ text "CART" ∷ text "Cat" ∷ text "" ∷ text "CUT" ∷ text "AX" ∷ []

submission-total : (score small (text "cartx") submission).total ≡ 3
unfolding score score_words score_word judge to_upper trim_space has_text byte_len fits_rack
    letter_counts contains eq_text add_key word_points
submission-total = refl

contains-new_from_words_example :
    (contains (new_from_words submission) (text "cat") ≡ true)
    ↔ ComesFrom submission (to_upper (text "cat"))
contains-new_from_words_example = contains-new_from_words submission (text "cat")

In-accepted_example :
    In (record { word = text "CART"; points = 2 }) (score small (text "cartx") submission).accepted
    ↔ (IsPlayable small (letter_counts (text "cartx")) (text "CART")
        × (2 ≡ word_points (byte_len (text "CART")))
        × IsSubmitted submission (text "CART"))
In-accepted_example =
    In-accepted small (text "cartx") submission (record { word = text "CART"; points = 2 })

abbrev repeated : Rejection
repeated = record { word = text "CAT"; reason = duplicate }

repeated-In : In repeated (score small (text "cartx") submission).rejected
unfolding score score_words score_word judge to_upper trim_space has_text byte_len fits_rack
    letter_counts contains eq_text add_key
repeated-In = inl refl

rejected_sound_example :
    (1 ≤ occurrences (text "CAT") submission)
    × (Breaks small (letter_counts (text "cartx")) (text "CAT") duplicate
        ⊎ (duplicate ≡ duplicate) × (2 ≤ occurrences (text "CAT") submission))
rejected_sound_example = rejected_sound small (text "cartx") submission repeated repeated-In
