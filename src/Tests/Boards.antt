-- ===== src/Tests/Boards.antt =====
-- The solver of a board, on a board of two by two.
use wordbreak_backend.Base.{◌≡◌, ◌↔◌, arith, refl, [], ◌∷◌, In}
use wordbreak_backend.Base.Text.{text, eq_text, has_text, add_key}
use wordbreak_backend.Grid.{
  Trie, insert, insert_from, new_trie, step, is_used, neighbors, visit_all, dfs, cells_from, solve,
}
use wordbreak_backend.Grid.Track.{IsTraceable}
use wordbreak_backend.Grid.Index.{IsOneOf}
use wordbreak_backend.Grid.Complete.{solve_iff}
use wordbreak_backend.Tests.{words}

abbrev small_trie : Trie
small_trie = new_trie words

board-words : solve small_trie (text "CATX") 2 2 ≡ text "CAT" ∷ text "ACT" ∷ []
unfolding solve new_trie insert insert_from step is_used neighbors visit_all dfs cells_from add_key
    has_text eq_text
board-words = refl

solve_iff_example :
    In (text "CAT") (solve small_trie (text "CATX") 2 2)
    ↔ IsTraceable (text "CATX") 2 2 (text "CAT") × IsOneOf words (text "CAT")
solve_iff_example = solve_iff words (text "CATX") 2 2 (text "CAT") (omega arith)
