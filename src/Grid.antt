-- ===== src/Grid.antt =====
-- internal/grid: letter boards, the trie that prunes the search for words, and the generator.
-- A board has at most 64 cells with a bit in `used`; `used` is the list of the cells whose bit is
-- set. The recursion of `dfs` is on fuel; `solve` gives it one more than the board has cells.
pub mod Solve
pub mod Walk
pub mod Grow
pub mod Address
pub mod Ended
pub mod Index
pub mod Found
pub mod Beside
pub mod Paths
pub mod Track
pub mod Complete
pub mod Generated
pub mod Board
use wordbreak_backend.Base.{
  ℕ, zero, suc, ◌+◌, ◌-◌, ◌*◌, ◌/◌, ◌%◌, Bool, true, false, not, ◌&&◌, ◌||◌, Option, none, some,
  List, [], ◌∷◌, ◌++◌, ltb, leb, ◌==◌, if◌then◌else◌, length, get_or, set,
}
use wordbreak_backend.Base.Int.{ℤ, pos, pos_part, neg_part, sub_ℕ}
use wordbreak_backend.Base.Text.{
  Text, UnicodeTables, text, is_A_Z, has_text, add_key, to_upper, bytes,
}
use wordbreak_backend.Dictionary.{min_word_len}
use wordbreak_backend.Rack.{Rng, draw_letters}

-- `children` holds none for the code's -1.
pub record TrieNode : Type 0 where
  pub children : ℕ → Option ℕ
  pub is_word : Bool

abbrev pub new_node : TrieNode
new_node = record { children = λ i. none; is_word = false }

pub record Trie : Type 0 where
  pub nodes : List TrieNode

abbrev pub node_at : Trie → ℕ → TrieNode
node_at t i = get_or t.nodes i new_node

abbrev pub link : ℕ → ℕ → TrieNode → TrieNode
link i next n = record n { children = λ j. if j == i then some next else n.children j }

-- The loop of `insert`; a word with another byte than A-Z leaves the nodes made so far.
unfoldable pub insert_from : Trie → ℕ → List ℕ → Trie
insert_from t cur [] = record t {
  nodes = set t.nodes cur (record (node_at t cur) { is_word = true });
}
insert_from t cur (c ∷ w) =
    let grown : Trie = record {
      nodes = set t.nodes cur (link (c - 65) (length t.nodes) (node_at t cur)) ++ new_node ∷ [];
    } in
    let fresh = insert_from grown (length t.nodes) w in
    if not (is_A_Z c) then t else elim ((node_at t cur).children (c - 65)) [
      | none ↦ fresh
      | some next ↦ insert_from t next w
    ]

unfoldable pub insert : Trie → Text → Trie
insert t w = insert_from t 0 (bytes w)

unfoldable pub insert_all : Trie → List Text → Trie
insert_all t [] = t
insert_all t (w ∷ ws) = insert_all (insert t w) ws

unfoldable pub new_trie : List Text → Trie
unfolding insert_all
new_trie words = insert_all (record { nodes = new_node ∷ [] }) words

unfoldable pub step : Trie → ℕ → ℕ → Option ℕ
step t node c = if not (is_A_Z c) then none else (node_at t node).children (c - 65)

-- The bit of a cell from 64 on is zero.
unfoldable pub is_used : List ℕ → ℕ → Bool
is_used [] cell = false
is_used (c ∷ used) cell = c == cell || is_used used cell

abbrev pub mark : List ℕ → ℕ → List ℕ
mark used cell = if ltb cell 64 then cell ∷ used else used

-- `nr` and `nc`, each one more than in the code, from the differences `dr` and `dc` plus one.
abbrev pub neighbor : ℕ → ℕ → ℕ → ℕ → ℕ → List ℕ
neighbor w h cell dr dc =
    let nr = cell / w + dr in
    let nc = cell % w + dc in
    if (dr == 1 && dc == 1) || (ltb nr 1 || ltb h nr) || (ltb nc 1 || ltb w nc)
    then []
    else ((nr - 1) * w + (nc - 1)) ∷ []

-- The cells that the two loops of `dfs` visit, in their order.
unfoldable pub neighbors : ℕ → ℕ → ℕ → List ℕ
neighbors w h cell =
    neighbor w h cell 0 0
    ++ neighbor w h cell 0 1
    ++ neighbor w h cell 0 2
    ++ neighbor w h cell 1 0
    ++ neighbor w h cell 1 2
    ++ neighbor w h cell 2 0
    ++ neighbor w h cell 2 1
    ++ neighbor w h cell 2 2

-- One visit after another, on the set of the words found.
unfoldable pub visit_all : (ℕ → List Text → List Text) → List ℕ → List Text → List Text
visit_all visit [] found = found
visit_all visit (c ∷ cells) found = visit_all visit cells (visit c found)

abbrev pub record_word : Trie → ℕ → Text → List Text → List Text
record_word t node buf found =
    if (node_at t node).is_word && leb min_word_len (length buf) then add_key found buf else found

unfoldable pub dfs : ℕ → Trie → Text → ℕ → ℕ → ℕ → List ℕ → Text → ℕ → List Text → List Text
dfs zero t letters w h node used buf cell found = found
dfs (suc n) t letters w h node used buf cell found =
    if is_used used cell then found else elim (step t node (get_or letters cell 0)) [
      | none ↦ found
      | some next ↦
          let longer = buf ++ get_or letters cell 0 ∷ [] in
          visit_all (dfs n t letters w h next (mark used cell) longer) (neighbors w h cell)
            (record_word t next longer found)
    ]

-- 0, 1, ... of the loop over the starting cells.
unfoldable pub cells_from : ℕ → ℕ → List ℕ
cells_from i zero = []
cells_from i (suc n) = i ∷ cells_from (suc i) n

-- The words in some order. A path without a repeated cell has at most `w * h` cells.
unfoldable pub solve : Trie → Text → ℕ → ℕ → List Text
solve t letters w h = visit_all (dfs (suc (w * h)) t letters w h 0 [] []) (cells_from 0 (w * h)) []
