-- ===== src/Grid/Solve.antt =====
-- What the solver of a board finds.
use wordbreak_backend.Base.{
  ℕ, zero, suc, ◌*◌, ◌≤◌, ◌≡◌, refl, inl, inr, ◌⊎◌, false, List, [], ◌∷◌, ◌++◌, arith, In, length,
  Option-cases, Bool-cases, subst, sym, get_or, ◌&&◌, leb,
}
use wordbreak_backend.Base.Text.{Text, add_key, In-add_key}
use wordbreak_backend.Dictionary.{min_word_len}
use wordbreak_backend.Grid.{
  Trie, step, is_used, visit_all, dfs, solve, record_word, neighbors, cells_from, mark, node_at,
}

-- The cells that a path has marked, its last cell first.
abbrev pub marks : List ℕ → List ℕ
marks [] = []
marks (c ∷ path) = mark (marks path) c

-- A path over the board, its last cell first: it starts on a cell of the board, and every move
-- goes to a neighbor that is not marked.
pub data Trail (w h : ℕ) : List ℕ → Type 0 where
  starts_at : (c : ℕ) → In c (cells_from 0 (w * h)) → is_used [] c ≡ false → Trail w h (c ∷ [])
  moves_to :
      (c d : ℕ) (path : List ℕ)
      → Trail w h (c ∷ path)
      → In d (neighbors w h c)
      → is_used (marks (c ∷ path)) d ≡ false
      → Trail w h (d ∷ c ∷ path)

-- The letters along a path.
abbrev pub spell : Text → List ℕ → Text
spell letters [] = []
spell letters (c ∷ path) = spell letters path ++ get_or letters c 0 ∷ []

-- A word of three letters or more that is spelled along a path.
abbrev pub IsTraced : Text → ℕ → ℕ → Text → Type 0
IsTraced letters w h x =
    (path : List ℕ) × Trail w h path × (x ≡ spell letters path) × (3 ≤ length x)

pub visit_all_sound :
    (P : Text → Type 0) (visit : ℕ → List Text → List Text) (cells : List ℕ)
    → ((c : ℕ) → In c cells → (f : List Text) (x : Text) → In x (visit c f) → In x f ⊎ P x)
    → (found : List Text) (x : Text) → In x (visit_all visit cells found)
    → In x found ⊎ P x
unfolding visit_all
visit_all_sound P visit [] one found x m = inl m
visit_all_sound P visit (c ∷ cells) one found x m =
    elim (visit_all_sound P visit cells (λ d n. one d (inr n)) (visit c found) x m) [
      | inl before ↦ one c (inl refl) found x before
      | inr new ↦ inr new
    ]

pub record_word_cases :
    (t : Trie) (node : ℕ) (buf : Text) (found : List Text) (x : Text)
    → In x (record_word t node buf found)
    → In x found ⊎ (x ≡ buf) × (3 ≤ length buf)
record_word_cases t node buf found x m =
    elim (Bool-cases ((node_at t node).is_word && leb min_word_len (length buf))) [
      | inr e ↦ inl (subst (λ f. In x f) (rw e) m)
      | inl e ↦
          let kept : In x (add_key found buf) = subst (λ f. In x f) (rw e) m in
          elim ((In-add_key found buf x).0 kept) [
            | inl old ↦ inl old
            | inr new ↦ inr (new, ground (arith, e))
          ]
    ]

module _ (t : Trie) (letters : Text) (w h : ℕ) where
  dfs_sound :
      (n node : ℕ) (path : List ℕ) (cell : ℕ)
      → (is_used (marks path) cell ≡ false → Trail w h (cell ∷ path))
      → (found : List Text) (x : Text)
      → In x (dfs n t letters w h node (marks path) (spell letters path) cell found)
      → In x found ⊎ IsTraced letters w h x
  unfolding dfs
  dfs_sound zero node path cell ready found x m = inl m
  dfs_sound (suc n) node path cell ready found x m = elim (Bool-cases (is_used (marks path) cell)) [
    | inl u ↦ inl (subst (λ f. In x f) (rw u) m)
    | inr u ↦ elim (Option-cases (step t node (get_or letters cell 0))) [
      | inl e ↦ inl (subst (λ f. In x f) (rw (u, e)) m)
      | inr (next, e) ↦
          let deeper : In x (
              visit_all
                (dfs n t letters w h next (marks (cell ∷ path)) (spell letters (cell ∷ path)))
                (neighbors w h cell) (record_word t next (spell letters (cell ∷ path)) found)) =
            subst (λ f. In x f) (rw (u, e)) m in
          elim (visit_all_sound (IsTraced letters w h) _ (neighbors w h cell)
            (λ d a f y.
              dfs_sound n next (cell ∷ path) d (λ free. moves_to cell d path (ready u) a free) f y)
            _ x deeper) [
              | inr new ↦ inr new
              | inl kept ↦ elim (record_word_cases t next _ found x kept) [
                | inl old ↦ inl old
                | inr (same, long) ↦
                    inr (cell ∷ path, ready u, same, subst (λ y. 3 ≤ length y) (sym same) long)
              ]
            ]
    ]
  ]

  -- Every word that `Solve` returns has three letters or more and is spelled along a path of
  -- neighboring cells, none of which the path has marked before.
  pub solve-IsTraced : (x : Text) → In x (solve t letters w h) → IsTraced letters w h x
  unfolding solve
  solve-IsTraced x m =
      elim (visit_all_sound (IsTraced letters w h) _ (cells_from 0 (w * h))
        (λ c a f y. dfs_sound (suc (w * h)) 0 [] c (λ free. starts_at c a free) f y) [] x m) [
          | inl no_word ↦ absurd no_word
          | inr traced ↦ traced
        ]
