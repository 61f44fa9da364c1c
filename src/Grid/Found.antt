-- ===== src/Grid/Found.antt =====
-- What the solver finds with the trie of a word list.
use wordbreak_backend.Base.{
  ℕ, zero, suc, ◌*◌, ◌≡◌, ap, subst, ◌∙◌, inl, inr, ◌⊎◌, ◌&&◌, List, [], ◌∷◌, ◌++◌, arith, In,
  length, some, Option-cases, Bool-cases, get_or, leb,
}
use wordbreak_backend.Base.Text.{Text, add_key, In-add_key}
use wordbreak_backend.Dictionary.{min_word_len}
use wordbreak_backend.Grid.{
  Trie, step, is_used, visit_all, dfs, solve, record_word, neighbors, cells_from, mark, node_at,
  new_trie,
}
use wordbreak_backend.Grid.Walk.{walk, walk_nil, walk_snoc, Accepts}
use wordbreak_backend.Grid.Index.{IsOneOf, new_trie-Accepts}
use wordbreak_backend.Grid.Solve.{IsTraced, solve-IsTraced, visit_all_sound}

record_word_accepted :
    (t : Trie) (node : ℕ) (buf : Text) (found : List Text) (x : Text)
    → walk t 0 buf ≡ some node
    → In x (record_word t node buf found)
    → In x found ⊎ Accepts t x
record_word_accepted t node buf found x at m =
    elim (Bool-cases ((node_at t node).is_word && leb min_word_len (length buf))) [
      | inr e ↦ inl (subst (λ f. In x f) (rw e) m)
      | inl e ↦
          let kept : In x (add_key found buf) = subst (λ f. In x f) (rw e) m in
          elim ((In-add_key found buf x).0 kept) [
            | inl old ↦ inl old
            | inr new ↦ inr (node, ap (walk t 0) new ∙ at, ground (arith, e))
          ]
    ]

module _ (t : Trie) (letters : Text) (w h : ℕ) where
  dfs_accepted :
      (n node : ℕ) (used : List ℕ) (buf : Text) (cell : ℕ)
      → walk t 0 buf ≡ some node
      → (found : List Text) (x : Text) → In x (dfs n t letters w h node used buf cell found)
      → In x found ⊎ Accepts t x
  unfolding dfs
  dfs_accepted zero node used buf cell at found x m = inl m
  dfs_accepted (suc n) node used buf cell at found x m = elim (Bool-cases (is_used used cell)) [
    | inl u ↦ inl (subst (λ f. In x f) (rw u) m)
    | inr u ↦ elim (Option-cases (step t node (get_or letters cell 0))) [
      | inl e ↦ inl (subst (λ f. In x f) (rw (u, e)) m)
      | inr (next, e) ↦
          let longer = buf ++ get_or letters cell 0 ∷ [] in
          let there = walk_snoc t buf 0 node (get_or letters cell 0) next at e in
          let deeper : In x (
              visit_all (dfs n t letters w h next (mark used cell) longer) (neighbors w h cell)
                (record_word t next longer found)) =
            subst (λ f. In x f) (rw (u, e)) m in
          elim (visit_all_sound (Accepts t) _ (neighbors w h cell)
            (λ d a f y. dfs_accepted n next (mark used cell) longer d there f y) _ x deeper) [
              | inr new ↦ inr new
              | inl kept ↦ record_word_accepted t next longer found x there kept
            ]
    ]
  ]

  solve_accepted : (x : Text) → In x (solve t letters w h) → Accepts t x
  unfolding solve
  solve_accepted x m =
      elim (visit_all_sound (Accepts t) _ (cells_from 0 (w * h))
        (λ c a f y. dfs_accepted (suc (w * h)) 0 [] [] c (walk_nil t 0) f y) [] x m) [
          | inl no_word ↦ absurd no_word
          | inr accepted ↦ accepted
        ]

-- Every word that `Solve` returns for the trie of a word list is one of those words whose bytes are
-- all letters A-Z, has three letters or more, and is spelled along a path of neighboring cells,
-- none of which the path has marked before.
pub solve-IsOneOf :
    (words : List Text) (letters : Text) (w h : ℕ) (x : Text)
    → In x (solve (new_trie words) letters w h)
    → IsTraced letters w h x × IsOneOf words x
solve-IsOneOf words letters w h x m = (
  solve-IsTraced (new_trie words) letters w h x m,
  (new_trie-Accepts words x).0 (solve_accepted (new_trie words) letters w h x m),
)
