-- ===== src/Grid/Complete.antt =====
-- The solver misses no word: every path that spells a word of the trie is followed to its end.
use wordbreak_backend.Base.{
  ℕ, zero, suc, ◌*◌, ◌<◌, ◌≤◌, ◌≡◌, refl, ap, subst, sym, ◌∙◌, inl, inr, ◌↔◌, ◌&&◌, true, List, [],
  ◌∷◌, ◌++◌, arith, In, Distinct, length, some, Option-cases, Bool-cases, get_or, leb, append_assoc,
  append_nil,
}
use wordbreak_backend.Base.Text.{Text, In-add_key, add_key-Distinct}
use wordbreak_backend.Dictionary.{min_word_len}
use wordbreak_backend.Grid.{
  Trie, step, is_used, visit_all, dfs, solve, record_word, neighbors, cells_from, mark, node_at,
  new_trie,
}
use wordbreak_backend.Grid.Walk.{walk, walk_nil, walk_cons, Accepts}
use wordbreak_backend.Grid.Index.{IsOneOf, new_trie-Accepts}
use wordbreak_backend.Grid.Found.{solve-IsOneOf}
use wordbreak_backend.Grid.Paths.{Runs, forward, Trail-length, Trail-Runs, head_free}
use wordbreak_backend.Grid.Solve.{IsTraced, spell}
use wordbreak_backend.Grid.Track.{IsTraceable, IsTraced-iff}

visit_all_keeps :
    (x : Text) (visit : ℕ → List Text → List Text) (cells : List ℕ)
    → ((c : ℕ) (f : List Text) → In x f → In x (visit c f))
    → (found : List Text) → In x found
    → In x (visit_all visit cells found)
unfolding visit_all
visit_all_keeps x visit [] keeps found m = m
visit_all_keeps x visit (c ∷ cells) keeps found m =
    visit_all_keeps x visit cells keeps (visit c found) (keeps c found m)

visit_all_hits :
    (x : Text) (visit : ℕ → List Text → List Text) (cells : List ℕ) (d : ℕ)
    → ((c : ℕ) (f : List Text) → In x f → In x (visit c f))
    → In d cells
    → ((f : List Text) → In x (visit d f))
    → (found : List Text) → In x (visit_all visit cells found)
unfolding visit_all
visit_all_hits x visit [] d keeps m hits found = absurd m
visit_all_hits x visit (c ∷ cells) d keeps (inl here) hits found =
    visit_all_keeps x visit cells keeps (visit c found)
      (subst (λ (k : ℕ). In x (visit k found)) here (hits found))
visit_all_hits x visit (c ∷ cells) d keeps (inr later) hits found =
    visit_all_hits x visit cells d keeps later hits (visit c found)

record_word_keeps :
    (t : Trie) (node : ℕ) (buf : Text) (found : List Text) (x : Text)
    → In x found
    → In x (record_word t node buf found)
record_word_keeps t node buf found x m =
    elim (Bool-cases ((node_at t node).is_word && leb min_word_len (length buf))) [
      | inr e ↦ rw e m
      | inl e ↦ rw e ((In-add_key found buf x).1 (inl m))
    ]

record_word_hits :
    (t : Trie) (node : ℕ) (buf : Text) (found : List Text)
    → (node_at t node).is_word ≡ true
    → 3 ≤ length buf
    → In buf (record_word t node buf found)
record_word_hits t node buf found word long =
    let e : ((node_at t node).is_word && leb min_word_len (length buf)) ≡ true = ground arith in
    rw e ((In-add_key found buf buf).1 (inr refl))

module _ (t : Trie) (letters : Text) (w h : ℕ) where
  dfs_keeps :
      (n node : ℕ) (used : List ℕ) (buf : Text) (cell : ℕ) (found : List Text) (x : Text)
      → In x found
      → In x (dfs n t letters w h node used buf cell found)
  unfolding dfs
  dfs_keeps zero node used buf cell found x m = m
  dfs_keeps (suc n) node used buf cell found x m = elim (Bool-cases (is_used used cell)) [
    | inl u ↦ rw u m
    | inr u ↦ elim (Option-cases (step t node (get_or letters cell 0))) [
      | inl e ↦ rw (u, e) m
      | inr (next, e) ↦
          let longer = buf ++ get_or letters cell 0 ∷ [] in
          rw (u, e)
            (visit_all_keeps x _ (neighbors w h cell)
              (λ c f k. dfs_keeps n next (mark used cell) longer c f x k) _
              (record_word_keeps t next longer found x m))
    ]
  ]

  dfs_complete :
      (rest : List ℕ) (n node : ℕ) (used : List ℕ) (buf : Text) (c k : ℕ) (found : List Text)
      → length rest < n
      → Runs w h used c rest
      → walk t node (forward letters (c ∷ rest)) ≡ some k
      → (node_at t k).is_word ≡ true
      → 3 ≤ length (buf ++ forward letters (c ∷ rest))
      → In (buf ++ forward letters (c ∷ rest)) (dfs n t letters w h node used buf c found)
  unfolding dfs
  dfs_complete rest zero node used buf c k found fuel runs leads word long = absurd (omega arith)
  dfs_complete [] (suc n) node used buf c k found fuel runs leads word long =
      let (next, e, stop) = walk_cons t node (get_or letters c 0) k [] leads in
      let at : next ≡ k = ground (arith, sym (walk_nil t next) ∙ stop) in
      let longer = buf ++ get_or letters c 0 ∷ [] in
      rw (runs, e)
        (visit_all_keeps longer _ (neighbors w h c)
          (λ d f m. dfs_keeps n next (mark used c) longer d f longer m) _
          (record_word_hits t next longer found (rw at word) long))
  dfs_complete (d ∷ rest) (suc n) node used buf c k found fuel (free, near, runs) leads word long =
      let (next, e, on) =
        walk_cons t node (get_or letters c 0) k (forward letters (d ∷ rest)) leads in
      let longer = buf ++ get_or letters c 0 ∷ [] in
      let whole : longer ++ forward letters (d ∷ rest) ≡ buf ++ forward letters (c ∷ d ∷ rest) =
        append_assoc buf (get_or letters c 0 ∷ []) (forward letters (d ∷ rest)) in
      rw (free, e)
        (visit_all_hits _ _ (neighbors w h c) d
          (λ a f m. dfs_keeps n next (mark used c) longer a f _ m) near
          (λ f.
            subst (λ (x : Text). In x (dfs n t letters w h next (mark used c) longer d f)) whole
              (dfs_complete rest n next (mark used c) longer d k f (omega (arith, fuel)) runs on
                word (subst (λ (x : Text). 3 ≤ length x) (sym whole) long)))
          _)

  solve_complete :
      (x : Text) → w * h ≤ 64 → IsTraced letters w h x → Accepts t x → In x (solve t letters w h)
  unfolding solve
  solve_complete x small (path, trail, spelled, long) (k, leads, word) =
      let (start, rest, there, runs, same, count) =
        Trail-Runs letters w h path trail [] (head_free w h path trail) in
      let whole : forward letters (start ∷ rest) ≡ x =
        same ∙ append_nil (spell letters path) ∙ sym spelled in
      let short = Trail-length w h path trail small in
      visit_all_hits x _ (cells_from 0 (w * h)) start
        (λ c f m. dfs_keeps (suc (w * h)) 0 [] [] c f x m) there
        (λ f.
          subst (λ (y : Text). In y (dfs (suc (w * h)) t letters w h 0 [] [] start f)) whole
            (dfs_complete rest (suc (w * h)) 0 [] [] start k f (omega (arith, count, short)) runs
              (ap (walk t 0) whole ∙ leads) word
              (subst (λ (y : Text). 3 ≤ length y) (sym whole) long)))
        []

visit_all-Distinct :
    (visit : ℕ → List Text → List Text) (cells : List ℕ)
    → ((c : ℕ) (f : List Text) → Distinct f → Distinct (visit c f))
    → (found : List Text) → Distinct found
    → Distinct (visit_all visit cells found)
unfolding visit_all
visit_all-Distinct visit [] one found d = d
visit_all-Distinct visit (c ∷ cells) one found d =
    visit_all-Distinct visit cells one (visit c found) (one c found d)

record_word-Distinct :
    (t : Trie) (node : ℕ) (buf : Text) (found : List Text)
    → Distinct found
    → Distinct (record_word t node buf found)
record_word-Distinct t node buf found d =
    elim (Bool-cases ((node_at t node).is_word && leb min_word_len (length buf))) [
      | inr e ↦ rw e d
      | inl e ↦ rw e (add_key-Distinct found buf d)
    ]

dfs-Distinct :
    (t : Trie) (letters : Text) (w h n node : ℕ) (used : List ℕ) (buf : Text) (cell : ℕ)
    (found : List Text)
    → Distinct found
    → Distinct (dfs n t letters w h node used buf cell found)
unfolding dfs
dfs-Distinct t letters w h zero node used buf cell found d = d
dfs-Distinct t letters w h (suc n) node used buf cell found d =
    elim (Bool-cases (is_used used cell)) [
      | inl u ↦ rw u d
      | inr u ↦ elim (Option-cases (step t node (get_or letters cell 0))) [
        | inl e ↦ rw (u, e) d
        | inr (next, e) ↦
            let longer = buf ++ get_or letters cell 0 ∷ [] in
            rw (u, e)
              (visit_all-Distinct _ (neighbors w h cell)
                (λ c f k. dfs-Distinct t letters w h n next (mark used cell) longer c f k) _
                (record_word-Distinct t next longer found d))
      ]
    ]

-- No word is found twice.
pub solve-Distinct : (t : Trie) (letters : Text) (w h : ℕ) → Distinct (solve t letters w h)
unfolding solve
solve-Distinct t letters w h =
    visit_all-Distinct _ (cells_from 0 (w * h))
      (λ c f d. dfs-Distinct t letters w h (suc (w * h)) 0 [] [] c f d) [] tt

-- On a board of at most 64 cells, with the trie of a word list, `Solve` returns exactly the strings
-- of three letters or more that are one of those words, all of whose bytes are letters A-Z, and are
-- spelled by a path of different cells of the board, each at most a row and a column away from the
-- one before it.
pub solve_iff :
    (words : List Text) (letters : Text) (w h : ℕ) (x : Text)
    → w * h ≤ 64
    → In x (solve (new_trie words) letters w h) ↔ IsTraceable letters w h x × IsOneOf words x
solve_iff words letters w h x small =
    let same = IsTraced-iff w h small letters x in
    (
      λ m. let (traced, one) = solve-IsOneOf words letters w h x m in (same.0 traced, one),
      λ (spelled, one).
          solve_complete (new_trie words) letters w h x small (same.1 spelled)
            ((new_trie-Accepts words x).1 one),
    )
