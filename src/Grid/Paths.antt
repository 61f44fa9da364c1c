-- ===== src/Grid/Paths.antt =====
-- The paths over a board: they are no longer than the board has cells, and run forward.
use wordbreak_backend.Base.{
  ℕ, zero, suc, ◌+◌, ◌*◌, ◌-◌, ◌/◌, ◌%◌, ◌<◌, ◌≤◌, ◌≡◌, refl, ap, subst, sym, ◌∙◌, inl, inr, ◌&&◌,
  ◌||◌, false, List, [], ◌∷◌, ◌++◌, arith, In, In-append, All, length, map, append_assoc,
  Bool-cases, get_or, ltb, ◌==◌, if◌then◌else◌,
}
use wordbreak_backend.Grid.{is_used, neighbors, neighbor, cells_from, mark}
use wordbreak_backend.Grid.Solve.{Trail, starts_at, moves_to, marks, spell}
use wordbreak_backend.Base.Text.{Text}

-- No number of the list comes again after itself.
abbrev Fresh : List ℕ → Type 0
Fresh [] = Unit {0}
Fresh (x ∷ xs) = (is_used xs x ≡ false) × Fresh xs

without : ℕ → List ℕ → List ℕ
without m [] = []
without m (x ∷ xs) = if x == m then without m xs else x ∷ without m xs

without_unused : (m : ℕ) (xs : List ℕ) → is_used xs m ≡ false → without m xs ≡ xs
unfolding without is_used
without_unused m [] h = refl
without_unused m (x ∷ xs) h = ground (arith, without_unused m xs)

length-without : (m : ℕ) (xs : List ℕ) → Fresh xs → length xs ≤ suc (length (without m xs))
unfolding without
length-without m [] h = omega arith
length-without m (x ∷ xs) (new, h) = elim (Bool-cases (x == m)) [
  | inl same ↦
      let e : x ≡ m = ground arith in
      let gone : without m xs ≡ xs = without_unused m xs (rw⁻¹ e new) in
      rw (same, gone) (omega arith)
  | inr other ↦ rw other (omega (arith, length-without m xs h))
]

without_used : (m x : ℕ) (xs : List ℕ) → is_used xs x ≡ false → is_used (without m xs) x ≡ false
unfolding without is_used
without_used m x [] h = refl
without_used m x (y ∷ xs) h = ground (arith, without_used m x xs)

without-Fresh : (m : ℕ) (xs : List ℕ) → Fresh xs → Fresh (without m xs)
unfolding without
without-Fresh m [] h = tt
without-Fresh m (x ∷ xs) (new, h) = elim (Bool-cases (x == m)) [
  | inl same ↦ rw same (without-Fresh m xs h)
  | inr other ↦ rw other (without_used m x xs new, without-Fresh m xs h)
]

without_below : (m : ℕ) (xs : List ℕ) → All (λ x. x < suc m) xs → All (λ x. x < m) (without m xs)
unfolding without
without_below m [] h = tt
without_below m (x ∷ xs) (low, h) = elim (Bool-cases (x == m)) [
  | inl same ↦ rw same (without_below m xs h)
  | inr other ↦ rw other (ground arith, without_below m xs h)
]

-- Numbers below `n` that are all different are `n` at most.
Fresh-bound : (n : ℕ) (xs : List ℕ) → Fresh xs → All (λ x. x < n) xs → length xs ≤ n
Fresh-bound zero [] h low = omega arith
Fresh-bound zero (x ∷ xs) h (low, _) = absurd (omega arith)
Fresh-bound (suc m) xs h low = omega (
  arith,
  length-without m xs h,
  Fresh-bound m (without m xs) (without-Fresh m xs h) (without_below m xs low),
)

pub cells_below : (i n c : ℕ) → In c (cells_from i n) → c < i + n
unfolding cells_from
cells_below i zero c m = absurd m
cells_below i (suc n) c (inl e) = omega (arith, e)
cells_below i (suc n) c (inr m) = omega (arith, cells_below (suc i) n c m)

row_major : (a b w h : ℕ) → a < h → b < w → a * w + b < w * h
row_major a b w zero ha hb = absurd (omega arith)
row_major zero b w (suc h) ha hb = omega arith
row_major (suc a) b w (suc h) ha hb = omega (arith, row_major a b w h (omega arith) hb)

neighbor_below : (w h cell dr dc d : ℕ) → In d (neighbor w h cell dr dc) → d < w * h
neighbor_below w h cell dr dc d m =
    let nr = cell / w + dr in
    let nc = cell % w + dc in
    let out = (dr == 1 && dc == 1) || (ltb nr 1 || ltb h nr) || (ltb nc 1 || ltb w nc) in
    elim (Bool-cases out) [
      | inl off ↦
          let gone : neighbor w h cell dr dc ≡ [] = rw off refl in
          absurd (subst (λ (xs : List ℕ). In d xs) gone m)
      | inr on ↦
          let one : neighbor w h cell dr dc ≡ ((nr - 1) * w + (nc - 1)) ∷ [] = rw on refl in
          elim (subst (λ (xs : List ℕ). In d xs) one m) [
            | inr none ↦ absurd none
            | inl e ↦
                rw e (row_major (nr - 1) (nc - 1) w h (ground (arith, on)) (ground (arith, on)))
          ]
    ]

abbrev Below : ℕ → List ℕ → Type 0
Below b xs = (d : ℕ) → In d xs → d < b

append-Below : (b : ℕ) (xs ys : List ℕ) → Below b xs → Below b ys → Below b (xs ++ ys)
append-Below b xs ys l r d m = elim (In-append d xs ys m) [ inl e ↦ l d e | inr e ↦ r d e ]

neighbors-Below : (w h cell : ℕ) → Below (w * h) (neighbors w h cell)
unfolding neighbors
neighbors-Below w h cell =
    let near = λ (dr dc d : ℕ). neighbor_below w h cell dr dc d in
    append-Below _ _ _
      (append-Below _ _ _
        (append-Below _ _ _
          (append-Below _ _ _
            (append-Below _ _ _
              (append-Below _ _ _ (append-Below _ _ _ (near 0 0) (near 0 1)) (near 0 2)) (near 1 0))
            (near 1 2))
          (near 2 0))
        (near 2 1))
      (near 2 2)

-- A way on from a cell, which visits no marked cell.
abbrev pub Runs : ℕ → ℕ → List ℕ → ℕ → List ℕ → Type 0
Runs w h used c [] = is_used used c ≡ false
Runs w h used c (d ∷ rest) =
    (is_used used c ≡ false) × In d (neighbors w h c) × Runs w h (mark used c) d rest

-- The letters of cells, the first cell first.
abbrev pub forward : Text → List ℕ → Text
forward letters = map (λ c. get_or letters c 0)

-- A way on from the last cell of a path.
abbrev pub RunsFrom : ℕ → ℕ → List ℕ → List ℕ → Type 0
RunsFrom w h [] rest = ⊥
RunsFrom w h (c ∷ path) rest = Runs w h (marks path) c rest

pub head_free : (w h : ℕ) (path : List ℕ) → Trail w h path → RunsFrom w h path []
head_free w h path (starts_at c m e) = e
head_free w h path (moves_to c d p trail near free) = free

abbrev pub IsBound : ℕ → ℕ → List ℕ → Type 0
IsBound w h path = All (λ x. x < w * h) path × Fresh path × (marks path ≡ path)

mark_small : (used : List ℕ) (c n : ℕ) → c < n → n ≤ 64 → mark used c ≡ c ∷ used
mark_small used c n low small = ground arith

-- The cells of a path are on the board and all different.
pub Trail-bounds : (w h : ℕ) (path : List ℕ) → Trail w h path → w * h ≤ 64 → IsBound w h path
Trail-bounds w h path (starts_at c m e) small =
    let low : c < w * h = omega (arith, cells_below 0 (w * h) c m) in
    ((low, tt), (e, tt), mark_small [] c (w * h) low small)
Trail-bounds w h path (moves_to c d p trail near free) small =
    let (low, fresh, same) = Trail-bounds w h (c ∷ p) trail small in
    let next = neighbors-Below w h c d near in
    (
      (next, low),
      (subst (λ (used : List ℕ). is_used used d ≡ false) same free, fresh),
      mark_small (marks (c ∷ p)) d (w * h) next small ∙ ap (λ (used : List ℕ). d ∷ used) same,
    )

-- So a path is no longer than the board has cells.
pub Trail-length : (w h : ℕ) (path : List ℕ) → Trail w h path → w * h ≤ 64 → length path ≤ w * h
Trail-length w h path trail small =
    let (low, fresh, same) = Trail-bounds w h path trail small in Fresh-bound (w * h) path fresh low

-- A path, and a way on from its end, from the first cell on.
pub Trail-Runs :
    (letters : Text) (w h : ℕ) (path : List ℕ)
    → Trail w h path
    → (rest : List ℕ) → RunsFrom w h path rest
    → (start : ℕ) × (more : List ℕ) × In start (cells_from 0 (w * h))
      × Runs w h [] start more
      × (forward letters (start ∷ more) ≡ spell letters path ++ forward letters rest)
      × (suc (length more) ≡ length path + length rest)
Trail-Runs letters w h path (starts_at c m e) rest runs = (c, rest, m, runs, refl, omega arith)
Trail-Runs letters w h path (moves_to c d p trail near free) rest runs =
    let (start, more, there, whole, same, count) =
      Trail-Runs letters w h (c ∷ p) trail (d ∷ rest) (head_free w h (c ∷ p) trail, near, runs) in
    (
      start,
      more,
      there,
      whole,
      same
          ∙ sym (
              append_assoc (spell letters (c ∷ p)) (get_or letters d 0 ∷ [])
                (forward letters rest)),
      omega (arith, count),
    )
