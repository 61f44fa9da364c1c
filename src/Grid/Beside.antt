-- ===== src/Grid/Beside.antt =====
-- internal/grid/solve.go, the loops of `dfs` over the neighbors of a cell.
use wordbreak_backend.Base.{
  ℕ, zero, suc, ◌+◌, ◌*◌, ◌-◌, ◌/◌, ◌%◌, ◌<◌, ◌≤◌, ◌≡◌, ◌≢◌, refl, ap, subst, sym, ◌∙◌, inl, inr,
  ◌⊎◌, ◌&&◌, ◌||◌, List, [], ◌∷◌, ◌++◌, arith, In, In-append, In-append_left, In-append_right,
  Bool-cases, ltb, ◌==◌,
}
use wordbreak_backend.Grid.{neighbors, neighbor}

-- Another cell of the board, at most a row and a column away.
pub record IsBeside (w h c d : ℕ) : Type 0 where
  pub on_board : d < w * h
  pub moved : c ≢ d
  pub row_up : c / w ≤ d / w + 1
  pub row_down : d / w ≤ c / w + 1
  pub column_left : c % w ≤ d % w + 1
  pub column_right : d % w ≤ c % w + 1

mul_step : (q a w : ℕ) → q < a → q * w + w ≤ a * w
mul_step q zero w h = absurd (omega arith)
mul_step zero (suc a) w h = omega arith
mul_step (suc q) (suc a) w h = omega (arith, mul_step q a w (omega arith))

split_at : (d w : ℕ) → 0 < w → (d / w * w + d % w ≡ d) × (d % w < w)
split_at d w h = omega arith

same_row : (p q x y w : ℕ) → p * w + x ≡ q * w + y → x < w → y < w → (p ≡ q) × (x ≡ y)
same_row p q x y w e hx hy = elim (three p q) [
  | inl less ↦ absurd (omega (arith, mul_step p q w less))
  | inr (inl more) ↦ absurd (omega (arith, mul_step q p w more))
  | inr (inr same) ↦ (same, omega (arith, ap (λ (k : ℕ). k * w) same))
]
  where
    three : (m n : ℕ) → (m < n) ⊎ (n < m) ⊎ (m ≡ n)
    three m n = ground arith

pub cell_at : (a b w : ℕ) → b < w → ((a * w + b) / w ≡ a) × ((a * w + b) % w ≡ b)
cell_at a b w h =
    let (whole, low) = split_at (a * w + b) w (omega arith) in
    same_row ((a * w + b) / w) a ((a * w + b) % w) b w whole low h

pub row_major : (a b w h : ℕ) → a < h → b < w → a * w + b < w * h
row_major a b w zero ha hb = absurd (omega arith)
row_major zero b w (suc h) ha hb = omega arith
row_major (suc a) b w (suc h) ha hb = omega (arith, row_major a b w h (omega arith) hb)

row_below : (a b w h : ℕ) → a * w + b < w * h → a < h
row_below a b w h low = elim (Bool-cases (ltb a h)) [
  | inl e ↦ ground arith
  | inr e ↦ elim (two a h (ground arith)) [
    | inl same ↦ absurd (omega (arith, ap (λ (k : ℕ). k * w) same))
    | inr more ↦ absurd (omega (arith, mul_step h a w more))
  ]
]
  where
    two : (m n : ℕ) → n ≤ m → (m ≡ n) ⊎ (n < m)
    two m n h = ground arith

-- What one turn of the loops visits.
neighbor_cases :
    (w h c dr dc d : ℕ)
    → In d (neighbor w h c dr dc)
    → (d ≡ (c / w + dr - 1) * w + (c % w + dc - 1))
      × ((dr ≢ 1) ⊎ (dc ≢ 1))
      × (1 ≤ c / w + dr)
      × (c / w + dr ≤ h)
      × (1 ≤ c % w + dc)
      × (c % w + dc ≤ w)
neighbor_cases w h c dr dc d m =
    let nr = c / w + dr in
    let nc = c % w + dc in
    elim (Bool-cases ((dr == 1 && dc == 1) || (ltb nr 1 || ltb h nr) || (ltb nc 1 || ltb w nc))) [
      | inl off ↦
          let gone : neighbor w h c dr dc ≡ [] = rw off refl in
          absurd (subst (λ (xs : List ℕ). In d xs) gone m)
      | inr on ↦
          let one : neighbor w h c dr dc ≡ ((nr - 1) * w + (nc - 1)) ∷ [] = rw on refl in
          elim (subst (λ (xs : List ℕ). In d xs) one m) [
            | inr none ↦ absurd none
            | inl e ↦ (
              e,
              ground (arith, on),
              ground (arith, on),
              ground (arith, on),
              ground (arith, on),
              ground (arith, on),
            )
          ]
    ]

neighbor-IsBeside :
    (w h c dr dc d : ℕ) → dr ≤ 2 → dc ≤ 2 → In d (neighbor w h c dr dc) → IsBeside w h c d
neighbor-IsBeside w h c dr dc d low_r low_c m =
    let (e, moves, r1, rh, c1, cw) = neighbor_cases w h c dr dc d m in
    let (row, column) = cell_at (c / w + dr - 1) (c % w + dc - 1) w (omega arith) in
    let row' : d / w ≡ c / w + dr - 1 = ap (λ (k : ℕ). k / w) e ∙ row in
    let column' : d % w ≡ c % w + dc - 1 = ap (λ (k : ℕ). k % w) e ∙ column in
    record {
      on_board =
          subst (λ (k : ℕ). k < w * h) (sym e)
            (row_major (c / w + dr - 1) (c % w + dc - 1) w h (omega arith) (omega arith));
      moved = λ same.
          let r0 : c / w ≡ d / w = ap (λ (k : ℕ). k / w) same in
          let c0 : c % w ≡ d % w = ap (λ (k : ℕ). k % w) same in
          elim moves [
            | inl away ↦ away (omega (arith, r0, row'))
            | inr away ↦ away (omega (arith, c0, column'))
          ];
      row_up = omega (arith, row');
      row_down = omega (arith, row');
      column_left = omega (arith, column');
      column_right = omega (arith, column');
    }

neighbor_hits :
    (w h c d dr dc : ℕ)
    → IsBeside w h c d
    → c / w + dr ≡ d / w + 1
    → c % w + dc ≡ d % w + 1
    → 0 < w
    → In d (neighbor w h c dr dc)
neighbor_hits w h c d dr dc v er ec wide =
    let (whole, low) = split_at d w wide in
    let (whole', low') = split_at c w wide in
    let below : d / w < h =
      row_below (d / w) (d % w) w h (subst (λ (k : ℕ). k < w * h) (sym whole) v.on_board) in
    let nr = c / w + dr in
    let nc = c % w + dc in
    elim (Bool-cases ((dr == 1 && dc == 1) || (ltb nr 1 || ltb h nr) || (ltb nc 1 || ltb w nc))) [
      | inl off ↦ elim (Bool-cases (dr == 1 && dc == 1)) [
        | inr turns ↦ absurd (ground (arith, off, turns, er, ec, low, below))
        | inl stays ↦
            let r0 : c / w ≡ d / w = ground (arith, stays, er) in
            let c0 : c % w ≡ d % w = ground (arith, stays, ec) in
            absurd (
              v.moved (
                sym whole'
                ∙ ap (λ (k : ℕ). k * w + c % w) r0
                ∙ ap (λ (k : ℕ). d / w * w + k) c0
                ∙ whole))
      ]
      | inr on ↦
          let there : d ≡ (nr - 1) * w + (nc - 1) =
            sym whole
            ∙ ap (λ (k : ℕ). k * w + d % w) (row_is er)
            ∙ ap (λ (k : ℕ). (nr - 1) * w + k) (row_is ec) in
          let one : neighbor w h c dr dc ≡ ((nr - 1) * w + (nc - 1)) ∷ [] = rw on refl in
          subst (λ (xs : List ℕ). In d xs) (sym one) (inl there)
    ]
  where
    row_is : {a b : ℕ} → a ≡ b + 1 → b ≡ a - 1
    row_is e = omega (arith, e)

abbrev Holds : (ℕ → Type 0) → List ℕ → Type 0
Holds P xs = (d : ℕ) → In d xs → P d

append-Holds : (P : ℕ → Type 0) (xs ys : List ℕ) → Holds P xs → Holds P ys → Holds P (xs ++ ys)
append-Holds P xs ys l r d m = elim (In-append d xs ys m) [ inl e ↦ l d e | inr e ↦ r d e ]

pub neighbors-IsBeside : (w h c : ℕ) → Holds (IsBeside w h c) (neighbors w h c)
unfolding neighbors
neighbors-IsBeside w h c =
    let near =
      λ (dr dc : ℕ) (r : dr ≤ 2) (k : dc ≤ 2) (d : ℕ). neighbor-IsBeside w h c dr dc d r k in
    append-Holds _ _ _
      (append-Holds _ _ _
        (append-Holds _ _ _
          (append-Holds _ _ _
            (append-Holds _ _ _
              (append-Holds _ _ _
                (append-Holds _ _ _ (near 0 0 (omega arith) (omega arith))
                  (near 0 1 (omega arith) (omega arith)))
                (near 0 2 (omega arith) (omega arith)))
              (near 1 0 (omega arith) (omega arith)))
            (near 1 2 (omega arith) (omega arith)))
          (near 2 0 (omega arith) (omega arith)))
        (near 2 1 (omega arith) (omega arith)))
      (near 2 2 (omega arith) (omega arith))

up_to_two : (n : ℕ) → n ≤ 2 → (n ≡ 0) ⊎ (n ≡ 1) ⊎ (n ≡ 2)
up_to_two n h = ground arith

-- The eight turns of the loops visit every cell beside.
pub beside-In : (w h c d : ℕ) → 0 < w → IsBeside w h c d → In d (neighbors w h c)
unfolding neighbors
beside-In w h c d wide v =
    let n = neighbor w h c in
    let dr = d / w + 1 - c / w in
    let dc = d % w + 1 - c % w in
    let x1 = n 0 0 in
    let x2 = x1 ++ n 0 1 in
    let x3 = x2 ++ n 0 2 in
    let x4 = x3 ++ n 1 0 in
    let x5 = x4 ++ n 1 2 in
    let x6 = x5 ++ n 2 0 in
    let x7 = x6 ++ n 2 1 in
    let up7 : In d x7 → In d (neighbors w h c) = In-append_left d x7 (n 2 2) in
    let up6 : In d x6 → In d (neighbors w h c) = λ m. up7 (In-append_left d x6 (n 2 1) m) in
    let up5 : In d x5 → In d (neighbors w h c) = λ m. up6 (In-append_left d x5 (n 2 0) m) in
    let up4 : In d x4 → In d (neighbors w h c) = λ m. up5 (In-append_left d x4 (n 1 2) m) in
    let up3 : In d x3 → In d (neighbors w h c) = λ m. up4 (In-append_left d x3 (n 1 0) m) in
    let up2 : In d x2 → In d (neighbors w h c) = λ m. up3 (In-append_left d x2 (n 0 2) m) in
    let up1 : In d x1 → In d (neighbors w h c) = λ m. up2 (In-append_left d x1 (n 0 1) m) in
    let er : c / w + dr ≡ d / w + 1 = omega (arith, v.row_up) in
    let ec : c % w + dc ≡ d % w + 1 = omega (arith, v.column_left) in
    let hit : (p q : ℕ) → dr ≡ p → dc ≡ q → In d (n p q) = λ p q e f.
      neighbor_hits w h c d p q v (ap (λ (k : ℕ). c / w + k) (sym e) ∙ er)
        (ap (λ (k : ℕ). c % w + k) (sym f) ∙ ec) wide in
    elim (up_to_two dr (omega (arith, v.row_down))) [
      | inl r ↦ elim (up_to_two dc (omega (arith, v.column_right))) [
        | inl k ↦ up1 (hit 0 0 r k)
        | inr (inl k) ↦ up2 (In-append_right d x1 (n 0 1) (hit 0 1 r k))
        | inr (inr k) ↦ up3 (In-append_right d x2 (n 0 2) (hit 0 2 r k))
      ]
      | inr (inl r) ↦ elim (up_to_two dc (omega (arith, v.column_right))) [
        | inl k ↦ up4 (In-append_right d x3 (n 1 0) (hit 1 0 r k))
        | inr (inl k) ↦ absurd (hit 1 1 r k)
        | inr (inr k) ↦ up5 (In-append_right d x4 (n 1 2) (hit 1 2 r k))
      ]
      | inr (inr r) ↦ elim (up_to_two dc (omega (arith, v.column_right))) [
        | inl k ↦ up6 (In-append_right d x5 (n 2 0) (hit 2 0 r k))
        | inr (inl k) ↦ up7 (In-append_right d x6 (n 2 1) (hit 2 1 r k))
        | inr (inr k) ↦ In-append_right d x7 (n 2 2) (hit 2 2 r k)
      ]
    ]
