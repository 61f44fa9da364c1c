-- ===== src/Grid/Track.antt =====
-- The paths that spell a word, on a board of at most 64 cells, without the solver's set of used
-- cells.
use wordbreak_backend.Base.{
  ℕ, zero, suc, ◌+◌, ◌*◌, ◌<◌, ◌≤◌, ◌≡◌, refl, subst, sym, inl, inr, ◌↔◌, false, List, [], ◌∷◌,
  arith, In, length, Bool-cases, ◌==◌,
}
use wordbreak_backend.Base.Text.{Text}
use wordbreak_backend.Grid.{is_used, cells_from}
use wordbreak_backend.Grid.Beside.{IsBeside, neighbors-IsBeside, beside-In}
use wordbreak_backend.Grid.Solve.{Trail, starts_at, moves_to, spell, IsTraced}
use wordbreak_backend.Grid.Paths.{Trail-bounds, cells_below}

-- Cells of the board, the last one first: each is beside the one before, and none comes twice.
pub data Track (w h : ℕ) : List ℕ → Type 0 where
  begins : (c : ℕ) → c < w * h → Track w h (c ∷ [])
  goes_on :
      (c d : ℕ) (path : List ℕ)
      → Track w h (c ∷ path)
      → IsBeside w h c d
      → ¬ In d (c ∷ path)
      → Track w h (d ∷ c ∷ path)

-- A text of three letters or more that the cells of such a path spell.
abbrev pub IsTraceable : Text → ℕ → ℕ → Text → Type 0
IsTraceable letters w h x =
    (path : List ℕ) × Track w h path × (x ≡ spell letters path) × (3 ≤ length x)

unused_iff : (used : List ℕ) (c : ℕ) → (is_used used c ≡ false) ↔ (¬ In c used)
unfolding is_used
unused_iff [] c = (λ e m. absurd m, λ n. refl)
unused_iff (x ∷ used) c = (
  λ e m. elim m [
    | inl same ↦ absurd (ground arith)
    | inr old ↦ (unused_iff used c).0 (ground arith) old
  ],
  λ n. elim (Bool-cases (x == c)) [
    | inl same ↦ absurd (n (inl (ground arith)))
    | inr other ↦ ground (arith, (unused_iff used c).1 (λ m. n (inr m)))
  ],
)

cells_above : (i n c : ℕ) → i ≤ c → c < i + n → In c (cells_from i n)
unfolding cells_from
cells_above i zero c low high = absurd (omega arith)
cells_above i (suc n) c low high = elim (Bool-cases (i == c)) [
  | inl same ↦ inl (ground arith)
  | inr other ↦ inr (cells_above (suc i) n c (ground arith) (omega arith))
]

module _ (w h : ℕ) (small : w * h ≤ 64) where
  Trail-Track : (path : List ℕ) → Trail w h path → Track w h path
  Trail-Track path (starts_at c m e) = begins c (omega (arith, cells_below 0 (w * h) c m))
  Trail-Track path (moves_to c d p trail near free) =
      let (low, fresh, same) = Trail-bounds w h (c ∷ p) trail small in
      goes_on c d p (Trail-Track (c ∷ p) trail) (neighbors-IsBeside w h c d near)
        ((unused_iff (c ∷ p) d).0 (subst (λ (used : List ℕ). is_used used d ≡ false) same free))

  Track-Trail : (path : List ℕ) → Track w h path → Trail w h path
  Track-Trail path (begins c low) =
      starts_at c (cells_above 0 (w * h) c (omega arith) (omega (arith, low)))
        ((unused_iff [] c).1 (λ m. m))
  Track-Trail path (goes_on c d p track beside new) =
      let trail = Track-Trail (c ∷ p) track in
      let (low, fresh, same) = Trail-bounds w h (c ∷ p) trail small in
      moves_to c d p trail (beside-In w h c d (wide w h d beside.on_board) beside) (
        subst (λ (used : List ℕ). is_used used d ≡ false) (sym same) ((unused_iff (c ∷ p) d).1 new))
    where
      wide : (a b k : ℕ) → k < a * b → 0 < a
      wide zero b k low = absurd (omega arith)
      wide (suc a) b k low = omega arith

  pub IsTraced-iff : (letters x : Text) → IsTraced letters w h x ↔ IsTraceable letters w h x
  IsTraced-iff letters x =
      (λ t. (t.0, Trail-Track t.0 t.1, t.2, t.3), λ t. (t.0, Track-Trail t.0 t.1, t.2, t.3))
