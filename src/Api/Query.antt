-- ===== src/Api/Query.antt =====
-- internal/api/api.go: the number in a query.
use wordbreak_backend.Base.{
  ℕ, zero, suc, ◌+◌, ◌/◌, ◌%◌, ◌^◌, ◌≤◌, ◌<◌, max, leb, if◌then◌else◌, ◌≡◌, refl, sym, ap, ◌∙◌, inl,
  inr, some, [], ◌∷◌, ◌++◌, arith, Bool-cases, ltb, append_nil, append_assoc,
}
use wordbreak_backend.Base.Decimal.{digits, digits_head, show_ℕ}
use wordbreak_backend.Base.Text.{Text}
use wordbreak_backend.Api.{int_query, int64, clamp, query_digits, clamp_size, clamp_grid_size}

query_digits-digits :
    (f n : ℕ) (rest : Text)
    → n < f
    → query_digits 0 (digits f n ++ rest) ≡ query_digits (n % 2 ^ 64) rest
unfolding digits query_digits
query_digits-digits zero n rest h = elim h [ ]
query_digits-digits (suc f) n rest h = elim (Bool-cases (ltb n 10)) [
  | inl small ↦ rw small (ground arith)
  | inr large ↦
      rw (large, append_assoc (digits f (n / 10)) ((48 + n % 10) ∷ []) rest)
        (query_digits-digits f (n / 10) ((48 + n % 10) ∷ rest) (ground arith) ∙ ground arith)
]

int_query-show_ℕ : (n def : ℕ) → int_query (show_ℕ n) def ≡ int64 (n % 2 ^ 64)
unfolding show_ℕ int_query
int_query-show_ℕ n def =
    let (c, s, e, lo, hi) = digits_head (suc n) n (omega arith) in
    let whole : query_digits 0 (digits (suc n) n) ≡ some (n % 2 ^ 64) =
      ap (query_digits 0) (sym (append_nil (digits (suc n) n)))
      ∙ query_digits-digits (suc n) n [] (omega arith)
      ∙ (unfold query_digits in refl) in
    rw e (rw (ap (query_digits 0) (sym e) ∙ whole, int_query) refl)

-- The size between `lo` and `hi` that is nearest to a 64-bit number, which is negative from 2^63
-- on.
abbrev pub nearest : ℕ → ℕ → ℕ → ℕ
nearest lo hi k = if ltb k (2 ^ 63) then max lo (if leb k hi then k else hi) else lo

-- A decimal number in a query is taken modulo 2^64, as a number that is negative from 2^63 on, and
-- brought to the nearest size that is allowed: 4 to 8 letters in a rack, 4 to 6 cells in a row of a
-- grid.
pub query_sizes :
    (n def : ℕ)
    → (clamp_size (int_query (show_ℕ n) def) ≡ nearest 4 8 (n % 2 ^ 64))
      × (clamp_grid_size (int_query (show_ℕ n) def) ≡ nearest 4 6 (n % 2 ^ 64))
unfolding clamp_size clamp_grid_size
query_sizes n def =
    rw (int_query-show_ℕ n def)
      (sized (n % 2 ^ 64) 8 (omega arith), sized (n % 2 ^ 64) 6 (omega arith))
  where
    sized : (k hi : ℕ) → 4 ≤ hi → clamp 4 hi (int64 k) ≡ nearest 4 hi k
    sized k hi some_room = elim (Bool-cases (ltb k (2 ^ 63))) [
      | inl plus ↦ rw plus (ground arith)
      | inr minus ↦ rw minus refl
    ]
