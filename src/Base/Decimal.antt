-- ===== src/Base/Decimal.antt =====
-- `big.Int`'s decimal form: `String` and `SetString(s, 10)`.
use Prim.Native.Nat.{ℕ, zero, suc, ◌+◌, ◌-◌, ◌*◌, ◌/◌, ◌%◌, ◌<◌, ◌≤◌}
use mathlib.Core.Path.{◌≡◌, refl, sym, ap, ◌∙◌}
use mathlib.Core.Logic.{inl, inr}
use mathlib.Core.Bool.{Bool, false, ◌&&◌}
use mathlib.Core.Option
use mathlib.Core.Option.{Option, none, some}
use mathlib.Core.List.{[], ◌∷◌, ◌++◌}
use native.Mathlib.Omega.{arith}
use wordbreak_backend.Base.Tests.{ltb, leb, ◌==◌, if◌then◌else◌, Bool-cases}
use wordbreak_backend.Base.Lists.{append_nil, append_assoc}
use wordbreak_backend.Base.Int.{ℤ, pos, sub_ℕ}
use wordbreak_backend.Base.Text.{Text}

abbrev pub is_digit : ℕ → Bool
is_digit c = leb b'0' c && leb c b'9'

-- The digits of `n`, on fuel: one round for each digit.
unfoldable pub digits : ℕ → ℕ → Text
digits zero n = []
digits (suc f) n =
    let more = digits f (n / 10) ++ (48 + n % 10) ∷ [] in if ltb n 10 then (48 + n) ∷ [] else more

-- `String` of a number that is not negative.
unfoldable pub show_ℕ : ℕ → Text
unfolding digits
show_ℕ n = digits (suc n) n

-- The number that digits continue, unless another rune is among them.
unfoldable pub read_digits : ℕ → Text → Option ℕ
read_digits n [] = some n
read_digits n (c ∷ s) = if is_digit c then read_digits (n * 10 + (c - 48)) s else none

abbrev pub read_some : Text → Option ℕ
read_some [] = none
read_some (c ∷ s) = read_digits 0 (c ∷ s)

-- `SetString` in base 10: a sign, and one digit at least.
unfoldable pub parse_int : Text → Option ℤ
parse_int [] = none
parse_int (c ∷ s) =
    if c == b'-'
    then Option.map (sub_ℕ 0) (read_some s)
    else if c == b'+'
    then Option.map pos (read_some s)
    else Option.map pos (read_some (c ∷ s))

read_digits-digits :
    (f n : ℕ) (rest : Text) → n < f → read_digits 0 (digits f n ++ rest) ≡ read_digits n rest
unfolding digits read_digits
read_digits-digits zero n rest h = elim h [ ]
read_digits-digits (suc f) n rest h = elim (Bool-cases (ltb n 10)) [
  | inl small ↦ rw small (ground arith)
  | inr large ↦
      rw (large, append_assoc (digits f (n / 10)) ((48 + n % 10) ∷ []) rest)
        (read_digits-digits f (n / 10) ((48 + n % 10) ∷ rest) (ground arith) ∙ ground arith)
]

pub digits_head :
    (f n : ℕ) → n < f → (c : ℕ) × (s : Text) × (digits f n ≡ c ∷ s) × (48 ≤ c) × (c ≤ 57)
unfolding digits
digits_head zero n h = elim h [ ]
digits_head (suc f) n h = elim (Bool-cases (ltb n 10)) [
  | inl small ↦ (48 + n, [], rw small, omega arith, ground arith)
  | inr large ↦
      let (c, s, e, lo, hi) = digits_head f (n / 10) (ground arith) in
      (c, s ++ (48 + n % 10) ∷ [], rw (large, e), lo, hi)
]

parse_digits :
    (c : ℕ) (s : Text) (n : ℕ)
    → 48 ≤ c
    → c ≤ 57
    → read_digits 0 (c ∷ s) ≡ some n
    → parse_int (c ∷ s) ≡ some (pos n)
unfolding parse_int
parse_digits c s n lo hi h =
    let minus : (c == b'-') ≡ false = ground arith in
    let plus : (c == b'+') ≡ false = ground arith in rw (minus, plus, h)

-- A number that is printed is read back.
pub parse_int-show_ℕ : (n : ℕ) → parse_int (show_ℕ n) ≡ some (pos n)
unfolding show_ℕ
parse_int-show_ℕ n =
    let (c, s, e, lo, hi) = digits_head (suc n) n (omega arith) in
    let whole : read_digits 0 (digits (suc n) n) ≡ some n =
      ap (read_digits 0) (sym (append_nil (digits (suc n) n)))
      ∙ read_digits-digits (suc n) n [] (omega arith)
      ∙ (unfold read_digits in refl) in
    rw e (parse_digits c s n lo hi (ap (read_digits 0) (sym e) ∙ whole))
