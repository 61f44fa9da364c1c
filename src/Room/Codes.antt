-- ===== src/Room/Codes.antt =====
-- The codes that `freshCode` finds for rooms.
use wordbreak_backend.Base.{
  ℕ, zero, suc, ◌%◌, ◌<◌, ◌≡◌, refl, sym, ap, subst, inl, inr, none, some, List, [], ◌∷◌, arith,
  length, get_or, Option-cases, All, In,
}
use wordbreak_backend.Base.Text.{Text, UnicodeTables, to_upper, to_upper_rune}
use wordbreak_backend.Base.Assoc.{Map, lookup}
use wordbreak_backend.Room.{Room}
use wordbreak_backend.Room.Manager.{code_alphabet, rand_code, fresh_code}

-- A free code is one that `randCode` can make and that no room has.
pub fresh_code-free :
    (rooms : Map Room) (bufs : List (List ℕ)) (code : Text)
    → fresh_code rooms bufs ≡ some code
    → (lookup code rooms ≡ none) × ((buf : List ℕ) × (code ≡ rand_code buf))
unfolding fresh_code
fresh_code-free rooms [] code h = cc
fresh_code-free rooms (buf ∷ bufs) code h = elim (Option-cases (lookup (rand_code buf) rooms)) [
  | inl free ↦
      let e : rand_code buf ≡ code = ground arith in
      (subst (λ c. lookup c rooms ≡ none) e free, (buf, sym e))
  | inr (r, taken) ↦ fresh_code-free rooms bufs code (ground arith)
]

-- The code loop ends once the random source yields four bytes of a free code.
pub fresh_code_found :
    (rooms : Map Room) (bufs : List (List ℕ)) (buf : List ℕ)
    → In buf bufs
    → lookup (rand_code buf) rooms ≡ none
    → (code : Text) × (fresh_code rooms bufs ≡ some code)
unfolding fresh_code
fresh_code_found rooms [] buf m free = absurd m
fresh_code_found rooms (b ∷ bufs) buf m free = elim (Option-cases (lookup (rand_code b) rooms)) [
  | inl open_code ↦ (rand_code b, ground arith)
  | inr (r, taken) ↦ elim m [
    | inl same ↦ absurd (cc (taken, ap (λ c. lookup (rand_code c) rooms) same, free))
    | inr later ↦
        let (code, found) = fresh_code_found rooms bufs buf later free in
        (code, ground (arith, found))
  ]
]

-- A digit or an upper-case letter.
abbrev IsPlain : ℕ → Type 0
IsPlain c = (c < 97) × (c < 128)

pub get_or-All : (P : ℕ → Type 0) (xs : List ℕ) (i d : ℕ) → P d → All P xs → P (get_or xs i d)
get_or-All P [] i d h a = h
get_or-All P (x ∷ xs) zero d h a = a.0
get_or-All P (x ∷ xs) (suc i) d h a = get_or-All P xs i d h a.1

module _ ⦃u : UnicodeTables⦄ where
  to_upper_of_plain : (s : Text) → All IsPlain s → to_upper s ≡ s
  unfolding to_upper to_upper_rune
  to_upper_of_plain [] h = refl
  to_upper_of_plain (c ∷ s) h = ground (arith, to_upper_of_plain s h.1)

  rand_code-IsPlain : (buf : List ℕ) → All IsPlain (rand_code buf)
  unfolding rand_code
  rand_code-IsPlain [] = tt
  rand_code-IsPlain (b ∷ buf) = (
    get_or-All IsPlain code_alphabet (b % length code_alphabet) 0 (omega arith) (omega arith),
    rand_code-IsPlain buf,
  )

  -- A code that `randCode` makes is its own upper case.
  pub to_upper-rand_code : (buf : List ℕ) → to_upper (rand_code buf) ≡ rand_code buf
  to_upper-rand_code buf = to_upper_of_plain (rand_code buf) (rand_code-IsPlain buf)
