-- ===== src/Room/Answers.antt =====
-- internal/room/room.go, lines 256 to 279: the loop of `freshCode` has a code to find.
use wordbreak_backend.Base.{
  ℕ, zero, suc, ◌/◌, ◌%◌, ◌^◌, ◌<◌, ◌≤◌, ◌≡◌, ◌≢◌, refl, sym, ap, ◌∙◌, inl, inr, Bool, true, ◌&&◌,
  none, some, List, [], ◌∷◌, arith, Bool-cases, Option-cases, In, All, length, get_or, ◌==◌,
  if◌then◌else◌,
}
use wordbreak_backend.Base.Text.{Text, eq_text_iff}
use wordbreak_backend.Base.Assoc.{Map, lookup, delete, lookup-delete}
use wordbreak_backend.Room.{RoomView}
use wordbreak_backend.Room.Services.{Addresses, Services, Result}
use wordbreak_backend.Room.Manager.{Manager, CreateOpts, code_alphabet, rand_code, create}
use wordbreak_backend.Room.Creation.{create_answers}

length-delete : {V : Type 0} (k : Text) (m : Map V) → length (delete k m) ≤ length m
unfolding delete
length-delete k [] = omega arith
length-delete k ((j, w) ∷ m) = ground (arith, length-delete k m)

length-delete_held :
    {V : Type 0} (k : Text) (m : Map V) (v : V)
    → lookup k m ≡ some v
    → length (delete k m) < length m
unfolding lookup delete
length-delete_held k [] v h = absurd (cc h)
length-delete_held k ((j, w) ∷ m) v h = ground (arith, length-delete k m, length-delete_held k m v)

-- A map with fewer than `n` entries misses one of `n` different keys.
free_key :
    {V : Type 0} (key : ℕ → Text) (n : ℕ) (m : Map V)
    → ((i j : ℕ) → i < n → j < n → key i ≡ key j → i ≡ j)
    → length m < n
    → (i : ℕ) × (i < n) × (lookup (key i) m ≡ none)
free_key key zero m one few = absurd (omega arith)
free_key key (suc k) m one few = elim (Option-cases (lookup (key k) m)) [
  | inl free ↦ (k, omega arith, free)
  | inr (v, held) ↦
      let (i, low, free) =
        free_key key k (delete (key k) m)
          (λ a b la lb e. one a b (omega (arith, la)) (omega (arith, lb)) e)
          (omega (arith, length-delete_held (key k) m v held)) in
      let apart : key k ≢ key i =
        λ e. absurd (omega (arith, low, one k i (omega arith) (omega (arith, low)) e)) in
      (
        i,
        omega (arith, low),
        ground (arith, free, lookup-delete (key k) (key i) m, eq_text_iff (key k) (key i), apart),
      )
]

-- The place of a letter in the alphabet of codes.
place_in : Text → ℕ → ℕ
place_in [] c = 0
place_in (x ∷ xs) c = if x == c then 0 else suc (place_in xs c)

holds_below : ℕ → (ℕ → Bool) → Bool
holds_below zero f = true
holds_below (suc n) f = f n && holds_below n f

holds_at : (n : ℕ) (f : ℕ → Bool) → holds_below n f ≡ true → (i : ℕ) → i < n → f i ≡ true
unfolding holds_below
holds_at zero f h i low = absurd (omega arith)
holds_at (suc n) f h i low = elim (Bool-cases (i == n)) [
  | inl same ↦ let e : i ≡ n = ground arith in ap f e ∙ ground (arith, h)
  | inr other ↦ holds_at n f (ground (arith, h)) i (ground (arith, other, low))
]

letters_placed : holds_below 32 (λ i. place_in code_alphabet (get_or code_alphabet i 0) == i) ≡ true
unfolding holds_below place_in
letters_placed = refl

letter_one :
    (i j : ℕ) → i < 32 → j < 32 → get_or code_alphabet i 0 ≡ get_or code_alphabet j 0 → i ≡ j
letter_one i j li lj e =
    let f = λ (k : ℕ). place_in code_alphabet (get_or code_alphabet k 0) == k in
    let at_i : place_in code_alphabet (get_or code_alphabet i 0) ≡ i =
      eq (holds_at 32 f letters_placed i li) in
    let at_j : place_in code_alphabet (get_or code_alphabet j 0) ≡ j =
      eq (holds_at 32 f letters_placed j lj) in
    sym at_i ∙ ap (place_in code_alphabet) e ∙ at_j
  where
    eq : {a b : ℕ} → (a == b) ≡ true → a ≡ b
    eq h = ground (arith, h)

-- The four bytes of a number below 32 ^ 4, five bits in each.
abbrev bytes_of : ℕ → List ℕ
bytes_of n = n / 32768 % 32 ∷ n / 1024 % 32 ∷ n / 32 % 32 ∷ n % 32 ∷ []

rand_code_one :
    (i j : ℕ) → i < 32 ^ 4 → j < 32 ^ 4 → rand_code (bytes_of i) ≡ rand_code (bytes_of j) → i ≡ j
unfolding rand_code
rand_code_one i j li lj e =
    let digit : (a b : ℕ)
        → get_or code_alphabet (a % 32 % 32) 0 ≡ get_or code_alphabet (b % 32 % 32) 0
        → a % 32 ≡ b % 32 =
      λ a b h.
        omega (arith, letter_one (a % 32 % 32) (b % 32 % 32) (omega arith) (omega arith) h) in
    let at = λ (k : ℕ). ap (λ (t : Text). get_or t k 0) e in
    omega (
      arith,
      li,
      lj,
      digit (i / 32768) (j / 32768) (at 0),
      digit (i / 1024) (j / 1024) (at 1),
      digit (i / 32) (j / 32) (at 2),
      digit i j (at 3),
    )

-- While a manager holds fewer than 32 ^ 4 rooms, as many as there are codes of four letters, there
-- are four bytes such that `Create` returns as soon as a read of the random source gives them.
pub create_terminates :
    (eth : Addresses) (s : Services) (reads : ℕ → List ℕ) (m : Manager) (id name : Text)
    (opts : CreateOpts) (now : ℕ)
    → length m.rooms < 32 ^ 4
    → (buf : List ℕ) × (length buf ≡ 4)
      × All (λ (b : ℕ). b < 256) buf
      × ((bufs : List (List ℕ))
          → In buf bufs
          → (out : Manager × Result RoomView) × (create eth s bufs reads m id name opts now
              ≡ some out))
create_terminates eth s reads m id name opts now few =
    let (i, low, free) =
      free_key (λ n. rand_code (bytes_of n)) (32 ^ 4) m.rooms rand_code_one few in
    (
      bytes_of i,
      refl,
      (omega arith, (omega arith, (omega arith, (omega arith, tt)))),
      λ bufs here. create_answers eth s bufs reads m id name opts now (bytes_of i) here free,
    )
