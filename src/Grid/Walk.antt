-- ===== src/Grid/Walk.antt =====
-- internal/grid/trie.go: the strings that lead through a trie, and the addresses of its nodes.
use wordbreak_backend.Base.{
  ℕ, zero, suc, ◌+◌, ◌-◌, ◌<◌, ◌≤◌, ◌≡◌, refl, sym, ap, ◌∙◌, inl, inr, true, Option, none, some,
  List, [], ◌∷◌, ◌++◌, arith, length, get_or, append_assoc, append_nil, Option-cases, Bool-cases,
}
use wordbreak_backend.Base.Text.{is_A_Z}
use wordbreak_backend.Grid.{Trie, TrieNode, new_node, node_at, step}

-- The node that a string leads to.
unfoldable pub walk : Trie → ℕ → List ℕ → Option ℕ
walk t i [] = some i
walk t i (c ∷ s) = elim (step t i c) [ none ↦ none | some k ↦ walk t k s ]

-- The string leads from the root to a node that ends a word.
abbrev pub Accepts : Trie → List ℕ → Type 0
Accepts t s = (i : ℕ) × (walk t 0 s ≡ some i) × ((node_at t i).is_word ≡ true)

-- Every node has an address, the string along its edges.
pub record IsTidy (t : Trie) (addr : ℕ → List ℕ) : Type 0 where
  pub root : addr 0 ≡ []
  pub down :
      (i j k : ℕ)
      → (node_at t i).children j ≡ some k
      → (k < length t.nodes) × (addr k ≡ addr i ++ (65 + j) ∷ [])

-- A node past the end reads as a new node.
pub get_or_past : (xs : List TrieNode) (i : ℕ) → length xs ≤ i → get_or xs i new_node ≡ new_node
get_or_past [] i h = refl
get_or_past (x ∷ xs) zero h = absurd (omega arith)
get_or_past (x ∷ xs) (suc i) h = get_or_past xs i (omega arith)

pub walk-step :
    (t : Trie) (i c k : ℕ) (s : List ℕ) → step t i c ≡ some k → walk t i (c ∷ s) ≡ walk t k s
unfolding walk
walk-step t i c k s e = rw (e, walk) refl

pub walk-none : (t : Trie) (i c : ℕ) (s : List ℕ) → step t i c ≡ none → walk t i (c ∷ s) ≡ none
unfolding walk
walk-none t i c s e = rw (e, walk) refl

pub walk_nil : (t : Trie) (i : ℕ) → walk t i [] ≡ some i
unfolding walk
walk_nil t i = refl

-- The first edge of a string that leads somewhere.
pub walk_cons :
    (t : Trie) (i c k : ℕ) (s : List ℕ)
    → walk t i (c ∷ s) ≡ some k
    → (n : ℕ) × (step t i c ≡ some n) × (walk t n s ≡ some k)
walk_cons t i c k s h = elim (Option-cases (step t i c)) [
  | inl e ↦ absurd (cc (walk-none t i c s e, h))
  | inr (n, e) ↦ (n, e, sym (walk-step t i c n s e) ∙ h)
]

pub walk_snoc :
    (t : Trie) (s : List ℕ) (i k c n : ℕ)
    → walk t i s ≡ some k
    → step t k c ≡ some n
    → walk t i (s ++ c ∷ []) ≡ some n
walk_snoc t [] i k c n h e =
    let same : i ≡ k = ground (arith, sym (walk_nil t i) ∙ h) in
    rw same (walk-step t k c n [] e ∙ walk_nil t n)
walk_snoc t (d ∷ s) i k c n h e =
    let (m, first, rest) = walk_cons t i d k s h in
    walk-step t i d m (s ++ c ∷ []) first ∙ walk_snoc t s m k c n rest e

pub step_child :
    (t : Trie) (i c n : ℕ)
    → step t i c ≡ some n
    → ((node_at t i).children (c - 65) ≡ some n) × (65 + (c - 65) ≡ c) × (is_A_Z c ≡ true)
unfolding step
step_child t i c n h = elim (Bool-cases (is_A_Z c)) [
  | inr bad ↦ absurd (ground arith)
  | inl good ↦ (ground arith, ground arith, good)
]

-- The address of the node that a string leads to.
pub walk_addr :
    (t : Trie) (addr : ℕ → List ℕ) (s : List ℕ) (i k : ℕ)
    → IsTidy t addr
    → walk t i s ≡ some k
    → addr k ≡ addr i ++ s
walk_addr t addr [] i k tidy h =
    let same : i ≡ k = ground (arith, sym (walk_nil t i) ∙ h) in rw same (sym (append_nil (addr k)))
walk_addr t addr (c ∷ s) i k tidy h =
    let (n, first, rest) = walk_cons t i c k s h in
    let (child, letter, _) = step_child t i c n first in
    let at_n : addr n ≡ addr i ++ c ∷ [] = rw⁻¹ letter ((tidy.down i (c - 65) n child).1) in
    walk_addr t addr s n k tidy rest
    ∙ ap (λ (p : List ℕ). p ++ s) at_n
    ∙ append_assoc (addr i) (c ∷ []) s
