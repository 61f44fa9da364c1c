-- ===== src/Grid/Ended.antt =====
-- internal/grid/trie.go: a trie in which `insert` marks the end of a word.
use wordbreak_backend.Base.{
  ℕ, ◌<◌, ◌≡◌, refl, sym, ap, ◌∙◌, ◌⊎◌, ◌↔◌, inl, inr, true, Option, some, List, [], ◌∷◌, ◌++◌,
  arith, length, set, get_or-set_self, get_or-set_ne, length-set, ◌==◌, if◌then◌else◌, Option-cases,
  Bool-cases,
}
use wordbreak_backend.Grid.{Trie, TrieNode, new_node, node_at, step}
use wordbreak_backend.Grid.Walk.{walk, Accepts, IsTidy, walk-step, walk-none, walk_nil, walk_addr}

-- The trie with a word that ends at `cur`.
abbrev pub ended : Trie → ℕ → Trie
ended t cur = record t { nodes = set t.nodes cur (record (node_at t cur) { is_word = true }) }

pub ended_children :
    (t : Trie) (cur i : ℕ)
    → cur < length t.nodes
    → (node_at (ended t cur) i).children ≡ (node_at t i).children
ended_children t cur i h = elim (Bool-cases (cur == i)) [
  | inr other ↦
      ap (λ (n : TrieNode). n.children)
        (get_or-set_ne t.nodes cur i (record (node_at t cur) { is_word = true }) new_node
          (ground arith))
  | inl same ↦
      let e : cur ≡ i = ground arith in
      rw⁻¹ e (
        ap (λ (n : TrieNode). n.children)
          (get_or-set_self t.nodes cur (record (node_at t cur) { is_word = true }) new_node h))
]

pub ended_word :
    (t : Trie) (cur i : ℕ)
    → cur < length t.nodes
    → (node_at (ended t cur) i).is_word ≡ (if cur == i then true else (node_at t i).is_word)
ended_word t cur i h = elim (Bool-cases (cur == i)) [
  | inr other ↦ rw other (
      ap (λ (n : TrieNode). n.is_word)
        (get_or-set_ne t.nodes cur i (record (node_at t cur) { is_word = true }) new_node
          (ground arith)))
  | inl same ↦
      let e : cur ≡ i = ground arith in
      rw same (
        rw⁻¹ e (
          ap (λ (n : TrieNode). n.is_word)
            (get_or-set_self t.nodes cur (record (node_at t cur) { is_word = true }) new_node h)))
]

pub step-ended :
    (t : Trie) (cur i c : ℕ) → cur < length t.nodes → step (ended t cur) i c ≡ step t i c
unfolding step
step-ended t cur i c h = rw (ended_children t cur i h) refl

pub walk-ended :
    (t : Trie) (cur : ℕ) (s : List ℕ) (i : ℕ)
    → cur < length t.nodes
    → walk (ended t cur) i s ≡ walk t i s
walk-ended t cur [] i h = walk_nil (ended t cur) i ∙ sym (walk_nil t i)
walk-ended t cur (c ∷ s) i h = elim (Option-cases (step t i c)) [
  | inl e ↦ walk-none (ended t cur) i c s (step-ended t cur i c h ∙ e) ∙ sym (walk-none t i c s e)
  | inr (k, e) ↦
      walk-step (ended t cur) i c k s (step-ended t cur i c h ∙ e)
      ∙ walk-ended t cur s k h
      ∙ sym (walk-step t i c k s e)
]

pub ended-IsTidy :
    (t : Trie) (addr : ℕ → List ℕ) (cur : ℕ)
    → cur < length t.nodes
    → IsTidy t addr
    → IsTidy (ended t cur) addr
ended-IsTidy t addr cur h tidy = record {
  root = tidy.root;
  down = λ i j k e.
      let (inside, at) =
        tidy.down i j k (sym (ap (λ (f : ℕ → Option ℕ). f j) (ended_children t cur i h)) ∙ e) in
      (
        omega (arith, inside, length-set t.nodes cur (record (node_at t cur) { is_word = true })),
        at,
      );
}

pub ended-Accepts :
    (t : Trie) (addr : ℕ → List ℕ) (cur : ℕ) (s : List ℕ)
    → cur < length t.nodes
    → IsTidy t addr
    → walk t 0 (addr cur) ≡ some cur
    → Accepts (ended t cur) s ↔ Accepts t s ⊎ (s ≡ addr cur)
ended-Accepts t addr cur s h tidy reach = (
  λ (i, leads, ends).
      let before = sym (walk-ended t cur s 0 h) ∙ leads in
      elim (Bool-cases (cur == i)) [
        | inr other ↦ inl (i, before, ground (arith, ended_word t cur i h))
        | inl same ↦
            let e : cur ≡ i = ground arith in
            inr (
              sym (
                ap addr e
                ∙ walk_addr t addr s 0 i tidy before
                ∙ ap (λ (p : List ℕ). p ++ s) tidy.root))
      ],
  λ h'. elim h' [
    | inl (i, leads, ends) ↦
        (i, walk-ended t cur s 0 h ∙ leads, ground (arith, ended_word t cur i h))
    | inr e ↦ (
      cur,
      walk-ended t cur s 0 h ∙ ap (walk t 0) e ∙ reach,
      ground (arith, ended_word t cur cur h),
    )
  ],
)
