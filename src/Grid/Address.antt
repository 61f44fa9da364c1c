-- ===== src/Grid/Address.antt =====
-- internal/grid/trie.go: the addresses of the nodes when one is added.
use wordbreak_backend.Base.{
  ℕ, suc, ◌+◌, ◌-◌, ◌<◌, ◌≡◌, ltb, refl, sym, ap, subst, ◌∙◌, inl, inr, true, false, some, List, [],
  ◌∷◌, ◌++◌, arith, length, set, length-set, length-append, ◌==◌, if◌then◌else◌, Bool-cases,
}
use wordbreak_backend.Base.Text.{is_A_Z}
use wordbreak_backend.Grid.{Trie, TrieNode, new_node, node_at, link}
use wordbreak_backend.Grid.Walk.{IsTidy, get_or_past}
use wordbreak_backend.Grid.Grow.{grown, grown_self, grown_other}

-- The addresses once a node is made at the end of an edge from `cur`.
abbrev pub addr_grown : Trie → (ℕ → List ℕ) → ℕ → ℕ → ℕ → List ℕ
addr_grown t addr cur c i = if i == length t.nodes then addr cur ++ c ∷ [] else addr i

pub length-grown : (t : Trie) (cur c : ℕ) → length (grown t cur c).nodes ≡ suc (length t.nodes)
length-grown t cur c =
    let n = link (c - 65) (length t.nodes) (node_at t cur) in
    omega (arith, length-append (set t.nodes cur n) (new_node ∷ []), length-set t.nodes cur n)

-- An edge starts at a node of the trie.
pub edge_inside : (t : Trie) (i j k : ℕ) → (node_at t i).children j ≡ some k → i < length t.nodes
edge_inside t i j k e = elim (Bool-cases (ltb i (length t.nodes))) [
  | inl inside ↦ ground arith
  | inr past ↦
      let gone = ap (λ (n : TrieNode). n.children j) (get_or_past t.nodes i (ground arith)) in
      absurd (cc (gone, e))
]

pub old_edge :
    (t : Trie) (addr : ℕ → List ℕ) (cur c i j k : ℕ)
    → IsTidy t addr
    → (node_at t i).children j ≡ some k
    → (k < length (grown t cur c).nodes)
      × (addr_grown t addr cur c k ≡ addr_grown t addr cur c i ++ (65 + j) ∷ [])
old_edge t addr cur c i j k tidy e =
    let (inside, at) = tidy.down i j k e in
    let start = edge_inside t i j k e in
    let old_k : (k == length t.nodes) ≡ false = ground arith in
    let old_i : (i == length t.nodes) ≡ false = ground arith in
    (omega (arith, inside, length-grown t cur c), rw (old_k, old_i) at)

pub new_edge :
    (t : Trie) (addr : ℕ → List ℕ) (cur c j k : ℕ)
    → cur < length t.nodes
    → is_A_Z c ≡ true
    → (j == c - 65) ≡ true
    → (link (c - 65) (length t.nodes) (node_at t cur)).children j ≡ some k
    → (k < length (grown t cur c).nodes)
      × (addr_grown t addr cur c k ≡ addr_grown t addr cur c cur ++ (65 + j) ∷ [])
new_edge t addr cur c j k h good this e =
    let at : k ≡ length t.nodes = ground arith in
    let new_k : (k == length t.nodes) ≡ true = ground arith in
    let old_cur : (cur == length t.nodes) ≡ false = ground arith in
    let letter : 65 + j ≡ c = ground arith in
    (omega (arith, at, length-grown t cur c), rw (new_k, old_cur, letter) refl)

pub grown-IsTidy :
    (t : Trie) (addr : ℕ → List ℕ) (cur c : ℕ)
    → cur < length t.nodes
    → is_A_Z c ≡ true
    → IsTidy t addr
    → IsTidy (grown t cur c) (addr_grown t addr cur c)
grown-IsTidy t addr cur c h good tidy = record {
  root = ground (arith, tidy.root);
  down = λ i j k e. elim (Bool-cases (cur == i)) [
    | inr other ↦
        let before =
          sym (ap (λ (n : TrieNode). n.children j) (grown_other t cur c i (ground arith))) ∙ e in
        old_edge t addr cur c i j k tidy before
    | inl same ↦
        let here : cur ≡ i = ground arith in
        let linked : (link (c - 65) (length t.nodes) (node_at t cur)).children j ≡ some k =
          sym (ap (λ (n : TrieNode). n.children j) (grown_self t cur c h))
          ∙ ap (λ (m : ℕ). (node_at (grown t cur c) m).children j) here
          ∙ e in
        elim (Bool-cases (j == c - 65)) [
          | inr elsewhere ↦
              let before : (node_at t cur).children j ≡ some k = ground (arith, linked) in
              subst
                (λ (m : ℕ).
                  (k < length (grown t cur c).nodes)
                  × (addr_grown t addr cur c k ≡ addr_grown t addr cur c m ++ (65 + j) ∷ []))
                here (old_edge t addr cur c cur j k tidy before)
          | inl this ↦
              subst
                (λ (m : ℕ).
                  (k < length (grown t cur c).nodes)
                  × (addr_grown t addr cur c k ≡ addr_grown t addr cur c m ++ (65 + j) ∷ []))
                here (new_edge t addr cur c j k h good this linked)
        ]
  ];
}
