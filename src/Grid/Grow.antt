-- ===== src/Grid/Grow.antt =====
-- internal/grid/trie.go: a trie to which `insert` adds a node.
use wordbreak_backend.Base.{
  ℕ, zero, suc, ◌-◌, ◌<◌, ◌≤◌, ◌≡◌, ◌≢◌, ltb, refl, sym, ap, subst, ◌∙◌, ◌⊎◌, ◌↔◌, inl, inr, true,
  ◌&&◌, none, some, List, [], ◌∷◌, ◌++◌, arith, length, get_or, set, get_or-set_self, get_or-set_ne,
  length-set, ◌==◌, if◌then◌else◌, Bool-cases,
}
use wordbreak_backend.Base.Text.{is_A_Z}
use wordbreak_backend.Grid.{Trie, TrieNode, new_node, node_at, link, step}
use wordbreak_backend.Grid.Walk.{walk, Accepts, get_or_past, walk-step, walk_nil, walk_cons}

pub get_or-append_left :
    (xs ys : List TrieNode) (i : ℕ)
    → i < length xs
    → get_or (xs ++ ys) i new_node ≡ get_or xs i new_node
get_or-append_left [] ys i h = absurd (omega arith)
get_or-append_left (x ∷ xs) ys zero h = refl
get_or-append_left (x ∷ xs) ys (suc i) h = get_or-append_left xs ys i (omega arith)

pub get_or-append_past :
    (xs : List TrieNode) (i : ℕ)
    → length xs ≤ i
    → get_or (xs ++ new_node ∷ []) i new_node ≡ new_node
get_or-append_past [] zero h = refl
get_or-append_past [] (suc i) h = refl
get_or-append_past (x ∷ xs) zero h = absurd (omega arith)
get_or-append_past (x ∷ xs) (suc i) h = get_or-append_past xs i (omega arith)

-- The trie of `insert_from` after it made a node.
abbrev pub grown : Trie → ℕ → ℕ → Trie
grown t cur c = record {
  nodes = set t.nodes cur (link (c - 65) (length t.nodes) (node_at t cur)) ++ new_node ∷ [];
}

pub grown_self :
    (t : Trie) (cur c : ℕ)
    → cur < length t.nodes
    → node_at (grown t cur c) cur ≡ link (c - 65) (length t.nodes) (node_at t cur)
grown_self t cur c h =
    let n = link (c - 65) (length t.nodes) (node_at t cur) in
    get_or-append_left (set t.nodes cur n) (new_node ∷ []) cur
      (omega (arith, length-set t.nodes cur n))
    ∙ get_or-set_self t.nodes cur n new_node h

pub grown_other : (t : Trie) (cur c i : ℕ) → cur ≢ i → node_at (grown t cur c) i ≡ node_at t i
grown_other t cur c i differs =
    let n = link (c - 65) (length t.nodes) (node_at t cur) in
    elim (Bool-cases (ltb i (length t.nodes))) [
      | inl old ↦
          get_or-append_left (set t.nodes cur n) (new_node ∷ []) i
            (ground (arith, length-set t.nodes cur n))
          ∙ get_or-set_ne t.nodes cur i n new_node differs
      | inr past ↦
          get_or-append_past (set t.nodes cur n) i (ground (arith, length-set t.nodes cur n))
          ∙ sym (get_or_past t.nodes i (ground arith))
    ]

pub step-grown :
    (t : Trie) (cur c i d : ℕ)
    → cur < length t.nodes
    → is_A_Z c ≡ true
    → step (grown t cur c) i d ≡ (if cur == i && d == c then some (length t.nodes) else step t i d)
unfolding step
step-grown t cur c i d h good = elim (Bool-cases (cur == i)) [
  | inr other ↦
      let differs : cur ≢ i = ground arith in rw (other, grown_other t cur c i differs) refl
  | inl same ↦ let e : cur ≡ i = ground arith in rw⁻¹ e (rw (grown_self t cur c h) (ground arith))
]

pub walk_kept :
    (t : Trie) (cur c : ℕ) (s : List ℕ) (i k : ℕ)
    → cur < length t.nodes
    → is_A_Z c ≡ true
    → step t cur c ≡ none
    → walk t i s ≡ some k
    → walk (grown t cur c) i s ≡ some k
walk_kept t cur c [] i k h good free e = walk_nil (grown t cur c) i ∙ sym (walk_nil t i) ∙ e
walk_kept t cur c (d ∷ s) i k h good free e =
    let (n, first, rest) = walk_cons t i d k s e in
    let still : step (grown t cur c) i d ≡ some n = ground (arith, step-grown t cur c i d h good) in
    walk-step (grown t cur c) i d n s still ∙ walk_kept t cur c s n k h good free rest

pub step_past : (t : Trie) (e : ℕ) → step t (length t.nodes) e ≡ none
unfolding step
step_past t e = rw (get_or_past t.nodes (length t.nodes) (omega arith)) (ground arith)

pub ends_there :
    (t : Trie) (cur c : ℕ) (s : List ℕ) (k : ℕ)
    → cur < length t.nodes
    → is_A_Z c ≡ true
    → walk (grown t cur c) (length t.nodes) s ≡ some k
    → (s ≡ []) × (k ≡ length t.nodes)
ends_there t cur c [] k h good e =
    (refl, ground (arith, sym (walk_nil (grown t cur c) (length t.nodes)) ∙ e))
ends_there t cur c (d ∷ s) k h good e =
    let (n, first, rest) = walk_cons (grown t cur c) (length t.nodes) d k s e in
    absurd (ground (arith, step-grown t cur c (length t.nodes) d h good, step_past t d, first))

-- A string that leads somewhere in the grown trie did so before, or ends with the new edge.
pub walk_new :
    (t : Trie) (cur c : ℕ) (s : List ℕ) (i k : ℕ)
    → cur < length t.nodes
    → is_A_Z c ≡ true
    → walk (grown t cur c) i s ≡ some k
    → (walk t i s ≡ some k)
      ⊎ ((u : List ℕ) × (s ≡ u ++ c ∷ []) × (walk t i u ≡ some cur) × (k ≡ length t.nodes))
walk_new t cur c [] i k h good e = inl (walk_nil t i ∙ sym (walk_nil (grown t cur c) i) ∙ e)
walk_new t cur c (d ∷ s) i k h good e =
    let (n, first, rest) = walk_cons (grown t cur c) i d k s e in
    elim (Bool-cases (cur == i && d == c)) [
      | inr old ↦
          let before : step t i d ≡ some n = ground (arith, step-grown t cur c i d h good) in
          elim (walk_new t cur c s n k h good rest) [
            | inl kept ↦ inl (walk-step t i d n s before ∙ kept)
            | inr (u, split, reach, last) ↦
                inr (
                  d ∷ u,
                  ap (λ (v : List ℕ). d ∷ v) split,
                  walk-step t i d n u before ∙ reach,
                  last,
                )
          ]
      | inl new ↦
          let at : n ≡ length t.nodes = ground (arith, step-grown t cur c i d h good) in
          let here : cur ≡ i = ground arith in
          let letter : d ≡ c = ground arith in
          let (end, last) =
            ends_there t cur c s k h good
              (subst (λ (m : ℕ). walk (grown t cur c) m s ≡ some k) at rest) in
          inr ([], rw (end, letter) refl, walk_nil t i ∙ ap some (sym here), last)
    ]

pub node_past :
    (t : Trie) (cur c : ℕ)
    → cur < length t.nodes
    → node_at (grown t cur c) (length t.nodes) ≡ new_node
node_past t cur c h =
    let differs : cur ≢ length t.nodes = λ e. absurd (omega arith) in
    grown_other t cur c (length t.nodes) differs
    ∙ get_or_past t.nodes (length t.nodes) (omega arith)

pub same_word :
    (t : Trie) (cur c i : ℕ)
    → cur < length t.nodes
    → (node_at (grown t cur c) i).is_word ≡ (node_at t i).is_word
same_word t cur c i h = elim (Bool-cases (cur == i)) [
  | inr other ↦ ap (λ (n : TrieNode). n.is_word) (grown_other t cur c i (ground arith))
  | inl same ↦
      let e : cur ≡ i = ground arith in
      rw⁻¹ e (ap (λ (n : TrieNode). n.is_word) (grown_self t cur c h))
]

-- The words that growing adds: none.
pub grown-Accepts :
    (t : Trie) (cur c : ℕ) (s : List ℕ)
    → cur < length t.nodes
    → is_A_Z c ≡ true
    → step t cur c ≡ none
    → Accepts (grown t cur c) s ↔ Accepts t s
grown-Accepts t cur c s h good free = (
  λ (i, leads, ends). elim (walk_new t cur c s 0 i h good leads) [
    | inr (u, split, reach, last) ↦ absurd (
        ground (
          arith,
          ap (λ n. n.is_word) (node_past t cur c h),
          ap (λ n. (node_at (grown t cur c) n).is_word) last,
          ends,
        ))
    | inl kept ↦ (i, kept, sym (same_word t cur c i h) ∙ ends)
  ],
  λ (i, leads, ends). (i, walk_kept t cur c s 0 i h good free leads, same_word t cur c i h ∙ ends),
)
