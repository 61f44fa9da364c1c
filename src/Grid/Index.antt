-- ===== src/Grid/Index.antt =====
-- internal/grid/trie.go: which words a trie holds.
use wordbreak_backend.Base.{
  ℕ, zero, suc, ◌+◌, ◌-◌, ◌<◌, ◌≡◌, refl, sym, ap, subst, ◌∙◌, ◌⊎◌, ◌↔◌, inl, inr, true, not, some,
  List, [], ◌∷◌, ◌++◌, arith, All, In, length, length-set, append_assoc, append_nil, Option-cases,
  Bool-cases,
}
use wordbreak_backend.Base.Text.{Text, is_A_Z, bytes}
use wordbreak_backend.Grid.{
  Trie, new_node, node_at, step, insert_from, insert, insert_all, new_trie,
}
use wordbreak_backend.Grid.Walk.{walk, Accepts, IsTidy, walk_nil, walk_snoc}
use wordbreak_backend.Grid.Grow.{grown, step-grown, walk_kept, grown-Accepts}
use wordbreak_backend.Grid.Address.{addr_grown, length-grown, grown-IsTidy}
use wordbreak_backend.Grid.Ended.{ended-IsTidy, ended-Accepts}

abbrev pub AllLetters : List ℕ → Type 0
AllLetters = All (λ c. is_A_Z c ≡ true)

-- What `insert` does: the trie holds what it held, and the word if all its bytes are letters.
record IsInserted (t u : Trie) (w whole : List ℕ) : Type 0 where
  addr : ℕ → List ℕ
  tidy : IsTidy u addr
  rooted : 0 < length u.nodes
  accepts : (s : List ℕ) → Accepts u s ↔ Accepts t s ⊎ (AllLetters w × (s ≡ whole))

-- The rest of a word, inserted below the node of its first letter.
deeper :
    (t u v : Trie) (c : ℕ) (w p q : List ℕ)
    → ((s : List ℕ) → Accepts u s ↔ Accepts t s)
    → is_A_Z c ≡ true
    → q ≡ p ++ c ∷ []
    → IsInserted u v w (q ++ w)
    → IsInserted t v (c ∷ w) (p ++ c ∷ w)
deeper t u v c w p q same good at rest =
    let whole : q ++ w ≡ p ++ c ∷ w = ap (λ (r : List ℕ). r ++ w) at ∙ append_assoc p (c ∷ []) w in
    record {
      addr = rest.addr;
      tidy = rest.tidy;
      rooted = rest.rooted;
      accepts = λ s. (
        λ a. elim ((rest.accepts s).0 a) [
          | inl old ↦ inl ((same s).0 old)
          | inr (letters, e) ↦ inr ((good, letters), e ∙ whole)
        ],
        λ a. (rest.accepts s).1 (elim a [
          | inl old ↦ inl ((same s).1 old)
          | inr ((_, letters), e) ↦ inr (letters, e ∙ sym whole)
        ]),
      );
    }

step_of_edge :
    (t : Trie) (cur c : ℕ) → is_A_Z c ≡ true → step t cur c ≡ (node_at t cur).children (c - 65)
unfolding step
step_of_edge t cur c good = rw (ap not good) refl

insert_from_lem :
    (w : List ℕ) (t : Trie) (addr : ℕ → List ℕ) (cur : ℕ)
    → cur < length t.nodes
    → IsTidy t addr
    → walk t 0 (addr cur) ≡ some cur
    → IsInserted t (insert_from t cur w) w (addr cur ++ w)
unfolding insert_from
insert_from_lem [] t addr cur h tidy reach = record {
  addr = addr;
  tidy = ended-IsTidy t addr cur h tidy;
  rooted = omega (arith, h, length-set t.nodes cur (record (node_at t cur) { is_word = true }));
  accepts = λ s.
      let (there, back) = ended-Accepts t addr cur s h tidy reach in
      (
        λ a. elim (there a) [
          | inl old ↦ inl old
          | inr e ↦ inr (tt, e ∙ sym (append_nil (addr cur)))
        ],
        λ a. back (elim a [ inl old ↦ inl old | inr (_, e) ↦ inr (e ∙ append_nil (addr cur)) ]),
      );
}
insert_from_lem (c ∷ w) t addr cur h tidy reach = elim (Bool-cases (is_A_Z c)) [
  | inr bad ↦ rw (ap not bad) (record {
    addr = addr;
    tidy = tidy;
    rooted = omega (arith, h);
    accepts = λ s.
        (λ a. inl a, λ a. elim a [ inl old ↦ old | inr ((good, _), _) ↦ absurd (cc (good, bad)) ]);
  })
  | inl good ↦ elim (Option-cases ((node_at t cur).children (c - 65))) [
    | inl free ↦
        let none_yet = step_of_edge t cur c good ∙ free in
        let u = grown t cur c in
        let addr' = addr_grown t addr cur c in
        let at : addr' (length t.nodes) ≡ addr cur ++ c ∷ [] = ground arith in
        let made : step u cur c ≡ some (length t.nodes) =
          ground (arith, step-grown t cur c cur c h good) in
        let leads : walk u 0 (addr' (length t.nodes)) ≡ some (length t.nodes) =
          ap (walk u 0) at
          ∙ walk_snoc u (addr cur) 0 cur c (length t.nodes)
              (walk_kept t cur c (addr cur) 0 cur h good none_yet reach) made in
        rw (ap not good) (
          rw free (
            deeper t u _ c w (addr cur) (addr' (length t.nodes))
              (λ s. grown-Accepts t cur c s h good none_yet) good at
              (insert_from_lem w u addr' (length t.nodes) (omega (arith, length-grown t cur c))
                (grown-IsTidy t addr cur c h good tidy) leads)))
    | inr (next, edge) ↦
        let taken = step_of_edge t cur c good ∙ edge in
        let (inside, below) = tidy.down cur (c - 65) next edge in
        let letter : 65 + (c - 65) ≡ c = ground arith in
        let at : addr next ≡ addr cur ++ c ∷ [] =
          below ∙ ap (λ (d : ℕ). addr cur ++ d ∷ []) letter in
        let leads = ap (walk t 0) at ∙ walk_snoc t (addr cur) 0 cur c next reach taken in
        rw (ap not good) (
          rw edge (
            deeper t t _ c w (addr cur) (addr next) (λ s. (λ a. a, λ a. a)) good at
              (insert_from_lem w t addr next inside tidy leads)))
  ]
]

-- The words that a list adds to a trie.
abbrev pub IsOneOf : List Text → List ℕ → Type 0
IsOneOf words s = (w : Text) × In w words × AllLetters (bytes w) × (s ≡ bytes w)

insert_all_lem :
    (words : List Text) (t : Trie) (addr : ℕ → List ℕ) (s : List ℕ)
    → 0 < length t.nodes
    → IsTidy t addr
    → Accepts (insert_all t words) s ↔ Accepts t s ⊎ IsOneOf words s
unfolding insert_all insert
insert_all_lem [] t addr s h tidy =
    (λ a. inl a, λ a. elim a [ inl old ↦ old | inr (w, m, _, _) ↦ absurd m ])
insert_all_lem (w ∷ words) t addr s h tidy =
    let at_root : walk t 0 (addr 0) ≡ some 0 = ap (walk t 0) tidy.root ∙ walk_nil t 0 in
    let first = insert_from_lem (bytes w) t addr 0 h tidy at_root in
    let whole : addr 0 ++ bytes w ≡ bytes w = ap (λ (p : List ℕ). p ++ bytes w) tidy.root in
    let rest = insert_all_lem words (insert t w) first.addr s first.rooted first.tidy in
    (
      λ a. elim (rest.0 a) [
        | inr (v, m, letters, e) ↦ inr (v, inr m, letters, e)
        | inl before ↦ elim ((first.accepts s).0 before) [
          | inl old ↦ inl old
          | inr (letters, e) ↦ inr (w, inl refl, letters, e ∙ whole)
        ]
      ],
      λ a. elim a [
        | inl old ↦ rest.1 (inl ((first.accepts s).1 (inl old)))
        | inr (v, m, letters, e) ↦ elim m [
          | inr later ↦ rest.1 (inr (v, later, letters, e))
          | inl same ↦ rest.1 (
              inl (
                (first.accepts s).1 (
                  inr (
                    subst (λ (x : Text). AllLetters (bytes x)) same letters,
                    e ∙ ap bytes same ∙ sym whole,
                  ))))
        ]
      ],
    )

empty-IsTidy : IsTidy (record { nodes = new_node ∷ [] }) (λ i. [])
empty-IsTidy = record { root = refl; down = λ i j k e. absurd (no_edge i j k e) }
  where
    no_edge : (i j k : ℕ) → (node_at (record { nodes = new_node ∷ [] }) i).children j ≡ some k → ⊥
    no_edge zero j k e = cc
    no_edge (suc i) j k e = cc

-- A new trie holds exactly those of the given words whose bytes are all letters A-Z: the string
-- leads from the root to a node that ends a word just if it is such a word.
pub new_trie-Accepts :
    (words : List Text) (s : List ℕ) → Accepts (new_trie words) s ↔ IsOneOf words s
unfolding new_trie
new_trie-Accepts words s =
    let empty : Trie = record { nodes = new_node ∷ [] } in
    let all = insert_all_lem words empty (λ i. []) s (omega arith) empty-IsTidy in
    (
      λ a. elim (all.0 a) [ inr new ↦ new | inl (i, leads, ends) ↦ absurd (not_a_word i ends) ],
      λ a. all.1 (inr a),
    )
  where
    not_a_word : (i : ℕ) → (node_at (record { nodes = new_node ∷ [] }) i).is_word ≡ true → ⊥
    not_a_word zero e = cc
    not_a_word (suc i) e = cc
