-- ===== src/Room/Ranking.antt =====
-- The ranking of a room's players: by score, best first, ties in join order.
use wordbreak_backend.Base.{
  ℕ, suc, ◌≤◌, ◌<◌, ◌≡◌, refl, sym, subst, ◌∙◌, ◌⊎◌, inl, inr, ◌≢◌, Bool, true, false, List, [],
  ◌∷◌, arith, In, All, All_In, Distinct, length, Bool-cases,
}
use wordbreak_backend.Base.Text.{Text, has_text, has_text_iff}
use wordbreak_backend.Base.Assoc.{Map, lookup, insert, lookup-insert_ne, lookup-insert_self}
use wordbreak_backend.Base.Sort.{
  sort, IsSorted, sort-IsSorted, In-sort_of_In, In-of_In-sort, length-sort, sort-perm,
}
use wordbreak_backend.Room.{
  Room, Player, positions, or_zero, score_of, ranks_before, ranked_ids, leader, first_or_empty,
}
use mathlib.Core.List.{Perm}

ranks_before_asym :
    (players : Map Player) (pos : Map ℕ) (a b : Text)
    → ranks_before players pos a b ≡ true
    → ranks_before players pos b a ≡ false
unfolding ranks_before
ranks_before_asym players pos a b h = ground arith

ranks_before_trans :
    (players : Map Player) (pos : Map ℕ) (a b c : Text)
    → ranks_before players pos b a ≡ false
    → ranks_before players pos c b ≡ false
    → ranks_before players pos c a ≡ false
unfolding ranks_before
ranks_before_trans players pos a b c h k = ground arith

-- The ranking holds the players of the room, each as often as the join order does.
pub ranked_ids-perm : (r : Room) → Perm (ranked_ids r) r.order
unfolding ranked_ids
ranked_ids-perm r = sort-perm _ r.order

pub length-ranked_ids : (r : Room) → length (ranked_ids r) ≡ length r.order
unfolding ranked_ids
length-ranked_ids r = length-sort _ r.order

abbrev tail_of : List Text → List Text
tail_of [] = []
tail_of (x ∷ xs) = xs

-- `a` joined before `b`.
pub data JoinedBefore (a b : Text) : List Text → Type 0 where
  first : {x : Text} {xs : List Text} → x ≡ a → In b xs → JoinedBefore a b (x ∷ xs)
  later : {x : Text} {xs : List Text} → JoinedBefore a b xs → JoinedBefore a b (x ∷ xs)

positions_skip :
    (i : ℕ) (ids : List Text) (pos : Map ℕ) (a : Text)
    → ¬ In a ids
    → lookup a (positions i ids pos) ≡ lookup a pos
unfolding positions
positions_skip i [] pos a n = refl
positions_skip i (x ∷ ids) pos a n =
    positions_skip (suc i) ids (insert x i pos) a (λ m. n (inr m))
    ∙ lookup-insert_ne x a i pos (λ e. n (inl (sym e)))

-- Positions from `i` on are at least `i`.
positions_le :
    (i : ℕ) (ids : List Text) (pos : Map ℕ) (a : Text)
    → In a ids
    → i ≤ or_zero (lookup a (positions i ids pos))
unfolding positions
positions_le i [] pos a m = absurd m
positions_le i (x ∷ ids) pos a m = elim (Bool-cases (has_text ids a)) [
  | inl again ↦
      omega (arith, positions_le (suc i) ids (insert x i pos) a ((has_text_iff ids a).0 again))
  | inr never ↦ elim m [
    | inl e ↦
        rw
          (
            positions_skip (suc i) ids (insert x i pos) a (not_in ids a never),
            e,
            lookup-insert_self x i pos,
          )
          (omega arith)
    | inr k ↦ absurd (not_in ids a never k)
  ]
]
  where
    not_in : (xs : List Text) (y : Text) → has_text xs y ≡ false → ¬ In y xs
    not_in xs y h k = cc (h, (has_text_iff xs y).1 k)

positions_lt :
    (a b : Text) (i : ℕ) (ids : List Text) (pos : Map ℕ)
    → Distinct ids
    → JoinedBefore a b ids
    → or_zero (lookup a (positions i ids pos)) < or_zero (lookup b (positions i ids pos))
unfolding positions
positions_lt a b i _ pos d (first {x = x} {xs = xs} e m) =
    rw
      (
        positions_skip (suc i) xs (insert x i pos) a (subst (λ t. ¬ In t xs) e d.0),
        e,
        lookup-insert_self a i pos,
      )
      (omega (arith, positions_le (suc i) xs (insert a i pos) b m))
positions_lt a b i _ pos d (later {x = x} {xs = xs} j) =
    positions_lt a b (suc i) xs (insert x i pos) d.1 j

joined_total :
    (a b : Text) (ids : List Text)
    → In a ids
    → In b ids
    → a ≢ b
    → JoinedBefore a b ids ⊎ JoinedBefore b a ids
joined_total a b [] m k n = absurd m
joined_total a b (x ∷ ids) (inl e) (inl f) n = absurd (n (e ∙ sym f))
joined_total a b (x ∷ ids) (inl e) (inr k) n = inl (first (sym e) k)
joined_total a b (x ∷ ids) (inr m) (inl f) n = inr (first (sym f) m)
joined_total a b (x ∷ ids) (inr m) (inr k) n = elim (joined_total a b ids m k n) [
  | inl j ↦ inl (later j)
  | inr j ↦ inr (later j)
]

-- `a` beats `b`: a better score, or the same score and an earlier place in the join order.
abbrev pub Beats : Room → Text → Text → Type 0
Beats r a b =
    (score_of r.players b < score_of r.players a)
    ⊎ (score_of r.players a ≡ score_of r.players b) × JoinedBefore a b r.order

Beats-of_test :
    (r : Room) (a b : Text)
    → Distinct r.order
    → In a r.order
    → In b r.order
    → a ≢ b
    → ranks_before r.players (positions 0 r.order []) b a ≡ false
    → Beats r a b
unfolding ranks_before
Beats-of_test r a b d m k n h = elim (joined_total a b r.order m k n) [
  | inl j ↦ ground (arith, j)
  | inr j ↦ inl (ground (arith, positions_lt b a 0 r.order [] d j))
]

head_wins :
    (r : Room) (ids : List Text) (id : Text)
    → Distinct r.order
    → ((x : Text) → In x ids → In x r.order)
    → All
        (λ y. ranks_before r.players (positions 0 r.order []) y (first_or_empty ids) ≡ false)
        (tail_of ids)
    → In id ids
    → id ≢ first_or_empty ids
    → Beats r (first_or_empty ids) id
head_wins r [] id d sub s m n = absurd m
head_wins r (x ∷ ids) id d sub s (inl e) n = absurd (n e)
head_wins r (x ∷ ids) id d sub s (inr m) n =
    Beats-of_test r x id d (sub x (inl refl)) (sub id (inr m)) (λ e. n (sym e))
      (All_In _ id ids s m)

head_of_nonempty :
    (order ids : List Text)
    → order ≢ []
    → ((x : Text) → In x ids → In x order)
    → ((x : Text) → In x order → In x ids)
    → In (first_or_empty ids) order
head_of_nonempty order (x ∷ ids) n sub sup = sub x (inl refl)
head_of_nonempty [] [] n sub sup = absurd (n refl)
head_of_nonempty (x ∷ order) [] n sub sup = absurd (sup x (inl refl))

sorted_tail :
    (less : Text → Text → Bool) (ids : List Text)
    → IsSorted less ids
    → All (λ y. less y (first_or_empty ids) ≡ false) (tail_of ids)
sorted_tail less [] s = tt
sorted_tail less (x ∷ ids) s = s.0

-- The leader of a room with players is one of them, and beats every other: by a better score, or
-- by an earlier place in the join order at the same score.
pub leader_wins :
    (r : Room)
    → Distinct r.order
    → r.order ≢ []
    → In (leader r) r.order × ((id : Text) → In id r.order → id ≢ leader r → Beats r (leader r) id)
unfolding leader ranked_ids
leader_wins r d n = (
  head_of_nonempty r.order ids n (λ x. In-of_In-sort less x r.order)
      (λ x. In-sort_of_In less x r.order),
  λ id m k.
      head_wins r ids id d (λ x. In-of_In-sort less x r.order)
        (sorted_tail less ids (
          sort-IsSorted less (ranks_before_asym r.players pos) (ranks_before_trans r.players pos)
            r.order))
        (In-sort_of_In less id r.order m) k,
)
  where
    pos : Map ℕ
    pos = positions 0 r.order []

    less : Text → Text → Bool
    less = ranks_before r.players pos

    ids : List Text
    ids = sort less r.order
