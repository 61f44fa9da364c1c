-- ===== src/Room/Listing.antt =====
-- The list of open rooms: what it shows and in which order.
use wordbreak_backend.Base.{
  ℕ, ◌<◌, ◌≡◌, refl, inl, inr, Bool, true, false, List, [], ◌∷◌, arith, In, In-filter, map, filter,
  length,
}
use wordbreak_backend.Base.Text.{Text}
use wordbreak_backend.Base.Assoc.{values}
use wordbreak_backend.Base.Sort.{IsSorted, sort-IsSorted, In-of_In-sort}
use wordbreak_backend.Room.{Room, RoomView, lobby, max_players, snapshot, maybe_finish}
use wordbreak_backend.Room.Manager.{Manager, list, is_open, text_before}

text_before_asym : (s t : Text) → text_before s t ≡ true → text_before t s ≡ false
unfolding text_before
text_before_asym [] [] h = absurd (cc h)
text_before_asym [] (b ∷ t) h = refl
text_before_asym (a ∷ s) [] h = absurd (cc h)
text_before_asym (a ∷ s) (b ∷ t) h = ground (arith, text_before_asym s t)

text_before_trans :
    (s t v : Text) → text_before t s ≡ false → text_before v t ≡ false → text_before v s ≡ false
unfolding text_before
text_before_trans [] [] v h k = k
text_before_trans s (b ∷ t) [] h k = absurd (cc k)
text_before_trans [] (b ∷ t) (c ∷ v) h k = refl
text_before_trans (a ∷ s) [] v h k = absurd (cc h)
text_before_trans (a ∷ s) (b ∷ t) (c ∷ v) h k = ground (arith, text_before_trans s t v)

-- A view by a code that comes first.
abbrev pub lists_before : RoomView → RoomView → Bool
lists_before a b = text_before a.code b.code

-- A view is that of a public room of the manager which is in the lobby with a seat left.
abbrev pub Shows : Manager → ℕ → RoomView → Type 0
Shows m now v =
    (r : Room) × In r (values m.rooms)
    × (r.state ≡ lobby)
    × (r.public ≡ true)
    × (length r.players < max_players)
    × (v ≡ (snapshot r [] now).1)

In-map :
    (f : Room → RoomView) (v : RoomView) (rs : List Room)
    → In v (map f rs)
    → (r : Room) × In r rs × (v ≡ f r)
In-map f v [] m = absurd m
In-map f v (r ∷ rs) (inl e) = (r, inl refl, e)
In-map f v (r ∷ rs) (inr m) = let (q, n, e) = In-map f v rs m in (q, inr n, e)

is_open_cases :
    (r : Room)
    → is_open r ≡ true
    → (r.state ≡ lobby) × (r.public ≡ true) × (length r.players < max_players)
is_open_cases r h = ground (arith, h)

hidden_letters :
    (r : Room) (viewer : Text) (now : ℕ) → r.state ≡ lobby → (snapshot r viewer now).1.letters ≡ []
unfolding snapshot maybe_finish
hidden_letters r viewer now l = ground (arith, l)

-- `List` shows only public rooms in the lobby with a seat left, without their letters.
pub list-Shows :
    (m : Manager) (now : ℕ) (v : RoomView) → In v (list m now) → Shows m now v × (v.letters ≡ [])
unfolding list
list-Shows m now v h =
    let shown = map (λ r. (snapshot r [] now).1) (filter is_open (values m.rooms)) in
    let (r, n, e) =
      In-map (λ r. (snapshot r [] now).1) v (filter is_open (values m.rooms))
        (In-of_In-sort lists_before v shown h) in
    let kept = (In-filter is_open r (values m.rooms)).0 n in
    let (l, p, s) = is_open_cases r kept.1 in
    ((r, kept.0, l, p, s, e), rw e (hidden_letters r [] now l))

-- `List` is in the order of the codes.
pub list-IsSorted : (m : Manager) (now : ℕ) → IsSorted lists_before (list m now)
unfolding list
list-IsSorted m now =
    sort-IsSorted lists_before (λ a b. text_before_asym a.code b.code)
      (λ a b c. text_before_trans a.code b.code c.code)
      (map (λ r. (snapshot r [] now).1) (filter is_open (values m.rooms)))
