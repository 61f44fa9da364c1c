-- ===== src/Base/Assoc.antt =====
-- A Go map with string keys as an association list. A write to a key that is there replaces the
-- value in its place; iteration goes through the list, which is some order of the entries.
use Prim.Native.Nat.{suc}
use mathlib.Core.Path.{◌≡◌, refl}
use mathlib.Core.Logic.{◌⊎◌, ◌≢◌}
use mathlib.Core.Bool.{Bool, true, false}
use mathlib.Core.List.{List, [], ◌∷◌, map}
use mathlib.Core.Option.{Option, none, some}
use native.Mathlib.Omega.{arith}
use wordbreak_backend.Base.Tests.{if◌then◌else◌}
use wordbreak_backend.Base.Lists.{In, length}
use wordbreak_backend.Base.Text.{Text, eq_text, eq_text_iff}

abbrev pub Map : Type 0 → Type 0
Map V = List (Text × V)

module _ {V : Type 0} where
  unfoldable pub lookup : Text → Map V → Option V
  lookup k [] = none
  lookup k ((j, v) ∷ m) = if eq_text j k then some v else lookup k m

  unfoldable pub insert : Text → V → Map V → Map V
  insert k v [] = (k, v) ∷ []
  insert k v ((j, w) ∷ m) = if eq_text j k then (k, v) ∷ m else (j, w) ∷ insert k v m

  unfoldable pub delete : Text → Map V → Map V
  delete k [] = []
  delete k ((j, w) ∷ m) = if eq_text j k then delete k m else (j, w) ∷ delete k m

  abbrev pub has_key : Text → Map V → Bool
  has_key k m = elim (lookup k m) [ none ↦ false | some _ ↦ true ]

  abbrev pub keys : Map V → List Text
  keys = map (λ e. e.0)

  abbrev pub values : Map V → List V
  values = map (λ e. e.1)

  pub lookup-insert :
      (k j : Text) (v : V) (m : Map V)
      → lookup j (insert k v m) ≡ (if eq_text k j then some v else lookup j m)
  unfolding lookup insert
  lookup-insert k j v [] = refl
  lookup-insert k j v ((i, w) ∷ m) =
      ground (arith, eq_text_iff k j, eq_text_iff i k, eq_text_iff i j, lookup-insert k j v m)

  pub lookup-delete :
      (k j : Text) (m : Map V) → lookup j (delete k m) ≡ (if eq_text k j then none else lookup j m)
  unfolding lookup delete
  lookup-delete k j [] = ground arith
  lookup-delete k j ((i, w) ∷ m) =
      ground (arith, eq_text_iff k j, eq_text_iff i k, eq_text_iff i j, lookup-delete k j m)

  pub lookup-insert_self : (k : Text) (v : V) (m : Map V) → lookup k (insert k v m) ≡ some v
  lookup-insert_self k v m = ground (arith, lookup-insert k k v m, eq_text_iff k k)

  pub lookup-insert_ne :
      (k j : Text) (v : V) (m : Map V) → k ≢ j → lookup j (insert k v m) ≡ lookup j m
  lookup-insert_ne k j v m h = ground (arith, lookup-insert k j v m, eq_text_iff k j)

  -- Every entry that a write leaves is the new one or an old one.
  pub In-insert :
      (k : Text) (v : V) (m : Map V) (w : V)
      → In w (values (insert k v m))
      → (w ≡ v) ⊎ In w (values m)
  unfolding insert
  In-insert k v [] w h = ground arith
  In-insert k v ((j, x) ∷ m) w h = ground (arith, In-insert k v m w)

  pub In-of_lookup : (k : Text) (m : Map V) (v : V) → lookup k m ≡ some v → In v (values m)
  unfolding lookup
  In-of_lookup k [] v h = cc
  In-of_lookup k ((j, w) ∷ m) v h = ground (arith, In-of_lookup k m v)

  pub length-insert_new :
      (k : Text) (v : V) (m : Map V) → lookup k m ≡ none → length (insert k v m) ≡ suc (length m)
  unfolding lookup insert
  length-insert_new k v [] h = refl
  length-insert_new k v ((j, w) ∷ m) h = ground (arith, length-insert_new k v m)

  pub length-insert_old :
      (k : Text) (v w : V) (m : Map V) → lookup k m ≡ some w → length (insert k v m) ≡ length m
  unfolding lookup insert
  length-insert_old k v w [] h = cc
  length-insert_old k v w ((j, x) ∷ m) h = ground (arith, length-insert_old k v w m)

-- The empty map has no key.
pub lookup-empty : (V : Type 0) (key : Text) → lookup {V = V} key [] ≡ none
unfolding lookup
lookup-empty V key = refl

pub has_key-empty : (V : Type 0) (key : Text) → has_key {V = V} key [] ≡ false
unfolding lookup
has_key-empty V key = refl
