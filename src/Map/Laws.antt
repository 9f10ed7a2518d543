-- ===== src/Map/Laws.antt =====
-- The laws of the association list: what a lookup sees after each write, and how long the map is.
use spadeide_rendezvous.Prelude.{
  suc, ◌≤◌, ◌<◌, ◌≡◌, refl, ◌≢◌, none, some, [], ◌∷◌, ite, length, arith,
}
use spadeide_rendezvous.Map.{Map, lookup, insert, delete, Distinct}

module _ {K V : Type 0} (dec : Discrete K) where
  pub lookup-insert :
      (k j : K) (v : V) (m : Map K V)
      → lookup dec j (insert dec k v m) ≡ ite (dec k j) (some v) (lookup dec j m)
  unfolding lookup insert
  lookup-insert k j v [] = refl
  lookup-insert k j v ((i, w) ∷ m) =
      ground (arith, dec i k, dec i j, dec k j, lookup-insert k j v m)

  pub lookup-insert_self : (k : K) (v : V) (m : Map K V) → lookup dec k (insert dec k v m) ≡ some v
  lookup-insert_self k v m = ground (arith, lookup-insert k k v m)

  pub lookup-insert_ne :
      (k j : K) (v : V) (m : Map K V) → k ≢ j → lookup dec j (insert dec k v m) ≡ lookup dec j m
  lookup-insert_ne k j v m h = ground (arith, lookup-insert k j v m)

  pub lookup-delete :
      (k j : K) (m : Map K V) → lookup dec j (delete dec k m) ≡ ite (dec k j) none (lookup dec j m)
  unfolding lookup delete
  lookup-delete k j [] = ground arith
  lookup-delete k j ((i, w) ∷ m) = ground (arith, dec i k, dec i j, dec k j, lookup-delete k j m)

  pub lookup-delete_self : (k : K) (m : Map K V) → lookup dec k (delete dec k m) ≡ none
  lookup-delete_self k m = ground (arith, lookup-delete k k m)

  pub lookup-delete_ne :
      (k j : K) (m : Map K V) → k ≢ j → lookup dec j (delete dec k m) ≡ lookup dec j m
  lookup-delete_ne k j m h = ground (arith, lookup-delete k j m)

  pub length-insert_new :
      (k : K) (v : V) (m : Map K V)
      → lookup dec k m ≡ none
      → length (insert dec k v m) ≡ suc (length m)
  unfolding lookup insert
  length-insert_new k v [] h = refl
  length-insert_new k v ((j, w) ∷ m) h = ground (arith, length-insert_new k v m)

  pub length-insert_old :
      (k : K) (v w : V) (m : Map K V)
      → lookup dec k m ≡ some w
      → length (insert dec k v m) ≡ length m
  unfolding lookup insert
  length-insert_old k v u [] h = cc
  length-insert_old k v u ((j, w) ∷ m) h = ground (arith, length-insert_old k v u m)

  pub length-delete-le : (k : K) (m : Map K V) → length (delete dec k m) ≤ length m
  unfolding delete
  length-delete-le k [] = omega arith
  length-delete-le k ((j, w) ∷ m) = ground (arith, length-delete-le k m)

  pub length-delete-lt :
      (k : K) (v : V) (m : Map K V) → lookup dec k m ≡ some v → length (delete dec k m) < length m
  unfolding lookup delete
  length-delete-lt k v [] h = cc
  length-delete-lt k v ((j, w) ∷ m) h = ground (arith, length-delete-le k m, length-delete-lt k v m)

  pub delete_absent : (k : K) (m : Map K V) → lookup dec k m ≡ none → delete dec k m ≡ m
  unfolding lookup delete
  delete_absent k [] h = refl
  delete_absent k ((j, w) ∷ m) h = ground (arith, delete_absent k m)

  pub insert-Distinct :
      (k : K) (v : V) (m : Map K V) → Distinct dec m → Distinct dec (insert dec k v m)
  unfolding insert lookup
  insert-Distinct k v [] d = (refl, tt)
  insert-Distinct k v ((j, w) ∷ m) d =
      ground (arith, insert-Distinct k v m d.1, lookup-insert k j v m)

  pub delete-Distinct : (k : K) (m : Map K V) → Distinct dec m → Distinct dec (delete dec k m)
  unfolding delete
  delete-Distinct k [] d = tt
  delete-Distinct k ((j, w) ∷ m) d = ground (arith, delete-Distinct k m d.1, lookup-delete k j m)

  pub length-pos : (k : K) (v : V) (m : Map K V) → lookup dec k m ≡ some v → 0 < length m
  unfolding lookup
  length-pos k v [] h = cc
  length-pos k v (e ∷ m) h = omega arith
