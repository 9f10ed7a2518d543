-- ===== src/Map.antt =====
-- Go's map as an association list. Lookups compare keys by a decision of their equality; a write
-- replaces the value in place or adds the key at the end; `delete` drops the key.
pub mod Laws
use spadeide_rendezvous.Prelude.{ℕ, suc, ◌≡◌, Option, none, some, List, [], ◌∷◌, map, ite, length}

abbrev pub Map : Type 0 → Type 0 → Type 0
Map K V = List (K × V)

abbrev pub keys : {K V : Type 0} → Map K V → List K
keys = map (λ e. e.0)

module _ {K V : Type 0} (dec : Discrete K) where
  unfoldable pub lookup : K → Map K V → Option V
  lookup k [] = none
  lookup k ((j, v) ∷ m) = ite (dec j k) (some v) (lookup k m)

  unfoldable pub insert : K → V → Map K V → Map K V
  insert k v [] = (k, v) ∷ []
  insert k v ((j, w) ∷ m) = ite (dec j k) ((k, v) ∷ m) ((j, w) ∷ insert k v m)

  unfoldable pub delete : K → Map K V → Map K V
  delete k [] = []
  delete k ((j, w) ∷ m) = ite (dec j k) (delete k m) ((j, w) ∷ delete k m)

  -- No key stands twice: the number of entries is the number of keys.
  abbrev pub Distinct : Map K V → Type 0
  Distinct [] = Unit
  Distinct ((j, w) ∷ m) = (lookup j m ≡ none) × Distinct m
