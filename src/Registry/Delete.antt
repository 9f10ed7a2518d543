-- ===== src/Registry/Delete.antt =====
-- What deleting a slot does to the map of keys.
use spadeide_rendezvous.Prelude.{
  ◌≡◌, refl, ◌⊎◌, inl, inr, Text, text_discrete, Option, none, some, List, [], ◌∷◌, Has, arith,
}
use spadeide_rendezvous.Map.{Map, lookup, delete}
use spadeide_rendezvous.Map.Laws.{lookup-delete}
use spadeide_rendezvous.Registry.{Addr, delete_keys}

abbrev pub holder : Text → Map Text Addr → Option Addr
holder k m = lookup text_discrete k m

-- Every key leads where it led, unless it led to the slot and is gone.
pub holder-delete_keys :
    (ks : List Text) (a : Addr) (k : Text) (m : Map Text Addr)
    → (holder k (delete_keys ks a m) ≡ holder k m)
      ⊎ ((holder k m ≡ some a) × (holder k (delete_keys ks a m) ≡ none))
unfolding delete_keys
holder-delete_keys [] a k m = inl refl
holder-delete_keys (j ∷ ks) a k m = ground (
  arith,
  holder-delete_keys ks a k m,
  holder-delete_keys ks a k (delete text_discrete j m),
  lookup-delete text_discrete j k m,
)

-- A key that stands in the list and led to the slot is gone.
pub holder-delete_keys_gone :
    (ks : List Text) (a : Addr) (k : Text) (m : Map Text Addr)
    → Has k ks
    → holder k m ≡ some a
    → holder k (delete_keys ks a m) ≡ none
unfolding delete_keys
holder-delete_keys_gone [] a k m h e = elim h [ ]
holder-delete_keys_gone (j ∷ ks) a k m (inl here) e = ground (
  arith,
  holder-delete_keys ks a k m,
  holder-delete_keys ks a k (delete text_discrete j m),
  lookup-delete text_discrete j k m,
)
holder-delete_keys_gone (j ∷ ks) a k m (inr there) e = ground (
  arith,
  holder-delete_keys_gone ks a k m there,
  holder-delete_keys ks a k (delete text_discrete j m),
  holder-delete_keys_gone ks a k (delete text_discrete j m) there,
  lookup-delete text_discrete j k m,
)
