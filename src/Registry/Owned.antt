-- ===== src/Registry/Owned.antt =====
-- Every key leads to a slot that lists it, after any calls: so deleting a slot leaves none of its
-- keys behind.
use spadeide_rendezvous.Prelude.{
  ◌+◌, ◌≡◌, refl, sym, ◌∙◌, ap, subst, ◌⊎◌, inl, inr, Text, Bool, Option, none, some, List, Has,
  arith, Option-cases, Bool-cases, ◌==◌, ==_iff, if◌then◌else◌, is_empty,
}
use spadeide_rendezvous.Map.{Map}
use spadeide_rendezvous.Clock.{Time}
use spadeide_rendezvous.Registry.{
  Addr, Conn, Slot, Registry, new, holds, delete_slot, claim_keys, insert_keys, upsert, set_expiry,
  get, remove,
}
use spadeide_rendezvous.Registry.Delete.{holder, holder-delete_keys, holder-delete_keys_gone}
use spadeide_rendezvous.Registry.Takeover.{claim_keys-KeptOrExpired, holder-insert_keys}

abbrev pub Owned : (Addr → Slot) → Map Text Addr → Type 0
Owned heap m = (k : Text) (a : Addr) → holder k m ≡ some a → Has k (heap a).keys

-- Each key is as it was or gone.
abbrev pub Within : Map Text Addr → Map Text Addr → Type 0
Within m m' = (k : Text) → (holder k m' ≡ holder k m) ⊎ (holder k m' ≡ none)

pub Owned-Within :
    (heap : Addr → Slot) (m m' : Map Text Addr) → Within m m' → Owned heap m → Owned heap m'
Owned-Within heap m m' w own k a led = own k a (ground (arith, w k, led))

pub Within-delete_slot :
    (heap : Addr → Slot) (a : Addr) (m : Map Text Addr) → Within m (delete_slot heap a m)
Within-delete_slot heap a m k = ground (arith, holder-delete_keys (heap a).keys a k m)

-- Deleting a slot frees exactly its keys.
pub holder-delete_slot :
    (heap : Addr → Slot) (a : Addr) (m : Map Text Addr) (k : Text)
    → Owned heap m
    → holder k (delete_slot heap a m) ≡ (if holds a (holder k m) then none else holder k m)
holder-delete_slot heap a m k own = elim (Option-cases (holder k m)) [
  | inl e ↦ rw e (ground (arith, e, holder-delete_keys (heap a).keys a k m))
  | inr (b, e) ↦ rw e (elim (Bool-cases (b == a)) [
    | inl same ↦
        let led : holder k m ≡ some a = e ∙ ap some ((==_iff b a).0 same) in
        rw same (holder-delete_keys_gone (heap a).keys a k m (own k a led) led)
    | inr other ↦ rw other (ground (arith, e, other, holder-delete_keys (heap a).keys a k m))
  ])
]

pub set_expiry-keys :
    (a b : Addr) (t : Time) (heap : Addr → Slot) → (set_expiry a t heap b).keys ≡ (heap b).keys
set_expiry-keys a b t heap = ground arith

pub set_expiry-Owned :
    (a : Addr) (t : Time) (heap : Addr → Slot) (m : Map Text Addr)
    → Owned heap m
    → Owned (set_expiry a t heap) m
set_expiry-Owned a t heap m own k b led = rw (set_expiry-keys a b t heap) (own k b led)

pub Within-claim_keys :
    (heap : Addr → Slot) (conn : Conn) (now : Time) (ks : List Text) (m : Map Text Addr)
    → Within m (claim_keys heap conn now ks m).0
Within-claim_keys heap conn now ks m k =
    ground (arith, claim_keys-KeptOrExpired heap conn now ks k m)

insert_keys-Owned :
    (heap : Addr → Slot) (a : Addr) (m : Map Text Addr)
    → Owned heap m
    → Owned heap (insert_keys (heap a).keys a m)
insert_keys-Owned heap a m own k b led = elim (holder-insert_keys (heap a).keys a k m) [
  | inl same ↦ own k b (sym same ∙ led)
  | inr (key, new) ↦ subst (λ c. Has k (heap c).keys) (ground (arith, new, led)) key
]

pub upsert-Owned :
    (r : Registry) (a : Addr) (now : Time)
    → Owned r.heap r.slots
    → Owned (upsert r a now).0.heap (upsert r a now).0.slots
unfolding upsert
upsert-Owned r a now own = elim (Bool-cases (is_empty (r.heap a).keys)) [
  | inl e ↦ rw e own
  | inr e ↦ rw e (elim (Bool-cases claim.1) [
    | inl granted ↦
        rw granted
          (set_expiry-Owned a (now + r.ttl) r.heap _ (insert_keys-Owned r.heap a claim.0 claimed))
    | inr refused ↦ rw refused claimed
  ])
]
  where
    claim : Map Text Addr × Bool
    claim = claim_keys r.heap (r.heap a).conn now (r.heap a).keys r.slots

    claimed : Owned r.heap claim.0
    claimed =
        Owned-Within r.heap r.slots claim.0
          (Within-claim_keys r.heap (r.heap a).conn now (r.heap a).keys r.slots) own

pub Within-get : (r : Registry) (key : Text) (now : Time) → Within r.slots (get r key now).0.slots
unfolding get
Within-get r key now k = elim (Option-cases (holder key r.slots)) [
  | inl e ↦ rw (e, get) (inl refl)
  | inr (a, e) ↦ ground (arith, e, Within-delete_slot r.heap a r.slots k)
]

pub Within-remove :
    (r : Registry) (key : Text) (conn : Option Conn) → Within r.slots (remove r key conn).slots
unfolding remove
Within-remove r key conn k = elim (Option-cases (holder key r.slots)) [
  | inl e ↦ rw (e, remove) (inl refl)
  | inr (a, e) ↦ ground (arith, e, Within-delete_slot r.heap a r.slots k)
]

pub get-heap : (r : Registry) (key : Text) (now : Time) → (get r key now).0.heap ≡ r.heap
unfolding get
get-heap r key now = ground arith

pub remove-heap :
    (r : Registry) (key : Text) (conn : Option Conn) → (remove r key conn).heap ≡ r.heap
unfolding remove
remove-heap r key conn = ground arith

pub get-Owned :
    (r : Registry) (key : Text) (now : Time)
    → Owned r.heap r.slots
    → Owned (get r key now).0.heap (get r key now).0.slots
get-Owned r key now own =
    rw (get-heap r key now) (Owned-Within r.heap r.slots _ (Within-get r key now) own)

pub remove-Owned :
    (r : Registry) (key : Text) (conn : Option Conn)
    → Owned r.heap r.slots
    → Owned (remove r key conn).heap (remove r key conn).slots
remove-Owned r key conn own =
    rw (remove-heap r key conn) (Owned-Within r.heap r.slots _ (Within-remove r key conn) own)
