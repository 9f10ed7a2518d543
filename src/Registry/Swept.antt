-- ===== src/Registry/Swept.antt =====
-- A property of the map of keys that deleting any slot keeps, a sweep in any order keeps; and what
-- touching a slot does not change.
use spadeide_rendezvous.Prelude.{
  ℕ, ◌+◌, ◌≡◌, refl, inl, inr, arith, Text, List, [], ◌∷◌, is_empty, ◌==◌, Bool-cases, Option-cases,
}
use spadeide_rendezvous.Map.{Map}
use spadeide_rendezvous.Clock.{Time, after}
use spadeide_rendezvous.Registry.{
  Addr, Slot, Registry, mem, delete_slot, sweep_slots, sweep, touch, upsert, claim_keys, set_expiry,
}
use spadeide_rendezvous.Registry.Delete.{holder}

sweep_slots-closed :
    (heap : Addr → Slot) (now : Time) (P : Map Text Addr → Type 0)
    → ((a : Addr) (m : Map Text Addr) → P m → P (delete_slot heap a m))
    → (order : List Text) (seen : List Addr) (n : ℕ) (m : Map Text Addr) → P m
    → P (sweep_slots heap now order seen n m).0
unfolding sweep_slots
sweep_slots-closed heap now P closed [] seen n m h = h
sweep_slots-closed heap now P closed (k ∷ order) seen n m h =
    let pass = sweep_slots-closed heap now P closed order seen n m h in
    elim (Option-cases (holder k m)) [
      | inl e ↦ rw (e, sweep_slots) pass
      | inr (a, e) ↦
          rw (e, sweep_slots)
            (elim (Bool-cases (mem a seen)) [
              | inl f ↦ rw f pass
              | inr f ↦ rw f (elim (Bool-cases (after now (heap a).expires_at)) [
                | inl g ↦ rw g (
                    sweep_slots-closed heap now P closed order (a ∷ seen) (n + 1)
                      (delete_slot heap a m) (closed a m h))
                | inr g ↦ rw g pass
              ])
            ])
    ]

pub sweep-closed :
    (r : Registry) (now : Time) (order : List Text) (P : Map Text Addr → Type 0)
    → ((a : Addr) (m : Map Text Addr) → P m → P (delete_slot r.heap a m))
    → P r.slots
    → P (sweep r order now).0.slots
unfolding sweep
sweep-closed r now order P closed h = sweep_slots-closed r.heap now P closed order [] 0 r.slots h

pub sweep-heap :
    (r : Registry) (now : Time) (order : List Text) → (sweep r order now).0.heap ≡ r.heap
unfolding sweep
sweep-heap r now order = refl

pub touch-slots : (r : Registry) (key : Text) (now : Time) → (touch r key now).0.slots ≡ r.slots
unfolding touch
touch-slots r key now = ground arith

set_expiry-heap :
    (a b : Addr) (at : Time) (heap : Addr → Slot)
    → (t : Time) × (set_expiry a at heap b ≡ record (heap b) { expires_at = t })
set_expiry-heap a b at heap = elim (Bool-cases (b == a)) [
  | inl same ↦ rw same (at, refl)
  | inr other ↦ rw other ((heap b).expires_at, refl)
]

-- Of the slots, `Upsert` and `Touch` set expiries only.
pub upsert-heap :
    (r : Registry) (a b : Addr) (now : Time)
    → (t : Time) × ((upsert r a now).0.heap b ≡ record (r.heap b) { expires_at = t })
unfolding upsert
upsert-heap r a b now = elim (Bool-cases (is_empty (r.heap a).keys)) [
  | inl e ↦ rw e ((r.heap b).expires_at, refl)
  | inr e ↦
      rw e (elim (Bool-cases (claim_keys r.heap (r.heap a).conn now (r.heap a).keys r.slots).1) [
        | inl granted ↦ rw granted (set_expiry-heap a b (now + r.ttl) r.heap)
        | inr refused ↦ rw refused ((r.heap b).expires_at, refl)
      ])
]

pub touch-heap :
    (r : Registry) (key : Text) (now : Time) (b : Addr)
    → (t : Time) × ((touch r key now).0.heap b ≡ record (r.heap b) { expires_at = t })
unfolding touch
touch-heap r key now b = elim (Option-cases (holder key r.slots)) [
  | inl e ↦ rw (e, touch) ((r.heap b).expires_at, refl)
  | inr (a, e) ↦ rw (e, touch) (set_expiry-heap a b (now + r.ttl) r.heap)
]
