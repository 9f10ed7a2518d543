-- ===== src/Signal/Shrinking.antt =====
-- The calls that only take keys from the registry.
use spadeide_rendezvous.Prelude.{refl, inl, inr, Text, Option, List, arith}
use spadeide_rendezvous.Clock.{Time}
use spadeide_rendezvous.Registry.{Conn, Registry, remove, sweep, delete_slot}
use spadeide_rendezvous.Registry.Owned.{
  Owned, Within, Owned-Within, get-Owned, Within-get, get-heap, Within-remove, remove-Owned,
  remove-heap, Within-delete_slot,
}
use spadeide_rendezvous.Registry.Whole.{Whole, get-Whole, remove-Whole, delete_slot-Whole}
use spadeide_rendezvous.Registry.Swept.{sweep-closed, sweep-heap}
use spadeide_rendezvous.Signal.Segments.{Asked}
use spadeide_rendezvous.Signal.Online.{Shrinks}

Shrinks-refl : (r : Registry) → Owned r.heap r.slots → Whole r.heap r.slots → Shrinks r r
Shrinks-refl r own whole = record { heap = refl; within = λ k. inl refl; own = own; whole = whole }

pub Shrinks-Asked :
    (r s : Registry) → Asked r s → Owned r.heap r.slots → Whole r.heap r.slots → Shrinks r s
Shrinks-Asked r s (inl e) own whole = rw e (Shrinks-refl r own whole)
Shrinks-Asked r s (inr (key, now, e)) own whole = rw e (record {
  heap = get-heap r key now;
  within = Within-get r key now;
  own = get-Owned r key now own;
  whole = get-Whole r key now own whole;
})

pub Shrinks-remove :
    (r : Registry) (key : Text) (conn : Option Conn)
    → Owned r.heap r.slots
    → Whole r.heap r.slots
    → Shrinks r (remove r key conn)
Shrinks-remove r key conn own whole = record {
  heap = remove-heap r key conn;
  within = Within-remove r key conn;
  own = remove-Owned r key conn own;
  whole = remove-Whole r key conn own whole;
}

pub Shrinks-sweep :
    (r : Registry) (order : List Text) (now : Time)
    → Owned r.heap r.slots
    → Whole r.heap r.slots
    → Shrinks r (sweep r order now).0
Shrinks-sweep r order now own whole =
    let (within, kept, joined) =
      sweep-closed r now order (λ m. Within r.slots m × Owned r.heap m × Whole r.heap m)
        (λ a m (within, kept, joined). (
          λ k. ground (arith, within k, Within-delete_slot r.heap a m k),
          Owned-Within r.heap m (delete_slot r.heap a m) (Within-delete_slot r.heap a m) kept,
          delete_slot-Whole r.heap a m kept joined,
        ))
        (λ k. inl refl, own, whole) in
    record {
      heap = sweep-heap r now order;
      within = within;
      own = rw (sweep-heap r now order) kept;
      whole = rw (sweep-heap r now order) joined;
    }
