-- ===== src/Relay/Pairing.antt =====
-- The hub and the calls that wait in it: who is paired with whom.
use spadeide_rendezvous.Prelude.{
  ℕ, suc, ◌+◌, ◌≡◌, refl, ◌≤◌, ◌≢◌, ◌⊎◌, inl, inr, true, ◌||◌, ◌==◌, Text, text_discrete, is_text,
  is_text-ne, none, some, List, [], ◌∷◌, ◌++◌, All, Bool-cases, Option-cases, arith,
}
use spadeide_rendezvous.Prelude.Int.{ℤ}
use spadeide_rendezvous.Map.{Map, lookup, insert, delete, Distinct}
use spadeide_rendezvous.Map.Laws.{insert-Distinct, delete-Distinct, delete_absent}
use spadeide_rendezvous.Relay.{Conn, Waiting, new, agent, client, paired, waits, arrive, timeout}
use spadeide_rendezvous.Relay.System.{
  Pending, System, slot_of, after_arrival, Step, arrives, fires, wakes, Reach, start, next,
  Opposite, one, waiting_of, paired_of,
}

abbrev SideRoles : Map Text Waiting → Type 0
SideRoles [] = Unit
SideRoles ((sid, w) ∷ m) = ((w.role ≡ agent) ⊎ (w.role ≡ client)) × SideRoles m

record IsValid (s : System) : Type 0 where
  distinct : Distinct text_discrete s.hub.waiting
  roles : SideRoles s.hub.waiting
  opposite : All Opposite s.pairs
  once : (c : Conn) → waiting_of c s.hub.waiting + paired_of c s.pairs ≤ 1
  unused : (c : Conn) → s.fresh ≤ c → waiting_of c s.hub.waiting + paired_of c s.pairs ≡ 0

-- A new session's slot is one more.
waiting_of-insert :
    (c : Conn) (sid : Text) (w : Waiting) (m : Map Text Waiting)
    → lookup text_discrete sid m ≡ none
    → waiting_of c (insert text_discrete sid w m) ≡ waiting_of c m + one c w
unfolding lookup insert
waiting_of-insert c sid w [] h = omega arith
waiting_of-insert c sid w ((k, v) ∷ m) h = ground (arith, waiting_of-insert c sid w m)

waiting_of-delete :
    (c : Conn) (sid : Text) (w : Waiting) (m : Map Text Waiting)
    → Distinct text_discrete m
    → lookup text_discrete sid m ≡ some w
    → waiting_of c (delete text_discrete sid m) + one c w ≡ waiting_of c m
unfolding lookup delete
waiting_of-delete c sid w [] d h = cc
waiting_of-delete c sid w ((k, v) ∷ m) d h =
    ground (arith, waiting_of-delete c sid w m d.1, delete_absent text_discrete sid m)

SideRoles-insert :
    (sid : Text) (w : Waiting) (m : Map Text Waiting)
    → (w.role ≡ agent) ⊎ (w.role ≡ client)
    → SideRoles m
    → SideRoles (insert text_discrete sid w m)
unfolding insert
SideRoles-insert sid w [] h r = (h, tt)
SideRoles-insert sid w ((k, v) ∷ m) h r = ground (arith, SideRoles-insert sid w m h r.1)

SideRoles-delete :
    (sid : Text) (m : Map Text Waiting) → SideRoles m → SideRoles (delete text_discrete sid m)
unfolding delete
SideRoles-delete sid [] r = tt
SideRoles-delete sid ((k, v) ∷ m) r = ground (arith, SideRoles-delete sid m r.1)

SideRoles-lookup :
    (sid : Text) (w : Waiting) (m : Map Text Waiting)
    → SideRoles m
    → lookup text_discrete sid m ≡ some w
    → (w.role ≡ agent) ⊎ (w.role ≡ client)
unfolding lookup
SideRoles-lookup sid w [] r h = cc
SideRoles-lookup sid w ((k, v) ∷ m) r h = ground (arith, SideRoles-lookup sid w m r.1)

side_of :
    (role : Text)
    → is_text role agent || is_text role client ≡ true
    → (role ≡ agent) ⊎ (role ≡ client)
unfolding is_text
side_of role h = ground arith

abbrev Arrived : System → Text → Text → Type 0
Arrived s sid role = IsValid (after_arrival s sid role (arrive s.hub sid role s.fresh s.fresh))

-- A connection that is closed on arrival leaves the hub alone.
refused-IsValid :
    (s : System)
    → IsValid s
    → IsValid (record s { closed = s.fresh ∷ s.closed; fresh = suc s.fresh })
refused-IsValid s v = record {
  distinct = v.distinct;
  roles = v.roles;
  opposite = v.opposite;
  once = v.once;
  unused = λ c h. v.unused c (omega arith);
}

module _ (s : System) (sid role : Text) (v : IsValid s) where
  waits-IsValid :
      (role ≡ agent) ⊎ (role ≡ client)
      → lookup text_discrete sid s.hub.waiting ≡ none
      → IsValid (
          after_arrival s sid role (
            record (s.hub) { waiting = insert text_discrete sid (slot_of s role) s.hub.waiting },
            waits,
          ))
  waits-IsValid side absent = record {
    distinct = insert-Distinct text_discrete sid (slot_of s role) s.hub.waiting v.distinct;
    roles = SideRoles-insert sid (slot_of s role) s.hub.waiting side v.roles;
    opposite = v.opposite;
    once = λ c. ground (
      arith,
      waiting_of-insert c sid (slot_of s role) s.hub.waiting absent,
      v.once c,
      v.unused c,
    );
    unused = λ c h.
        ground (arith, waiting_of-insert c sid (slot_of s role) s.hub.waiting absent, v.unused c);
  }

  paired-IsValid :
      (w : Waiting)
      → (role ≡ agent) ⊎ (role ≡ client)
      → w.role ≢ role
      → lookup text_discrete sid s.hub.waiting ≡ some w
      → IsValid (
          after_arrival s sid role
            (record (s.hub) { waiting = delete text_discrete sid s.hub.waiting }, paired w))
  paired-IsValid w side differ there = record {
    distinct = delete-Distinct text_discrete sid s.hub.waiting v.distinct;
    roles = SideRoles-delete sid s.hub.waiting v.roles;
    opposite = (opposite_sides, v.opposite);
    once = λ c.
        ground
          (arith, waiting_of-delete c sid w s.hub.waiting v.distinct there, v.once c, v.unused c);
    unused =
        λ c h. ground (arith, waiting_of-delete c sid w s.hub.waiting v.distinct there, v.unused c);
  }
    where
      opposite_sides : ((w.role ≡ agent) × (role ≡ client)) ⊎ ((w.role ≡ client) × (role ≡ agent))
      opposite_sides =
          ground (arith, SideRoles-lookup sid w s.hub.waiting v.roles there, side, differ)

  seated-IsValid :
      (w : Waiting)
      → is_text role agent || is_text role client ≡ true
      → lookup text_discrete sid s.hub.waiting ≡ some w
      → Arrived s sid role
  unfolding arrive
  seated-IsValid w side there = elim (Bool-cases (is_text w.role role)) [
    | inl same ↦ rw (side, there, same) (refused-IsValid s v)
    | inr differ ↦
        rw (side, there, differ)
          (paired-IsValid w (side_of role side) (is_text-ne w.role role differ) there)
  ]

  arrive-IsValid : Arrived s sid role
  unfolding arrive
  arrive-IsValid = elim (Bool-cases (is_text role agent || is_text role client)) [
    | inl side ↦ elim (Option-cases (lookup text_discrete sid s.hub.waiting)) [
      | inl absent ↦ rw (side, absent) (waits-IsValid (side_of role side) absent)
      | inr (w, there) ↦ seated-IsValid w side there
    ]
    | inr side ↦ rw side (refused-IsValid s v)
  ]

-- The timer's branch only takes the slot of its own call out of the map.
module _ (s : System) (v : IsValid s) (sid : Text) (id : ℕ) where
  timeout-IsValid : IsValid (record s { hub = timeout s.hub sid id })
  unfolding timeout
  timeout-IsValid = elim (Option-cases (lookup text_discrete sid s.hub.waiting)) [
    | inl absent ↦ rw (timeout, absent) v
    | inr (w, there) ↦ elim (Bool-cases (w.id == id)) [
      | inl own ↦ rw (timeout, there, own) (deleted w there)
      | inr other ↦ rw (timeout, there, other) v
    ]
  ]
    where
      deleted :
          (w : Waiting)
          → lookup text_discrete sid s.hub.waiting ≡ some w
          → IsValid (record s {
            hub = record (s.hub) { waiting = delete text_discrete sid s.hub.waiting };
          })
      deleted w there = record {
        distinct = delete-Distinct text_discrete sid s.hub.waiting v.distinct;
        roles = SideRoles-delete sid s.hub.waiting v.roles;
        opposite = v.opposite;
        once =
            λ c. ground (arith, waiting_of-delete c sid w s.hub.waiting v.distinct there, v.once c);
        unused = λ c h.
            ground (arith, waiting_of-delete c sid w s.hub.waiting v.distinct there, v.unused c h);
      }

-- The calls that wait and the closed connections do not matter to it.
IsValid-frame :
    (s : System) (pending : List Pending) (closed : List Conn)
    → IsValid s
    → IsValid (record s { pending = pending; closed = closed })
IsValid-frame s pending closed v = record {
  distinct = v.distinct;
  roles = v.roles;
  opposite = v.opposite;
  once = v.once;
  unused = v.unused;
}

Step-IsValid : {s t : System} → IsValid s → Step s t → IsValid t
Step-IsValid {s} v (arrives sid role e) = rw e (arrive-IsValid s sid role v)
Step-IsValid {s} v (fires p before rest e f) = rw f (
    IsValid-frame (record s { hub = timeout s.hub p.sid p.slot.id }) (before ++ rest)
      (p.slot.conn ∷ s.closed) (timeout-IsValid s v p.sid p.slot.id))
Step-IsValid {s} v (wakes p before rest e f) = rw f (IsValid-frame s (before ++ rest) s.closed v)

Reach-IsValid : {max_bytes max_life : ℤ} {s : System} → Reach max_bytes max_life s → IsValid s
unfolding new
Reach-IsValid start = record {
  distinct = tt;
  roles = tt;
  opposite = tt;
  once = λ c. omega arith;
  unused = λ c h. refl;
}
Reach-IsValid (next r st) = Step-IsValid (Reach-IsValid r) st

-- In every state that the hub reaches by arrivals, timeouts and returns of waiting calls, each pair
-- that was made is one agent and one client, and no connection is counted twice over the waiting
-- slots and the two sides of the pairs: it waits at most once, is in at most one pair, and does not
-- do both.
pub Reach-pairs :
    {max_bytes max_life : ℤ} {s : System}
    → Reach max_bytes max_life s
    → All Opposite s.pairs × ((c : Conn) → waiting_of c s.hub.waiting + paired_of c s.pairs ≤ 1)
Reach-pairs r = ((Reach-IsValid r).opposite, (Reach-IsValid r).once)
