-- ===== src/Registry.antt =====
-- Package registry (server/internal/registry/registry.go): who is online, under which opaque keys.
-- Several keys may share one slot, so the map holds addresses, and slots stand on a heap.
pub mod Delete
pub mod Owned
pub mod Takeover
pub mod Expiry
pub mod Counting
pub mod Whole
pub mod Swept
use spadeide_rendezvous.Prelude.{
  ℕ, suc, ◌+◌, Text, text_discrete, Bool, true, false, not, ◌&&◌, ◌||◌, ◌==◌, Option, none, some,
  List, [], ◌∷◌, is_empty, length, if◌then◌else◌,
}
use spadeide_rendezvous.Map.{Map, lookup, insert, delete}
use spadeide_rendezvous.Clock.{Time, Duration, after}

abbrev pub Addr : Type 0
Addr = ℕ

-- The identity of a websocket connection.
abbrev pub Conn : Type 0
Conn = ℕ

pub record Slot : Type 0 where
  pub keys : List Text
  pub public : Option (List ℕ)
  pub conn : Conn
  pub expires_at : Time
  pub remote_ip : Text

pub record Registry : Type 0 where
  pub slots : Map Text Addr
  pub heap : Addr → Slot
  pub ttl : Duration

unfoldable pub new : Duration → (Addr → Slot) → Registry
new ttl heap = record { slots = []; heap = heap; ttl = ttl }

abbrev pub set_expiry : Addr → Time → (Addr → Slot) → Addr → Slot
set_expiry a expires heap b = if b == a then record (heap b) { expires_at = expires } else heap b

abbrev pub holds : Addr → Option Addr → Bool
holds a none = false
holds a (some cur) = cur == a

-- The loop of `deleteSlotLocked`: the slot's keys, as far as they still lead to the slot.
unfoldable pub delete_keys : List Text → Addr → Map Text Addr → Map Text Addr
unfolding lookup delete
delete_keys [] a m = m
delete_keys (k ∷ ks) a m =
    delete_keys ks a (if holds a (lookup text_discrete k m) then delete text_discrete k m else m)

abbrev pub delete_slot : (Addr → Slot) → Addr → Map Text Addr → Map Text Addr
delete_slot heap a m = delete_keys (heap a).keys a m

-- The first loop of `Upsert`, over the keys of the new slot: expired holders are swept away, and a
-- live holder on another connection ends the call.
unfoldable pub claim_keys :
    (Addr → Slot) → Conn → Time → List Text → Map Text Addr → Map Text Addr × Bool
unfolding delete_keys
claim_keys heap conn now [] m = (m, true)
claim_keys heap conn now (k ∷ ks) m =
    let pass = claim_keys heap conn now ks m in
    elim (lookup text_discrete k m) [
      | none ↦ pass
      | some cur ↦
          let swept = claim_keys heap conn now ks (delete_slot heap cur m) in
          if after now (heap cur).expires_at
          then swept
          else (if (heap cur).conn == conn then pass else (m, false))
    ]

unfoldable pub insert_keys : List Text → Addr → Map Text Addr → Map Text Addr
unfolding insert
insert_keys [] a m = m
insert_keys (k ∷ ks) a m = insert_keys ks a (insert text_discrete k a m)

-- `Upsert` of the slot at the address.
unfoldable pub upsert : Registry → Addr → Time → Registry × Bool
unfolding claim_keys insert_keys
upsert r a now =
    if is_empty (r.heap a).keys
    then (r, false)
    else (let (m, free) = claim_keys r.heap (r.heap a).conn now (r.heap a).keys r.slots in
        if free
        then (
          record r {
            slots = insert_keys (r.heap a).keys a m;
            heap = set_expiry a (now + r.ttl) r.heap;
          },
          true,
        )
        else (record r { slots = m }, false))

unfoldable pub touch : Registry → Text → Time → Registry × Bool
unfolding lookup
touch r key now = elim (lookup text_discrete key r.slots) [
  | none ↦ (r, false)
  | some a ↦ (record r { heap = set_expiry a (now + r.ttl) r.heap }, true)
]

unfoldable pub get : Registry → Text → Time → Registry × Option Addr
unfolding lookup delete_keys
get r key now = elim (lookup text_discrete key r.slots) [
  | none ↦ (r, none)
  | some a ↦
      if after now (r.heap a).expires_at
      then (record r { slots = delete_slot r.heap a r.slots }, none)
      else (r, some a)
]

-- A nil connection is `none`.
abbrev pub may_remove : Option Conn → Conn → Bool
may_remove none holder = true
may_remove (some conn) holder = holder == conn

unfoldable pub remove : Registry → Text → Option Conn → Registry
unfolding lookup delete_keys
remove r key conn = elim (lookup text_discrete key r.slots) [
  | none ↦ r
  | some a ↦
      if may_remove conn (r.heap a).conn
      then record r { slots = delete_slot r.heap a r.slots }
      else r
]

unfoldable pub mem : ℕ → List ℕ → Bool
mem a [] = false
mem a (b ∷ bs) = (b == a) || mem a bs

-- The loop of `Sweep`, over the keys in the order of the range; a key that is gone is passed over.
unfoldable pub sweep_slots :
    (Addr → Slot) → Time → List Text → List Addr → ℕ → Map Text Addr → Map Text Addr × ℕ
unfolding mem delete_keys lookup
sweep_slots heap now [] seen n m = (m, n)
sweep_slots heap now (k ∷ order) seen n m =
    let pass = sweep_slots heap now order seen n m in
    elim (lookup text_discrete k m) [
      | none ↦ pass
      | some a ↦
          let swept = sweep_slots heap now order (a ∷ seen) (n + 1) (delete_slot heap a m) in
          if mem a seen then pass else (if after now (heap a).expires_at then swept else pass)
    ]

unfoldable pub sweep : Registry → List Text → Time → Registry × ℕ
unfolding sweep_slots
sweep r order now =
    let (m, n) = sweep_slots r.heap now order [] 0 r.slots in (record r { slots = m }, n)

-- The distinct numbers among those that the loop meets, as a set built by insertion.
unfoldable pub note_seen : ℕ → List ℕ → List ℕ
unfolding mem
note_seen a seen = if mem a seen then seen else a ∷ seen

unfoldable pub seen_slots : Map Text Addr → List Addr
unfolding note_seen
seen_slots [] = []
seen_slots ((k, a) ∷ m) = note_seen a (seen_slots m)

unfoldable pub len : Registry → ℕ
unfolding seen_slots
len r = length (seen_slots r.slots)

unfoldable pub seen_conns : (Addr → Slot) → Text → Time → Map Text Addr → List Conn
unfolding note_seen text_discrete
seen_conns heap ip now [] = []
seen_conns heap ip now ((k, a) ∷ m) =
    let rest = seen_conns heap ip now m in
    if after now (heap a).expires_at then rest else (elim (text_discrete (heap a).remote_ip ip) [
      | yes same ↦ note_seen (heap a).conn rest
      | no other ↦ rest
    ])

unfoldable pub count_by_ip : Registry → Text → Time → ℕ
unfolding seen_conns
count_by_ip r ip now = length (seen_conns r.heap ip now r.slots)
