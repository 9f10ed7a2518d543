-- ===== src/Registry/Counting.antt =====
-- What `Len` and `CountByIP` count: distinct slots, and distinct connections of an address.
use spadeide_rendezvous.Prelude.{
  ℕ, ◌≡◌, refl, ◌↔◌, ◌⊎◌, inl, inr, Text, true, false, ◌||◌, ◌==◌, ==_iff, List, [], ◌∷◌, length,
  arith, Bool-cases,
}
use spadeide_rendezvous.Map.{Map}
use spadeide_rendezvous.Clock.{Time, after}
use spadeide_rendezvous.Registry.{
  Addr, Conn, Slot, Registry, mem, note_seen, seen_slots, len, seen_conns, count_by_ip,
}

abbrev pub NoRepeat : List ℕ → Type 0
NoRepeat [] = Unit
NoRepeat (x ∷ xs) = (mem x xs ≡ false) × NoRepeat xs

-- Some key leads to the slot.
abbrev pub Led : Addr → Map Text Addr → Type 0
Led a [] = ⊥
Led a ((k, b) ∷ m) = (b ≡ a) ⊎ Led a m

-- Some key leads to a slot of the address on the connection, whose time is not over.
abbrev pub Connected : (Addr → Slot) → Text → Time → Conn → Map Text Addr → Type 0
Connected heap ip now c [] = ⊥
Connected heap ip now c ((k, a) ∷ m) =
    ((after now (heap a).expires_at ≡ false) × ((heap a).remote_ip ≡ ip) × ((heap a).conn ≡ c))
    ⊎ Connected heap ip now c m

mem-note_seen : (x a : ℕ) (seen : List ℕ) → mem x (note_seen a seen) ≡ ((a == x) || mem x seen)
unfolding mem note_seen
mem-note_seen x a seen = ground (arith, ==_iff a x)

note_seen-NoRepeat : (a : ℕ) (seen : List ℕ) → NoRepeat seen → NoRepeat (note_seen a seen)
unfolding note_seen
note_seen-NoRepeat a seen h = elim (Bool-cases (mem a seen)) [
  | inl e ↦ rw (note_seen, e) h
  | inr e ↦ rw (note_seen, e) (e, h)
]

seen_slots-NoRepeat : (m : Map Text Addr) → NoRepeat (seen_slots m)
unfolding seen_slots
seen_slots-NoRepeat [] = tt
seen_slots-NoRepeat ((k, a) ∷ m) = note_seen-NoRepeat a (seen_slots m) (seen_slots-NoRepeat m)

mem-seen_slots : (x : Addr) (m : Map Text Addr) → (mem x (seen_slots m) ≡ true) ↔ Led x m
unfolding seen_slots mem
mem-seen_slots x [] = ground arith
mem-seen_slots x ((k, a) ∷ m) =
    ground (arith, mem-note_seen x a (seen_slots m), mem-seen_slots x m, ==_iff a x)

module _ (heap : Addr → Slot) (ip : Text) (now : Time) where
  seen_conns-NoRepeat : (m : Map Text Addr) → NoRepeat (seen_conns heap ip now m)
  unfolding seen_conns
  seen_conns-NoRepeat [] = tt
  seen_conns-NoRepeat ((k, a) ∷ m) =
      ground
        (arith, seen_conns-NoRepeat m, note_seen-NoRepeat (heap a).conn (seen_conns heap ip now m))

  mem-seen_conns :
      (c : Conn) (m : Map Text Addr)
      → (mem c (seen_conns heap ip now m) ≡ true) ↔ Connected heap ip now c m
  unfolding seen_conns mem
  mem-seen_conns c [] = ground arith
  mem-seen_conns c ((k, a) ∷ m) = ground (
    arith,
    mem-seen_conns c m,
    mem-note_seen c (heap a).conn (seen_conns heap ip now m),
    ==_iff (heap a).conn c,
  )

-- `Len` is the number of distinct slots that some key leads to.
len_lem :
    (r : Registry)
    → (slots : List Addr) × (len r ≡ length slots)
      × NoRepeat slots
      × ((a : Addr) → (mem a slots ≡ true) ↔ Led a r.slots)
unfolding len
len_lem r = (seen_slots r.slots, refl, seen_slots-NoRepeat r.slots, λ a. mem-seen_slots a r.slots)

-- `CountByIP` is the number of distinct connections from the address that hold some key in a slot
-- whose time is not over: aliases of one connection count once.
pub count_by_ip_lem :
    (r : Registry) (ip : Text) (now : Time)
    → (conns : List Conn) × (count_by_ip r ip now ≡ length conns)
      × NoRepeat conns
      × ((c : Conn) → (mem c conns ≡ true) ↔ Connected r.heap ip now c r.slots)
unfolding count_by_ip
count_by_ip_lem r ip now = (
  seen_conns r.heap ip now r.slots,
  refl,
  seen_conns-NoRepeat r.heap ip now r.slots,
  λ c. mem-seen_conns r.heap ip now c r.slots,
)
