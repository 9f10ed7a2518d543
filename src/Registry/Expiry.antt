-- ===== src/Registry/Expiry.antt =====
-- `Sweep` and `Get` clear expired slots with all their keys, in every state that can be reached.
use spadeide_rendezvous.Prelude.{
  ℕ, ◌+◌, ◌≡◌, refl, sym, ◌∙◌, ap, subst, ◌≢◌, ◌⊎◌, inl, inr, Text, Option, none, some, List, [],
  ◌∷◌, Has, arith, Option-cases, Bool-cases, true, false, ◌==◌, ==_iff, if◌then◌else◌,
}
use spadeide_rendezvous.Map.{Map, lookup}
use spadeide_rendezvous.Clock.{Time, Duration, after}
use spadeide_rendezvous.Registry.{
  Addr, Conn, Slot, Registry, new, holds, delete_slot, upsert, get, touch, remove, sweep,
  sweep_slots, mem,
}
use spadeide_rendezvous.Registry.Delete.{holder}
use spadeide_rendezvous.Registry.Owned.{
  Owned, Within, Owned-Within, Within-delete_slot, holder-delete_slot, set_expiry-Owned,
  upsert-Owned, get-Owned, remove-Owned,
}

abbrev pub Covers : List Text → Map Text Addr → Type 0
Covers order m = (k : Text) (a : Addr) → holder k m ≡ some a → Has k order

-- What a sweep makes of a key: it goes when its slot has expired.
abbrev pub unexpired : (Addr → Slot) → Time → Option Addr → Option Addr
unexpired heap now none = none
unexpired heap now (some a) = if after now (heap a).expires_at then none else some a

module _ (heap : Addr → Slot) (now : Time) where
  -- No key leads to a slot that the loop has deleted.
  abbrev Cleared : List Addr → Map Text Addr → Type 0
  Cleared seen m = (k : Text) (a : Addr) → holder k m ≡ some a → mem a seen ≡ false

  sweep_slots_cases {ℓ} :
      (P : Map Text Addr × ℕ → Type ℓ) (k : Text) (order : List Text) (seen : List Addr) (n : ℕ)
      (m : Map Text Addr)
      → Cleared seen m
      → (unexpired heap now (holder k m) ≡ holder k m → P (sweep_slots heap now order seen n m))
      → ((a : Addr)
          → holder k m ≡ some a
          → after now (heap a).expires_at ≡ true
          → P (sweep_slots heap now order (a ∷ seen) (n + 1) (delete_slot heap a m)))
      → P (sweep_slots heap now (k ∷ order) seen n m)
  unfolding sweep_slots
  sweep_slots_cases P k order seen n m clear pass swept = elim (Option-cases (holder k m)) [
    | inl e ↦ rw (e, sweep_slots) (pass (ground (arith, e)))
    | inr (a, e) ↦
        rw (e, sweep_slots, clear k a e)
          (elim (Bool-cases (after now (heap a).expires_at)) [
            | inl old ↦ rw old (swept a e old)
            | inr live ↦ rw live (pass (ground (arith, e, live)))
          ])
  ]

  Cleared-delete :
      (seen : List Addr) (a : Addr) (m : Map Text Addr)
      → Owned heap m
      → Cleared seen m
      → Cleared (a ∷ seen) (delete_slot heap a m)
  unfolding mem
  Cleared-delete seen a m own clear k b led =
      ground (arith, holder-delete_slot heap a m k own, led, clear k b, ==_iff a b, ==_iff b a)

  abbrev Clears : Text → List Text → Map Text Addr → Text → Map Text Addr × ℕ → Type 0
  Clears j order m k r =
      ((holder k r.0 ≡ holder k m) ⊎ (holder k r.0 ≡ unexpired heap now (holder k m)))
      × ((k ≡ j) ⊎ Has k order → holder k r.0 ≡ unexpired heap now (holder k m))

  split :
      {k : Text} {P : Type 0} (j : Text) (order : List Text)
      → (k ≡ j → P)
      → (Has k order → P)
      → (k ≡ j) ⊎ Has k order
      → P
  split j order f g (inl h) = f h
  split j order f g (inr h) = g h

  settled :
      {o : Option Addr} {j : Text} (m : Map Text Addr) (k : Text)
      → k ≡ j
      → unexpired heap now (holder j m) ≡ holder j m
      → (o ≡ holder k m) ⊎ (o ≡ unexpired heap now (holder k m))
      → o ≡ unexpired heap now (holder k m)
  settled {j = j} m k here stays (inl same) =
      same ∙ sym (subst (λ i. unexpired heap now (holder i m) ≡ holder i m) (sym here) stays)
  settled m k here stays (inr done) = done

  delete_slot-unexpired :
      (a : Addr) (m : Map Text Addr) (k : Text)
      → Owned heap m
      → after now (heap a).expires_at ≡ true
      → (unexpired heap now (holder k (delete_slot heap a m)) ≡ unexpired heap now (holder k m))
        × ((holder k (delete_slot heap a m) ≡ holder k m)
            ⊎ (holder k (delete_slot heap a m) ≡ unexpired heap now (holder k m)))
  delete_slot-unexpired a m k own old = elim (Option-cases (holder k m)) [
    | inl e ↦ ground (arith, holder-delete_slot heap a m k own, e)
    | inr (b, e) ↦ ground (arith, holder-delete_slot heap a m k own, e, ==_iff b a)
  ]

  sweep_slots_lem :
      (order : List Text) (seen : List Addr) (n : ℕ) (m : Map Text Addr) (k : Text)
      → Owned heap m
      → Cleared seen m
      → ((holder k (sweep_slots heap now order seen n m).0 ≡ holder k m)
          ⊎ (holder k (sweep_slots heap now order seen n m).0 ≡ unexpired heap now (holder k m)))
        × (Has k order
            → holder k (sweep_slots heap now order seen n m).0 ≡ unexpired heap now (holder k m))
  unfolding sweep_slots
  sweep_slots_lem [] seen n m k own clear = (inl refl, λ h. elim h [ ])
  sweep_slots_lem (j ∷ order) seen n m k own clear =
      sweep_slots_cases (Clears j order m k) j order seen n m clear
        (λ stays.
          let (kept, met) = sweep_slots_lem order seen n m k own clear in
          (kept, split j order (λ here. settled m k here stays kept) met))
        (λ a led old.
          let (kept, met) =
            sweep_slots_lem order (a ∷ seen) (n + 1) (delete_slot heap a m) k
              (Owned-Within heap m (delete_slot heap a m) (Within-delete_slot heap a m) own)
              (Cleared-delete seen a m own clear) in
          let rest = delete_slot-unexpired a m k own old in
          (
            ground (arith, kept, rest),
            split j order
                (λ here. ground (
                  arith,
                  kept,
                  rest,
                  here,
                  led,
                  old,
                  holder-delete_slot heap a m k own,
                  ==_iff a a,
                ))
                (λ there. met there ∙ rest.0),
          ))

-- The calls of the registry, and the handler's making of a slot at an address that no key leads to.
pub data Step (now : Time) (r s : Registry) : Type 0 where
  makes :
      (a : Addr) (slot : Slot)
      → ((k : Text) → holder k r.slots ≢ some a)
      → s ≡ record r { heap = λ b. if b == a then slot else r.heap b }
      → Step now r s
  upserts : (a : Addr) → s ≡ (upsert r a now).0 → Step now r s
  touches : (key : Text) → s ≡ (touch r key now).0 → Step now r s
  gets : (key : Text) → s ≡ (get r key now).0 → Step now r s
  removes : (key : Text) (conn : Option Conn) → s ≡ remove r key conn → Step now r s
  sweeps : (order : List Text) → s ≡ (sweep r order now).0 → Step now r s

pub data Reach (ttl : Duration) (heap : Addr → Slot) : Registry → Type 0 where
  start : Reach ttl heap (new ttl heap)
  next : {now : Time} {r s : Registry} → Reach ttl heap r → Step now r s → Reach ttl heap s

Cleared-nil : (heap : Addr → Slot) (now : Time) (m : Map Text Addr) → Cleared heap now [] m
unfolding mem
Cleared-nil heap now m k a led = refl

Within-sweep :
    (r : Registry) (order : List Text) (now : Time)
    → Owned r.heap r.slots
    → Within r.slots (sweep r order now).0.slots
unfolding sweep
Within-sweep r order now own k =
    let swept =
      (sweep_slots_lem r.heap now order [] 0 r.slots k own (Cleared-nil r.heap now r.slots)).0 in
    elim (Option-cases (holder k r.slots)) [
      | inl e ↦ ground (arith, swept, e)
      | inr (a, e) ↦ ground (arith, swept, e)
    ]

makes-Owned :
    (r : Registry) (a : Addr) (slot : Slot)
    → ((k : Text) → holder k r.slots ≢ some a)
    → Owned r.heap r.slots
    → Owned (λ b. if b == a then slot else r.heap b) r.slots
makes-Owned r a slot free own k b led = elim (Bool-cases (b == a)) [
  | inl same ↦ absurd (free k (led ∙ ap some ((==_iff b a).0 same)))
  | inr other ↦ rw other (own k b led)
]

Step-Owned :
    {now : Time} {r s : Registry} → Step now r s → Owned r.heap r.slots → Owned s.heap s.slots
unfolding touch sweep
Step-Owned {now} {r} (makes a slot free e) own = rw e (makes-Owned r a slot free own)
Step-Owned {now} {r} (upserts a e) own = rw e (upsert-Owned r a now own)
Step-Owned {now} {r} (touches key e) own = rw e (elim (Option-cases (holder key r.slots)) [
  | inl absent ↦ rw (absent, touch) own
  | inr (a, led) ↦ rw (led, touch) (set_expiry-Owned a (now + r.ttl) r.heap r.slots own)
])
Step-Owned {now} {r} (gets key e) own = rw e (get-Owned r key now own)
Step-Owned {now} {r} (removes key conn e) own = rw e (remove-Owned r key conn own)
Step-Owned {now} {r} (sweeps order e) own =
    rw e
      (Owned-Within r.heap r.slots (sweep r order now).0.slots (Within-sweep r order now own) own)

Reach-Owned :
    {ttl : Duration} {heap : Addr → Slot} {r : Registry} → Reach ttl heap r → Owned r.heap r.slots
unfolding new lookup
Reach-Owned start = λ k a led. cc
Reach-Owned (next reach step) = Step-Owned step (Reach-Owned reach)

-- In every state that can be reached, a sweep whose loop meets every key frees the keys of all
-- expired slots, and leaves every other key to its slot.
pub holder-sweep :
    (ttl : Duration) (heap : Addr → Slot) (r : Registry) (order : List Text) (now : Time) (k : Text)
    → Reach ttl heap r
    → Covers order r.slots
    → holder k (sweep r order now).0.slots ≡ unexpired r.heap now (holder k r.slots)
unfolding sweep
holder-sweep ttl heap r order now k reach covers =
    let own = Reach-Owned reach in
    let swept =
      sweep_slots_lem r.heap now order [] 0 r.slots k own (Cleared-nil r.heap now r.slots) in
    elim (Option-cases (holder k r.slots)) [
      | inl e ↦ ground (arith, swept.0, e)
      | inr (a, e) ↦ swept.1 (covers k a e)
    ]

-- In every state that can be reached, `Get` of a key whose slot has expired answers that it is
-- absent and frees every key of that slot, and no key of another.
pub get-expired :
    (ttl : Duration) (heap : Addr → Slot) (r : Registry) (key k : Text) (a : Addr) (now : Time)
    → Reach ttl heap r
    → holder key r.slots ≡ some a
    → after now (r.heap a).expires_at ≡ true
    → ((get r key now).1 ≡ none)
      × (holder k (get r key now).0.slots
          ≡ (if holds a (holder k r.slots) then none else holder k r.slots))
unfolding get
get-expired ttl heap r key k a now reach led old =
    ground (arith, led, old, holder-delete_slot r.heap a r.slots k (Reach-Owned reach))

-- In every state that can be reached, `Remove` of a key that leads to a slot does one of two things:
-- asked by the slot's own connection, or by none, it frees exactly the keys of the slot; asked by
-- another connection, it changes nothing.
pub holder-remove :
    (ttl : Duration) (heap : Addr → Slot) (r : Registry) (key k : Text) (a : Addr)
    (conn : Option Conn)
    → Reach ttl heap r
    → holder key r.slots ≡ some a
    → (((conn ≡ none) ⊎ (conn ≡ some (r.heap a).conn))
        × (holder k (remove r key conn).slots
            ≡ (if holds a (holder k r.slots) then none else holder k r.slots)))
      ⊎ ((c : Conn) × (conn ≡ some c) × (c ≢ (r.heap a).conn) × (remove r key conn ≡ r))
unfolding remove
holder-remove ttl heap r key k a none reach led =
    inl (inl refl, ground (arith, led, holder-delete_slot r.heap a r.slots k (Reach-Owned reach)))
holder-remove ttl heap r key k a (some c) reach led = elim (Bool-cases ((r.heap a).conn == c)) [
  | inl own ↦ inl (
    inr (ap some (sym ((==_iff (r.heap a).conn c).0 own))),
    ground (arith, led, own, holder-delete_slot r.heap a r.slots k (Reach-Owned reach)),
  )
  | inr other ↦ inr (
    c,
    refl,
    (λ e. absurd (ground (arith, other, ==_iff (r.heap a).conn c, e))),
    ground (arith, led, other),
  )
]
