-- ===== src/Registry/Whole.antt =====
-- The keys of a slot come and go together, as long as no connection registers twice.
use spadeide_rendezvous.Prelude.{
  ◌+◌, ◌≡◌, sym, ◌∙◌, ap, subst, ◌≢◌, ◌⊎◌, inl, inr, Text, Bool, true, false, Option, none, some,
  List, [], ◌∷◌, Has, arith, Option-cases, Bool-cases, ==_iff, is_empty,
}
use spadeide_rendezvous.Map.{Map}
use spadeide_rendezvous.Clock.{Time, after}
use spadeide_rendezvous.Registry.{
  Addr, Conn, Slot, Registry, delete_slot, claim_keys, insert_keys, upsert, set_expiry, get, touch,
  remove, may_remove,
}
use spadeide_rendezvous.Registry.Delete.{holder}
use spadeide_rendezvous.Registry.Takeover.{
  claim_keys_cases, claim_keys-granted, claim_keys-KeptOrExpired, holder-insert_keys,
  holder-insert_keys-Has,
}
use spadeide_rendezvous.Registry.Owned.{
  Owned, Owned-Within, Within-delete_slot, Within-claim_keys, holder-delete_slot, set_expiry-keys,
}

abbrev pub Whole : (Addr → Slot) → Map Text Addr → Type 0
Whole heap m =
    (k j : Text) (a : Addr) → holder k m ≡ some a → Has j (heap a).keys → holder j m ≡ some a

-- Every slot stands at the number of its connection.
abbrev pub Placed : (Addr → Slot) → Map Text Addr → Type 0
Placed heap m = (k : Text) (a : Addr) → holder k m ≡ some a → (heap a).conn ≡ a

pub delete_slot-Whole :
    (heap : Addr → Slot) (b : Addr) (m : Map Text Addr)
    → Owned heap m
    → Whole heap m
    → Whole heap (delete_slot heap b m)
delete_slot-Whole heap b m own whole k j a led has =
    ground
      (arith, holder-delete_slot heap b m k own, holder-delete_slot heap b m j own, whole k j a)

module _ (heap : Addr → Slot) (conn : Conn) (now : Time) where
  claim_keys-Whole :
      (ks : List Text) (m : Map Text Addr)
      → Owned heap m
      → Whole heap m
      → Whole heap (claim_keys heap conn now ks m).0
  unfolding claim_keys
  claim_keys-Whole [] m own whole = whole
  claim_keys-Whole (j ∷ ks) m own whole =
      claim_keys_cases heap conn now (λ r. Whole heap r.0) j ks m
        (λ e. claim_keys-Whole ks m own whole)
        (λ a e old.
          claim_keys-Whole ks (delete_slot heap a m)
            (Owned-Within heap m (delete_slot heap a m) (Within-delete_slot heap a m) own)
            (delete_slot-Whole heap a m own whole))
        (λ a e live same. claim_keys-Whole ks m own whole) (λ a e live other. whole)

  absent-claim_keys :
      (ks : List Text) (k : Text) (m : Map Text Addr)
      → holder k m ≡ none
      → holder k (claim_keys heap conn now ks m).0 ≡ none
  absent-claim_keys ks k m e = ground (arith, claim_keys-KeptOrExpired heap conn now ks k m)

  -- A granted claim leaves no key to an expired slot.
  claim_keys-live :
      (ks : List Text) (k : Text) (a : Addr) (m : Map Text Addr)
      → Owned heap m
      → (claim_keys heap conn now ks m).1 ≡ true
      → Has k ks
      → holder k (claim_keys heap conn now ks m).0 ≡ some a
      → after now (heap a).expires_at ≡ false
  unfolding claim_keys
  claim_keys-live [] k a m own g h led = elim h [ ]
  claim_keys-live (j ∷ ks) k a m own granted (inl here) led =
      claim_keys_cases heap conn now
        (λ r. r.1 ≡ true → holder k r.0 ≡ some a → after now (heap a).expires_at ≡ false) j ks m
        (λ e g l. ground (arith, absent-claim_keys ks k m, e, here))
        (λ b e old g l. ground (
          arith,
          absent-claim_keys ks k (delete_slot heap b m),
          holder-delete_slot heap b m k own,
          ==_iff b b,
          e,
          here,
        ))
        (λ b e live same g l.
          ground (arith, claim_keys-KeptOrExpired heap conn now ks k m, e, here))
        (λ b e live other g l. cc) granted led
  claim_keys-live (j ∷ ks) k a m own granted (inr there) led =
      claim_keys_cases heap conn now
        (λ r. r.1 ≡ true → holder k r.0 ≡ some a → after now (heap a).expires_at ≡ false) j ks m
        (λ e g l. claim_keys-live ks k a m own g there l)
        (λ b e old g l.
          claim_keys-live ks k a (delete_slot heap b m)
            (Owned-Within heap m (delete_slot heap b m) (Within-delete_slot heap b m) own) g there
            l)
        (λ b e live same g l. claim_keys-live ks k a m own g there l) (λ b e live other g l. cc)
        granted led

-- What `Upsert` of a slot that no key leads to makes of a key.
module _ (r : Registry) (a : Addr) (now : Time) (own : Owned r.heap r.slots) where
  pub holder-upsert :
      (k : Text) (b : Addr)
      → holder k (upsert r a now).0.slots ≡ some b
      → (holder k r.slots ≡ some b) ⊎ ((b ≡ a) × ((upsert r a now).1 ≡ true))
  unfolding upsert
  holder-upsert k b led = ground (
    arith,
    holder-insert_keys (r.heap a).keys a k
        (claim_keys r.heap (r.heap a).conn now (r.heap a).keys r.slots).0,
    Within-claim_keys r.heap (r.heap a).conn now (r.heap a).keys r.slots k,
  )

  -- After a granted claim no other slot of the map shares a key with the new one.
  claimed_free :
      (k : Text)
      → Placed r.heap r.slots
      → (r.heap a).conn ≡ a
      → ((j : Text) → holder j r.slots ≢ some a)
      → (claim_keys r.heap (r.heap a).conn now (r.heap a).keys r.slots).1 ≡ true
      → Has k (r.heap a).keys
      → holder k (claim_keys r.heap (r.heap a).conn now (r.heap a).keys r.slots).0 ≡ none
  claimed_free k placed here free granted has =
      let m = (claim_keys r.heap (r.heap a).conn now (r.heap a).keys r.slots).0 in
      elim (Option-cases (holder k m)) [
        | inl e ↦ e
        | inr (b, e) ↦
            let before : holder k r.slots ≡ some b =
              ground (
                arith,
                e,
                Within-claim_keys r.heap (r.heap a).conn now (r.heap a).keys r.slots k,
              ) in
            let same : (r.heap b).conn ≡ (r.heap a).conn =
              claim_keys-granted r.heap (r.heap a).conn now (r.heap a).keys k b r.slots granted has
                before
                (claim_keys-live r.heap (r.heap a).conn now (r.heap a).keys k b r.slots own granted
                  has e) in
            absurd (free k (before ∙ ap some (sym (placed k b before) ∙ same ∙ here)))
      ]

  pub upsert-Whole :
      Whole r.heap r.slots
      → Placed r.heap r.slots
      → (r.heap a).conn ≡ a
      → ((j : Text) → holder j r.slots ≢ some a)
      → Whole (upsert r a now).0.heap (upsert r a now).0.slots
  unfolding upsert
  upsert-Whole whole placed here free = elim (Bool-cases (is_empty (r.heap a).keys)) [
    | inl e ↦ rw e whole
    | inr e ↦ rw e (elim (Bool-cases claim.1) [
      | inl granted ↦ rw granted (λ k j b led has.
          joined granted k j b led (subst (Has j) (set_expiry-keys a b (now + r.ttl) r.heap) has))
      | inr refused ↦ rw refused claimed
    ])
  ]
    where
      claim : Map Text Addr × Bool
      claim = claim_keys r.heap (r.heap a).conn now (r.heap a).keys r.slots

      claimed : Whole r.heap claim.0
      claimed = claim_keys-Whole r.heap (r.heap a).conn now (r.heap a).keys r.slots own whole

      joined :
          claim.1 ≡ true
          → (k j : Text) (b : Addr) → holder k (insert_keys (r.heap a).keys a claim.0) ≡ some b
          → Has j (r.heap b).keys
          → holder j (insert_keys (r.heap a).keys a claim.0) ≡ some b
      joined granted k j b led has = elim (holder-insert_keys (r.heap a).keys a k claim.0) [
        | inr (key, new) ↦
            let one : a ≡ b = cc (new, led) in
            holder-insert_keys-Has (r.heap a).keys a j claim.0
              (subst (λ c. Has j (r.heap c).keys) (sym one) has)
            ∙ ap some one
        | inl same ↦
            let other : holder j claim.0 ≡ some b = claimed k j b (sym same ∙ led) has in
            elim (holder-insert_keys (r.heap a).keys a j claim.0) [
              | inl stays ↦ stays ∙ other
              | inr (key, new) ↦
                  absurd (ground (arith, other, claimed_free j placed here free granted key))
            ]
      ]

-- The other calls of the registry.
pub get-Whole :
    (r : Registry) (key : Text) (now : Time)
    → Owned r.heap r.slots
    → Whole r.heap r.slots
    → Whole (get r key now).0.heap (get r key now).0.slots
unfolding get
get-Whole r key now own whole = elim (Option-cases (holder key r.slots)) [
  | inl e ↦ rw (e, get) whole
  | inr (a, e) ↦
      rw (e, get)
        (elim (Bool-cases (after now (r.heap a).expires_at)) [
          | inl old ↦ rw old (delete_slot-Whole r.heap a r.slots own whole)
          | inr live ↦ rw live whole
        ])
]

pub remove-Whole :
    (r : Registry) (key : Text) (conn : Option Conn)
    → Owned r.heap r.slots
    → Whole r.heap r.slots
    → Whole (remove r key conn).heap (remove r key conn).slots
unfolding remove
remove-Whole r key conn own whole = elim (Option-cases (holder key r.slots)) [
  | inl e ↦ rw (e, remove) whole
  | inr (a, e) ↦
      rw (e, remove)
        (elim (Bool-cases (may_remove conn (r.heap a).conn)) [
          | inl mine ↦ rw mine (delete_slot-Whole r.heap a r.slots own whole)
          | inr other ↦ rw other whole
        ])
]

set_expiry-Whole :
    (a : Addr) (t : Time) (heap : Addr → Slot) (m : Map Text Addr)
    → Whole heap m
    → Whole (set_expiry a t heap) m
set_expiry-Whole a t heap m whole k j b led has =
    whole k j b led (subst (Has j) (set_expiry-keys a b t heap) has)

pub touch-Whole :
    (r : Registry) (key : Text) (now : Time)
    → Whole r.heap r.slots
    → Whole (touch r key now).0.heap (touch r key now).0.slots
unfolding touch
touch-Whole r key now whole = elim (Option-cases (holder key r.slots)) [
  | inl e ↦ rw (e, touch) whole
  | inr (a, e) ↦ rw (e, touch) (set_expiry-Whole a (now + r.ttl) r.heap r.slots whole)
]
