-- ===== src/Registry/Takeover.antt =====
-- `Upsert` never takes a live key away from another connection.
use spadeide_rendezvous.Prelude.{
  ◌+◌, ◌≡◌, refl, sym, ◌∙◌, ap, ◌≢◌, ◌⊎◌, inl, inr, ◌↔◌, Text, text_discrete, Bool, none, some,
  List, [], ◌∷◌, Has, arith, Option-cases, Bool-cases, true, false, ◌==◌, ==_iff, if◌then◌else◌,
  is_empty,
}
use spadeide_rendezvous.Map.{Map, insert}
use spadeide_rendezvous.Map.Laws.{lookup-insert}
use spadeide_rendezvous.Clock.{Time, after}
use spadeide_rendezvous.Registry.{
  Addr, Conn, Slot, Registry, delete_slot, claim_keys, insert_keys, upsert, set_expiry, get,
}
use spadeide_rendezvous.Registry.Delete.{holder, holder-delete_keys}

module _ (heap : Addr → Slot) (conn : Conn) (now : Time) where
  abbrev pub expired : Addr → Bool
  expired a = after now (heap a).expires_at

  -- A key leads where it led, or it led to an expired slot and is gone.
  abbrev pub KeptOrExpired : Text → Map Text Addr → Map Text Addr → Type 0
  KeptOrExpired k m m' =
      (holder k m' ≡ holder k m)
      ⊎ ((a : Addr) × (holder k m ≡ some a) × (expired a ≡ true) × (holder k m' ≡ none))

  pub delete_slot-KeptOrExpired :
      (k : Text) (a : Addr) (m : Map Text Addr)
      → expired a ≡ true
      → KeptOrExpired k m (delete_slot heap a m)
  delete_slot-KeptOrExpired k a m old = elim (holder-delete_keys (heap a).keys a k m) [
    | inl same ↦ inl same
    | inr (led, gone) ↦ inr (a, led, old, gone)
  ]

  pub KeptOrExpired-trans :
      (k : Text) (m m' m'' : Map Text Addr)
      → KeptOrExpired k m m'
      → KeptOrExpired k m' m''
      → KeptOrExpired k m m''
  KeptOrExpired-trans k m m' m'' (inl p) (inl q) = inl (q ∙ p)
  KeptOrExpired-trans k m m' m'' (inl p) (inr (a, led, old, gone)) = inr (a, sym p ∙ led, old, gone)
  KeptOrExpired-trans k m m' m'' (inr (a, led, old, gone)) (inl q) = inr (a, led, old, q ∙ gone)
  KeptOrExpired-trans k m m' m'' (inr (a, led, old, gone)) (inr (b, led', old', gone')) = cc

  -- One round of the first loop: pass, sweep an expired holder and pass, or refuse.
  pub claim_keys_cases {ℓ} :
      (P : Map Text Addr × Bool → Type ℓ) (k : Text) (ks : List Text) (m : Map Text Addr)
      → (holder k m ≡ none → P (claim_keys heap conn now ks m))
      → ((a : Addr)
          → holder k m ≡ some a
          → expired a ≡ true
          → P (claim_keys heap conn now ks (delete_slot heap a m)))
      → ((a : Addr)
          → holder k m ≡ some a
          → expired a ≡ false
          → (heap a).conn ≡ conn
          → P (claim_keys heap conn now ks m))
      → ((a : Addr) → holder k m ≡ some a → expired a ≡ false → (heap a).conn ≢ conn → P (m, false))
      → P (claim_keys heap conn now (k ∷ ks) m)
  unfolding claim_keys
  claim_keys_cases P k ks m free old own taken = elim (Option-cases (holder k m)) [
    | inl e ↦ rw (e, claim_keys) (free e)
    | inr (a, e) ↦
        rw (e, claim_keys)
          (elim (Bool-cases (expired a)) [
            | inl over ↦ rw over (old a e over)
            | inr live ↦ rw live (elim (Bool-cases ((heap a).conn == conn)) [
              | inl same ↦ rw same (own a e live ((==_iff _ _).0 same))
              | inr other ↦ rw other (taken a e live (λ p. ground (arith, other, p)))
            ])
          ])
  ]

  pub claim_keys-KeptOrExpired :
      (ks : List Text) (k : Text) (m : Map Text Addr)
      → KeptOrExpired k m (claim_keys heap conn now ks m).0
  unfolding claim_keys
  claim_keys-KeptOrExpired [] k m = inl refl
  claim_keys-KeptOrExpired (j ∷ ks) k m =
      claim_keys_cases (λ r. KeptOrExpired k m r.0) j ks m (λ e. claim_keys-KeptOrExpired ks k m)
        (λ a e old.
          KeptOrExpired-trans k m (delete_slot heap a m) _ (delete_slot-KeptOrExpired k a m old)
            (claim_keys-KeptOrExpired ks k (delete_slot heap a m)))
        (λ a e live same. claim_keys-KeptOrExpired ks k m) (λ a e live other. inl refl)

  -- A claim that is granted meets no live holder on another connection.
  pub claim_keys-granted :
      (ks : List Text) (k : Text) (a : Addr) (m : Map Text Addr)
      → (claim_keys heap conn now ks m).1 ≡ true
      → Has k ks
      → holder k m ≡ some a
      → expired a ≡ false
      → (heap a).conn ≡ conn
  unfolding claim_keys
  claim_keys-granted [] k a m g h led live = elim h [ ]
  claim_keys-granted (j ∷ ks) k a m granted (inl here) led live =
      claim_keys_cases (λ r. r.1 ≡ true → (heap a).conn ≡ conn) j ks m
        (λ e g. ground (arith, e, here)) (λ b e old g. ground (arith, e, here))
        (λ b e live' same g. ground (arith, e, here)) (λ b e live' other g. cc) granted
  claim_keys-granted (j ∷ ks) k a m granted (inr there) led live =
      claim_keys_cases (λ r. r.1 ≡ true → (heap a).conn ≡ conn) j ks m
        (λ e g. claim_keys-granted ks k a m g there led live)
        (λ b e old g.
          claim_keys-granted ks k a (delete_slot heap b m) g there
            (ground (arith, delete_slot-KeptOrExpired k b m old)) live)
        (λ b e live' same g. claim_keys-granted ks k a m g there led live) (λ b e live' other g. cc)
        granted

  -- And one that meets none is granted.
  claim_keys-grants :
      (ks : List Text) (m : Map Text Addr)
      → ((k : Text) (a : Addr)
          → Has k ks
          → holder k m ≡ some a
          → expired a ≡ false
          → (heap a).conn ≡ conn)
      → (claim_keys heap conn now ks m).1 ≡ true
  unfolding claim_keys
  claim_keys-grants [] m own = refl
  claim_keys-grants (j ∷ ks) m own =
      claim_keys_cases (λ r. r.1 ≡ true) j ks m
        (λ e. claim_keys-grants ks m (λ k a h led live. own k a (inr h) led live))
        (λ b e old. claim_keys-grants ks (delete_slot heap b m) (λ k a h led live.
          own k a (inr h) (ground (arith, delete_slot-KeptOrExpired k b m old)) live))
        (λ b e live' same. claim_keys-grants ks m (λ k a h led live. own k a (inr h) led live))
        (λ b e live' other. absurd (other (own j b (inl refl) e live')))

pub holder-insert_keys :
    (ks : List Text) (a : Addr) (k : Text) (m : Map Text Addr)
    → (holder k (insert_keys ks a m) ≡ holder k m)
      ⊎ (Has k ks × (holder k (insert_keys ks a m) ≡ some a))
unfolding insert_keys
holder-insert_keys [] a k m = inl refl
holder-insert_keys (j ∷ ks) a k m = elim (text_discrete j k) [
  | yes p ↦ inr (
    inl (sym p),
    ground (
      arith,
      holder-insert_keys ks a k (insert text_discrete j a m),
      lookup-insert text_discrete j k a m,
    ),
  )
  | no p ↦ ground (
    arith,
    holder-insert_keys ks a k (insert text_discrete j a m),
    lookup-insert text_discrete j k a m,
  )
]

pub holder-insert_keys-Has :
    (ks : List Text) (a : Addr) (k : Text) (m : Map Text Addr)
    → Has k ks
    → holder k (insert_keys ks a m) ≡ some a
unfolding insert_keys
holder-insert_keys-Has [] a k m h = elim h [ ]
holder-insert_keys-Has (j ∷ ks) a k m (inl here) = ground (
  arith,
  holder-insert_keys ks a k (insert text_discrete j a m),
  lookup-insert text_discrete j k a m,
)
holder-insert_keys-Has (j ∷ ks) a k m (inr there) =
    holder-insert_keys-Has ks a k (insert text_discrete j a m) there

pub granted-claims :
    (r : Registry) (a : Addr) (now : Time)
    → (upsert r a now).1 ≡ true
    → (is_empty (r.heap a).keys ≡ false)
      × ((claim_keys r.heap (r.heap a).conn now (r.heap a).keys r.slots).1 ≡ true)
unfolding upsert
granted-claims r a now g = ground arith

-- A key that a live slot of another connection holds leads to that slot after `Upsert` too, granted
-- or not, and the slot is as it was: no silent takeover.
pub upsert-keeps_live :
    (r : Registry) (a c : Addr) (now : Time) (k : Text)
    → holder k r.slots ≡ some c
    → after now (r.heap c).expires_at ≡ false
    → (r.heap c).conn ≢ (r.heap a).conn
    → (holder k (upsert r a now).0.slots ≡ some c) × ((upsert r a now).0.heap c ≡ r.heap c)
unfolding upsert
upsert-keeps_live r a c now k led live other = elim (Bool-cases (is_empty (r.heap a).keys)) [
  | inl e ↦ rw e (led, refl)
  | inr e ↦ rw e (elim (Bool-cases claim.1) [
    | inl granted ↦ rw granted (
      elim (holder-insert_keys (r.heap a).keys a k claim.0) [
        | inl same ↦ same ∙ claimed
        | inr (key, new) ↦ absurd (
            other (
              claim_keys-granted r.heap (r.heap a).conn now (r.heap a).keys k c r.slots granted key
                led live))
      ],
      if_other (Bool-cases (c == a)),
    )
    | inr refused ↦ rw refused (claimed, refl)
  ])
]
  where
    claim : Map Text Addr × Bool
    claim = claim_keys r.heap (r.heap a).conn now (r.heap a).keys r.slots

    claimed : holder k claim.0 ≡ some c
    claimed =
        ground
          (arith, claim_keys-KeptOrExpired r.heap (r.heap a).conn now (r.heap a).keys k r.slots)

    if_other :
        ((c == a) ≡ true) ⊎ ((c == a) ≡ false) → set_expiry a (now + r.ttl) r.heap c ≡ r.heap c
    if_other (inl same) = absurd (other (ap (λ b. (r.heap b).conn) ((==_iff c a).0 same)))
    if_other (inr differ) = rw differ

-- `Upsert` is granted exactly when the slot has a key and no live slot of another connection holds
-- one of its keys.
pub upsert-granted_iff :
    (r : Registry) (a : Addr) (now : Time)
    → ((upsert r a now).1 ≡ true) ↔ (
        (is_empty (r.heap a).keys ≡ false)
        × ((k : Text) (c : Addr)
            → Has k (r.heap a).keys
            → holder k r.slots ≡ some c
            → after now (r.heap c).expires_at ≡ false
            → (r.heap c).conn ≡ (r.heap a).conn))
unfolding upsert
upsert-granted_iff r a now = (
  λ g. (
    (granted-claims r a now g).0,
    λ k c h led live.
        claim_keys-granted r.heap (r.heap a).conn now (r.heap a).keys k c r.slots
          (granted-claims r a now g).1 h led live,
  ),
  λ own.
      ground
        (arith, own.0, claim_keys-grants r.heap (r.heap a).conn now (r.heap a).keys r.slots own.1),
)

-- After a granted `Upsert` each of the slot's keys is found until the time to live is over, and not
-- after.
pub get-upsert :
    (r : Registry) (a : Addr) (now t : Time) (k : Text)
    → (upsert r a now).1 ≡ true
    → Has k (r.heap a).keys
    → (get (upsert r a now).0 k t).1 ≡ (if after t (now + r.ttl) then none else some a)
unfolding upsert get
get-upsert r a now t k granted h = ground (
  arith,
  granted-claims r a now granted,
  holder-insert_keys-Has (r.heap a).keys a k
      (claim_keys r.heap (r.heap a).conn now (r.heap a).keys r.slots).0 h,
)
