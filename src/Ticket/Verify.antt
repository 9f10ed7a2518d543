-- ===== src/Ticket/Verify.antt =====
-- What an accepted ticket has passed, and what `Verify` changes.
use mathlib.Core.Path.{ap₂}
use spadeide_rendezvous.Prelude.{
  ◌≡◌, refl, ap, ◌↔◌, ◌⊎◌, inl, inr, Text, text_discrete, Bool, true, false, Option, none, some,
  List, [], ◌∷◌, arith, Option-cases,
}
use spadeide_rendezvous.Prelude.Int.{gtℤ}
use spadeide_rendezvous.Map.{lookup, insert}
use spadeide_rendezvous.Clock.{Time, unix}
use spadeide_rendezvous.Ticket.{
  Ticket, Crypto, Manager, Error, Result, ok, err, split_dot, signed_by_us, redeem, verify_parts,
  verify,
}

-- The ticket that an encoded text spells, its signature apart.
abbrev pub spelled : Crypto → List Text → Option Ticket
spelled lib (head ∷ tail ∷ []) = elim (lib.decode head) [
  | none ↦ none
  | some raw ↦ lib.unmarshal raw
]
spelled lib parts = none

-- Both parts decode, and the second is a signature of the first under the current key, or under the
-- previous one while there is one.
abbrev pub Signed : Crypto → Manager → List Text → Type 0
Signed lib m parts =
    (head : Text) × (tail : Text) × (raw : Text) × (sig : Text) × (parts ≡ head ∷ tail ∷ [])
    × (lib.decode head ≡ some raw)
    × (lib.decode tail ≡ some sig)
    × ((lib.verify_sig m.public raw sig ≡ true)
        ⊎ ((old : Text) × (m.prev_pub ≡ some old) × (lib.verify_sig old raw sig ≡ true)))

abbrev pub signed_parts : Crypto → Manager → List Text → Bool
signed_parts lib m (head ∷ tail ∷ []) = elim (lib.decode head) [
  | none ↦ false
  | some raw ↦ elim (lib.decode tail) [ none ↦ false | some sig ↦ signed_by_us lib m raw sig ]
]
signed_parts lib m parts = false

-- The text spells the ticket under our signature, in its time, and was not accepted before.
abbrev pub Acceptable : Crypto → Manager → Text → Time → Ticket → Type 0
Acceptable lib m encoded now t =
    (spelled lib (split_dot encoded) ≡ some t)
    × Signed lib m (split_dot encoded)
    × (gtℤ (unix now) t.exp ≡ false)
    × (lookup text_discrete encoded m.used ≡ none)

signed_by_us_iff :
    (lib : Crypto) (m : Manager) (raw sig : Text)
    → (signed_by_us lib m raw sig ≡ true) ↔ (
        (lib.verify_sig m.public raw sig ≡ true)
        ⊎ ((old : Text) × (m.prev_pub ≡ some old) × (lib.verify_sig old raw sig ≡ true)))
signed_by_us_iff lib m raw sig = elim (Option-cases m.prev_pub) [
  | inl e ↦ (λ h. ground (arith, h, e), λ h. ground (arith, h, e))
  | inr (old, e) ↦ (λ h. ground (arith, h, e), λ h. ground (arith, h, e))
]

Signed-signed_parts :
    (lib : Crypto) (m : Manager) (parts : List Text)
    → Signed lib m parts
    → signed_parts lib m parts ≡ true
Signed-signed_parts lib m parts (head, tail, raw, sig, two, first, second, key) =
    rw two (ground (arith, first, second, (signed_by_us_iff lib m raw sig).1 key))

pub signed_parts-Signed :
    (lib : Crypto) (m : Manager) (parts : List Text)
    → signed_parts lib m parts ≡ true
    → Signed lib m parts
signed_parts-Signed lib m [] h = absurd (cc h)
signed_parts-Signed lib m (head ∷ []) h = absurd (cc h)
signed_parts-Signed lib m (head ∷ tail ∷ []) h = elim (Option-cases (lib.decode head)) [
  | inl e ↦ absurd (ground (arith, h, e))
  | inr (raw, e) ↦ elim (Option-cases (lib.decode tail)) [
    | inl f ↦ absurd (ground (arith, h, e, f))
    | inr (sig, f) ↦ (
      head,
      tail,
      raw,
      sig,
      refl,
      e,
      f,
      (signed_by_us_iff lib m raw sig).0 (ground (arith, h, e, f)),
    )
  ]
]
signed_parts-Signed lib m (head ∷ tail ∷ other ∷ rest) h = absurd (cc h)

abbrev AcceptableParts : Crypto → Manager → Text → List Text → Time → Ticket → Type 0
AcceptableParts lib m encoded parts now t =
    (spelled lib parts ≡ some t)
    × Signed lib m parts
    × (gtℤ (unix now) t.exp ≡ false)
    × (lookup text_discrete encoded m.used ≡ none)

verify_parts-ok :
    (lib : Crypto) (m : Manager) (encoded : Text) (parts : List Text) (now : Time) (t : Ticket)
    → (verify_parts lib m encoded parts now).1 ≡ ok t
    → AcceptableParts lib m encoded parts now t
unfolding verify_parts redeem
verify_parts-ok lib m encoded [] now t h = cc
verify_parts-ok lib m encoded (a ∷ []) now t h = cc
verify_parts-ok lib m encoded (a ∷ b ∷ []) now t h =
    let signed : signed_parts lib m (a ∷ b ∷ []) ≡ true = ground arith in
    (ground arith, signed_parts-Signed lib m (a ∷ b ∷ []) signed, ground arith, ground arith)
verify_parts-ok lib m encoded (a ∷ b ∷ c ∷ rest) now t h = cc

verify_parts-accepts :
    (lib : Crypto) (m : Manager) (encoded : Text) (parts : List Text) (now : Time) (t : Ticket)
    → AcceptableParts lib m encoded parts now t
    → verify_parts lib m encoded parts now
      ≡ (record m { used = insert text_discrete encoded t.exp m.used }, ok t)
unfolding verify_parts redeem
verify_parts-accepts lib m encoded [] now t h = absurd (cc (h.0))
verify_parts-accepts lib m encoded (a ∷ []) now t h = absurd (cc (h.0))
verify_parts-accepts lib m encoded (a ∷ b ∷ []) now t h =
    ground (arith, Signed-signed_parts lib m (a ∷ b ∷ []) (h.1), h.0, h.2)
verify_parts-accepts lib m encoded (a ∷ b ∷ c ∷ rest) now t h = absurd (cc (h.0))

verify_parts-err :
    (lib : Crypto) (m : Manager) (encoded : Text) (parts : List Text) (now : Time) (e : Error)
    → (verify_parts lib m encoded parts now).1 ≡ err e
    → (verify_parts lib m encoded parts now).0 ≡ m
unfolding verify_parts redeem
verify_parts-err lib m encoded [] now e h = refl
verify_parts-err lib m encoded (a ∷ []) now e h = refl
verify_parts-err lib m encoded (a ∷ b ∷ []) now e h = ground arith
verify_parts-err lib m encoded (a ∷ b ∷ c ∷ rest) now e h = refl

pub verify-accepts :
    (lib : Crypto) (m : Manager) (encoded : Text) (now : Time) (t : Ticket)
    → Acceptable lib m encoded now t
    → verify lib m encoded now
      ≡ (record m { used = insert text_discrete encoded t.exp m.used }, ok t)
unfolding verify
verify-accepts lib m encoded now t h =
    verify_parts-accepts lib m encoded (split_dot encoded) now t h

pub verify-ok :
    (lib : Crypto) (m : Manager) (encoded : Text) (now : Time) (t : Ticket)
    → (verify lib m encoded now).1 ≡ ok t
    → Acceptable lib m encoded now t
unfolding verify
verify-ok lib m encoded now t h = verify_parts-ok lib m encoded (split_dot encoded) now t h

pub verify-err :
    (lib : Crypto) (m : Manager) (encoded : Text) (now : Time) (e : Error)
    → (verify lib m encoded now).1 ≡ err e
    → (verify lib m encoded now).0 ≡ m
unfolding verify
verify-err lib m encoded now e h = verify_parts-err lib m encoded (split_dot encoded) now e h

-- `Verify` answers with a ticket exactly when the text is two parts that decode, the second is a
-- signature of the first under the current key or the previous one, the first spells the ticket, its
-- time has not passed, and the text is not among those remembered. It then remembers the text with
-- the ticket's expiry and changes nothing else; when it answers with an error, it changes nothing.
pub verify-ok_iff :
    (lib : Crypto) (m : Manager) (encoded : Text) (now : Time) (t : Ticket) (e : Error)
    → (((verify lib m encoded now).1 ≡ ok t) ↔ Acceptable lib m encoded now t)
      × (((verify lib m encoded now).1 ≡ ok t) ↔ (
          verify lib m encoded now
          ≡ (record m { used = insert text_discrete encoded t.exp m.used }, ok t)))
      × (((verify lib m encoded now).1 ≡ err e) ↔ (verify lib m encoded now ≡ (m, err e)))
verify-ok_iff lib m encoded now t e = (
  (verify-ok lib m encoded now t, λ h. ap (λ r. r.1) (verify-accepts lib m encoded now t h)),
  (
    (λ h. verify-accepts lib m encoded now t (verify-ok lib m encoded now t h)),
    (λ h. ap (λ r. r.1) h),
  ),
  ((λ h. ap₂ (λ a b. (a, b)) (verify-err lib m encoded now e h) h), (λ h. ap (λ r. r.1) h)),
)

-- A refusal changes nothing; an acceptance adds one text to those used.
pub verify-state :
    (lib : Crypto) (m : Manager) (encoded : Text) (now : Time)
    → ((verify lib m encoded now).0 ≡ m)
      ⊎ ((t : Ticket) × (lookup text_discrete encoded m.used ≡ none)
          × ((verify lib m encoded now).0
              ≡ record m { used = insert text_discrete encoded t.exp m.used }))
verify-state lib m encoded now = by_result (verify lib m encoded now).1 refl
  where
    by_result :
        (r : Result Ticket)
        → (verify lib m encoded now).1 ≡ r
        → ((verify lib m encoded now).0 ≡ m)
          ⊎ ((t : Ticket) × (lookup text_discrete encoded m.used ≡ none)
              × ((verify lib m encoded now).0
                  ≡ record m { used = insert text_discrete encoded t.exp m.used }))
    by_result (ok t) h = inr (
      t,
      (verify-ok lib m encoded now t h).3,
      ap (λ r. r.0) (verify-accepts lib m encoded now t (verify-ok lib m encoded now t h)),
    )
    by_result (err e) h = inl (verify-err lib m encoded now e h)
