-- ===== src/Ratelimit/Banbook/Reach.antt =====
-- Every state that the book can reach from `NewBanbook`, by any calls at any instants in order.
use spadeide_rendezvous.Prelude.{
  ℕ, ◌+◌, ◌≡◌, refl, ap, ◌≤◌, ◌≢◌, Text, Bool, false, List, [], ◌∷◌, ◌++◌, length, arith,
  Option-cases, Bool-cases, inl, inr, is_empty,
}
use spadeide_rendezvous.Prelude.Int.{pos, ◌≤ℤ◌, pos_part}
use spadeide_rendezvous.Map.{lookup}
use spadeide_rendezvous.Clock.{Time}
use spadeide_rendezvous.Ratelimit.Address.{IpLib, ban_key, zero_from}
use spadeide_rendezvous.Ratelimit.Banbook.{
  Banbook, Ranges, new_banbook, blocked, blocked_at, note_rejected, note_rejected_at, strike,
  strike_at, sweep, strike_locked, default_max_keys,
}
use spadeide_rendezvous.Ratelimit.Banbook.Evict.{Covers, SameSettings}
use spadeide_rendezvous.Ratelimit.Banbook.Active.{active}
use spadeide_rendezvous.Ratelimit.Banbook.Capacity.{ensure_capacity-SameSettings}
use spadeide_rendezvous.Ratelimit.Banbook.Invariant.{
  IsValid, IsValid-later, blocked_at-IsValid, note_rejected_at-IsValid, strike_at-IsValid,
}
use spadeide_rendezvous.Ratelimit.Banbook.Sweep.{sweep-IsValid}

module _ (lib : IpLib) where
  -- A call of the book at an instant. The loops of a strike meet every key.
  pub data Step (now : Time) (b c : Banbook) : Type 0 where
    blocks : (key : Text) → c ≡ (blocked lib b key now).0 → Step now b c
    rejects : (key : Text) → c ≡ note_rejected lib b key now → Step now b c
    strikes :
        (r : Ranges) (key : Text) (soft : Bool)
        → Covers r.victims b.entries
        → c ≡ (strike lib r b key soft now).0
        → Step now b c
    sweeps : c ≡ sweep b now → Step now b c

  pub data Reach : Time → Banbook → Type 0 where
    start : (now : Time) → Reach now new_banbook
    next : {t now : Time} {b c : Banbook} → Reach t b → t ≤ now → Step now b c → Reach now c

-- `String` of an address is never empty.
abbrev pub PrintsText : IpLib → Type 0
PrintsText lib = (a : List ℕ) → lib.to_string a ≢ []

append-ne-nil : (xs : Text) (y : ℕ) (ys : Text) → xs ++ y ∷ ys ≢ []
append-ne-nil [] y ys e = cc
append-ne-nil (x ∷ xs) y ys e = cc

ban_key-ne-nil : (lib : IpLib) → PrintsText lib → (key : Text) → key ≢ [] → ban_key lib key ≢ []
unfolding ban_key
ban_key-ne-nil lib prints key h = elim (Option-cases (lib.parse_ip key)) [
  | inl e ↦ rw (e, ban_key) h
  | inr (parsed, e) ↦
      rw (e, ban_key)
        (elim (Option-cases (lib.to4 parsed)) [
          | inr (v4, f) ↦ rw f (prints v4)
          | inl f ↦ rw f (elim (Option-cases (lib.to16 parsed)) [
            | inl g ↦ rw g h
            | inr (v6, g) ↦
                rw g (append-ne-nil (lib.to_string (zero_from 8 v6)) b'/' (b'6' ∷ b'4' ∷ []))
          ])
        ])
]

is_empty-false : (key : Text) → is_empty key ≡ false → key ≢ []
is_empty-false [] e = λ f. cc
is_empty-false (c ∷ key) e = λ f. cc

counted_more :
    (now : Time) (b : Banbook)
    → IsValid now b
    → IsValid now (record b { rejected_banned = b.rejected_banned + 1 })
counted_more now b v = record {
  distinct = v.distinct;
  no_empty = v.no_empty;
  fits = v.fits;
  counted = v.counted;
  seen = v.seen;
}

new_banbook-IsValid : (now : Time) → IsValid now new_banbook
unfolding new_banbook lookup
new_banbook-IsValid now = record {
  distinct = tt;
  no_empty = refl;
  fits = λ h. omega arith;
  counted = omega arith;
  seen = λ key e there. cc;
}

Step-SameSettings : (lib : IpLib) {now : Time} {b c : Banbook} → Step lib now b c → SameSettings b c
unfolding blocked blocked_at note_rejected note_rejected_at strike strike_at strike_locked sweep
Step-SameSettings lib (blocks key e) = ground arith
Step-SameSettings lib (rejects key e) = ground arith
Step-SameSettings lib {now} {b} (strikes r key soft covers e) =
    ground (arith, ensure_capacity-SameSettings r now b)
Step-SameSettings lib (sweeps e) = ground arith

pub Reach-SameSettings :
    (lib : IpLib) {now : Time} {b : Banbook} → Reach lib now b → SameSettings new_banbook b
unfolding new_banbook
Reach-SameSettings lib (start now) = (refl, refl, refl, refl)
Reach-SameSettings lib (next r h st) =
    ground (arith, Reach-SameSettings lib r, Step-SameSettings lib st)

module _ (lib : IpLib) (prints : PrintsText lib) where
  Step-IsValid : {now : Time} {b c : Banbook} → Step lib now b c → IsValid now b → IsValid now c
  unfolding blocked note_rejected strike
  Step-IsValid {now} {b} (blocks key e) v = rw e (elim (Bool-cases (is_empty key)) [
    | inl nil ↦ rw nil v
    | inr text ↦ rw text (
        blocked_at-IsValid now b (ban_key lib key)
          (ban_key-ne-nil lib prints key (is_empty-false key text)) v)
  ])
  Step-IsValid {now} {b} (rejects key e) v = rw e (elim (Bool-cases (is_empty key)) [
    | inl nil ↦ rw nil v
    | inr text ↦ rw text (
        note_rejected_at-IsValid now (record b { rejected_banned = b.rejected_banned + 1 })
          (ban_key lib key) (ban_key-ne-nil lib prints key (is_empty-false key text))
          (counted_more now b v))
  ])
  Step-IsValid {now} {b} (strikes r key soft covers e) v = rw e (elim (Bool-cases (is_empty key)) [
    | inl nil ↦ rw nil v
    | inr text ↦ rw text (
        strike_at-IsValid r now b (ban_key lib key) soft
          (ban_key-ne-nil lib prints key (is_empty-false key text)) covers v)
  ])
  Step-IsValid {now} {b} (sweeps e) v = rw e (sweep-IsValid now b v)

  Reach-IsValid : {now : Time} {b : Banbook} → Reach lib now b → IsValid now b
  Reach-IsValid (start now) = new_banbook-IsValid now
  Reach-IsValid (next r h st) = Step-IsValid st (IsValid-later h (Reach-IsValid r))

  -- If no address prints as the empty text: whatever calls arrive, at instants in order and with any
  -- iteration orders in which the second loop meets every key, the book never holds more than 10000
  -- keys, and its counter of active bans is never below the number of bans that run.
  pub Reach-bounded :
      {now : Time} {b : Banbook}
      → Reach lib now b
      → (length b.entries ≤ 10000) × (pos (active now b.entries) ≤ℤ b.bans_active)
  unfolding new_banbook
  Reach-bounded {now} {b} r =
      let v = Reach-IsValid r in
      let same : b.max_keys ≡ default_max_keys = (Reach-SameSettings lib r).3 in
      (omega (arith, v.fits (rw same), ap pos_part same), v.counted)
