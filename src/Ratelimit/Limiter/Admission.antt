-- ===== src/Ratelimit/Limiter/Admission.antt =====
-- Who is admitted, and what a refusal does.
use spadeide_rendezvous.Prelude.{
  ◌+◌, ◌*◌, ◌≡◌, refl, ap, ◌∙◌, ◌≤◌, Text, text_discrete, Bool, true, false, not, ◌||◌, ltb, none,
  some, is_some, is_empty, arith, Option-cases, inl, inr,
}
use spadeide_rendezvous.Map.Laws.{lookup-insert_self}
use spadeide_rendezvous.Clock.{Time, Duration, minute}
use spadeide_rendezvous.Ratelimit.Address.{IpLib, ban_key}
use spadeide_rendezvous.Ratelimit.Address.Keys.{IpLaws, ban_key-idempotent}
use spadeide_rendezvous.Ratelimit.Window.{Window}
use spadeide_rendezvous.Ratelimit.Window
use spadeide_rendezvous.Ratelimit.Banbook.{
  Banbook, Ranges, blocked, blocked_at, note_rejected, strike, strike_at,
}
use spadeide_rendezvous.Ratelimit.Banbook.Evict.{entry}
use spadeide_rendezvous.Ratelimit.Banbook.Reach.{Reach, next, blocks}
use spadeide_rendezvous.Ratelimit.Banbook.Ladder.{blocked_at-strike_at, strike_at_bounds}
use spadeide_rendezvous.Ratelimit.Banbook.Frame.{ban_state, ban_state-note_rejected}
use spadeide_rendezvous.Ratelimit.Limiter.{
  Limiter, check_book, check_ban, soft_trip, allow_soft, allow_key, allow, reject_http, admit,
}

-- What the limiter's book and its window say of an address.
abbrev pub is_banned : IpLib → Limiter → Text → Time → Bool
is_banned lib l ip now = elim l.bans [
  | none ↦ false
  | some b ↦ (blocked lib b (ban_key lib ip) now).1
]

abbrev pub passes_window : IpLib → Limiter → Text → Time → Bool
passes_window lib l ip now = elim l.soft [
  | none ↦ true
  | some w ↦ (Window.allow w (ban_key lib ip) now).1
]

blocked_at-again :
    (b : Banbook) (key : Text) (now : Time)
    → (blocked_at (blocked_at b key now).0 key now).1 ≡ (blocked_at b key now).1
unfolding blocked_at
blocked_at-again b key now = elim (Option-cases (entry key b)) [
  | inl e ↦ rw (e, blocked_at) (ground (arith, e))
  | inr (e, there) ↦
      ground (
        arith,
        there,
        lookup-insert_self text_discrete key (record e { last_seen = now }) b.entries,
      )
]

blocked-again :
    (lib : IpLib) (b : Banbook) (key : Text) (now : Time)
    → (blocked lib (blocked lib b key now).0 key now).1 ≡ (blocked lib b key now).1
unfolding blocked
blocked-again lib b key now = ground (arith, blocked_at-again b (ban_key lib key) now)

-- `Admit` writes a 429 exactly when the book has the address banned or the window refuses it.
pub admit-decides :
    (lib : IpLib) (r : Ranges) (l : Limiter) (ip : Text) (now : Time)
    → is_some (admit lib r (some l) ip now).1
      ≡ (is_banned lib l ip now || not (passes_window lib l ip now))
unfolding admit check_ban check_book allow allow_key allow_soft
admit-decides lib r l ip now = elim (Option-cases l.bans) [
  | inl e ↦ ground (arith, e)
  | inr (b, e) ↦ ground (arith, e, blocked-again lib b (ban_key lib ip) now)
]

-- A banned address is turned away with the rest of its ban as Retry-After; no hit is recorded in the
-- window, and no key's bans change.
admit-banned :
    (lib : IpLib) (r : Ranges) (l : Limiter) (b : Banbook) (ip k : Text) (now : Time)
    → l.bans ≡ some b
    → (blocked lib b (ban_key lib ip) now).1 ≡ true
    → (c : Banbook) × ((admit lib r (some l) ip now).0 ≡ some (record l { bans = some c }))
      × ((admit lib r (some l) ip now).1
          ≡ some (reject_http now (blocked lib b (ban_key lib ip) now).2 true))
      × (ban_state (entry k c) ≡ ban_state (entry k b))
unfolding admit check_ban check_book
admit-banned lib r l b ip k now e banned =
    let seen : Banbook = (blocked lib b (ban_key lib ip) now).0 in
    (
      note_rejected lib seen (ban_key lib ip) now,
      ground (arith, e, banned),
      ground (arith, e, banned),
      (ban_state-note_rejected lib seen (ban_key lib ip) k now).1
          ∙ (ban_state-note_rejected lib b (ban_key lib ip) k now).0,
    )

-- A limiter without a book, as the one for UDP, answers as its window does and never gets a book.
pub allow-soft_only :
    (lib : IpLib) (r : Ranges) (w : Window) (key : Text) (now : Time)
    → allow lib r (some (record { bans = none; soft = some w })) key now ≡ (
      some (record { bans = none; soft = some (Window.allow w (ban_key lib key) now).0 }),
      (Window.allow w (ban_key lib key) now).1,
    )
unfolding allow allow_key allow_soft soft_trip
allow-soft_only lib r w key now = ground arith

strike-strike_at :
    (lib : IpLib) (r : Ranges) (b : Banbook) (key : Text) (soft : Bool) (now : Time)
    → is_empty key ≡ false
    → ban_key lib key ≡ key
    → strike lib r b key soft now ≡ strike_at r b key soft now
unfolding strike
strike-strike_at lib r b key soft now text same = rw text (ap (λ k. strike_at r b k soft now) same)

-- How the book answers for an address after a strike of its key.
blocked-strike_at :
    (lib : IpLib) (r : Ranges) (b : Banbook) (ip : Text) (soft : Bool) (now u : Time)
    → is_empty ip ≡ false
    → (blocked lib (strike_at r b (ban_key lib ip) soft now).0 ip u).1
      ≡ ltb u (now + (strike_at r b (ban_key lib ip) soft now).1)
unfolding blocked
blocked-strike_at lib r b ip soft now u text =
    rw text ((blocked_at-strike_at r b (ban_key lib ip) soft now u).0)

-- Under the laws of package net, in a book that calls from `NewBanbook` at earlier instants have made,
-- a hit of an address that is not banned, over the soft limit, with a text and a key that are not
-- empty, is refused and bans the address: for a span of one to fifteen minutes, at every instant up
-- to its end and not after.
pub allow-trips :
    (lib : IpLib) (r : Ranges) (l : Limiter) (b : Banbook) (w : Window) (ip : Text) (t now : Time)
    → IpLaws lib
    → Reach lib t b
    → t ≤ now
    → l.bans ≡ some b
    → l.soft ≡ some w
    → is_empty ip ≡ false
    → is_empty (ban_key lib ip) ≡ false
    → (blocked lib b (ban_key lib ip) now).1 ≡ false
    → (Window.allow w (ban_key lib ip) now).1 ≡ false
    → (c : Banbook) × (span : Duration) × (allow lib r (some l) ip now ≡ (
      some (record { bans = some c; soft = some (Window.allow w (ban_key lib ip) now).0 }),
      false,
    ))
      × (minute ≤ span)
      × (span ≤ 15 * minute)
      × ((u : Time) → (blocked lib c ip u).1 ≡ ltb u (now + span))
unfolding allow allow_key allow_soft soft_trip check_book
allow-trips lib r l b w ip t now laws reach order eb es text text' free over =
    let key = ban_key lib ip in
    let seen : Banbook = (blocked lib b key now).0 in
    let span = strike_at_bounds lib now now r seen key (next reach order (blocks key refl)) in
    let once = strike-strike_at lib r seen key true now text' (ban_key-idempotent lib ip laws) in
    (
      (strike_at r seen key true now).0,
      (strike_at r seen key true now).1,
      ground (arith, eb, es, free, over, once),
      span.0,
      span.1,
      λ u. blocked-strike_at lib r seen ip true now u text,
    )
