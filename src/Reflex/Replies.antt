-- ===== src/Reflex/Replies.antt =====
-- How many answers a source can draw: the service is no amplifier.
use spadeide_rendezvous.Prelude.{
  ◌≡◌, refl, inl, inr, ◌≤◌, Text, Bool, true, false, Option, none, some, is_some, List, [], ◌∷◌,
  count, arith, Option-cases, if◌then◌else◌,
}
use spadeide_rendezvous.Prelude.Int.{ℤ, pos_part, non_positive}
use spadeide_rendezvous.Clock.{Time, within}
use spadeide_rendezvous.Ratelimit.Address.{IpLib, ban_key}
use spadeide_rendezvous.Ratelimit.Banbook.{Ranges}
use spadeide_rendezvous.Ratelimit.Window
use spadeide_rendezvous.Ratelimit.Window.{Window, new_window}
use spadeide_rendezvous.Ratelimit.Window.Reference.{
  Log, times, noted, Event, hit, InOrder, Until, admissions,
}
use spadeide_rendezvous.Ratelimit.Window.Refinement.{admissions-le-limit}
use spadeide_rendezvous.Ratelimit.Limiter.{Limiter, check_ban}
use spadeide_rendezvous.Ratelimit.Limiter.Admission.{allow-soft_only}
use spadeide_rendezvous.Reflex.{Packet, asks, may_answer, receive, reply_to}

-- The limiter that `NewWire` makes for the service: a window, and no book.
abbrev pub soft_only : Window → Option Limiter
soft_only w = some (record { bans = none; soft = some w })

module _ (lib : IpLib) (trim_space : Text → Text) (r : Ranges) where
  -- The answers that a run of datagrams draws, under the keys of their sources, after those so far.
  unfoldable pub answered : Option Limiter → Log → List (Packet × Time) → Log
  answered l log [] = log
  answered l log ((p, now) ∷ ps) =
      answered (receive lib trim_space r l p now).0
        (elim (asks trim_space p) [
          | none ↦ log
          | some (host, port) ↦
              noted (is_some (receive lib trim_space r l p now).1) (ban_key lib host) now log
        ])
        ps

  -- What the window sees of them.
  abbrev pub hits : List (Packet × Time) → List Event
  hits [] = []
  hits ((p, now) ∷ ps) = elim (asks trim_space p) [
    | none ↦ hits ps
    | some (host, port) ↦ hit (ban_key lib host) now ∷ hits ps
  ]

  may_answer-soft_only :
      (w : Window) (host : Text) (now : Time)
      → may_answer lib r (soft_only w) host now ≡ (
        soft_only (Window.allow w (ban_key lib host) now).0,
        (Window.allow w (ban_key lib host) now).1,
      )
  unfolding may_answer check_ban
  may_answer-soft_only w host now = allow-soft_only lib r w host now

  receive-silent :
      (l : Option Limiter) (p : Packet) (now : Time)
      → asks trim_space p ≡ none
      → receive lib trim_space r l p now ≡ (l, none)
  unfolding receive
  receive-silent l p now e = ground (arith, e)

  receive-soft_only :
      (w : Window) (p : Packet) (now : Time) (host port : Text)
      → asks trim_space p ≡ some (host, port)
      → receive lib trim_space r (soft_only w) p now ≡ (
        soft_only (Window.allow w (ban_key lib host) now).0,
        if (Window.allow w (ban_key lib host) now).1 then some (reply_to host port) else none,
      )
  unfolding receive
  receive-soft_only w p now host port e = ground (arith, e, may_answer-soft_only w host now)

  is_some-reply : (b : Bool) (t : Text) → is_some (if b then some t else none) ≡ b
  is_some-reply true t = refl
  is_some-reply false t = refl

  answered-admissions :
      (w : Window) (log : Log) (ps : List (Packet × Time))
      → answered (soft_only w) log ps ≡ admissions w log (hits ps)
  unfolding answered admissions
  answered-admissions w log [] = refl
  answered-admissions w log ((p, now) ∷ ps) = elim (Option-cases (asks trim_space p)) [
    | inl e ↦ rw (e, hits, receive-silent (soft_only w) p now e) (answered-admissions w log ps)
    | inr ((host, port), e) ↦
        let ok : Bool = (Window.allow w (ban_key lib host) now).1 in
        rw (e, hits, receive-soft_only w p now host port e, is_some-reply ok (reply_to host port))
          (answered-admissions (Window.allow w (ban_key lib host) now).0
            (noted ok (ban_key lib host) now log) ps)
  ]

  -- The datagrams arrive in order, the last of them by the given instant.
  abbrev pub Arriving : Time → List (Packet × Time) → Time → Type 0
  Arriving t [] last = t ≤ last
  Arriving t ((p, now) ∷ ps) last = (t ≤ now) × Arriving now ps last

  Arriving-earlier :
      (t u last : Time) (ps : List (Packet × Time))
      → t ≤ u
      → Arriving u ps last
      → Arriving t ps last
  Arriving-earlier t u last [] h a = omega arith
  Arriving-earlier t u last ((p, now) ∷ ps) h a = (omega (arith, a.0), a.1)

  Arriving-le : (t last : Time) (ps : List (Packet × Time)) → Arriving t ps last → t ≤ last
  Arriving-le t last [] a = a
  Arriving-le t last ((p, now) ∷ ps) a = omega (arith, a.0, Arriving-le now last ps a.1)

  hits-InOrder :
      (t last : Time) (ps : List (Packet × Time))
      → Arriving t ps last
      → InOrder t (hits ps) × Until last t (hits ps)
  hits-InOrder t last [] a = (tt, a)
  hits-InOrder t last ((p, now) ∷ ps) a = elim (Option-cases (asks trim_space p)) [
    | inl e ↦ rw (e, hits) (hits-InOrder t last ps (Arriving-earlier t now last ps a.0 a.1))
    | inr ((host, port), e) ↦
        let (order, until) = hits-InOrder now last ps a.1 in
        rw (e, hits) ((a.0, order), (omega (arith, a.0, Arriving-le now last ps a.1), until))
  ]

-- With a positive limit, the service sends at most `limit` answers to the sources of one key in any
-- stretch of one window's length that ends when the last datagram has arrived or later, whatever
-- datagrams arrive.
pub answered-le-limit :
    (lib : IpLib) (trim_space : Text → Text) (r : Ranges) (limit span : ℤ)
    (ps : List (Packet × Time)) (key : Text) (now : Time)
    → non_positive limit ≡ false
    → Arriving lib trim_space r 0 ps now
    → count
        (within (new_window limit span).window now)
        (times key (answered lib trim_space r (soft_only (new_window limit span)) [] ps))
      ≤ pos_part limit
answered-le-limit lib trim_space r limit span ps key now limited a =
    let (order, until) = hits-InOrder lib trim_space r 0 now ps a in
    rw (answered-admissions lib trim_space r (new_window limit span) [] ps)
      (admissions-le-limit limit span (hits lib trim_space r ps) key now limited order until)
