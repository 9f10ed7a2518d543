-- ===== src/Ratelimit/Limiter.antt =====
-- The Limiter of guard.go and its HTTP side, http.go. A nil `*Limiter`, `Bans` or `Soft` is `none`;
-- a call returns the limiter with what its book and its window have become.
pub mod Admission
use spadeide_rendezvous.Prelude.{
  ℕ, ◌+◌, ◌-◌, ◌/◌, Text, Bool, true, false, Option, none, some, ltb, if◌then◌else◌,
}
use spadeide_rendezvous.Clock.{Time, minute, second}
use spadeide_rendezvous.Ratelimit.Address.{IpLib, ban_key}
use spadeide_rendezvous.Ratelimit.Window.{Window}
use spadeide_rendezvous.Ratelimit.Window
use spadeide_rendezvous.Ratelimit.Banbook.{Banbook, Ranges, blocked, note_rejected, strike}

pub record Limiter : Type 0 where
  pub bans : Option Banbook
  pub soft : Option Window

-- `CheckBan`'s look at the book: a banned key is counted as rejected.
unfoldable pub check_book : IpLib → Banbook → Text → Time → Banbook × Bool × Time
unfolding blocked note_rejected
check_book lib b key now =
    let (seen, banned, until) = blocked lib b key now in
    if banned then (note_rejected lib seen key now, true, until) else (seen, false, until)

unfoldable pub check_ban : IpLib → Option Limiter → Text → Time → Option Limiter × Bool × Time
unfolding check_book
check_ban lib none key now = (none, false, 0)
check_ban lib (some l) key now = elim l.bans [
  | none ↦ (some l, false, 0)
  | some b ↦
      let (b', banned, until) = check_book lib b (ban_key lib key) now in
      (some (record l { bans = some b' }), banned, until)
]

-- Over the soft limit: a soft strike, if there is a book.
unfoldable pub soft_trip : IpLib → Ranges → Limiter → Text → Time → Limiter
unfolding strike
soft_trip lib r l key now = elim l.bans [
  | none ↦ l
  | some b ↦ record l { bans = some (strike lib r b key true now).0 }
]

-- The soft window's part of `Allow`.
unfoldable pub allow_soft : IpLib → Ranges → Limiter → Text → Time → Limiter × Bool
unfolding soft_trip Window.allow
allow_soft lib r l key now = elim l.soft [
  | none ↦ (l, true)
  | some w ↦
      let (w', ok) = Window.allow w key now in
      let l' = record l { soft = some w' } in
      if ok then (l', true) else (soft_trip lib r l' key now, false)
]

unfoldable pub allow_key : IpLib → Ranges → Limiter → Text → Time → Limiter × Bool
unfolding allow_soft check_book
allow_key lib r l key now = elim l.bans [
  | none ↦ allow_soft lib r l key now
  | some b ↦
      let (b', banned, until) = check_book lib b key now in
      let l' = record l { bans = some b' } in
      if banned then (l', false) else allow_soft lib r l' key now
]

unfoldable pub allow : IpLib → Ranges → Option Limiter → Text → Time → Option Limiter × Bool
unfolding allow_key
allow lib r none key now = (none, true)
allow lib r (some l) key now =
    let (l', ok) = allow_key lib r l (ban_key lib key) now in (some l', ok)

-- A 429 response: its Retry-After in seconds, and whether it says "temporarily banned".
pub record Response : Type 0 where
  pub retry_after : ℕ
  pub says_banned : Bool

-- `int(time.Until(until).Seconds())`, cut to whole seconds; what is below 1 becomes 60.
unfoldable pub reject_http : Time → Time → Bool → Response
reject_http now until banned =
    let secs = (until - now) / second in
    record { retry_after = if ltb secs 1 then 60 else secs; says_banned = banned }

-- After a refusal: until when, as far as the book knows.
unfoldable pub retry_until : IpLib → Option Limiter → Text → Time → Option Limiter × Time
unfolding blocked
retry_until lib none ip now = (none, now + minute)
retry_until lib (some l) ip now = elim l.bans [
  | none ↦ (some l, now + minute)
  | some b ↦
      let (b', banned, until) = blocked lib b ip now in
      (some (record l { bans = some b' }), if banned then until else now + minute)
]

-- `Admit`: the response that was written, or none when the request may proceed.
unfoldable pub admit :
    IpLib → Ranges → Option Limiter → Text → Time → Option Limiter × Option Response
unfolding check_ban allow retry_until reject_http
admit lib r none ip now = (none, none)
admit lib r (some l) ip now =
    let (checked, banned, until) = check_ban lib (some l) ip now in
    let (allowed, ok) = allow lib r checked ip now in
    let (told, retry) = retry_until lib allowed ip now in
    if banned
    then (checked, some (reject_http now until true))
    else (if ok then (allowed, none) else (told, some (reject_http now retry true)))
