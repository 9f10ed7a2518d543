-- ===== src/Ratelimit/Banbook/Frame.antt =====
-- What the calls of the book leave alone: other keys, and all bans when nothing is struck.
use spadeide_rendezvous.Prelude.{
  ℕ, ◌+◌, ◌≡◌, ◌≢◌, ◌⊎◌, inl, inr, Text, text_discrete, Bool, Option, none, some, arith,
  Option-cases,
}
use spadeide_rendezvous.Map.{insert}
use spadeide_rendezvous.Map.Laws.{lookup-insert, lookup-insert_ne}
use spadeide_rendezvous.Clock.{Time}
use spadeide_rendezvous.Ratelimit.Address.{IpLib, ban_key}
use spadeide_rendezvous.Ratelimit.Banbook.{
  BanEntry, Banbook, Ranges, fresh_entry, put, struck, decay_strikes, strike_locked, strike_at,
  blocked_at, blocked, note_rejected_at, note_rejected, ensure_capacity,
}
use spadeide_rendezvous.Ratelimit.Banbook.Evict.{entry}
use spadeide_rendezvous.Ratelimit.Banbook.Capacity.{ensure_capacity-entry}

-- What an entry says of bans: the strikes of both kinds, the end of the ban, and the last strike.
abbrev pub ban_state : Option BanEntry → Option (ℕ × ℕ × Time × Time)
ban_state none = none
ban_state (some e) = some (e.strikes, e.soft_strikes, e.until, e.last_strike)

put-ban_state :
    (b : Banbook) (key k : Text) (e f : BanEntry)
    → entry key b ≡ some e
    → ban_state (some f) ≡ ban_state (some e)
    → ban_state (entry k (put key f b)) ≡ ban_state (entry k b)
put-ban_state b key k e f there same = ground (arith, lookup-insert text_discrete key k f b.entries)

blocked_at-ban_state :
    (b : Banbook) (key k : Text) (now : Time)
    → ban_state (entry k (blocked_at b key now).0) ≡ ban_state (entry k b)
unfolding blocked_at
blocked_at-ban_state b key k now = elim (Option-cases (entry key b)) [
  | inl e ↦ rw (e, blocked_at)
  | inr (e, there) ↦
      ground (arith, there, put-ban_state b key k e (record e { last_seen = now }) there)
]

note_rejected_at-ban_state :
    (b : Banbook) (key k : Text) (now : Time)
    → ban_state (entry k (note_rejected_at b key now)) ≡ ban_state (entry k b)
unfolding note_rejected_at
note_rejected_at-ban_state b key k now = elim (Option-cases (entry key b)) [
  | inl e ↦ rw (e, note_rejected_at)
  | inr (e, there) ↦ ground (
    arith,
    there,
    put-ban_state b key k e
        (record e { last_seen = now; rejected_while_banned = e.rejected_while_banned + 1 }) there,
  )
]

-- Asking whether a key is banned, and counting its rejections, change no key's bans: retries while
-- banned never climb a ladder.
pub ban_state-note_rejected :
    (lib : IpLib) (b : Banbook) (key k : Text) (now : Time)
    → (ban_state (entry k (blocked lib b key now).0) ≡ ban_state (entry k b))
      × (ban_state (entry k (note_rejected lib b key now)) ≡ ban_state (entry k b))
unfolding blocked note_rejected
ban_state-note_rejected lib b key k now = ground (
  arith,
  blocked_at-ban_state b (ban_key lib key) k now,
  note_rejected_at-ban_state (record b { rejected_banned = b.rejected_banned + 1 })
      (ban_key lib key) k now,
)

-- A strike of one key changes no other key's entry; it may evict it to make room.
strike_at-entry_ne :
    (r : Ranges) (b : Banbook) (key k : Text) (soft : Bool) (now : Time)
    → key ≢ k
    → (entry k (strike_at r b key soft now).0 ≡ entry k b)
      ⊎ (entry k (strike_at r b key soft now).0 ≡ none)
unfolding strike_at strike_locked
strike_at-entry_ne r b key k soft now other = elim (Option-cases (entry key b)) [
  | inl absent ↦
      let c = ensure_capacity r now b in
      let e = decay_strikes b.strike_decay now fresh_entry in
      rw (absent, strike_at)
        (ground (
          arith,
          lookup-insert_ne text_discrete key k fresh_entry c.entries other,
          lookup-insert_ne text_discrete key k (struck (put key fresh_entry c) soft now e)
              (insert text_discrete key fresh_entry c.entries) other,
          ensure_capacity-entry r now k b,
        ))
  | inr (e, there) ↦
      rw (there, strike_at) (inl (lookup-insert_ne text_discrete key k _ b.entries other))
]
