-- ===== src/Ratelimit/Banbook.antt =====
-- guard.go: the book of progressive bans. The map's iteration order is an argument wherever a loop
-- over the entries depends on it; `now` is the instant at which the call reads the clock.
pub mod Evict
pub mod Victim
pub mod Capacity
pub mod Room
pub mod Active
pub mod Invariant
pub mod Sweep
pub mod Reach
pub mod Ladder
pub mod Frame
use spadeide_rendezvous.Prelude.{
  ℕ, suc, ◌+◌, ◌-◌, ◌*◌, Text, text_discrete, Bool, true, false, ◌&&◌, ◌||◌, Option, none, some,
  List, [], ◌∷◌, ite, length, get_or, is_empty, ltb, leb, if◌then◌else◌,
}
use spadeide_rendezvous.Prelude.Int.{ℤ, pos, ◌+ℤ◌, pos_part, non_positive, minus_one}
use spadeide_rendezvous.Map.{Map, lookup, insert, delete}
use spadeide_rendezvous.Clock.{Time, Duration, minute, hour, after, elapsed}
use spadeide_rendezvous.Ratelimit.Address.{IpLib, ban_key}

abbrev pub default_ladder : List Duration
default_ladder = minute ∷ (5 * minute) ∷ (15 * minute) ∷ hour ∷ (24 * hour) ∷ []

abbrev pub soft_ladder : List Duration
soft_ladder = minute ∷ (5 * minute) ∷ (15 * minute) ∷ []

abbrev pub default_max_keys : ℤ
default_max_keys = pos 10000

pub record BanEntry : Type 0 where
  pub strikes : ℕ
  pub soft_strikes : ℕ
  pub until : Time
  pub last_strike : Time
  pub rejected_while_banned : ℕ
  pub last_seen : Time

pub record Banbook : Type 0 where
  pub ladder : List Duration
  pub soft : List Duration
  pub strike_decay : Duration
  pub max_keys : ℤ
  pub entries : Map Text BanEntry
  pub strikes_total : ℕ
  pub bans_active : ℤ
  pub rejected_banned : ℕ
  pub evictions : ℕ

unfoldable pub new_banbook : Banbook
new_banbook = record {
  ladder = default_ladder;
  soft = soft_ladder;
  strike_decay = 24 * hour;
  max_keys = default_max_keys;
  entries = [];
  strikes_total = 0;
  bans_active = pos 0;
  rejected_banned = 0;
  evictions = 0;
}

-- `&banEntry{}`.
abbrev pub fresh_entry : BanEntry
fresh_entry = record {
  strikes = 0;
  soft_strikes = 0;
  until = 0;
  last_strike = 0;
  rejected_while_banned = 0;
  last_seen = 0;
}

abbrev pub put : Text → BanEntry → Banbook → Banbook
put key e b = record b { entries = insert text_discrete key e b.entries }

-- The locked part of `Blocked`, at the key that `BanKey` gives.
unfoldable pub blocked_at : Banbook → Text → Time → Banbook × Bool × Time
unfolding lookup
blocked_at b key now = elim (lookup text_discrete key b.entries) [
  | none ↦ (b, false, 0)
  | some e ↦
      let seen = put key (record e { last_seen = now }) b in
      if after e.until now then (seen, true, e.until) else (seen, false, 0)
]

unfoldable pub blocked : IpLib → Banbook → Text → Time → Banbook × Bool × Time
unfolding blocked_at ban_key
blocked lib b key now = if is_empty key then (b, false, 0) else blocked_at b (ban_key lib key) now

unfoldable pub note_rejected_at : Banbook → Text → Time → Banbook
unfolding lookup
note_rejected_at b key now = elim (lookup text_discrete key b.entries) [
  | none ↦ b
  | some e ↦
      if after e.until now
      then put key
          (record e { last_seen = now; rejected_while_banned = e.rejected_while_banned + 1 }) b
      else b
]

unfoldable pub note_rejected : IpLib → Banbook → Text → Time → Banbook
unfolding note_rejected_at ban_key
note_rejected lib b key now =
    if is_empty key
    then b
    else note_rejected_at (record b { rejected_banned = b.rejected_banned + 1 }) (ban_key lib key)
        now

-- `len(b.entries) < b.maxKeys`, at a positive maxKeys.
abbrev pub has_room : Banbook → Bool
has_room b = ltb (length b.entries) (pos_part b.max_keys)

-- No strike and no sighting within the decay span.
abbrev pub is_idle : Banbook → Time → BanEntry → Bool
is_idle b now e =
    ltb b.strike_decay (elapsed now e.last_strike) && ltb b.strike_decay (elapsed now e.last_seen)

abbrev pub drop_entry : Text → Banbook → Banbook
drop_entry key b = record b {
  entries = delete text_discrete key b.entries;
  evictions = b.evictions + 1;
}

-- The first loop of `ensureCapacityLocked`, over the keys in the order in which the range gives
-- them; a key that is gone is passed over. It stops as soon as there is room: the source returns
-- there, and its test after the loop would return too.
unfoldable pub evict_decayed : Time → List Text → Banbook → Banbook
evict_decayed now [] b = b
evict_decayed now (key ∷ order) b =
    let skip = evict_decayed now order b in
    let next = evict_decayed now order (drop_entry key b) in
    elim (lookup text_discrete key b.entries) [
      | none ↦ skip
      | some e ↦
          if after e.until now
          then skip
          else (if is_idle b now e
              then (if has_room (drop_entry key b) then drop_entry key b else next)
              else skip)
    ]

-- When the entry could go: at the end of its ban, or when it was last seen.
abbrev pub candidate : Time → BanEntry → Time
candidate now e = if after e.until now then e.until else e.last_seen

-- `first || cand.Before(best)`, with `none` while `first` holds.
abbrev pub better : Text → Time → Option (Text × Time) → Option (Text × Time)
better key cand none = some (key, cand)
better key cand (some (victim, best)) =
    if ltb cand best then some (key, cand) else some (victim, best)

-- The second loop: the entry with the earliest candidate time.
unfoldable pub pick_victim :
    Time → Map Text BanEntry → List Text → Option (Text × Time) → Option (Text × Time)
pick_victim now m [] best = best
pick_victim now m (key ∷ order) best =
    pick_victim now m order (elim (lookup text_discrete key m) [
      | none ↦ best
      | some e ↦ better key (candidate now e) best
    ])

abbrev pub victim_key : Option (Text × Time) → Text
victim_key none = []
victim_key (some (key, best)) = key

-- A ban that is evicted while it runs leaves the count of active bans.
abbrev pub uncount : Time → Option BanEntry → Banbook → Banbook
uncount now none b = b
uncount now (some e) b =
    if after e.until now then record b { bans_active = b.bans_active +ℤ minus_one } else b

abbrev pub evict : Time → Text → Banbook → Banbook
evict now [] b = b
evict now (c ∷ key) b =
    drop_entry (c ∷ key) (uncount now (lookup text_discrete (c ∷ key) b.entries) b)

-- The orders in which the two loops of one call meet the keys.
pub record Ranges : Type 0 where
  pub decayed : List Text
  pub victims : List Text

unfoldable pub ensure_capacity : Ranges → Time → Banbook → Banbook
unfolding evict_decayed pick_victim lookup delete ◌+ℤ◌
ensure_capacity r now b =
    if non_positive b.max_keys || has_room b
    then b
    else (let b' = evict_decayed now r.decayed b in
        if has_room b'
        then b'
        else evict now (victim_key (pick_victim now b'.entries r.victims none)) b')

-- A long clean period forgets old strikes.
unfoldable pub decay_strikes : Duration → Time → BanEntry → BanEntry
decay_strikes strike_decay now e =
    if (ltb 0 e.strikes || ltb 0 e.soft_strikes) && ltb strike_decay (elapsed now e.last_strike)
    then record e { strikes = 0; soft_strikes = 0; rejected_while_banned = 0 }
    else e

-- `ladder[idx]` with idx one below the count, an empty ladder replaced by SoftLadder, and an idx
-- past the end brought back to the last rung.
unfoldable pub rung : List Duration → ℕ → Duration
rung [] count = get_or soft_ladder (if leb 3 (count - 1) then 2 else count - 1) 0
rung (d ∷ ds) count =
    get_or (d ∷ ds) (if leb (length (d ∷ ds)) (count - 1) then length (d ∷ ds) - 1 else count - 1) 0

abbrev pub climbed : Bool → BanEntry → BanEntry
climbed true e = record e { soft_strikes = e.soft_strikes + 1 }
climbed false e = record e { strikes = e.strikes + 1 }

abbrev pub ban_span : Banbook → Bool → BanEntry → Duration
ban_span b true e = rung b.soft (e.soft_strikes + 1)
ban_span b false e = rung b.ladder (e.strikes + 1)

-- The entry after `strikeLocked`.
abbrev pub struck : Banbook → Bool → Time → BanEntry → BanEntry
struck b soft now e = record (climbed soft e) {
  last_strike = now;
  last_seen = now;
  rejected_while_banned = 0;
  until = now + ban_span b soft e;
}

unfoldable pub strike_locked : Banbook → Text → BanEntry → Bool → Time → Banbook × Duration
unfolding rung insert ◌+ℤ◌
strike_locked b key e soft now = (
  record b {
    entries = insert text_discrete key (struck b soft now e) b.entries;
    strikes_total = b.strikes_total + 1;
    bans_active = if after e.until now then b.bans_active else b.bans_active +ℤ pos 1;
  },
  ban_span b soft e,
)

-- The locked part of `strike`. A new key first makes room, and enters the map.
unfoldable pub strike_at : Ranges → Banbook → Text → Bool → Time → Banbook × Duration
unfolding lookup ensure_capacity decay_strikes strike_locked
strike_at r b key soft now = elim (lookup text_discrete key b.entries) [
  | none ↦
      strike_locked (put key fresh_entry (ensure_capacity r now b)) key
        (decay_strikes b.strike_decay now fresh_entry) soft now
  | some e ↦ strike_locked b key (decay_strikes b.strike_decay now e) soft now
]

unfoldable pub strike : IpLib → Ranges → Banbook → Text → Bool → Time → Banbook × Duration
unfolding strike_at ban_key
strike lib r b key soft now =
    if is_empty key then (b, 0) else strike_at r b (ban_key lib key) soft now

-- The loop of `Sweep`: the running bans are counted, and an entry goes when it is idle.
unfoldable pub sweep_entries : Banbook → Time → Map Text BanEntry → ℕ × Map Text BanEntry
sweep_entries b now [] = (0, [])
sweep_entries b now ((key, e) ∷ m) =
    let (active, kept) = sweep_entries b now m in
    if after e.until now
    then (suc active, (key, e) ∷ kept)
    else (if is_idle b now e then (active, kept) else (active, (key, e) ∷ kept))

unfoldable pub sweep : Banbook → Time → Banbook
unfolding sweep_entries
sweep b now =
    let (active, kept) = sweep_entries b now b.entries in
    record b { entries = kept; bans_active = pos active }
