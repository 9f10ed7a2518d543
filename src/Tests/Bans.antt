-- ===== src/Tests/Bans.antt =====
-- The ban book and the limiter at work on a few keys.
use spadeide_rendezvous.Prelude.{
  ℕ, ◌+◌, ◌*◌, ◌^◌, ◌≡◌, refl, ◌≤◌, ◌<◌, Text, text_discrete, true, false, not, ◌||◌, ◌↔◌, none,
  some, [], ◌∷◌, length, ltb, is_some, arith,
}
use spadeide_rendezvous.Prelude.Int.{pos, ◌≤ℤ◌}
use spadeide_rendezvous.Map.{lookup}
use spadeide_rendezvous.Clock.{Time, Duration, minute, after}
use spadeide_rendezvous.Ratelimit.Address.{ban_key}
use spadeide_rendezvous.Ratelimit.Address.Keys.{ban_key-idempotent}
use spadeide_rendezvous.Ratelimit.Window.{Window}
use spadeide_rendezvous.Ratelimit.Window
use spadeide_rendezvous.Ratelimit.Banbook
use spadeide_rendezvous.Ratelimit.Banbook.{
  BanEntry, Banbook, Ranges, new_banbook, fresh_entry, blocked, blocked_at, note_rejected,
  ensure_capacity, strike, strike_at, evict_decayed, pick_victim, ban_span, rung, soft_ladder,
}
use spadeide_rendezvous.Ratelimit.Banbook.Evict.{entry, Covers}
use spadeide_rendezvous.Ratelimit.Banbook.Active.{active}
use spadeide_rendezvous.Ratelimit.Banbook.Room.{ensure_capacity-evicts_last}
use spadeide_rendezvous.Ratelimit.Banbook.Reach.{Reach, start, next, strikes, Reach-bounded}
use spadeide_rendezvous.Ratelimit.Banbook.Sweep.{sweep_lem, Stays}
use spadeide_rendezvous.Ratelimit.Banbook.Ladder.{strike_at_shortens}
use spadeide_rendezvous.Ratelimit.Limiter.{Limiter, allow, admit}
use spadeide_rendezvous.Ratelimit.Limiter.Admission.{
  is_banned, passes_window, admit-decides, allow-trips,
}
use spadeide_rendezvous.Tests.Fixtures.{lib, lib-IpLaws, lib-PrintsText, parse_ip}

-- Two IPv4 addresses.
abbrev near : Text
near = 4 ∷ []

abbrev far : Text
far = 4 ∷ 5 ∷ []

abbrev no_keys : Ranges
no_keys = record { decayed = []; victims = [] }

abbrev both : Ranges
both = record { decayed = near ∷ far ∷ []; victims = far ∷ near ∷ [] }

abbrev until_100 : BanEntry
until_100 = record fresh_entry { until = 100 }

abbrev for_years : BanEntry
for_years = record fresh_entry { until = 10 ^ 18 }

-- Full, with two running bans.
abbrev full : Banbook
full = record {
  ladder = soft_ladder;
  soft = soft_ladder;
  strike_decay = 60 * minute;
  max_keys = pos 2;
  entries = (near, until_100) ∷ (far, for_years) ∷ [];
  strikes_total = 2;
  bans_active = pos 2;
  rejected_banned = 0;
  evictions = 0;
}

abbrev struck_once : Banbook
struck_once = (strike lib no_keys new_banbook near true 5).0

once-Reach : Reach lib 5 struck_once
unfolding new_banbook lookup
once-Reach = next (start 0) (omega arith) (strikes no_keys near true (λ k e there. cc) refl)

full-Covers : Covers both.victims full.entries
unfolding lookup
full-Covers k e there = ground (arith, text_discrete near k, text_discrete far k)

Reach-bounded_example :
    (length struck_once.entries ≤ 10000)
    × (pos (active 5 struck_once.entries) ≤ℤ struck_once.bans_active)
Reach-bounded_example = Reach-bounded lib lib-PrintsText once-Reach

ensure_capacity-evicts_last_example : (after (10 ^ 18) 50 ≡ true) × (100 ≤ 10 ^ 18)
unfolding ensure_capacity lookup text_discrete
ensure_capacity-evicts_last_example =
    ensure_capacity-evicts_last both 50 full near far until_100 for_years (omega arith) refl
      full-Covers refl refl refl refl (omega arith)

strike_at_shortens_example :
    (f : BanEntry) × (entry far (strike_at both full far true 60).0 ≡ some f)
    × (f.until < for_years.until)
unfolding lookup text_discrete rung Banbook.decay_strikes
strike_at_shortens_example = strike_at_shortens both full far true 60 for_years refl (omega arith)

sweep_lem_example :
    ((key : Text) (e : BanEntry)
      → (entry key (Banbook.sweep full 60) ≡ some e)
        ↔ ((entry key full ≡ some e) × Stays full 60 e))
    × ((Banbook.sweep full 60).bans_active ≡ pos (active 60 (Banbook.sweep full 60).entries))
unfolding lookup text_discrete
sweep_lem_example = sweep_lem 60 full (refl, (refl, tt))

ban_key-idempotent_example : ban_key lib (ban_key lib (6 ∷ 7 ∷ [])) ≡ ban_key lib (6 ∷ 7 ∷ [])
ban_key-idempotent_example = ban_key-idempotent lib (6 ∷ 7 ∷ []) lib-IpLaws

abbrev long : ℕ → Text
long last = 6 ∷ 1 ∷ 1 ∷ 1 ∷ 1 ∷ 1 ∷ 1 ∷ 1 ∷ last ∷ []

abbrev limiter : Limiter
limiter = record { bans = some full; soft = none }

admit-decides_example :
    is_some (admit lib both (some limiter) near 60).1
    ≡ (is_banned lib limiter near 60 || not (passes_window lib limiter near 60))
admit-decides_example = admit-decides lib both limiter near 60

-- One hit is all that this window allows.
abbrev spent : Window
spent = record { limit = pos 1; window = minute; hits = (near, 5 ∷ []) ∷ [] }

allow-trips_example :
    (c : Banbook) × (span : Duration) × (allow lib no_keys
        (some (record { bans = some new_banbook; soft = some spent }))
        near
        9
      ≡ (
        some (record { bans = some c; soft = some (Window.allow spent (ban_key lib near) 9).0 }),
        false,
      ))
    × (minute ≤ span)
    × (span ≤ 15 * minute)
    × ((u : Time) → (blocked lib c near u).1 ≡ ltb u (9 + span))
unfolding new_banbook blocked lookup text_discrete parse_ip Window.allow
allow-trips_example =
    allow-trips lib no_keys (record { bans = some new_banbook; soft = some spent }) new_banbook
      spent near 0 9 lib-IpLaws (start 0) (omega arith) refl refl refl refl refl refl
