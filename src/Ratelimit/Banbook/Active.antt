-- ===== src/Ratelimit/Banbook/Active.antt =====
-- How many bans run at an instant, and how writes to the map change that.
use spadeide_rendezvous.Prelude.{
  ℕ, suc, ◌+◌, ◌≡◌, refl, ◌≤◌, Text, text_discrete, false, Option, none, some, List, [], ◌∷◌,
  if◌then◌else◌, arith,
}
use spadeide_rendezvous.Prelude.Int.{◌≤ℤ◌, pos, +ℤ_parts, minus_one}
use spadeide_rendezvous.Map.{Map, lookup, insert, delete, Distinct}
use spadeide_rendezvous.Map.Laws.{delete-Distinct, delete_absent}
use spadeide_rendezvous.Clock.{Time, after}
use spadeide_rendezvous.Ratelimit.Banbook.{
  BanEntry, Banbook, evict_decayed, drop_entry, uncount, evict,
}
use spadeide_rendezvous.Ratelimit.Banbook.Evict.{entry, evict_decayed_cases}

-- The number of entries whose ban still runs.
abbrev pub active : Time → Map Text BanEntry → ℕ
active now [] = 0
active now ((key, e) ∷ m) = if after e.until now then suc (active now m) else active now m

abbrev pub flag : Time → Option BanEntry → ℕ
flag now none = 0
flag now (some e) = if after e.until now then 1 else 0

pub active-insert :
    (now : Time) (key : Text) (e : BanEntry) (m : Map Text BanEntry)
    → active now (insert text_discrete key e m) + flag now (lookup text_discrete key m)
      ≡ active now m + flag now (some e)
unfolding lookup insert
active-insert now key e [] = ground arith
active-insert now key e ((k, f) ∷ m) = ground (arith, active-insert now key e m)

pub active-delete :
    (now : Time) (key : Text) (m : Map Text BanEntry)
    → Distinct text_discrete m
    → active now (delete text_discrete key m) + flag now (lookup text_discrete key m) ≡ active now m
unfolding lookup delete
active-delete now key [] d = ground arith
active-delete now key ((k, f) ∷ m) d =
    ground (arith, active-delete now key m d.1, delete_absent text_discrete key m)

-- Bans only end as time passes.
pub active-antitone :
    (now later : Time) (m : Map Text BanEntry) → now ≤ later → active later m ≤ active now m
active-antitone now later [] h = omega arith
active-antitone now later ((k, e) ∷ m) h = ground (arith, active-antitone now later m h)

pub evict_decayed-active :
    (now : Time) (order : List Text) (b : Banbook)
    → Distinct text_discrete b.entries
    → (active now (evict_decayed now order b).entries ≡ active now b.entries)
      × Distinct text_discrete (evict_decayed now order b).entries
      × ((evict_decayed now order b).bans_active ≡ b.bans_active)
unfolding evict_decayed
evict_decayed-active now [] b d = (refl, d, refl)
evict_decayed-active now (key ∷ order) b d =
    evict_decayed_cases
      (λ c.
        (active now c.entries ≡ active now b.entries)
        × Distinct text_discrete c.entries
        × (c.bans_active ≡ b.bans_active))
      now key order b (evict_decayed-active now order b d)
      (λ e found idle. (dropped e found idle, delete-Distinct text_discrete key b.entries d, refl))
      (λ e found idle. ground (
        arith,
        evict_decayed-active now order (drop_entry key b)
            (delete-Distinct text_discrete key b.entries d),
        dropped e found idle,
      ))
  where
    dropped :
        (e : BanEntry)
        → entry key b ≡ some e
        → after e.until now ≡ false
        → active now (delete text_discrete key b.entries) ≡ active now b.entries
    dropped e found idle = ground (arith, active-delete now key b.entries d)

-- The counter covers the running bans.
abbrev pub Counted : Time → Banbook → Type 0
Counted now b = pos (active now b.entries) ≤ℤ b.bans_active

drop_uncounted-Counted :
    (now : Time) (key : Text) (o : Option BanEntry) (b : Banbook)
    → entry key b ≡ o
    → Distinct text_discrete b.entries
    → Counted now b
    → Counted now (drop_entry key (uncount now o b))
      × Distinct text_discrete (drop_entry key (uncount now o b)).entries
drop_uncounted-Counted now key none b e d h = (
  ground (arith, active-delete now key b.entries d),
  delete-Distinct text_discrete key b.entries d,
)
drop_uncounted-Counted now key (some f) b e d h = ground (
  arith,
  active-delete now key b.entries d,
  delete-Distinct text_discrete key b.entries d,
  +ℤ_parts b.bans_active minus_one,
)

pub evict-Counted :
    (now : Time) (v : Text) (b : Banbook)
    → Distinct text_discrete b.entries
    → Counted now b
    → Counted now (evict now v b) × Distinct text_discrete (evict now v b).entries
evict-Counted now [] b d h = (h, d)
evict-Counted now (c ∷ v) b d h = drop_uncounted-Counted now (c ∷ v) (entry (c ∷ v) b) b refl d h
