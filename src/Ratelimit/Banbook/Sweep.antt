-- ===== src/Ratelimit/Banbook/Sweep.antt =====
-- What `Sweep` leaves of the book.
use spadeide_rendezvous.Prelude.{
  ◌≡◌, refl, ◌≤◌, ◌<◌, ◌⊎◌, ◌↔◌, Text, text_discrete, Option, none, some, [], ◌∷◌, if◌then◌else◌,
  arith, length, ap,
}
use spadeide_rendezvous.Prelude.Int.{pos}
use spadeide_rendezvous.Map.{Map, lookup, Distinct}
use spadeide_rendezvous.Clock.{Time, after, elapsed}
use spadeide_rendezvous.Ratelimit.Banbook.{BanEntry, Banbook, sweep, sweep_entries, is_idle}
use spadeide_rendezvous.Ratelimit.Banbook.Evict.{entry}
use spadeide_rendezvous.Ratelimit.Banbook.Active.{active}
use spadeide_rendezvous.Ratelimit.Banbook.Invariant.{IsValid}

sweep_entries-absent :
    (b : Banbook) (now : Time) (key : Text) (m : Map Text BanEntry)
    → lookup text_discrete key m ≡ none
    → lookup text_discrete key (sweep_entries b now m).1 ≡ none
unfolding lookup sweep_entries
sweep_entries-absent b now key [] h = refl
sweep_entries-absent b now key ((k, e) ∷ m) h = ground (arith, sweep_entries-absent b now key m)

-- What a sweep leaves: a part of the map, with its running bans counted exactly.
record Swept (b : Banbook) (now : Time) (m : Map Text BanEntry) : Type 0 where
  distinct : Distinct text_discrete (sweep_entries b now m).1
  shorter : length (sweep_entries b now m).1 ≤ length m
  exact : (sweep_entries b now m).0 ≡ active now (sweep_entries b now m).1
  same : (sweep_entries b now m).0 ≡ active now m

sweep_entries-Swept :
    (b : Banbook) (now : Time) (m : Map Text BanEntry) → Distinct text_discrete m → Swept b now m
unfolding sweep_entries
sweep_entries-Swept b now [] d = record {
  distinct = tt;
  shorter = omega arith;
  exact = refl;
  same = refl;
}
sweep_entries-Swept b now ((k, e) ∷ m) d =
    ground (arith, sweep_entries-Swept b now m d.1, sweep_entries-absent b now k m d.0)

abbrev survivor : Banbook → Time → Option BanEntry → Option BanEntry
survivor b now none = none
survivor b now (some e) =
    if after e.until now then some e else (if is_idle b now e then none else some e)

lookup-sweep_entries :
    (b : Banbook) (now : Time) (key : Text) (m : Map Text BanEntry)
    → Distinct text_discrete m
    → lookup text_discrete key (sweep_entries b now m).1
      ≡ survivor b now (lookup text_discrete key m)
unfolding lookup sweep_entries
lookup-sweep_entries b now key [] d = refl
lookup-sweep_entries b now key ((k, e) ∷ m) d = ground (
  arith,
  lookup-sweep_entries b now key m d.1,
  sweep_entries-absent b now k m d.0,
  text_discrete k key,
)

-- An entry that a sweep leaves: its ban runs, or it was struck or seen within the decay span.
abbrev pub Stays : Banbook → Time → BanEntry → Type 0
Stays b now e =
    (now < e.until)
    ⊎ (elapsed now e.last_strike ≤ b.strike_decay)
    ⊎ (elapsed now e.last_seen ≤ b.strike_decay)

survivor_iff :
    (b : Banbook) (now : Time) (o : Option BanEntry) (e : BanEntry)
    → (survivor b now o ≡ some e) ↔ ((o ≡ some e) × Stays b now e)
survivor_iff b now none e = ((λ h. absurd (cc h)), (λ h. absurd (cc (h.0))))
survivor_iff b now (some d) e = (λ h. ground (arith, h), λ h. ground (arith, h))

-- In a book that holds no key twice, an entry is there after a sweep exactly when it was there
-- before, as it is, and its ban runs, or it was struck within the decay span, or it was seen within
-- the decay span; and the counter is set to the number of running bans.
pub sweep_lem :
    (now : Time) (b : Banbook)
    → Distinct text_discrete b.entries
    → ((key : Text) (e : BanEntry)
        → (entry key (sweep b now) ≡ some e) ↔ ((entry key b ≡ some e) × Stays b now e))
      × ((sweep b now).bans_active ≡ pos (active now (sweep b now).entries))
unfolding sweep
sweep_lem now b d = (
  λ key e. rw (lookup-sweep_entries b now key b.entries d) (survivor_iff b now (entry key b) e),
  ap pos (sweep_entries-Swept b now b.entries d).exact,
)

pub sweep-IsValid : (now : Time) (b : Banbook) → IsValid now b → IsValid now (sweep b now)
unfolding sweep
sweep-IsValid now b v = record {
  distinct = s.distinct;
  no_empty = ground (arith, lookup-sweep_entries b now [] b.entries v.distinct, v.no_empty);
  fits = λ limited. omega (arith, s.shorter, v.fits limited);
  counted = omega (arith, s.exact);
  seen = λ key e there.
      v.seen key e (ground (arith, lookup-sweep_entries b now key b.entries v.distinct));
}
  where
    s : Swept b now b.entries
    s = sweep_entries-Swept b now b.entries v.distinct
