-- ===== src/Ratelimit/Banbook/Ladder.antt =====
-- What a strike does to its key: the rung, and the ban that follows.
use spadeide_rendezvous.Prelude.{
  ℕ, zero, suc, ◌+◌, ◌-◌, ◌*◌, ◌≡◌, refl, ap, ◌∙◌, ◌≤◌, ◌<◌, inl, inr, Text, text_discrete, Bool,
  true, false, leb, Option, none, some, List, [], ◌∷◌, ltb, if◌then◌else◌, arith, Option-cases,
  get_or,
}
use spadeide_rendezvous.Map.Laws.{lookup-insert_self}
use spadeide_rendezvous.Clock.{Time, Duration, minute, hour}
use spadeide_rendezvous.Ratelimit.Address.{IpLib}
use spadeide_rendezvous.Ratelimit.Banbook.{
  BanEntry, Banbook, Ranges, fresh_entry, struck, climbed, ban_span, decay_strikes, strike_locked,
  strike_at, rung, blocked_at, ensure_capacity, new_banbook, soft_ladder, default_ladder,
}
use spadeide_rendezvous.Ratelimit.Banbook.Evict.{entry, SameSettings}
use spadeide_rendezvous.Ratelimit.Banbook.Capacity.{ensure_capacity-SameSettings}
use spadeide_rendezvous.Ratelimit.Banbook.Reach.{Reach, Reach-SameSettings}

abbrev pub or_fresh : Option BanEntry → BanEntry
or_fresh none = fresh_entry
or_fresh (some e) = e

-- The entry that a strike climbs from: the key's own with old strikes forgotten, or a new one.
abbrev pub before : Banbook → Text → Time → BanEntry
before b key now = decay_strikes b.strike_decay now (or_fresh (entry key b))

ban_span-settings :
    (b c : Banbook) (soft : Bool) (e : BanEntry)
    → SameSettings b c
    → ban_span c soft e ≡ ban_span b soft e
ban_span-settings b c true e h = rw (h.1)
ban_span-settings b c false e h = rw (h.0)

-- A strike writes the entry that `strikeLocked` makes, and returns the span of its ban.
pub strike_at_lem :
    (r : Ranges) (b : Banbook) (key : Text) (soft : Bool) (now : Time)
    → (entry key (strike_at r b key soft now).0 ≡ some (struck b soft now (before b key now)))
      × ((strike_at r b key soft now).1 ≡ ban_span b soft (before b key now))
unfolding strike_at strike_locked
strike_at_lem r b key soft now = elim (Option-cases (entry key b)) [
  | inl absent ↦
      let e = decay_strikes b.strike_decay now fresh_entry in
      let c = ensure_capacity r now b in
      let same = ban_span-settings b c soft e (ensure_capacity-SameSettings r now b) in
      rw (absent, strike_at)
        (
          lookup-insert_self text_discrete key _ _
              ∙ ap
                  (λ span. some (record (climbed soft e) {
                    last_strike = now;
                    last_seen = now;
                    rejected_while_banned = 0;
                    until = now + span;
                  }))
                  same,
          same,
        )
  | inr (e, there) ↦ rw (there, strike_at) (lookup-insert_self text_discrete key _ _, refl)
]

-- After a strike the key is banned for exactly the span that it returns.
pub blocked_at-strike_at :
    (r : Ranges) (b : Banbook) (key : Text) (soft : Bool) (now t : Time)
    → let (c, dur) = strike_at r b key soft now in
      ((blocked_at c key t).1 ≡ ltb t (now + dur))
      × ((blocked_at c key t).2 ≡ (if ltb t (now + dur) then now + dur else 0))
unfolding blocked_at
blocked_at-strike_at r b key soft now t =
    let (wrote, span) = strike_at_lem r b key soft now in ground (arith, wrote, span)

abbrev pub count_of : Bool → BanEntry → ℕ
count_of true e = e.soft_strikes
count_of false e = e.strikes

abbrev pub ladder_of : Bool → Banbook → List Duration
ladder_of true b = b.soft
ladder_of false b = b.ladder

-- The spans that strikes of one key at the given instants return.
unfoldable pub spans : Ranges → Banbook → Text → Bool → List Time → List Duration
spans r b key soft [] = []
spans r b key soft (now ∷ times) =
    (strike_at r b key soft now).1 ∷ spans r (strike_at r b key soft now).0 key soft times

-- An entry of a ladder by its number, from 0 on; beyond the end it is the last one.
unfoldable pub nth_rung : List Duration → ℕ → Duration
nth_rung [] n = 0
nth_rung (d ∷ []) n = d
nth_rung (d ∷ e ∷ ds) zero = d
nth_rung (d ∷ e ∷ ds) (suc n) = nth_rung (e ∷ ds) n

-- A ladder without rungs stands for one of 1, 5 and 15 minutes.
abbrev pub or_soft : List Duration → List Duration
or_soft [] = minute ∷ (5 * minute) ∷ (15 * minute) ∷ []
or_soft (d ∷ ds) = d ∷ ds

-- The entries of a ladder one after the other, from the given number on, one for each strike.
abbrev pub rungs : List Duration → ℕ → List Time → List Duration
rungs ladder n [] = []
rungs ladder n (now ∷ times) = nth_rung (or_soft ladder) n ∷ rungs ladder (n + 1) times

-- Each strike comes within the decay span of the one before.
abbrev pub Close : Duration → Time → List Time → Type 0
Close decay t [] = Unit
Close decay t (now ∷ times) = (now ≤ t + decay) × Close decay now times

-- One strike of a tracked key within its decay span.
record Climbs (b : Banbook) (soft : Bool) (e : BanEntry) (now : Time) (c : Banbook × Duration)
    (f : BanEntry) : Type 0 where
  span : c.1 ≡ nth_rung (or_soft (ladder_of soft b)) (count_of soft e)
  count : count_of soft f ≡ count_of soft e + 1
  struck_now : f.last_strike ≡ now
  same_ladder : ladder_of soft c.0 ≡ ladder_of soft b
  same_decay : c.0.strike_decay ≡ b.strike_decay

top_default : (n : ℕ) → (if leb 5 (5 + n - 1) then 4 else 5 + n - 1) ≡ 4
top_default n = ground arith

top_soft : (n : ℕ) → (if leb 3 (3 + n - 1) then 2 else 3 + n - 1) ≡ 2
top_soft n = ground arith

-- The ladders of `DefaultLadder` and `SoftLadder`: the n-th rung, and the last one for good.
pub rung-default :
    (n : ℕ)
    → (rung default_ladder 1 ≡ minute)
      × (rung default_ladder 2 ≡ 5 * minute)
      × (rung default_ladder 3 ≡ 15 * minute)
      × (rung default_ladder 4 ≡ hour)
      × (rung default_ladder (5 + n) ≡ 24 * hour)
      × (rung soft_ladder 1 ≡ minute)
      × (rung soft_ladder 2 ≡ 5 * minute)
      × (rung soft_ladder (3 + n) ≡ 15 * minute)
unfolding rung
rung-default n = (
  refl,
  refl,
  refl,
  refl,
  ap (λ i. get_or default_ladder i 0) (top_default n),
  refl,
  refl,
  ap (λ i. get_or soft_ladder i 0) (top_soft n),
)

rung-soft_bounds :
    (n : ℕ) → (minute ≤ rung soft_ladder (n + 1)) × (rung soft_ladder (n + 1) ≤ 15 * minute)
rung-soft_bounds zero = omega (arith, (rung-default 0).5)
rung-soft_bounds (suc zero) = omega (arith, (rung-default 0).6)
rung-soft_bounds (suc (suc n)) =
    omega (arith, (rung-default n).7, ap (rung soft_ladder) (three_more n))
  where
    three_more : (m : ℕ) → suc (suc m) + 1 ≡ 3 + m
    three_more m = omega arith

rung-default_bounds :
    (n : ℕ) → (minute ≤ rung default_ladder (n + 1)) × (rung default_ladder (n + 1) ≤ 24 * hour)
rung-default_bounds zero = omega (arith, (rung-default 0).0)
rung-default_bounds (suc zero) = omega (arith, (rung-default 0).1)
rung-default_bounds (suc (suc zero)) = omega (arith, (rung-default 0).2)
rung-default_bounds (suc (suc (suc zero))) = omega (arith, (rung-default 0).3)
rung-default_bounds (suc (suc (suc (suc n)))) =
    omega (arith, (rung-default n).4, ap (rung default_ladder) (five_more n))
  where
    five_more : (m : ℕ) → suc (suc (suc (suc m))) + 1 ≡ 5 + m
    five_more m = omega arith

pub strike_at_bounds :
    (lib : IpLib) (t now : Time) (r : Ranges) (b : Banbook) (key : Text)
    → Reach lib t b
    → (minute ≤ (strike_at r b key true now).1)
      × ((strike_at r b key true now).1 ≤ 15 * minute)
      × (minute ≤ (strike_at r b key false now).1)
      × ((strike_at r b key false now).1 ≤ 24 * hour)
unfolding new_banbook
strike_at_bounds lib t now r b key reach =
    let same = Reach-SameSettings lib reach in
    let e = before b key now in
    omega (
      arith,
      (strike_at_lem r b key true now).1,
      (strike_at_lem r b key false now).1,
      ap (λ l. rung l (e.soft_strikes + 1)) same.1,
      ap (λ l. rung l (e.strikes + 1)) same.0,
      rung-soft_bounds e.soft_strikes,
      rung-default_bounds e.strikes,
    )

-- The end of a ban is overwritten: when the rung that is due ends before the running ban does, a
-- strike makes the ban end earlier.
pub strike_at_shortens :
    (r : Ranges) (b : Banbook) (key : Text) (soft : Bool) (now : Time) (e : BanEntry)
    → entry key b ≡ some e
    → now + ban_span b soft (before b key now) < e.until
    → (f : BanEntry) × (entry key (strike_at r b key soft now).0 ≡ some f) × (f.until < e.until)
strike_at_shortens r b key soft now e there sooner =
    (struck b soft now (before b key now), (strike_at_lem r b key soft now).0, sooner)
