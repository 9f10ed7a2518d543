-- ===== src/Ratelimit/Banbook/Room.antt =====
-- The book never outgrows its limit, and running bans go last.
use spadeide_rendezvous.Prelude.{
  inr, ◌≡◌, sym, ap, subst, ◌≤◌, ◌<◌, inl, Text, text_discrete, true, false, none, some, List, [],
  length, arith,
}
use spadeide_rendezvous.Prelude.Int.{pos_part, non_positive}
use spadeide_rendezvous.Map.{lookup, delete}
use spadeide_rendezvous.Map.Laws.{lookup-delete, length-delete-lt, length-pos}
use spadeide_rendezvous.Clock.{Time, after}
use spadeide_rendezvous.Ratelimit.Banbook.{
  BanEntry, Banbook, Ranges, evict_decayed, has_room, candidate, pick_victim, victim_key, evict,
  ensure_capacity,
}
use spadeide_rendezvous.Ratelimit.Banbook.Evict.{
  entry, Covers, evict_decayed-eq-or-lt, evict_decayed-KeptOrIdle, evict_decayed-length-le,
  evict_decayed-SameSettings,
}
use spadeide_rendezvous.Ratelimit.Banbook.Victim.{AtMost, pick_victim-AtMost}
use spadeide_rendezvous.Ratelimit.Banbook.Capacity.{
  picked, evict-entries, victim_found, ensure_capacity_cases,
}

-- What the victim's eviction does: one entry fewer, and the victim bound every other in time.
evict-picked :
    (r : Ranges) (now : Time) (b : Banbook)
    → 0 < length b.entries
    → entry [] b ≡ none
    → Covers r.victims b.entries
    → (v : Text) × (e : BanEntry) × (entry v b ≡ some e)
      × ((evict now (victim_key (picked r now b)) b).entries ≡ delete text_discrete v b.entries)
      × ((u : Text) (f : BanEntry) → entry u b ≡ some f → candidate now e ≤ candidate now f)
evict-picked r now b some_there no_empty covers =
    let (v, t, e, eq, there, is_candidate) = found in
    (
      v,
      e,
      there,
      subst (λ o. (evict now (victim_key o) b).entries ≡ delete text_discrete v b.entries) (sym eq)
          (evict-entries now v b (λ is_nil. ground (arith, there, ap (λ k. entry k b) is_nil))),
      λ u f here. rw (← is_candidate) (
          subst (λ o. AtMost o (candidate now f)) eq
            (pick_victim-AtMost now b.entries r.victims none u f (covers u f here) here)),
    )
  where
    found :
        (v : Text) × (t : Time) × (e : BanEntry) × (pick_victim now b.entries r.victims none
          ≡ some (v, t))
        × (lookup text_discrete v b.entries ≡ some e)
        × (t ≡ candidate now e)
    found = victim_found now b.entries r.victims some_there covers

-- In a book within its limit the second loop runs only if the first has removed nothing.
full-unchanged :
    (now : Time) (order : List Text) (b : Banbook)
    → length b.entries ≤ pos_part b.max_keys
    → has_room (evict_decayed now order b) ≡ false
    → evict_decayed now order b ≡ b
full-unchanged now order b fits full = elim (evict_decayed-eq-or-lt now order b) [
  | inl same ↦ same
  | inr fewer ↦ absurd (ground (arith, (evict_decayed-SameSettings now order b).3))
]

-- In a book within its limit, which is positive, and without an empty key, there is room for one
-- more entry afterwards, if the second loop meets every key.
pub ensure_capacity-room :
    (r : Ranges) (now : Time) (b : Banbook)
    → non_positive b.max_keys ≡ false
    → length b.entries ≤ pos_part b.max_keys
    → entry [] b ≡ none
    → Covers r.victims b.entries
    → length (ensure_capacity r now b).entries < pos_part b.max_keys
ensure_capacity-room r now b limited fits no_empty covers =
    ensure_capacity_cases (λ c. length c.entries < pos_part b.max_keys) r now b (λ u. ground arith)
      (λ h. ground arith) (λ h. ground (arith, (evict_decayed-SameSettings now r.decayed b).3))
      (λ l h. rw (full-unchanged now r.decayed b fits h) (
        let (v, e, there, gone, least) = evict-picked r now b (nonempty h) no_empty covers in
        omega (arith, ap length gone, length-delete-lt text_discrete v e b.entries there, fits)))
  where
    nonempty : has_room (evict_decayed now r.decayed b) ≡ false → 0 < length b.entries
    nonempty h = ground (
      arith,
      (evict_decayed-SameSettings now r.decayed b).3,
      evict_decayed-length-le now r.decayed b,
      limited,
    )

-- In a book within its limit, without an empty key and seen by now, whose second loop meets every
-- key: a running ban is evicted only if every tracked key has a running ban, and none ends earlier.
pub ensure_capacity-evicts_last :
    (r : Ranges) (now : Time) (b : Banbook) (key u : Text) (e f : BanEntry)
    → length b.entries ≤ pos_part b.max_keys
    → entry [] b ≡ none
    → Covers r.victims b.entries
    → entry key b ≡ some e
    → after e.until now ≡ true
    → entry key (ensure_capacity r now b) ≡ none
    → entry u b ≡ some f
    → f.last_seen ≤ now
    → (after f.until now ≡ true) × (e.until ≤ f.until)
ensure_capacity-evicts_last r now b key u e f fits no_empty covers here banned gone there seen =
    ensure_capacity_cases
      (λ c. entry key c ≡ none → (after f.until now ≡ true) × (e.until ≤ f.until)) r now b
      (λ _ g. cc) (λ _ g. cc) (λ _ g. ground (arith, evict_decayed-KeptOrIdle now r.decayed b key))
      (λ l h g. last (
        subst (λ c. entry key (evict now (victim_key (picked r now c)) c) ≡ none)
          (full-unchanged now r.decayed b fits h) g))
      gone
  where
    nonempty : 0 < length b.entries
    nonempty = length-pos text_discrete key e b.entries here

    last :
        entry key (evict now (victim_key (picked r now b)) b) ≡ none
        → (after f.until now ≡ true) × (e.until ≤ f.until)
    last g =
        let (v, ve, vthere, removed, least) = evict-picked r now b nonempty no_empty covers in
        ground (
          arith,
          ap (lookup text_discrete key) removed,
          lookup-delete text_discrete v key b.entries,
          least u f there,
        )
