-- ===== src/Ratelimit/Banbook/Capacity.antt =====
-- What `ensureCapacityLocked` can come to, and what it leaves alone.
use spadeide_rendezvous.Prelude.{
  ◌⊎◌, inr, ◌≡◌, refl, ap, subst, ◌<◌, ◌≢◌, inl, Text, text_discrete, true, false, Option, none,
  some, List, [], ◌∷◌, length, Bool-cases, arith,
}
use spadeide_rendezvous.Prelude.Int.{non_positive}
use spadeide_rendezvous.Map.{Map, lookup, delete}
use spadeide_rendezvous.Map.Laws.{lookup-delete}
use spadeide_rendezvous.Clock.{Time}
use spadeide_rendezvous.Ratelimit.Banbook.{
  BanEntry, Banbook, Ranges, evict_decayed, has_room, candidate, pick_victim, victim_key, evict,
  uncount, ensure_capacity,
}
use spadeide_rendezvous.Ratelimit.Banbook.Evict.{
  SameSettings, entry, Covers, evict_decayed-KeptOrIdle, evict_decayed-SameSettings,
}
use spadeide_rendezvous.Ratelimit.Banbook.Victim.{
  Picked, AtMost, pick_victim-Picked, pick_victim-AtMost,
}

abbrev pub picked : Ranges → Time → Banbook → Option (Text × Time)
picked r now b = pick_victim now b.entries r.victims none

uncount-entries :
    (now : Time) (o : Option BanEntry) (b : Banbook) → (uncount now o b).entries ≡ b.entries
uncount-entries now none b = refl
uncount-entries now (some e) b = ground arith

uncount-max_keys :
    (now : Time) (o : Option BanEntry) (b : Banbook) → (uncount now o b).max_keys ≡ b.max_keys
uncount-max_keys now none b = refl
uncount-max_keys now (some e) b = ground arith

pub evict-entries :
    (now : Time) (v : Text) (b : Banbook)
    → v ≢ []
    → (evict now v b).entries ≡ delete text_discrete v b.entries
evict-entries now [] b h = absurd (h refl)
evict-entries now (c ∷ v) b h =
    ap (delete text_discrete (c ∷ v)) (uncount-entries now (entry (c ∷ v) b) b)

evict-max_keys : (now : Time) (v : Text) (b : Banbook) → (evict now v b).max_keys ≡ b.max_keys
evict-max_keys now [] b = refl
evict-max_keys now (c ∷ v) b = uncount-max_keys now (entry (c ∷ v) b) b

some_entry :
    (m : Map Text BanEntry)
    → 0 < length m
    → (key : Text) × (e : BanEntry) × (lookup text_discrete key m ≡ some e)
unfolding lookup
some_entry [] h = elim h [ ]
some_entry ((key, e) ∷ m) h = (key, e, ground (arith, text_discrete key key))

-- A map with an entry has a victim, which stands in the map.
pub victim_found :
    (now : Time) (m : Map Text BanEntry) (order : List Text)
    → 0 < length m
    → Covers order m
    → (v : Text) × (t : Time) × (e : BanEntry) × (pick_victim now m order none ≡ some (v, t))
      × (lookup text_discrete v m ≡ some e)
      × (t ≡ candidate now e)
victim_found now m order some_there covers = found (pick_victim now m order none) refl
  where
    found :
        (o : Option (Text × Time))
        → pick_victim now m order none ≡ o
        → (v : Text) × (t : Time) × (e : BanEntry) × (pick_victim now m order none ≡ some (v, t))
          × (lookup text_discrete v m ≡ some e)
          × (t ≡ candidate now e)
    found none eq = absurd (subst (λ o. AtMost o (candidate now first.1)) eq first_bound)
      where
        first : (key : Text) × (e : BanEntry) × (lookup text_discrete key m ≡ some e)
        first = some_entry m some_there

        first_bound : AtMost (pick_victim now m order none) (candidate now first.1)
        first_bound =
            pick_victim-AtMost now m order none first.0 first.1 (covers first.0 first.1 first.2)
              first.2
    found (some (v, t)) eq =
        let (e, there, is_candidate) = stands in (v, t, e, eq, there, is_candidate)
      where
        stands : Picked now m (some (v, t))
        stands = subst (Picked now m) eq (pick_victim-Picked now m order none tt)

-- The outcomes of `ensureCapacityLocked`.
pub ensure_capacity_cases {ℓ} :
    (P : Banbook → Type ℓ) (r : Ranges) (now : Time) (b : Banbook)
    → (non_positive b.max_keys ≡ true → P b)
    → (has_room b ≡ true → P b)
    → (has_room (evict_decayed now r.decayed b) ≡ true → P (evict_decayed now r.decayed b))
    → (non_positive b.max_keys ≡ false
        → has_room (evict_decayed now r.decayed b) ≡ false
        → P (
            evict now
              (victim_key (picked r now (evict_decayed now r.decayed b)))
              (evict_decayed now r.decayed b)))
    → P (ensure_capacity r now b)
unfolding ensure_capacity
ensure_capacity_cases P r now b no_limit room room_now full =
    elim (Bool-cases (non_positive b.max_keys)) [
      | inl u ↦ rw u (no_limit u)
      | inr l ↦ rw l (elim (Bool-cases (has_room b)) [
        | inl h ↦ rw h (room h)
        | inr h ↦ rw h (elim (Bool-cases (has_room (evict_decayed now r.decayed b))) [
          | inl g ↦ rw g (room_now g)
          | inr g ↦ rw g (full l g)
        ])
      ])
    ]

uncount-settings :
    (now : Time) (o : Option BanEntry) (b : Banbook) → SameSettings b (uncount now o b)
uncount-settings now none b = (refl, refl, refl, refl)
uncount-settings now (some e) b = ground arith

evict-settings : (now : Time) (v : Text) (b : Banbook) → SameSettings b (evict now v b)
evict-settings now [] b = (refl, refl, refl, refl)
evict-settings now (c ∷ v) b = uncount-settings now (entry (c ∷ v) b) b

pub ensure_capacity-SameSettings :
    (r : Ranges) (now : Time) (b : Banbook) → SameSettings b (ensure_capacity r now b)
ensure_capacity-SameSettings r now b =
    ensure_capacity_cases (SameSettings b) r now b (λ _. (refl, refl, refl, refl))
      (λ _. (refl, refl, refl, refl)) (λ _. evict_decayed-SameSettings now r.decayed b)
      (λ _ _. ground (
        arith,
        evict_decayed-SameSettings now r.decayed b,
        evict-settings now (victim_key (picked r now (evict_decayed now r.decayed b)))
            (evict_decayed now r.decayed b),
      ))

evict-entry :
    (now : Time) (v key : Text) (b : Banbook)
    → (entry key (evict now v b) ≡ entry key b) ⊎ (entry key (evict now v b) ≡ none)
evict-entry now [] key b = inl refl
evict-entry now (c ∷ v) key b = ground (
  arith,
  ap (lookup text_discrete key) (evict-entries now (c ∷ v) b (λ e. cc)),
  lookup-delete text_discrete (c ∷ v) key b.entries,
)

-- Making room changes no entry that stays.
pub ensure_capacity-entry :
    (r : Ranges) (now : Time) (key : Text) (b : Banbook)
    → (entry key (ensure_capacity r now b) ≡ entry key b)
      ⊎ (entry key (ensure_capacity r now b) ≡ none)
ensure_capacity-entry r now key b =
    ensure_capacity_cases (λ c. (entry key c ≡ entry key b) ⊎ (entry key c ≡ none)) r now b
      (λ _. inl refl) (λ _. inl refl)
      (λ _. ground (arith, evict_decayed-KeptOrIdle now r.decayed b key))
      (λ _ _. ground (
        arith,
        evict_decayed-KeptOrIdle now r.decayed b key,
        evict-entry now (victim_key (picked r now (evict_decayed now r.decayed b))) key
            (evict_decayed now r.decayed b),
      ))
