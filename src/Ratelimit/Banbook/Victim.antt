-- ===== src/Ratelimit/Banbook/Victim.antt =====
-- The entry that goes when no idle one makes room: the one with the earliest candidate time.
use spadeide_rendezvous.Prelude.{
  ◌≡◌, refl, ◌≤◌, inl, inr, Text, text_discrete, Option, none, some, List, [], ◌∷◌, Has, Bool-cases,
  Option-cases, ltb, arith,
}
use spadeide_rendezvous.Map.{Map, lookup}
use spadeide_rendezvous.Clock.{Time}
use spadeide_rendezvous.Ratelimit.Banbook.{BanEntry, candidate, better, pick_victim}

-- The best candidate so far stands in the map.
abbrev pub Picked : Time → Map Text BanEntry → Option (Text × Time) → Type 0
Picked now m none = Unit
Picked now m (some (key, best)) =
    (e : BanEntry) × (lookup text_discrete key m ≡ some e) × (best ≡ candidate now e)

abbrev pub AtMost : Option (Text × Time) → Time → Type 0
AtMost none t = ⊥
AtMost (some (key, best)) t = best ≤ t

better-AtMost :
    (key : Text) (cand : Time) (best : Option (Text × Time)) → AtMost (better key cand best) cand
better-AtMost key cand none = omega arith
better-AtMost key cand (some (v, c)) = ground arith

better-AtMost_old :
    (key : Text) (cand t : Time) (best : Option (Text × Time))
    → AtMost best t
    → AtMost (better key cand best) t
better-AtMost_old key cand t none h = elim h [ ]
better-AtMost_old key cand t (some (v, c)) h = ground arith

better-Picked :
    (now : Time) (m : Map Text BanEntry) (key : Text) (e : BanEntry) (best : Option (Text × Time))
    → lookup text_discrete key m ≡ some e
    → Picked now m best
    → Picked now m (better key (candidate now e) best)
better-Picked now m key e none found h = (e, found, refl)
better-Picked now m key e (some (v, c)) found h = elim (Bool-cases (ltb (candidate now e) c)) [
  | inl l ↦ rw l (e, found, refl)
  | inr l ↦ rw l h
]

pub pick_victim-Picked :
    (now : Time) (m : Map Text BanEntry) (order : List Text) (best : Option (Text × Time))
    → Picked now m best
    → Picked now m (pick_victim now m order best)
unfolding pick_victim
pick_victim-Picked now m [] best h = h
pick_victim-Picked now m (key ∷ order) best h = elim (Option-cases (lookup text_discrete key m)) [
  | inl e ↦ rw e (pick_victim-Picked now m order best h)
  | inr (e, found) ↦
      rw found (pick_victim-Picked now m order _ (better-Picked now m key e best found h))
]

pick_victim-AtMost_old :
    (now : Time) (m : Map Text BanEntry) (order : List Text) (best : Option (Text × Time))
    (t : Time)
    → AtMost best t
    → AtMost (pick_victim now m order best) t
unfolding pick_victim
pick_victim-AtMost_old now m [] best t h = h
pick_victim-AtMost_old now m (key ∷ order) best t h =
    elim (Option-cases (lookup text_discrete key m)) [
      | inl e ↦ rw e (pick_victim-AtMost_old now m order best t h)
      | inr (e, found) ↦ rw found (
          pick_victim-AtMost_old now m order _ t (better-AtMost_old key (candidate now e) t best h))
    ]

-- The victim's candidate time is the least of all entries that the loop meets.
pub pick_victim-AtMost :
    (now : Time) (m : Map Text BanEntry) (order : List Text) (best : Option (Text × Time))
    (key : Text) (e : BanEntry)
    → Has key order
    → lookup text_discrete key m ≡ some e
    → AtMost (pick_victim now m order best) (candidate now e)
unfolding pick_victim
pick_victim-AtMost now m [] best key e h found = elim h [ ]
pick_victim-AtMost now m (j ∷ order) best key e (inl here) found =
    rw (← here, found)
      (pick_victim-AtMost_old now m order _ _ (better-AtMost j (candidate now e) best))
pick_victim-AtMost now m (j ∷ order) best key e (inr there) found =
    pick_victim-AtMost now m order _ key e there found
