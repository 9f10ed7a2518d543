-- ===== src/Ratelimit/Window/Hits.antt =====
-- What the map of hits holds for one key after each write.
use spadeide_rendezvous.Prelude.{
  ◌≡◌, refl, ◌≤◌, Text, text_discrete, none, List, [], ◌∷◌, ite, keep, keep-keep, arith,
}
use spadeide_rendezvous.Map.{Map, lookup, insert, Distinct}
use spadeide_rendezvous.Map.Laws.{lookup-insert, lookup-delete, insert-Distinct, delete-Distinct}
use spadeide_rendezvous.Clock.{Time, Duration, within}
use spadeide_rendezvous.Ratelimit.Window.{slice, store, sweep_hits}

abbrev pub stored : Text → Map Text (List Time) → List Time
stored key hits = slice (lookup text_discrete key hits)

pub stored-store :
    (key j : Text) (ts : List Time) (hits : Map Text (List Time))
    → stored j (store key ts hits) ≡ ite (text_discrete key j) ts (stored j hits)
unfolding store
stored-store key j [] hits = ground (arith, lookup-delete text_discrete key j hits)
stored-store key j (t ∷ ts) hits = ground (arith, lookup-insert text_discrete key j (t ∷ ts) hits)

pub stored-insert :
    (key j : Text) (ts : List Time) (hits : Map Text (List Time))
    → stored j (insert text_discrete key ts hits) ≡ ite (text_discrete key j) ts (stored j hits)
stored-insert key j ts hits = ground (arith, lookup-insert text_discrete key j ts hits)

pub store-Distinct :
    (key : Text) (ts : List Time) (hits : Map Text (List Time))
    → Distinct text_discrete hits
    → Distinct text_discrete (store key ts hits)
unfolding store
store-Distinct key [] hits d = delete-Distinct text_discrete key hits d
store-Distinct key (t ∷ ts) hits d = insert-Distinct text_discrete key (t ∷ ts) hits d

sweep_hits_absent :
    (window : Duration) (now : Time) (key : Text) (m : Map Text (List Time))
    → lookup text_discrete key m ≡ none
    → lookup text_discrete key (sweep_hits window now m) ≡ none
unfolding lookup sweep_hits
sweep_hits_absent window now key [] h = refl
sweep_hits_absent window now key ((k, ts) ∷ m) h =
    ground (arith, sweep_hits_absent window now key m)

pub sweep_hits-Distinct :
    (window : Duration) (now : Time) (m : Map Text (List Time))
    → Distinct text_discrete m
    → Distinct text_discrete (sweep_hits window now m)
unfolding sweep_hits
sweep_hits-Distinct window now [] d = tt
sweep_hits-Distinct window now ((k, ts) ∷ m) d =
    ground (arith, sweep_hits-Distinct window now m d.1, sweep_hits_absent window now k m d.0)

-- After a sweep a key has exactly those hits that the window still holds.
pub stored-sweep_hits :
    (window : Duration) (now : Time) (key : Text) (m : Map Text (List Time))
    → Distinct text_discrete m
    → stored key (sweep_hits window now m) ≡ keep (within window now) (stored key m)
unfolding lookup sweep_hits
stored-sweep_hits window now key [] d = refl
stored-sweep_hits window now key ((k, ts) ∷ m) d = ground (
  arith,
  stored-sweep_hits window now key m d.1,
  sweep_hits_absent window now k m d.0,
  text_discrete k key,
)

-- Looking again later sees no more than a look now would have kept.
pub keep-within :
    (window : Duration) (now later : Time) (ts : List Time)
    → now ≤ later
    → keep (within window later) (keep (within window now) ts) ≡ keep (within window later) ts
keep-within window now later ts h =
    keep-keep (within window now) (within window later) (λ t e. ground arith) ts
