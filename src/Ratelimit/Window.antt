-- ===== src/Ratelimit/Window.antt =====
-- window.go: the sliding window for each key.
pub mod Hits
pub mod Reference
pub mod Refinement
use spadeide_rendezvous.Prelude.{
  ◌≡◌, Text, text_discrete, Bool, true, false, Option, none, some, List, [], ◌∷◌, ◌++◌, ite, length,
  keep, leb, if◌then◌else◌,
}
use spadeide_rendezvous.Prelude.Int.{ℤ, pos_part, non_positive}
use spadeide_rendezvous.Map.{Map, lookup, insert, delete}
use spadeide_rendezvous.Clock.{Time, Duration, minute, within}

pub record Window : Type 0 where
  pub limit : ℤ
  pub window : Duration
  pub hits : Map Text (List Time)

-- A span that is not positive becomes a minute; a limit that is not positive means no limit.
unfoldable pub new_window : ℤ → ℤ → Window
new_window limit window = record {
  limit = limit;
  window = if non_positive window then minute else pos_part window;
  hits = [];
}

-- `w.hits[key]`: a missing key reads as the empty slice.
abbrev pub slice : Option (List Time) → List Time
slice none = []
slice (some ts) = ts

-- The hits of a key go back into the map, or the key goes if none is left.
unfoldable pub store : Text → List Time → Map Text (List Time) → Map Text (List Time)
store key [] hits = delete text_discrete key hits
store key (t ∷ ts) hits = insert text_discrete key (t ∷ ts) hits

-- The body of `Allow` below its test of the limit, on the hits that are still in the window.
unfoldable pub admit_hit : Window → Text → Time → List Time → Window × Bool
unfolding store
admit_hit w key now kept =
    if leb (pos_part w.limit) (length kept)
    then (record w { hits = store key kept w.hits }, false)
    else (record w { hits = insert text_discrete key (kept ++ now ∷ []) w.hits }, true)

unfoldable pub allow : Window → Text → Time → Window × Bool
unfolding admit_hit lookup
allow w key now =
    if non_positive w.limit
    then (w, true)
    else admit_hit w key now (keep (within w.window now) (slice (lookup text_discrete key w.hits)))

-- The loop of `Sweep`: each key keeps the hits in the window, and goes when none is left.
unfoldable pub sweep_hits : Duration → Time → Map Text (List Time) → Map Text (List Time)
sweep_hits window now [] = []
sweep_hits window now ((key, times) ∷ m) = elim (keep (within window now) times) [
  | [] ↦ sweep_hits window now m
  | t ∷ ts ↦ (key, t ∷ ts) ∷ sweep_hits window now m
]

unfoldable pub sweep : Window → Time → Window
unfolding sweep_hits
sweep w now = record w { hits = sweep_hits w.window now w.hits }
