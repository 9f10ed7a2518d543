-- ===== src/Ratelimit/Window/Reference.antt =====
-- A limiter that keeps every admission, and the histories on which the window is compared with it.
use spadeide_rendezvous.Prelude.{
  ◌≡◌, refl, ◌≤◌, Text, text_discrete, Bool, true, false, List, [], ◌∷◌, ◌++◌, ite, count, leb,
  if◌then◌else◌, arith,
}
use spadeide_rendezvous.Prelude.Int.{ℤ, pos_part, non_positive}
use spadeide_rendezvous.Clock.{Time, Duration, within}
use spadeide_rendezvous.Ratelimit.Window.{Window, allow, sweep}

-- Every admission so far, oldest first.
abbrev pub Log : Type 0
Log = List (Text × Time)

abbrev pub times : Text → Log → List Time
times key [] = []
times key ((k, t) ∷ log) = ite (text_discrete k key) (t ∷ times key log) (times key log)

-- What a limiter with an unbounded memory answers: fewer than `limit` admissions in the window.
abbrev pub may_pass : ℤ → Duration → Log → Text → Time → Bool
may_pass limit window log key now =
    if non_positive limit
    then true
    else (if leb (pos_part limit) (count (within window now) (times key log)) then false else true)

abbrev pub noted : Bool → Text → Time → Log → Log
noted true key now log = log ++ (key, now) ∷ []
noted false key now log = log

pub data Event : Type 0 where
  hit : Text → Time → Event
  tick : Time → Event

abbrev pub at : Event → Time
at (hit key now) = now
at (tick now) = now

-- The clock does not run backwards.
abbrev pub InOrder : Time → List Event → Type 0
InOrder t [] = Unit
InOrder t (e ∷ es) = (t ≤ at e) × InOrder (at e) es

-- The history is over by the given instant.
abbrev pub Until : Time → Time → List Event → Type 0
Until now t [] = t ≤ now
Until now t (e ∷ es) = (t ≤ now) × Until now (at e) es

-- The answers of the window to a history of hits and sweeps.
unfoldable pub answers : Window → List Event → List Bool
answers w [] = []
answers w (hit key now ∷ es) = (allow w key now).1 ∷ answers (allow w key now).0 es
answers w (tick now ∷ es) = answers (sweep w now) es

unfoldable pub reference_answers : ℤ → Duration → Log → List Event → List Bool
reference_answers limit window log [] = []
reference_answers limit window log (hit key now ∷ es) =
    may_pass limit window log key now
    ∷ reference_answers limit window (noted (may_pass limit window log key now) key now log) es
reference_answers limit window log (tick now ∷ es) = reference_answers limit window log es

-- The admissions that the window has let through, added to those before.
unfoldable pub admissions : Window → Log → List Event → Log
admissions w log [] = log
admissions w log (hit key now ∷ es) =
    admissions (allow w key now).0 (noted (allow w key now).1 key now log) es
admissions w log (tick now ∷ es) = admissions (sweep w now) log es

pub times-append :
    (key k : Text) (t : Time) (log : Log)
    → times key (log ++ (k, t) ∷ [])
      ≡ ite (text_discrete k key) (times key log ++ t ∷ []) (times key log)
times-append key k t [] = refl
times-append key k t ((j, u) ∷ log) = ground (arith, times-append key k t log)
