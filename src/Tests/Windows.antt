-- ===== src/Tests/Windows.antt =====
-- The sliding window on a short history: two hits pass, the third is refused, a sweep, a later one
-- passes.
use spadeide_rendezvous.Prelude.{
  ◌≡◌, refl, ◌≤◌, Text, text_discrete, true, false, List, [], ◌∷◌, ◌*◌, ◌+◌, count, arith,
}
use spadeide_rendezvous.Prelude.Int.{pos}
use spadeide_rendezvous.Map.{lookup, insert}
use spadeide_rendezvous.Clock.{second, minute, within}
use spadeide_rendezvous.Ratelimit.Window.{new_window, allow, sweep}
use spadeide_rendezvous.Ratelimit.Window.Reference.{
  Event, hit, tick, InOrder, answers, reference_answers, admissions, times,
}
use spadeide_rendezvous.Ratelimit.Window.Refinement.{
  answers-eq-reference_answers, admissions-le-limit,
}

abbrev key : Text
key = b'k' ∷ []

abbrev history : List Event
history =
    hit key second
    ∷ hit key (2 * second)
    ∷ hit key (3 * second)
    ∷ tick (4 * second)
    ∷ hit key (61 * second + 1)
    ∷ []

history-InOrder : InOrder 0 history
history-InOrder = (omega arith, (omega arith, (omega arith, (omega arith, (omega arith, tt)))))

run : answers (new_window (pos 2) (pos minute)) history ≡ true ∷ true ∷ false ∷ true ∷ []
unfolding answers new_window allow sweep lookup insert text_discrete
run = refl

answers-eq-reference_answers_example :
    answers (new_window (pos 2) (pos minute)) history
    ≡ reference_answers (pos 2) (new_window (pos 2) (pos minute)).window [] history
answers-eq-reference_answers_example =
    answers-eq-reference_answers (pos 2) (pos minute) history history-InOrder

admissions-le-limit_example :
    count
      (within (new_window (pos 2) (pos minute)).window (62 * second))
      (times key (admissions (new_window (pos 2) (pos minute)) [] history))
    ≤ 2
admissions-le-limit_example =
    admissions-le-limit (pos 2) (pos minute) history key (62 * second) refl history-InOrder
      (omega arith, (omega arith, (omega arith, (omega arith, (omega arith, omega arith)))))
