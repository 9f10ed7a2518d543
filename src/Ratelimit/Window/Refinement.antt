-- ===== src/Ratelimit/Window/Refinement.antt =====
-- `Allow` and `Sweep` against a reference limiter that never forgets an admission.
use spadeide_rendezvous.Prelude.{
  ◌≡◌, refl, ap, ◌≤◌, Text, text_discrete, Bool, true, false, List, [], ◌∷◌, ◌++◌, length, keep,
  count, leb, ◌<◌, inl, inr, Bool-cases, length-append, length-keep, length-keep-le, keep-append,
  arith,
}
use spadeide_rendezvous.Prelude.Int.{ℤ, pos_part, non_positive}
use spadeide_rendezvous.Map.{Distinct, insert, lookup}
use spadeide_rendezvous.Map.Laws.{insert-Distinct}
use spadeide_rendezvous.Clock.{Time, Duration, within}
use spadeide_rendezvous.Ratelimit.Window.{Window, new_window, store, allow, sweep}
use spadeide_rendezvous.Ratelimit.Window.Reference.{
  Log, times, may_pass, noted, Event, hit, tick, InOrder, Until, answers, reference_answers,
  admissions, times-append,
}
use spadeide_rendezvous.Ratelimit.Window.Hits.{
  stored, stored-store, stored-insert, store-Distinct, sweep_hits-Distinct, stored-sweep_hits,
  keep-within,
}

-- The window at time t has the same view of the log as the log itself, now and at any later time.
record Agrees (limit : ℤ) (window : Duration) (t : Time) (w : Window) (log : Log) : Type 0 where
  same_limit : w.limit ≡ limit
  same_window : w.window ≡ window
  distinct : Distinct text_discrete w.hits
  view :
      (key : Text) (now : Time)
      → t ≤ now
      → keep (within window now) (stored key w.hits) ≡ keep (within window now) (times key log)
  bounded : (key : Text) → length (stored key w.hits) ≤ pos_part limit

module _ (limit : ℤ) (window : Duration) where
  keep-Agrees :
      (t now : Time) (w : Window) (log : Log) (key : Text)
      → t ≤ now
      → Agrees limit window t w log
      → Agrees limit window now
          (record w { hits = store key (keep (within w.window now) (stored key w.hits)) w.hits })
          log
  keep-Agrees t now w log key h a = record {
    same_limit = a.same_limit;
    same_window = a.same_window;
    distinct = store-Distinct key _ w.hits a.distinct;
    view = λ j later g. ground (
      arith,
      stored-store key j (keep (within w.window now) (stored key w.hits)) w.hits,
      a.view j later,
      keep-within window now later (stored key w.hits),
    );
    bounded = λ j. ground (
      arith,
      stored-store key j (keep (within w.window now) (stored key w.hits)) w.hits,
      a.bounded j,
      length-keep-le (within w.window now) (stored key w.hits),
    );
  }

  add-Agrees :
      (t now : Time) (w : Window) (log : Log) (key : Text)
      → t ≤ now
      → length (keep (within w.window now) (stored key w.hits)) < pos_part limit
      → Agrees limit window t w log
      → Agrees limit window now
          (record w {
            hits =
                insert text_discrete key
                  (keep (within w.window now) (stored key w.hits) ++ now ∷ [])
                  w.hits;
          })
          (log ++ (key, now) ∷ [])
  add-Agrees t now w log key h room a = record {
    same_limit = a.same_limit;
    same_window = a.same_window;
    distinct = insert-Distinct text_discrete key _ w.hits a.distinct;
    view = λ j later g. ground (
      arith,
      stored-insert key j (keep (within w.window now) (stored key w.hits) ++ now ∷ []) w.hits,
      times-append j key now log,
      keep-append (within window later) (keep (within window now) (stored key w.hits)) (now ∷ []),
      keep-append (within window later) (times key log) (now ∷ []),
      a.view j later,
      keep-within window now later (stored key w.hits),
    );
    bounded = λ j. ground (
      arith,
      stored-insert key j (keep (within w.window now) (stored key w.hits) ++ now ∷ []) w.hits,
      length-append (keep (within w.window now) (stored key w.hits)) (now ∷ []),
      a.bounded j,
    );
  }

  sweep-Agrees :
      (t now : Time) (w : Window) (log : Log)
      → t ≤ now
      → Agrees limit window t w log
      → Agrees limit window now (sweep w now) log
  unfolding sweep
  sweep-Agrees t now w log h a = record {
    same_limit = a.same_limit;
    same_window = a.same_window;
    distinct = sweep_hits-Distinct w.window now w.hits a.distinct;
    view = λ j later g. ground (
      arith,
      stored-sweep_hits w.window now j w.hits a.distinct,
      a.view j later,
      keep-within window now later (stored j w.hits),
    );
    bounded = λ j. ground (
      arith,
      stored-sweep_hits w.window now j w.hits a.distinct,
      a.bounded j,
      length-keep-le (within w.window now) (stored j w.hits),
    );
  }

  module _ (limited : non_positive limit ≡ false) where
    allow-answer :
        (t now : Time) (w : Window) (log : Log) (key : Text)
        → t ≤ now
        → Agrees limit window t w log
        → (allow w key now).1 ≡ may_pass limit window log key now
    unfolding allow
    allow-answer t now w log key h a =
        ground (arith, a.view key now h, length-keep (within window now) (times key log))

    allow-Agrees :
        (t now : Time) (w : Window) (log : Log) (key : Text)
        → t ≤ now
        → Agrees limit window t w log
        → Agrees limit window now (allow w key now).0 (noted (allow w key now).1 key now log)
    unfolding allow
    allow-Agrees t now w log key h a = elim (Bool-cases full) [
      | inl e ↦ rw (limited_here, e) (keep-Agrees t now w log key h a)
      | inr e ↦ rw (limited_here, e) (add-Agrees t now w log key h (room e) a)
    ]
      where
        full : Bool
        full = leb (pos_part w.limit) (length (keep (within w.window now) (stored key w.hits)))

        limited_here : non_positive w.limit ≡ false
        limited_here = rw a.same_limit limited

        room :
            full ≡ false → length (keep (within w.window now) (stored key w.hits)) < pos_part limit
        room e = ground (arith, a.same_limit)

    answers-reference :
        (t : Time) (w : Window) (log : Log) (es : List Event)
        → InOrder t es
        → Agrees limit window t w log
        → answers w es ≡ reference_answers limit window log es
    unfolding answers reference_answers
    answers-reference t w log [] o a = refl
    answers-reference t w log (hit key now ∷ es) o a = rw (← allow-answer t now w log key o.0 a) (
        ap (λ rest. (allow w key now).1 ∷ rest)
          (answers-reference now _ _ es o.1 (allow-Agrees t now w log key o.0 a)))
    answers-reference t w log (tick now ∷ es) o a =
        answers-reference now _ log es o.1 (sweep-Agrees t now w log o.0 a)

    count-admissions-le :
        (t : Time) (w : Window) (log : Log) (es : List Event)
        → InOrder t es
        → Agrees limit window t w log
        → (key : Text) (now : Time) → Until now t es
        → count (within window now) (times key (admissions w log es)) ≤ pos_part limit
    unfolding admissions
    count-admissions-le t w log [] o a key now u = omega (
      arith,
      length-keep (within window now) (times key log),
      ap length (a.view key now u),
      length-keep-le (within window now) (stored key w.hits),
      a.bounded key,
    )
    count-admissions-le t w log (hit k at ∷ es) o a key now u =
        count-admissions-le at _ _ es o.1 (allow-Agrees t at w log k o.0 a) key now u.1
    count-admissions-le t w log (tick at ∷ es) o a key now u =
        count-admissions-le at _ log es o.1 (sweep-Agrees t at w log o.0 a) key now u.1

-- With no limit every hit passes.
unlimited-answers :
    (limit : ℤ) (window : Duration) (w : Window) (log : Log) (es : List Event)
    → non_positive limit ≡ true
    → w.limit ≡ limit
    → answers w es ≡ reference_answers limit window log es
unfolding answers reference_answers allow sweep
unlimited-answers limit window w log [] u e = refl
unlimited-answers limit window w log (hit key now ∷ es) u e = ground (
  arith,
  unlimited-answers limit window w (noted (may_pass limit window log key now) key now log) es u e,
)
unlimited-answers limit window w log (tick now ∷ es) u e =
    unlimited-answers limit window (sweep w now) log es u e

new_window-Agrees :
    (limit span : ℤ) → Agrees limit (new_window limit span).window 0 (new_window limit span) []
unfolding new_window lookup
new_window-Agrees limit span = record {
  same_limit = refl;
  same_window = refl;
  distinct = tt;
  view = λ key now h. refl;
  bounded = λ key. omega arith;
}

-- On every history whose clock does not run backwards, a fresh window (the sweeps included, which
-- forget idle keys) gives exactly the answers of the reference limiter that keeps every admission:
-- a hit passes when there is no limit, or fewer than `limit` admissions of its key lie in the window.
pub answers-eq-reference_answers :
    (limit span : ℤ) (es : List Event)
    → InOrder 0 es
    → answers (new_window limit span) es
      ≡ reference_answers limit (new_window limit span).window [] es
answers-eq-reference_answers limit span es o = elim (Bool-cases (non_positive limit)) [
  | inl u ↦
      unlimited-answers limit _ (new_window limit span) [] es u
        (new_window-Agrees limit span).same_limit
  | inr l ↦ answers-reference limit _ l 0 _ [] es o (new_window-Agrees limit span)
]

-- With a positive limit and a clock that does not run backwards, a fresh window lets at most `limit`
-- hits of one key pass in any stretch of one window's length that ends at or after the history's end.
pub admissions-le-limit :
    (limit span : ℤ) (es : List Event) (key : Text) (now : Time)
    → non_positive limit ≡ false
    → InOrder 0 es
    → Until now 0 es
    → count
        (within (new_window limit span).window now)
        (times key (admissions (new_window limit span) [] es))
      ≤ pos_part limit
admissions-le-limit limit span es key now l o u =
    count-admissions-le limit _ l 0 _ [] es o (new_window-Agrees limit span) key now u
