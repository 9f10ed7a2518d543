-- ===== src/Relay/Session/Pumped.antt =====
-- Each direction of a pumped pair is one loop of `pump`, however the steps of the session interleave,
-- and what may still happen once a connection has been closed.
use spadeide_rendezvous.Prelude.{
  ℕ, ◌+◌, ◌≡◌, refl, sym, ◌∙◌, ap, inl, inr, Bool, false, not, ◌&&◌, List, [], ◌∷◌, ◌++◌, length,
  ltb, Bool-cases, arith,
}
use spadeide_rendezvous.Prelude.Int.{ℤ}
use spadeide_rendezvous.Relay.{Frame, Read, max_relay_message, exceeds, pump}
use spadeide_rendezvous.Relay.Session.{
  Phase, reading, writing, ended, Loop, Act, reads, read_fails, writes, take_frame, write_frame,
  loop_step, closed_a, closed_b, Session, opened, Turn, acts_a, acts_b, done, expires, closes,
  take_turn, pump_pair, new_loop,
}

-- A loop alone, with what it meets, and whether the connection that it writes to is closed then.
unfoldable pub steps : ℤ → Loop → List (Bool × Act) → Loop
unfolding take_frame write_frame
steps max_bytes l [] = l
steps max_bytes l ((closed, act) ∷ acts) = steps max_bytes (loop_step max_bytes closed l act) acts

abbrev unwritten : Phase → List Read
unwritten (writing f) = record { frame = f; written = false } ∷ []
unwritten phase = []

-- The read that a step completes, if it completes one, before those of the later steps.
abbrev completed : Bool → Phase → Act → Phase → List Read → List Read
completed closed reading (reads f) ended later = record { frame = f; written = false } ∷ []
completed closed (writing f) (writes success) after later =
    record { frame = f; written = success && not closed } ∷ later
completed closed before act after later = later

-- The frames that a loop takes from its reader, each with whether its write succeeds; the write of a
-- frame that is still held has not.
unfoldable pub heard : ℤ → Loop → List (Bool × Act) → List Read
unfolding take_frame write_frame
heard max_bytes l [] = unwritten l.phase
heard max_bytes l ((closed, act) ∷ acts) =
    let l' = loop_step max_bytes closed l act in
    completed closed l.phase act l'.phase (heard max_bytes l' acts)

-- What the loops of the session meet.
unfoldable pub met_by_a : ℤ → Session → List Turn → List (Bool × Act)
unfolding take_turn
met_by_a max_bytes s [] = []
met_by_a max_bytes s (acts_a act ∷ ts) =
    (closed_b s.caller, act) ∷ met_by_a max_bytes (take_turn max_bytes s (acts_a act)) ts
met_by_a max_bytes s (t ∷ ts) = met_by_a max_bytes (take_turn max_bytes s t) ts

unfoldable pub met_by_b : ℤ → Session → List Turn → List (Bool × Act)
unfolding take_turn
met_by_b max_bytes s [] = []
met_by_b max_bytes s (acts_b act ∷ ts) =
    (closed_a s.caller, act) ∷ met_by_b max_bytes (take_turn max_bytes s (acts_b act)) ts
met_by_b max_bytes s (t ∷ ts) = met_by_b max_bytes (take_turn max_bytes s t) ts

append-nil : (xs : List Frame) → xs ++ [] ≡ xs
append-nil [] = refl
append-nil (x ∷ xs) = ground (arith, append-nil xs)

append-append : (xs ys zs : List Frame) → (xs ++ ys) ++ zs ≡ xs ++ (ys ++ zs)
append-append [] ys zs = refl
append-append (x ∷ xs) ys zs = ground (arith, append-append xs ys zs)

module _ (max_bytes : ℤ) where
  from_a-steps :
      (ts : List Turn) (s : Session)
      → (pump_pair max_bytes s ts).from_a ≡ steps max_bytes s.from_a (met_by_a max_bytes s ts)
  unfolding pump_pair steps met_by_a take_turn
  from_a-steps [] s = refl
  from_a-steps (acts_a act ∷ ts) s = from_a-steps ts (take_turn max_bytes s (acts_a act))
  from_a-steps (acts_b act ∷ ts) s = from_a-steps ts (take_turn max_bytes s (acts_b act))
  from_a-steps (done ∷ ts) s = from_a-steps ts (take_turn max_bytes s done)
  from_a-steps (expires ∷ ts) s = from_a-steps ts (take_turn max_bytes s expires)
  from_a-steps (closes ∷ ts) s = from_a-steps ts (take_turn max_bytes s closes)

  from_b-steps :
      (ts : List Turn) (s : Session)
      → (pump_pair max_bytes s ts).from_b ≡ steps max_bytes s.from_b (met_by_b max_bytes s ts)
  unfolding pump_pair steps met_by_b take_turn
  from_b-steps [] s = refl
  from_b-steps (acts_a act ∷ ts) s = from_b-steps ts (take_turn max_bytes s (acts_a act))
  from_b-steps (acts_b act ∷ ts) s = from_b-steps ts (take_turn max_bytes s (acts_b act))
  from_b-steps (done ∷ ts) s = from_b-steps ts (take_turn max_bytes s done)
  from_b-steps (expires ∷ ts) s = from_b-steps ts (take_turn max_bytes s expires)
  from_b-steps (closes ∷ ts) s = from_b-steps ts (take_turn max_bytes s closes)

  abbrev at : Phase → ℕ → List Frame → ℕ → Loop
  at phase n delivered told = record { phase = phase; n = n; delivered = delivered; told = told }

  -- A loop delivers and tells, beyond what it had, what `pump` makes of the frames that it takes.
  abbrev Makes : List (Bool × Act) → Loop → ℕ → List Frame → ℕ → Type 0
  Makes acts l n delivered told =
      ((steps max_bytes l acts).delivered
        ≡ delivered ++ (pump max_bytes n (heard max_bytes l acts)).0)
      × ((steps max_bytes l acts).told ≡ told + (pump max_bytes n (heard max_bytes l acts)).1)

  ended-steps :
      (acts : List (Bool × Act)) (n : ℕ) (delivered : List Frame) (told : ℕ)
      → (steps max_bytes (at ended n delivered told) acts ≡ at ended n delivered told)
        × (heard max_bytes (at ended n delivered told) acts ≡ [])
  unfolding steps heard
  ended-steps [] n delivered told = (refl, refl)
  ended-steps ((closed, act) ∷ acts) n delivered told = ended-steps acts n delivered told

  mutual
    unfolding steps heard pump take_frame write_frame

    reading-Makes :
        (acts : List (Bool × Act)) (n : ℕ) (delivered : List Frame) (told : ℕ)
        → Makes acts (at reading n delivered told) n delivered told
    reading-Makes [] n delivered told = (sym (append-nil delivered), omega arith)
    reading-Makes ((closed, reads f) ∷ acts) n delivered told =
        elim (Bool-cases (ltb max_relay_message (length f.payload))) [
          | inl e ↦ ground (arith, e, ended-steps acts n delivered told, append-nil delivered)
          | inr e ↦ elim (Bool-cases (exceeds max_bytes (n + length f.payload))) [
            | inl g ↦ ground (
              arith,
              e,
              g,
              ended-steps acts (n + length f.payload) delivered (told + length f.payload),
              append-nil delivered,
            )
            | inr g ↦ rw (e, g, steps, take_frame) (writing-Makes acts f n delivered told e g)
          ]
        ]
    reading-Makes ((closed, read_fails) ∷ acts) n delivered told =
        ground (arith, ended-steps acts n delivered told, append-nil delivered)
    reading-Makes ((closed, writes success) ∷ acts) n delivered told =
        reading-Makes acts n delivered told

    writing-Makes :
        (acts : List (Bool × Act)) (f : Frame) (n : ℕ) (delivered : List Frame) (told : ℕ)
        → ltb max_relay_message (length f.payload) ≡ false
        → exceeds max_bytes (n + length f.payload) ≡ false
        → Makes acts
            (at (writing f) (n + length f.payload) delivered (told + length f.payload))
            n
            delivered
            told
    writing-Makes [] f n delivered told fits below =
        ground (arith, fits, below, append-nil delivered)
    writing-Makes ((closed, reads g) ∷ acts) f n delivered told fits below =
        writing-Makes acts f n delivered told fits below
    writing-Makes ((closed, read_fails) ∷ acts) f n delivered told fits below =
        writing-Makes acts f n delivered told fits below
    writing-Makes ((closed, writes success) ∷ acts) f n delivered told fits below =
        elim (Bool-cases (success && not closed)) [
          | inl e ↦
              let (sent, counted) =
                reading-Makes acts (n + length f.payload) (delivered ++ f ∷ [])
                  (told + length f.payload) in
              let joined = append-append delivered (f ∷ []) in
              rw (e, fits, below, steps, write_frame) (sent ∙ joined _, counted ∙ omega arith)
          | inr e ↦ ground (
            arith,
            e,
            fits,
            below,
            ended-steps acts (n + length f.payload) delivered (told + length f.payload),
            append-nil delivered,
          )
        ]

-- However the turns of a session interleave, each of its loops has delivered and told what `pump`
-- makes of the frames that the loop has taken.
pub pump_pair-heard :
    (max_bytes : ℤ) (ts : List Turn)
    → (((pump_pair max_bytes opened ts).from_a.delivered
          ≡ (pump max_bytes 0 (heard max_bytes new_loop (met_by_a max_bytes opened ts))).0)
        × ((pump_pair max_bytes opened ts).from_a.told
            ≡ (pump max_bytes 0 (heard max_bytes new_loop (met_by_a max_bytes opened ts))).1))
      × (((pump_pair max_bytes opened ts).from_b.delivered
            ≡ (pump max_bytes 0 (heard max_bytes new_loop (met_by_b max_bytes opened ts))).0)
          × ((pump_pair max_bytes opened ts).from_b.told
              ≡ (pump max_bytes 0 (heard max_bytes new_loop (met_by_b max_bytes opened ts))).1))
pump_pair-heard max_bytes ts =
    let (sent_a, told_a) = reading-Makes max_bytes (met_by_a max_bytes opened ts) 0 [] 0 in
    let (sent_b, told_b) = reading-Makes max_bytes (met_by_b max_bytes opened ts) 0 [] 0 in
    let a = from_a-steps max_bytes ts opened in
    let b = from_b-steps max_bytes ts opened in
    (
      (ap (λ l. l.delivered) a ∙ sent_a, ap (λ l. l.told) a ∙ told_a ∙ omega arith),
      (ap (λ l. l.delivered) b ∙ sent_b, ap (λ l. l.told) b ∙ told_b ∙ omega arith),
    )
