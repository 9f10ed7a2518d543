-- ===== src/Relay/Session/Closing.antt =====
-- When the connections of a pumped pair are closed, and what may still happen then.
use spadeide_rendezvous.Prelude.{
  ℕ, ◌+◌, ◌≡◌, refl, ◌∙◌, ap, ◌≤◌, ◌⊎◌, inl, inr, Bool, true, false, ◌||◌, List, [], ◌∷◌, Has,
  Bool-cases, arith,
}
use spadeide_rendezvous.Prelude.Int.{ℤ}
use spadeide_rendezvous.Relay.{Frame, max_relay_message, pump}
use spadeide_rendezvous.Relay.Session.{
  Phase, reading, writing, ended, Loop, Act, reads, read_fails, writes, take_frame, write_frame,
  loop_step, closed_a, closed_b, Session, opened, new_loop, Turn, acts_a, acts_b, done, expires,
  closes, take_turn, pump_pair, Caller, selecting, closes_a, closes_b, over, on_done, on_timer,
  on_close, is_ended,
}
use spadeide_rendezvous.Relay.Session.Pumped.{heard, met_by_a, met_by_b, pump_pair-heard}

done-closed_b : (b : Bool) (c : Caller) → closed_b c ≡ true → closed_b (on_done b c) ≡ true
done-closed_b b selecting h = absurd (cc h)
done-closed_b b closes_a h = h
done-closed_b b closes_b h = h
done-closed_b b over h = h

timer-closed_b : (c : Caller) → closed_b c ≡ true → closed_b (on_timer c) ≡ true
timer-closed_b selecting h = absurd (cc h)
timer-closed_b closes_a h = h
timer-closed_b closes_b h = h
timer-closed_b over h = h

close-closed_b : (c : Caller) → closed_b c ≡ true → closed_b (on_close c) ≡ true
close-closed_b selecting h = h
close-closed_b closes_a h = absurd (cc h)
close-closed_b closes_b h = refl
close-closed_b over h = h

done-closed_a : (b : Bool) (c : Caller) → closed_a c ≡ true → closed_a (on_done b c) ≡ true
done-closed_a b selecting h = absurd (cc h)
done-closed_a b closes_a h = h
done-closed_a b closes_b h = h
done-closed_a b over h = h

timer-closed_a : (c : Caller) → closed_a c ≡ true → closed_a (on_timer c) ≡ true
timer-closed_a selecting h = absurd (cc h)
timer-closed_a closes_a h = h
timer-closed_a closes_b h = h
timer-closed_a over h = h

close-closed_a : (c : Caller) → closed_a c ≡ true → closed_a (on_close c) ≡ true
close-closed_a selecting h = h
close-closed_a closes_a h = absurd (cc h)
close-closed_a closes_b h = refl
close-closed_a over h = h

done-caused :
    (a b : Bool) (c : Caller)
    → c ≡ selecting
    → (on_done (a || b) c ≡ selecting) ⊎ (a ≡ true) ⊎ (b ≡ true)
done-caused true b c h = inr (inl refl)
done-caused false true c h = inr (inr refl)
done-caused false false c h = inl (ap (on_done false) h)

later_turn :
    {P : Type 0} (t : Turn) (ts : List Turn) → P ⊎ Has expires ts → P ⊎ Has expires (t ∷ ts)
later_turn t ts (inl p) = inl p
later_turn t ts (inr h) = inr (inr h)

-- The connections are not being closed, or a loop has ended.
abbrev pub Caused : Session → Type 0
Caused s =
    (s.caller ≡ selecting) ⊎ (is_ended s.from_a.phase ≡ true) ⊎ (is_ended s.from_b.phase ≡ true)

module _ (max_bytes : ℤ) where
  abbrev at : Phase → ℕ → List Frame → ℕ → Loop
  at phase n delivered told = record { phase = phase; n = n; delivered = delivered; told = told }

  -- What a loop may still tell once its write cannot succeed: at most the frame of its read.
  abbrev allowance : Phase → ℕ
  allowance reading = max_relay_message
  allowance phase = 0

  shut-step :
      (phase : Phase) (n : ℕ) (delivered : List Frame) (told : ℕ) (act : Act)
      → let l = at phase n delivered told in
        let l' = loop_step max_bytes true l act in
        (l'.delivered ≡ delivered) × (l'.told + allowance l'.phase ≤ told + allowance phase)
  unfolding take_frame write_frame
  shut-step reading n delivered told (reads f) = (ground arith, ground arith)
  shut-step reading n delivered told read_fails = (refl, omega arith)
  shut-step reading n delivered told (writes success) = (refl, omega arith)
  shut-step (writing f) n delivered told (reads g) = (refl, omega arith)
  shut-step (writing f) n delivered told read_fails = (refl, omega arith)
  shut-step (writing f) n delivered told (writes success) = (ground arith, ground arith)
  shut-step ended n delivered told act = (refl, omega arith)

  -- From here on, the loop delivers nothing more and tells at most its allowance.
  abbrev Finishing : Loop → Loop → Type 0
  Finishing l l' =
      (l'.delivered ≡ l.delivered) × (l'.told + allowance l'.phase ≤ l.told + allowance l.phase)

  allowance-le : (phase : Phase) → allowance phase ≤ max_relay_message
  allowance-le reading = omega arith
  allowance-le (writing f) = omega arith
  allowance-le ended = omega arith

  finished :
      (l l' : Loop)
      → Finishing l l'
      → (l'.delivered ≡ l.delivered) × (l'.told ≤ l.told + max_relay_message)
  finished l l' f = (f.0, omega (arith, f.1, allowance-le l.phase))

  Finishing-trans : (k l m : Loop) → Finishing k l → Finishing l m → Finishing k m
  Finishing-trans k l m f g = (g.0 ∙ f.0, omega (arith, f.1, g.1))

  shut_a :
      (ts : List Turn) (s : Session)
      → closed_b s.caller ≡ true
      → Finishing s.from_a (pump_pair max_bytes s ts).from_a
  unfolding pump_pair take_turn take_frame write_frame
  shut_a [] s shut = (refl, omega arith)
  shut_a (acts_a act ∷ ts) s shut =
      let l = s.from_a in
      let stepped : Finishing l (loop_step max_bytes (closed_b s.caller) l act) =
        rw shut (shut-step l.phase l.n l.delivered l.told act) in
      Finishing-trans l (take_turn max_bytes s (acts_a act)).from_a
        (pump_pair max_bytes s (acts_a act ∷ ts)).from_a stepped
        (shut_a ts (take_turn max_bytes s (acts_a act)) shut)
  shut_a (acts_b act ∷ ts) s shut = shut_a ts (take_turn max_bytes s (acts_b act)) shut
  shut_a (done ∷ ts) s shut =
      shut_a ts (take_turn max_bytes s done)
        (done-closed_b (is_ended s.from_a.phase || is_ended s.from_b.phase) s.caller shut)
  shut_a (expires ∷ ts) s shut =
      shut_a ts (take_turn max_bytes s expires) (timer-closed_b s.caller shut)
  shut_a (closes ∷ ts) s shut =
      shut_a ts (take_turn max_bytes s closes) (close-closed_b s.caller shut)

  shut_b :
      (ts : List Turn) (s : Session)
      → closed_a s.caller ≡ true
      → Finishing s.from_b (pump_pair max_bytes s ts).from_b
  unfolding pump_pair take_turn take_frame write_frame
  shut_b [] s shut = (refl, omega arith)
  shut_b (acts_b act ∷ ts) s shut =
      let l = s.from_b in
      let stepped : Finishing l (loop_step max_bytes (closed_a s.caller) l act) =
        rw shut (shut-step l.phase l.n l.delivered l.told act) in
      Finishing-trans l (take_turn max_bytes s (acts_b act)).from_b
        (pump_pair max_bytes s (acts_b act ∷ ts)).from_b stepped
        (shut_b ts (take_turn max_bytes s (acts_b act)) shut)
  shut_b (acts_a act ∷ ts) s shut = shut_b ts (take_turn max_bytes s (acts_a act)) shut
  shut_b (done ∷ ts) s shut =
      shut_b ts (take_turn max_bytes s done)
        (done-closed_a (is_ended s.from_a.phase || is_ended s.from_b.phase) s.caller shut)
  shut_b (expires ∷ ts) s shut =
      shut_b ts (take_turn max_bytes s expires) (timer-closed_a s.caller shut)
  shut_b (closes ∷ ts) s shut =
      shut_b ts (take_turn max_bytes s closes) (close-closed_a s.caller shut)

  ended-step :
      (closed : Bool) (phase : Phase) (n : ℕ) (delivered : List Frame) (told : ℕ) (act : Act)
      → is_ended phase ≡ true
      → is_ended (loop_step max_bytes closed (at phase n delivered told) act).phase ≡ true
  ended-step closed reading n delivered told act h = absurd (cc h)
  ended-step closed (writing f) n delivered told act h = absurd (cc h)
  ended-step closed ended n delivered told act h = refl

  pump_pair-Caused :
      (ts : List Turn) (s : Session) → Caused s → Caused (pump_pair max_bytes s ts) ⊎ Has expires ts
  unfolding pump_pair take_turn take_frame write_frame
  pump_pair-Caused [] s c = inl c
  pump_pair-Caused (acts_a act ∷ ts) s c = later_turn (acts_a act) ts (
      pump_pair-Caused ts (take_turn max_bytes s (acts_a act)) (elim c [
        | inl h ↦ inl h
        | inr (inl h) ↦
            let l = s.from_a in
            inr (inl (ended-step (closed_b s.caller) l.phase l.n l.delivered l.told act h))
        | inr (inr h) ↦ inr (inr h)
      ]))
  pump_pair-Caused (acts_b act ∷ ts) s c = later_turn (acts_b act) ts (
      pump_pair-Caused ts (take_turn max_bytes s (acts_b act)) (elim c [
        | inl h ↦ inl h
        | inr (inl h) ↦ inr (inl h)
        | inr (inr h) ↦
            let l = s.from_b in
            inr (inr (ended-step (closed_a s.caller) l.phase l.n l.delivered l.told act h))
      ]))
  pump_pair-Caused (done ∷ ts) s c = later_turn done ts (
      pump_pair-Caused ts (take_turn max_bytes s done) (elim c [
        | inl h ↦ done-caused (is_ended s.from_a.phase) (is_ended s.from_b.phase) s.caller h
        | inr h ↦ inr h
      ]))
  pump_pair-Caused (expires ∷ ts) s c = inr (inl refl)
  pump_pair-Caused (closes ∷ ts) s c = later_turn closes ts (
      pump_pair-Caused ts (take_turn max_bytes s closes)
        (elim c [ inl h ↦ inl (ap on_close h) | inr h ↦ inr h ]))

-- A pair of connections that is pumped, with the steps of its two loops and of the caller interleaved
-- in any way. Each loop has delivered and told what `pump` makes of the frames that it has taken from
-- its reader; so the bytes of the two directions are counted apart. The caller closes nothing until a
-- loop has ended or the lifetime is over. Once it has closed a connection, nothing more is delivered
-- to it, and the loop that writes to it counts at most one frame more, of at most a MiB.
pub pump_pair-pump :
    (max_bytes : ℤ) (ts us : List Turn)
    → let s = pump_pair max_bytes opened ts in
      let t = pump_pair max_bytes s us in
      let taken_a = heard max_bytes new_loop (met_by_a max_bytes opened ts) in
      let taken_b = heard max_bytes new_loop (met_by_b max_bytes opened ts) in
      ((s.from_a.delivered ≡ (pump max_bytes 0 taken_a).0)
        × (s.from_a.told ≡ (pump max_bytes 0 taken_a).1))
      × ((s.from_b.delivered ≡ (pump max_bytes 0 taken_b).0)
          × (s.from_b.told ≡ (pump max_bytes 0 taken_b).1))
      × (Caused s ⊎ Has expires ts)
      × ((closed_b s.caller ≡ false)
          ⊎ ((t.from_a.delivered ≡ s.from_a.delivered)
              × (t.from_a.told ≤ s.from_a.told + max_relay_message)))
      × ((closed_a s.caller ≡ false)
          ⊎ ((t.from_b.delivered ≡ s.from_b.delivered)
              × (t.from_b.told ≤ s.from_b.told + max_relay_message)))
pump_pair-pump max_bytes ts us =
    let s = pump_pair max_bytes opened ts in
    let (heard_a, heard_b) = pump_pair-heard max_bytes ts in
    (
      heard_a,
      heard_b,
      pump_pair-Caused max_bytes ts opened (inl refl),
      elim (Bool-cases (closed_b s.caller)) [
        | inl shut ↦ inr (
            finished max_bytes s.from_a (pump_pair max_bytes s us).from_a
              (shut_a max_bytes us s shut))
        | inr open_b ↦ inl open_b
      ],
      elim (Bool-cases (closed_a s.caller)) [
        | inl shut ↦ inr (
            finished max_bytes s.from_b (pump_pair max_bytes s us).from_b
              (shut_b max_bytes us s shut))
        | inr open_a ↦ inl open_a
      ],
    )
