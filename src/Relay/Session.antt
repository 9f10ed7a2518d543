-- ===== src/Relay/Session.antt =====
-- A pair of connections while it is pumped (pumpPair): two goroutines, one loop of `pump` for each
-- direction, and the caller, which waits for the first of them to end or for the timer, and then
-- closes the one connection and the other. The steps of the three interleave in any way: a loop goes
-- on, between the end of the other and the two calls of Close and after them, until its own read or
-- write fails.
pub mod Pumped
pub mod Closing
use spadeide_rendezvous.Prelude.{
  ℕ, ◌+◌, Bool, true, false, not, ◌&&◌, ◌||◌, List, [], ◌∷◌, ◌++◌, length, ltb, if◌then◌else◌,
}
use spadeide_rendezvous.Prelude.Int.{ℤ}
use spadeide_rendezvous.Relay.{Frame, max_relay_message, exceeds}

-- Where a loop stands: before its read, before the write of a frame that it has counted, or ended.
pub data Phase : Type 0 where
  reading : Phase
  writing : Frame → Phase
  ended : Phase

-- One loop: the bytes that it has read, what it has delivered, and what it has told `onBytes`.
pub record Loop : Type 0 where
  pub phase : Phase
  pub n : ℕ
  pub delivered : List Frame
  pub told : ℕ

-- What a loop meets: a frame or an error from its reader, or the result of its write.
pub data Act : Type 0 where
  reads : Frame → Act
  read_fails : Act
  writes : Bool → Act

-- The part of the loop's body up to the write.
unfoldable pub take_frame : ℤ → Loop → Frame → Loop
take_frame max_bytes l f =
    let size = length f.payload in
    if ltb max_relay_message size then record l { phase = ended } else record l {
      phase = if exceeds max_bytes (l.n + size) then ended else writing f;
      n = l.n + size;
      told = l.told + size;
    }

-- The write fails when its connection has been closed, and it may fail before.
unfoldable pub write_frame : Bool → Loop → Frame → Bool → Loop
write_frame closed l f success =
    if success && not closed
    then record l { phase = reading; delivered = l.delivered ++ f ∷ [] }
    else record l { phase = ended }

-- One step of a loop. A read may still give a frame that was buffered when its connection has been
-- closed. An act that does not belong to its phase does not occur.
abbrev pub step_at : ℤ → Bool → Loop → Phase → Act → Loop
step_at max_bytes closed l reading (reads f) = take_frame max_bytes l f
step_at max_bytes closed l reading read_fails = record l { phase = ended }
step_at max_bytes closed l (writing f) (writes success) = write_frame closed l f success
step_at max_bytes closed l phase act = l

abbrev pub loop_step : ℤ → Bool → Loop → Act → Loop
loop_step max_bytes closed l act = step_at max_bytes closed l l.phase act

-- The caller: in its select, before the first call of Close, before the second, and after both.
pub data Caller : Type 0 where
  selecting closes_a closes_b over : Caller

abbrev pub closed_a : Caller → Bool
closed_a selecting = false
closed_a closes_a = false
closed_a closes_b = true
closed_a over = true

abbrev pub closed_b : Caller → Bool
closed_b over = true
closed_b caller = false

pub record Session : Type 0 where
  pub from_a : Loop
  pub from_b : Loop
  pub caller : Caller

abbrev pub new_loop : Loop
new_loop = record { phase = reading; n = 0; delivered = []; told = 0 }

abbrev pub opened : Session
opened = record { from_a = new_loop; from_b = new_loop; caller = selecting }

-- A step of one of the three: of the loop that reads from a, of the one that reads from b, the
-- receipt of an end by the select, the timer, and the next call of Close.
pub data Turn : Type 0 where
  acts_a acts_b : Act → Turn
  done expires closes : Turn

abbrev pub is_ended : Phase → Bool
is_ended ended = true
is_ended phase = false

abbrev pub on_done : Bool → Caller → Caller
on_done some_ended selecting = if some_ended then closes_a else selecting
on_done some_ended caller = caller

abbrev pub on_timer : Caller → Caller
on_timer selecting = closes_a
on_timer caller = caller

abbrev pub on_close : Caller → Caller
on_close closes_a = closes_b
on_close closes_b = over
on_close caller = caller

unfoldable pub take_turn : ℤ → Session → Turn → Session
unfolding take_frame write_frame
take_turn max_bytes s (acts_a act) = record s {
  from_a = loop_step max_bytes (closed_b s.caller) s.from_a act;
}
take_turn max_bytes s (acts_b act) = record s {
  from_b = loop_step max_bytes (closed_a s.caller) s.from_b act;
}
take_turn max_bytes s done = record s {
  caller = on_done (is_ended s.from_a.phase || is_ended s.from_b.phase) s.caller;
}
take_turn max_bytes s expires = record s { caller = on_timer s.caller }
take_turn max_bytes s closes = record s { caller = on_close s.caller }

-- `pumpPair`, with what its goroutines do after it has returned.
unfoldable pub pump_pair : ℤ → Session → List Turn → Session
unfolding take_turn
pump_pair max_bytes s [] = s
pump_pair max_bytes s (t ∷ ts) = pump_pair max_bytes (take_turn max_bytes s t) ts
