-- ===== src/Relay/System.antt =====
-- The hub with the calls that wait in it: a step for each arrival, timeout and return of a call.
use spadeide_rendezvous.Prelude.{
  ℕ, suc, ◌+◌, ◌≡◌, ◌⊎◌, ◌==◌, Text, List, [], ◌∷◌, ◌++◌, if◌then◌else◌,
}
use spadeide_rendezvous.Prelude.Int.{ℤ}
use spadeide_rendezvous.Map.{Map}
use spadeide_rendezvous.Relay.{
  Conn, Waiting, Hub, new, agent, client, Outcome, bad_role, duplicate_role, paired, waits, arrive,
  timeout,
}

pub record Pair : Type 0 where
  pub sid : Text
  pub first : Waiting
  pub second : Waiting

pub record Pending : Type 0 where
  pub sid : Text
  pub slot : Waiting

-- The hub with its goroutines: the pairs that were made, the calls that still wait in their select,
-- the connections that were closed, and the number of the next connection.
pub record System : Type 0 where
  pub hub : Hub
  pub pairs : List Pair
  pub pending : List Pending
  pub closed : List Conn
  pub fresh : ℕ

abbrev pub empty : Hub → System
empty h = record { hub = h; pairs = []; pending = []; closed = []; fresh = 0 }

abbrev pub slot_of : System → Text → Waiting
slot_of s role = record { id = s.fresh; conn = s.fresh; role = role }

abbrev pub after_arrival : System → Text → Text → Hub × Outcome → System
after_arrival s sid role (h, bad_role) = record s {
  closed = s.fresh ∷ s.closed;
  fresh = suc s.fresh;
}
after_arrival s sid role (h, duplicate_role) = record s {
  closed = s.fresh ∷ s.closed;
  fresh = suc s.fresh;
}
after_arrival s sid role (h, paired existing) = record s {
  hub = h;
  pairs = record { sid = sid; first = existing; second = slot_of s role } ∷ s.pairs;
  fresh = suc s.fresh;
}
after_arrival s sid role (h, waits) = record s {
  hub = h;
  pending = record { sid = sid; slot = slot_of s role } ∷ s.pending;
  fresh = suc s.fresh;
}

-- The select of a waiting call takes the timer's branch, or sees that it was paired and returns.
pub data Step (s t : System) : Type 0 where
  arrives :
      (sid role : Text)
      → t ≡ after_arrival s sid role (arrive s.hub sid role s.fresh s.fresh)
      → Step s t
  fires :
      (p : Pending) (before rest : List Pending)
      → s.pending ≡ before ++ p ∷ rest
      → t ≡ record s {
        hub = timeout s.hub p.sid p.slot.id;
        pending = before ++ rest;
        closed = p.slot.conn ∷ s.closed;
      }
      → Step s t
  wakes :
      (p : Pending) (before rest : List Pending)
      → s.pending ≡ before ++ p ∷ rest
      → t ≡ record s { pending = before ++ rest }
      → Step s t

pub data Reach (max_bytes max_life : ℤ) : System → Type 0 where
  start : Reach max_bytes max_life (empty (new max_bytes max_life))
  next : {s t : System} → Reach max_bytes max_life s → Step s t → Reach max_bytes max_life t

-- One side is the agent and the other the client.
abbrev pub Opposite : Pair → Type 0
Opposite p =
    ((p.first.role ≡ agent) × (p.second.role ≡ client))
    ⊎ ((p.first.role ≡ client) × (p.second.role ≡ agent))

abbrev pub one : Conn → Waiting → ℕ
one c w = if w.conn == c then 1 else 0

-- How often a connection waits, and how often it is in a pair.
abbrev pub waiting_of : Conn → Map Text Waiting → ℕ
waiting_of c [] = 0
waiting_of c ((sid, w) ∷ m) = one c w + waiting_of c m

abbrev pub paired_of : Conn → List Pair → ℕ
paired_of c [] = 0
paired_of c (p ∷ ps) = one c p.first + one c p.second + paired_of c ps
