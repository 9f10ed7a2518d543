-- ===== src/Server/Start.antt =====
-- The signalling handler of a new wire is one that the theorems of its runs start from.
use spadeide_rendezvous.Prelude.{
  ◌≡◌, refl, subst, inl, inr, Text, Option, none, some, List, [], Option-cases,
}
use spadeide_rendezvous.Clock.{Time}
use spadeide_rendezvous.Config.{Config}
use spadeide_rendezvous.Notice
use spadeide_rendezvous.Registry.{Addr, Slot}
use spadeide_rendezvous.Registry.Delete.{holder}
use spadeide_rendezvous.Ticket
use spadeide_rendezvous.Signal.{Packages}
use spadeide_rendezvous.Signal.Online.{Backed}
use spadeide_rendezvous.Signal.Hosts.{run-Backed}
use spadeide_rendezvous.Signal.Attended.{Attended, run-Attended}
use spadeide_rendezvous.Signal.System.{Event, start, run}
use spadeide_rendezvous.Server.{Wire, Answers, new_wire}

-- Nobody is registered, and no lookup waits.
abbrev Idle : Option Wire → Type 0
Idle none = Unit
Idle (some w) = (w.sig.reg.slots ≡ []) × (w.sig.pending ≡ [])

new_wire-Idle :
    (lib : Notice.Lib) (cfg : Config) (os : Answers) (heap : Addr → Slot) (now : Time)
    → Idle (new_wire lib cfg os heap now)
unfolding new_wire
new_wire-Idle lib cfg os heap now = elim (Option-cases (Ticket.new os.keys now)) [
  | inl f ↦ rw (f, new_wire) tt
  | inr (tickets, f) ↦ rw (f, new_wire) (refl, refl)
]

-- Whatever the configuration and the environment are: if the wire can be made at all, then after any
-- events of its signalling handler each key of its registry leads to a host that is online and
-- proved its key, and each channel is waited on.
new_wire-run :
    (p : Packages) (lib : Notice.Lib) (cfg : Config) (os : Answers) (heap : Addr → Slot)
    (now : Time) (w : Wire) (es : List Event) (k : Text) (a : Addr)
    → new_wire lib cfg os heap now ≡ some w
    → holder k (run p (start w.sig) es).handler.reg.slots ≡ some a
    → Backed p
        ((run p (start w.sig) es).handler.reg.heap a)
        a
        ((run p (start w.sig) es).states a)
        (run p (start w.sig) es).sent
      × Attended (run p (start w.sig) es).handler.pending (run p (start w.sig) es).states
new_wire-run p lib cfg os heap now w es k a made led =
    let (nobody, no_channel) = subst Idle made (new_wire-Idle lib cfg os heap now) in
    (
      (run-Backed p w.sig es k a nobody led).1,
      λ sid buffer waits. run-Attended p w.sig es sid buffer no_channel waits,
    )
