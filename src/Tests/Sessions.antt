-- ===== src/Tests/Sessions.antt =====
-- The registry with two hosts, and the relay hub with the two sides of a session.
use spadeide_rendezvous.Prelude.{
  Option, ◌+◌, ◌≡◌, ◌≢◌, ◌≤◌, refl, ◌↔◌, ◌⊎◌, inl, Text, text_discrete, true, false, ◌==◌, none,
  some, List, [], ◌∷◌, All, Has, is_empty, arith, if◌then◌else◌,
}
use spadeide_rendezvous.Prelude.Int.{pos, pos_part, non_positive}
use spadeide_rendezvous.Map.{lookup}
use spadeide_rendezvous.Clock.{after}
use spadeide_rendezvous.Registry
use spadeide_rendezvous.Registry.{
  Slot, Registry, Addr, holds, upsert, get, remove, may_remove, claim_keys, insert_keys,
}
use spadeide_rendezvous.Registry.Delete.{holder}
use spadeide_rendezvous.Registry.Takeover.{upsert-keeps_live, upsert-granted_iff}
use spadeide_rendezvous.Registry.Expiry.{
  Reach, start, next, upserts, Covers, unexpired, holder-sweep, get-expired, holder-remove,
}
use spadeide_rendezvous.Relay.{agent, client, arrive, Frame, Read, pump, max_relay_message}
use spadeide_rendezvous.Relay
use spadeide_rendezvous.Relay.System
use spadeide_rendezvous.Relay.Pairing.{Reach-pairs}
use spadeide_rendezvous.Relay.System.{Opposite, System, waiting_of, paired_of, empty, after_arrival}
use spadeide_rendezvous.Relay.Pump.{pump-caps, pump-delivers, frames, delivered, total, size}

abbrev rid : Text
rid = b'r' ∷ []

abbrev alias : Text
alias = b'a' ∷ []

-- Two hosts, on connections 10 and 11, that ask for the same key.
abbrev hosts : Addr → Slot
hosts a =
    if a == 0
    then record {
      keys = rid ∷ alias ∷ [];
      public = none;
      conn = 10;
      expires_at = 0;
      remote_ip = [];
    }
    else record { keys = rid ∷ []; public = none; conn = 11; expires_at = 0; remote_ip = [] }

abbrev online : Registry
online = (upsert (Registry.new 300 hosts) 0 1).0

online-Reach : Reach 300 hosts online
online-Reach = next start (upserts 0 refl)

upsert-keeps_live_example :
    (holder rid (upsert online 1 5).0.slots ≡ some 0)
    × ((upsert online 1 5).0.heap 0 ≡ online.heap 0)
unfolding upsert Registry.new lookup text_discrete
upsert-keeps_live_example = upsert-keeps_live online 1 0 5 rid refl refl (λ e. omega (arith, e))

upsert-granted_iff_example : ((upsert online 1 5).1 ≡ true) ↔ (
    (is_empty (online.heap 1).keys ≡ false)
    × ((k : Text) (c : Addr)
        → Has k (online.heap 1).keys
        → holder k online.slots ≡ some c
        → after 5 (online.heap c).expires_at ≡ false
        → (online.heap c).conn ≡ (online.heap 1).conn))
upsert-granted_iff_example = upsert-granted_iff online 1 5

online-Covers : Covers (rid ∷ alias ∷ []) online.slots
unfolding upsert Registry.new lookup
online-Covers k a led = ground (arith, text_discrete rid k, text_discrete alias k)

holder-sweep_example :
    holder rid (Registry.sweep online (rid ∷ alias ∷ []) 900).0.slots
    ≡ unexpired online.heap 900 (holder rid online.slots)
holder-sweep_example =
    holder-sweep 300 hosts online (rid ∷ alias ∷ []) 900 rid online-Reach online-Covers

get-expired_example :
    ((get online rid 900).1 ≡ none)
    × (holder alias (get online rid 900).0.slots
        ≡ (if holds 0 (holder alias online.slots) then none else holder alias online.slots))
unfolding upsert Registry.new lookup text_discrete
get-expired_example = get-expired 300 hosts online rid alias 0 900 online-Reach refl refl

abbrev by_ten : Option Registry.Conn
by_ten = some 10

holder-remove_example :
    (((by_ten ≡ none) ⊎ (by_ten ≡ some (online.heap 0).conn))
      × (holder alias (remove online rid (by_ten)).slots
          ≡ (if holds 0 (holder alias online.slots) then none else holder alias online.slots)))
    ⊎ ((c : Registry.Conn) × (by_ten ≡ some c)
        × (c ≢ (online.heap 0).conn)
        × (remove online rid (by_ten) ≡ online))
unfolding upsert Registry.new lookup text_discrete
holder-remove_example = holder-remove 300 hosts online rid alias 0 (by_ten) online-Reach refl

abbrev one_waits : System
one_waits =
    let s = empty (Relay.new (pos 0) (pos 0)) in
    after_arrival s rid agent (arrive s.hub rid agent 0 0)

abbrev both_there : System
both_there = after_arrival one_waits rid client (arrive one_waits.hub rid client 1 1)

both_there-Reach : Relay.System.Reach (pos 0) (pos 0) both_there
unfolding Relay.new arrive text_discrete
both_there-Reach =
    Relay.System.next (Relay.System.next Relay.System.start (Relay.System.arrives rid agent refl))
      (Relay.System.arrives rid client refl)

Reach-pairs_example :
    All Opposite both_there.pairs
    × ((c : Relay.Conn) → waiting_of c both_there.hub.waiting + paired_of c both_there.pairs ≤ 1)
Reach-pairs_example = Reach-pairs both_there-Reach

abbrev reads : List Read
reads =
    record { frame = record { kind = 2; payload = 5 ∷ 6 ∷ [] }; written = true }
    ∷ record { frame = record { kind = 2; payload = 7 ∷ [] }; written = true }
    ∷ []

pump-caps_example :
    All (λ f. size f ≤ max_relay_message) (delivered (pos 2) 0 reads)
    × ((0 + total (delivered (pos 2) 0 reads) ≤ pos_part (pos 2)) ⊎ (non_positive (pos 2) ≡ true))
pump-caps_example = pump-caps (pos 2) 0 reads (inl (omega arith))

pump-delivers_example : pump (pos 3) 0 reads ≡ (frames reads, total (frames reads))
pump-delivers_example =
    pump-delivers (pos 3) 0 reads ((omega arith, refl), ((omega arith, refl), tt))
      (inl (omega arith))
