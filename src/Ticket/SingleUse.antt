-- ===== src/Ticket/SingleUse.antt =====
-- A ticket is accepted at most once, whatever sweeps and other dials come between.
use spadeide_rendezvous.Prelude.{
  ◌≡◌, ◌∙◌, sym, ◌≤◌, ◌≢◌, ◌⊎◌, inl, inr, Text, text_discrete, true, false, none, some, List, [],
  ◌∷◌, Bool-cases, arith,
}
use spadeide_rendezvous.Prelude.Int.{ℤ, gtℤ}
use spadeide_rendezvous.Map.{Map, lookup}
use spadeide_rendezvous.Map.Laws.{lookup-insert, lookup-insert_self}
use spadeide_rendezvous.Clock.{Time, unix}
use spadeide_rendezvous.Ticket.{
  Ticket, Crypto, Manager, KeyPair, ok, verify, sweep, maybe_rotate, drop_previous, drop_expired,
}
use spadeide_rendezvous.Ticket.Verify.{Acceptable, verify-ok, verify-accepts, verify-state}

pub data Event : Type 0 where
  dial : Text → Time → Event
  tick : KeyPair → Time → Event

abbrev pub at : Event → Time
at (dial encoded now) = now
at (tick keys now) = now

abbrev pub InOrder : Time → List Event → Time → Type 0
InOrder t [] last = t ≤ last
InOrder t (e ∷ es) last = (t ≤ at e) × InOrder (at e) es last

-- The manager after a history of dials with tickets and of sweeps.
unfoldable pub run : Crypto → Manager → List Event → Manager
run lib m [] = m
run lib m (dial encoded now ∷ es) = run lib (verify lib m encoded now).0 es
run lib m (tick keys now ∷ es) = run lib (sweep m now keys) es

-- The text can never be accepted again: it is remembered with its expiry, or that has passed.
abbrev Spent : Text → Ticket → Time → Manager → Type 0
Spent encoded t now m =
    (lookup text_discrete encoded m.used ≡ some t.exp) ⊎ (gtℤ (unix now) t.exp ≡ true)

lookup-drop_expired :
    (now_unix : ℤ) (encoded : Text) (exp : ℤ) (used : Map Text ℤ)
    → lookup text_discrete encoded used ≡ some exp
    → gtℤ now_unix exp ≡ false
    → lookup text_discrete encoded (drop_expired now_unix used) ≡ some exp
unfolding lookup drop_expired
lookup-drop_expired now_unix encoded exp [] h g = cc
lookup-drop_expired now_unix encoded exp ((k, e) ∷ used) h g =
    ground (arith, lookup-drop_expired now_unix encoded exp used)

pub sweep-used :
    (m : Manager) (now : Time) (keys : KeyPair)
    → (sweep m now keys).used ≡ drop_expired (unix now) m.used
unfolding sweep maybe_rotate drop_previous
sweep-used m now none = ground arith
sweep-used m now (some (public, private)) = ground arith

unix_later : (s u : Time) (exp : ℤ) → s ≤ u → gtℤ (unix s) exp ≡ true → gtℤ (unix u) exp ≡ true
unix_later s u exp g e = ground arith

sweep-Spent :
    (encoded : Text) (t : Ticket) (before now : Time) (m : Manager) (keys : KeyPair)
    → before ≤ now
    → Spent encoded t before m
    → Spent encoded t now (sweep m now keys)
sweep-Spent encoded t before now m keys h (inl used) = elim (Bool-cases (gtℤ (unix now) t.exp)) [
  | inl over ↦ inr over
  | inr fresh ↦
      inl (
        rw (sweep-used m now keys) (lookup-drop_expired (unix now) encoded t.exp m.used used fresh))
]
sweep-Spent encoded t before now m keys h (inr over) = inr (unix_later before now t.exp h over)

verify-Spent :
    (lib : Crypto) (encoded other : Text) (t : Ticket) (before now : Time) (m : Manager)
    → before ≤ now
    → Spent encoded t before m
    → Spent encoded t now (verify lib m other now).0
verify-Spent lib encoded other t before now m h (inl used) = elim (verify-state lib m other now) [
  | inl same ↦ inl (rw same used)
  | inr (u, new, added) ↦
      inl (
        rw added
          (ground (arith, lookup-insert text_discrete other encoded u.exp m.used, used, new)))
]
verify-Spent lib encoded other t before now m h (inr over) =
    inr (unix_later before now t.exp h over)

run-Spent :
    (lib : Crypto) (encoded : Text) (t : Ticket) (before last : Time) (m : Manager)
    (es : List Event)
    → InOrder before es last
    → Spent encoded t before m
    → Spent encoded t last (run lib m es)
unfolding run
run-Spent lib encoded t before last m [] o (inl used) = inl used
run-Spent lib encoded t before last m [] o (inr over) = inr (unix_later before last t.exp o over)
run-Spent lib encoded t before last m (dial other now ∷ es) o spent =
    run-Spent lib encoded t now last (verify lib m other now).0 es o.1
      (verify-Spent lib encoded other t before now m o.0 spent)
run-Spent lib encoded t before last m (tick keys now ∷ es) o spent =
    run-Spent lib encoded t now last (sweep m now keys) es o.1
      (sweep-Spent encoded t before now m keys o.0 spent)

-- Once a text was accepted, no later dial with it is, whatever dials and sweeps with key rotations
-- came between, at instants in order.
pub verify-single_use :
    (lib : Crypto) (m : Manager) (encoded : Text) (now last : Time) (t u : Ticket) (es : List Event)
    → (verify lib m encoded now).1 ≡ ok t
    → InOrder now es last
    → (verify lib (run lib (verify lib m encoded now).0 es) encoded last).1 ≢ ok u
verify-single_use lib m encoded now last t u es accepted o again = ground (
  arith,
  first,
  run-Spent lib encoded t now last (verify lib m encoded now).0 es o remembered,
  second,
  same,
)
  where
    first : Acceptable lib m encoded now t
    first = verify-ok lib m encoded now t accepted

    remembered : Spent encoded t now (verify lib m encoded now).0
    remembered = inl (
        rw (verify-accepts lib m encoded now t first)
          (lookup-insert_self text_discrete encoded t.exp m.used))

    second : Acceptable lib (run lib (verify lib m encoded now).0 es) encoded last u
    second = verify-ok lib _ encoded last u again

    same : some t ≡ some u
    same = sym first.0 ∙ second.0
