-- ===== src/Tests/Tickets.antt =====
-- A ticket's life: issued, a key rotation, accepted, refused.
use spadeide_rendezvous.Prelude.{
  ◌≡◌, ◌≢◌, refl, ◌↔◌, ◌*◌, ◌+◌, Text, text_discrete, none, some, List, [], ◌∷◌, arith,
}
use spadeide_rendezvous.Prelude.Int.{ℤ, pos}
use spadeide_rendezvous.Map.{lookup, insert}
use spadeide_rendezvous.Clock.{Time, second, unix_epoch}
use spadeide_rendezvous.Ticket
use spadeide_rendezvous.Ticket.{
  Manager, Result, ok, err, issue, verify, split_dot, redeem, verify_parts,
}
use spadeide_rendezvous.Ticket.Verify.{Acceptable, verify-ok_iff}
use spadeide_rendezvous.Ticket.SingleUse.{Event, dial, tick, run, verify-single_use}
use spadeide_rendezvous.Ticket.Rotation.{verify-issue}
use spadeide_rendezvous.Tests.Fixtures.{
  crypto, crypto-CryptoLaws, is_signature, encode, decode_all, marshal, unmarshal,
}

abbrev at : ℤ → Time
at (pos n) = (unix_epoch + n) * second
at n = 0

abbrev manager : Manager
manager = record {
  public = 1 ∷ [];
  private = 1 ∷ [];
  prev_pub = none;
  prev_until = 0;
  rotated = 0;
  used = [];
}

abbrev ticket : Ticket.Ticket
ticket = record { sid = 7 ∷ []; exp = pos 35; role = 9 ∷ [] }

-- The text that is issued for it at second 5.
abbrev text : Text
text = 47 ∷ 82 ∷ 48 ∷ 54 ∷ 56 ∷ b'.' ∷ 48 ∷ 47 ∷ 82 ∷ 48 ∷ 54 ∷ 56 ∷ []

issued : issue crypto manager (7 ∷ []) (9 ∷ []) (pos 0) (at (pos 5)) ≡ some text
unfolding issue encode marshal
issued = refl

-- The hour has come, and the key is changed; then another ticket is tried.
abbrev between : List Event
between = tick (some (2 ∷ [], 2 ∷ [])) (at (pos 10)) ∷ dial (b'x' ∷ []) (at (pos 11)) ∷ []

verify-single_use_example :
    (verify crypto
      (run crypto (verify crypto manager text (at (pos 6))).0 between)
      text
      (at (pos 12))).1
    ≢ ok ticket
unfolding verify text_discrete is_signature decode_all unmarshal
verify-single_use_example =
    verify-single_use crypto manager text (at (pos 6)) (at (pos 12)) ticket ticket between refl
      (omega arith, (omega arith, omega arith))

verify-issue_example : (verify crypto (run crypto manager between) text (at (pos 20))).1 ≡ ok ticket
unfolding issue encode marshal lookup crypto-CryptoLaws
verify-issue_example =
    verify-issue crypto crypto-CryptoLaws manager (7 ∷ []) (9 ∷ []) text (pos 0) (at (pos 5))
      (at (pos 20)) between refl (omega arith, tt) (omega arith, tt) refl refl
      (omega arith, (omega arith, omega arith)) ((λ e. cc), tt) refl

verify-ok_iff_example :
    (((verify crypto manager text (at (pos 6))).1 ≡ ok ticket)
      ↔ Acceptable crypto manager text (at (pos 6)) ticket)
    × (((verify crypto manager text (at (pos 6))).1 ≡ ok ticket) ↔ (
        verify crypto manager text (at (pos 6))
        ≡ (record manager { used = insert text_discrete text ticket.exp manager.used }, ok ticket)))
    × (((verify crypto manager text (at (pos 6))).1 ≡ err Ticket.reused)
        ↔ (verify crypto manager text (at (pos 6)) ≡ (manager, err Ticket.reused)))
verify-ok_iff_example = verify-ok_iff crypto manager text (at (pos 6)) ticket Ticket.reused
