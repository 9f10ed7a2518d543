-- ===== src/Ticket/Rotation.antt =====
-- A ticket stays good for its whole life, across a rotation of the signing key.
use spadeide_rendezvous.Prelude.{
  ◌+◌, ◌≡◌, refl, ◌∙◌, ap, ◌≤◌, ◌<◌, ◌≢◌, ◌⊎◌, inl, inr, Text, text_discrete, ◌has◌, true, false,
  none, some, List, [], ◌∷◌, ◌++◌, Option-cases, arith,
}
use spadeide_rendezvous.Prelude.Int.{ℤ, gtℤ}
use spadeide_rendezvous.Map.{Map, lookup}
use spadeide_rendezvous.Map.Laws.{lookup-insert_ne}
use spadeide_rendezvous.Clock.{Time, unix, second}
use spadeide_rendezvous.Ticket.{
  Ticket, Crypto, Manager, KeyPair, ok, cut_dot, split_dot, verify, sweep, maybe_rotate,
  drop_previous, drop_expired, issue, issue_ttl, signed_by_us, max_issue_ttl,
}
use spadeide_rendezvous.Ticket.Verify.{
  spelled, signed_parts, signed_parts-Signed, verify-accepts, verify-state,
}
use spadeide_rendezvous.Ticket.SingleUse.{Event, dial, tick, InOrder, run, sweep-used}

-- Bytes that are ASCII, as session ids (UUIDs) and roles are.
abbrev pub Ascii : Text → Type 0
Ascii [] = Unit
Ascii (c ∷ s) = (c < 128) × Ascii s

-- What the packages document. `Generated public private` says that the two are a pair of keys that
-- `ed25519.GenerateKey` makes: what the private one signs verifies under the public one. Raw URL
-- base64 has no dot, and decodes to what was encoded. JSON gives back a ticket whose texts are ASCII
-- (of other texts, it replaces the bytes that are not UTF-8).
pub record CryptoLaws (lib : Crypto) : Type 1 where
  pub Generated : Text → Text → Type 0
  pub verify-sign :
      (public private raw : Text)
      → Generated public private
      → lib.verify_sig public raw (lib.sign private raw) ≡ true
  pub decode-encode : (s : Text) → lib.decode (lib.encode s) ≡ some s
  pub encode_no_dot : (s : Text) → (lib.encode s has b'.') ≡ false
  pub unmarshal-marshal :
      (t : Ticket) (raw : Text)
      → Ascii t.sid
      → Ascii t.role
      → lib.marshal t ≡ some raw
      → lib.unmarshal raw ≡ some t

cut_dot-append :
    (s rest : Text) → (s has b'.') ≡ false → cut_dot (s ++ b'.' ∷ rest) ≡ some (s, rest)
unfolding cut_dot ◌has◌
cut_dot-append [] rest h = refl
cut_dot-append (c ∷ s) rest h = ground (arith, cut_dot-append s rest)

split_dot-append :
    (s rest : Text) → (s has b'.') ≡ false → split_dot (s ++ b'.' ∷ rest) ≡ s ∷ rest ∷ []
unfolding split_dot
split_dot-append s rest h = rw (cut_dot-append s rest h, split_dot)

-- The key still verifies: it is the current one, or the previous one in its grace time.
abbrev Serves : Text → Time → Manager → Type 0
Serves key issued m =
    (m.public ≡ key)
    ⊎ ((m.prev_pub ≡ some key)
        × (issued + (max_issue_ttl + second) ≤ m.prev_until)
        × (issued ≤ m.rotated))

maybe_rotate-Serves :
    (key : Text) (issued now : Time) (m : Manager) (keys : KeyPair)
    → issued ≤ now
    → now < issued + (max_issue_ttl + second)
    → Serves key issued m
    → Serves key issued (maybe_rotate m now keys)
unfolding maybe_rotate
maybe_rotate-Serves key issued now m none h soon s = s
maybe_rotate-Serves key issued now m (some (public, private)) h soon (inl current) = ground arith
maybe_rotate-Serves key issued now m (some (public, private)) h soon (inr previous) = ground arith

drop_previous-Serves :
    (key : Text) (issued now : Time) (m : Manager)
    → now < issued + (max_issue_ttl + second)
    → Serves key issued m
    → Serves key issued (drop_previous m now)
unfolding drop_previous
drop_previous-Serves key issued now m soon s = ground arith

sweep-Serves :
    (key : Text) (issued now : Time) (m : Manager) (keys : KeyPair)
    → issued ≤ now
    → now < issued + (max_issue_ttl + second)
    → Serves key issued m
    → Serves key issued (sweep m now keys)
unfolding sweep
sweep-Serves key issued now m keys h soon s =
    drop_previous-Serves key issued now (maybe_rotate m now keys) soon
      (maybe_rotate-Serves key issued now m keys h soon s)

verify-Serves :
    (lib : Crypto) (key other : Text) (issued now : Time) (m : Manager)
    → Serves key issued m
    → Serves key issued (verify lib m other now).0
verify-Serves lib key other issued now m s = elim (verify-state lib m other now) [
  | inl same ↦ rw same s
  | inr (u, new, added) ↦ rw added s
]

-- Nobody dials with the text.
abbrev pub Undialled : Text → List Event → Type 0
Undialled encoded [] = Unit
Undialled encoded (dial other now ∷ es) = (other ≢ encoded) × Undialled encoded es
Undialled encoded (tick keys now ∷ es) = Undialled encoded es

drop_expired-none :
    (now_unix : ℤ) (encoded : Text) (used : Map Text ℤ)
    → lookup text_discrete encoded used ≡ none
    → lookup text_discrete encoded (drop_expired now_unix used) ≡ none
unfolding lookup drop_expired
drop_expired-none now_unix encoded [] h = refl
drop_expired-none now_unix encoded ((k, e) ∷ used) h =
    ground (arith, drop_expired-none now_unix encoded used)

verify-unused :
    (lib : Crypto) (encoded other : Text) (now : Time) (m : Manager)
    → other ≢ encoded
    → lookup text_discrete encoded m.used ≡ none
    → lookup text_discrete encoded (verify lib m other now).0.used ≡ none
verify-unused lib encoded other now m ne h = elim (verify-state lib m other now) [
  | inl same ↦ rw same h
  | inr (u, new, added) ↦
      rw added (lookup-insert_ne text_discrete other encoded u.exp m.used ne ∙ h)
]

InOrder-le : (before last : Time) (es : List Event) → InOrder before es last → before ≤ last
InOrder-le before last [] o = o
InOrder-le before last (dial other now ∷ es) o = omega (arith, InOrder-le now last es o.1)
InOrder-le before last (tick keys now ∷ es) o = omega (arith, InOrder-le now last es o.1)

run-Serves :
    (lib : Crypto) (key encoded : Text) (issued before last : Time) (m : Manager) (es : List Event)
    → issued ≤ before
    → last < issued + (max_issue_ttl + second)
    → InOrder before es last
    → Undialled encoded es
    → Serves key issued m
    → lookup text_discrete encoded m.used ≡ none
    → Serves key issued (run lib m es) × (lookup text_discrete encoded (run lib m es).used ≡ none)
unfolding run
run-Serves lib key encoded issued before last m [] h soon o a s new = (s, new)
run-Serves lib key encoded issued before last m (dial other now ∷ es) h soon o a s new =
    run-Serves lib key encoded issued now last (verify lib m other now).0 es (omega arith) soon o.1
      a.1 (verify-Serves lib key other issued now m s)
      (verify-unused lib encoded other now m a.0 new)
run-Serves lib key encoded issued before last m (tick keys now ∷ es) h soon o a s new =
    run-Serves lib key encoded issued now last (sweep m now keys) es (omega arith) soon o.1 a
      (sweep-Serves key issued now m keys (omega arith) (omega (arith, InOrder-le now last es o.1))
        s)
      (rw (sweep-used m now keys) (drop_expired-none (unix now) encoded m.used new))

Serves-signed :
    (lib : Crypto) (key raw sig : Text) (issued : Time) (m : Manager)
    → Serves key issued m
    → lib.verify_sig key raw sig ≡ true
    → signed_by_us lib m raw sig ≡ true
Serves-signed lib key raw sig issued m s h = ground arith

abbrev issued_ticket : Text → Text → ℤ → Time → Ticket
issued_ticket sid role ttl now = record { sid = sid; exp = unix (now + issue_ttl ttl); role = role }

-- What `Issue` writes: the ticket, a dot, and its signature.
issue_inv :
    (lib : Crypto) (m : Manager) (sid role encoded : Text) (ttl : ℤ) (now : Time)
    → issue lib m sid role ttl now ≡ some encoded
    → (raw : Text) × (lib.marshal (issued_ticket sid role ttl now) ≡ some raw)
      × (encoded ≡ lib.encode raw ++ b'.' ∷ lib.encode (lib.sign m.private raw))
unfolding issue
issue_inv lib m sid role encoded ttl now h =
    elim (Option-cases (lib.marshal (issued_ticket sid role ttl now))) [
      | inl e ↦ absurd (ground (arith, e))
      | inr (raw, e) ↦ (raw, e, ground (arith, e))
    ]

-- A signed text spells its ticket, under a manager whose key verifies it.
signed_text :
    (lib : Crypto) (laws : CryptoLaws lib) (t : Ticket) (public private raw : Text) (issued : Time)
    (m : Manager)
    → Ascii t.sid
    → Ascii t.role
    → laws.Generated public private
    → lib.marshal t ≡ some raw
    → Serves public issued m
    → (spelled lib (split_dot (lib.encode raw ++ b'.' ∷ lib.encode (lib.sign private raw)))
        ≡ some t)
      × (signed_parts lib m (split_dot (lib.encode raw ++ b'.' ∷ lib.encode (lib.sign private raw)))
          ≡ true)
signed_text lib laws t public private raw issued m sids roles pair e s =
    rw
      (split_dot-append (lib.encode raw) (lib.encode (lib.sign private raw))
        (laws.encode_no_dot raw))
      (ground (
        arith,
        laws.decode-encode raw,
        laws.decode-encode (lib.sign private raw),
        laws.unmarshal-marshal t raw sids roles e,
        Serves-signed lib public raw (lib.sign private raw) issued m s
            (laws.verify-sign public private raw pair),
      ))

-- The expiry lies less than a second short of the grace time of the old key.
issued_soon :
    (ttl : ℤ) (issued last : Time)
    → gtℤ (unix last) (unix (issued + issue_ttl ttl)) ≡ false
    → last < issued + (max_issue_ttl + second)
issued_soon ttl issued last h = ground arith

-- For a manager whose two keys were generated together, under the documented laws of the packages: a
-- ticket that was issued for a session and a role whose texts are ASCII, and whose text was not used before, is accepted, as what was issued, at any instant up to
-- its expiry, after any sweeps and any dials with other tickets at instants in order. The signing
-- key may have been rotated in between.
pub verify-issue :
    (lib : Crypto) (laws : CryptoLaws lib) (m : Manager) (sid role encoded : Text) (ttl : ℤ)
    (issued last : Time) (es : List Event)
    → laws.Generated m.public m.private
    → Ascii sid
    → Ascii role
    → issue lib m sid role ttl issued ≡ some encoded
    → lookup text_discrete encoded m.used ≡ none
    → InOrder issued es last
    → Undialled encoded es
    → gtℤ (unix last) (unix (issued + issue_ttl ttl)) ≡ false
    → (verify lib (run lib m es) encoded last).1
      ≡ ok (record { sid = sid; exp = unix (issued + issue_ttl ttl); role = role })
verify-issue lib laws m sid role encoded ttl issued last es paired sids roles made new o a live =
    let (raw, written, is_text) = issue_inv lib m sid role encoded ttl issued made in
    let t = issued_ticket sid role ttl issued in
    let (serves, unused) =
      run-Serves lib m.public encoded issued issued last m es (omega arith)
        (issued_soon ttl issued last live) o a (inl refl) new in
    let (spells, signed) =
      signed_text lib laws t m.public m.private raw issued (run lib m es) sids roles paired written
        serves in
    ap (λ r. r.1)
      (verify-accepts lib (run lib m es) encoded last t (
        rw is_text spells,
        signed_parts-Signed lib (run lib m es) (split_dot encoded) (rw is_text signed),
        live,
        unused,
      ))
