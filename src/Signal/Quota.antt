-- ===== src/Signal/Quota.antt =====
-- How many hosts an address may bring online, as far as the hello is concerned.
use spadeide_rendezvous.Prelude.{
  ℕ, ◌<◌, ◌≡◌, refl, sym, ◌∙◌, subst, ◌↔◌, ◌⊎◌, inl, inr, Text, is_text, is_text-eq, codes, true,
  false, not, ◌&&◌, leb, Option, none, some, List, is_empty, length, Bool-cases, Option-cases,
  arith,
}
use spadeide_rendezvous.Prelude.Int.{pos_part, non_positive}
use spadeide_rendezvous.Clock.{Time}
use spadeide_rendezvous.Registry.{Addr, Slot, Conn, get, mem, count_by_ip}
use spadeide_rendezvous.Registry.Counting.{NoRepeat, Connected, count_by_ip_lem}
use spadeide_rendezvous.Signal.Messages.{HelloMsg, decode_control}
use spadeide_rendezvous.Signal.{Handler, Packages, normal}
use spadeide_rendezvous.Signal.Agent.{
  proving, closed, same_ip, over_quota, collect_rids, on_greeting, on_hello,
}
use spadeide_rendezvous.Signal.Agent

-- The address holds the key already, or the connections that it has under keys whose time is not
-- over are fewer than the limit.
abbrev pub HasRoom : Handler → Text → Text → Time → Type 0
HasRoom h ip aid now =
    ((a : Addr) × ((get h.reg aid now).1 ≡ some a)
      × (((get h.reg aid now).0.heap a).remote_ip ≡ ip))
    ⊎ ((conns : List Conn) × NoRepeat conns
        × ((c : Conn)
            → (mem c conns ≡ true)
              ↔ Connected (get h.reg aid now).0.heap ip now c (get h.reg aid now).0.slots)
        × (length conns < pos_part h.max_agents_per_ip))

same_ip-some :
    (ip : Text) (heap : Addr → Slot) (existing : Option Addr)
    → same_ip ip heap existing ≡ true
    → (a : Addr) × (existing ≡ some a) × ((heap a).remote_ip ≡ ip)
same_ip-some ip heap none e = absurd (ground (arith, e))
same_ip-some ip heap (some a) e = (a, refl, is_text-eq (heap a).remote_ip ip e)

over_quota-answer :
    (h : Handler) (ip aid : Text) (now : Time)
    → non_positive h.max_agents_per_ip ≡ false
    → (over_quota h ip aid now).1 ≡ (
        not (same_ip ip (get h.reg aid now).0.heap (get h.reg aid now).1)
        && leb (pos_part h.max_agents_per_ip) (count_by_ip (get h.reg aid now).0 ip now))
unfolding over_quota
over_quota-answer h ip aid now limited = rw limited refl

over_quota-HasRoom :
    (h : Handler) (ip aid : Text) (now : Time)
    → non_positive h.max_agents_per_ip ≡ false
    → (over_quota h ip aid now).1 ≡ false
    → HasRoom h ip aid now
over_quota-HasRoom h ip aid now limited e =
    let (reg, existing) = get h.reg aid now in
    let answer = sym (over_quota-answer h ip aid now limited) ∙ e in
    elim (Bool-cases (same_ip ip reg.heap existing)) [
      | inl same ↦ inl (same_ip-some ip reg.heap existing same)
      | inr other ↦
          let (conns, counts, once, are) = count_by_ip_lem reg ip now in
          inr (conns, once, are, ground (arith, answer, other, counts))
    ]

abbrev Proving : Handler → Text → Time → Agent.Phase → Type 0
Proving h ip now ph =
    (aid : Text) (rids : List Text) (nonce : Text)
    → ph ≡ proving aid rids nonce
    → HasRoom h ip aid now

closed-Proving : (h : Handler) (ip : Text) (now : Time) → Proving h ip now closed
closed-Proving h ip now aid rids nonce e = absurd (shut e)
  where
    shut : ¬ (closed ≡ proving aid rids nonce)
    shut f = cc

proving_aid :
    {aid aid' nonce nonce' : Text} {rids rids' : List Text}
    → proving aid rids nonce ≡ proving aid' rids' nonce'
    → aid ≡ aid'
proving_aid e = cc

module _ (p : Packages) (h : Handler) (ip : Text) (conn : Conn) (now : Time)
    (limited : non_positive h.max_agents_per_ip ≡ false) where
  on_greeting-Proving :
      (hello : HelloMsg) (drawn : Option Text)
      → Proving h ip now (on_greeting p h ip conn hello drawn now).1
  unfolding on_greeting
  on_greeting-Proving hello drawn = elim (Bool-cases (is_empty (normal p.lib hello.aid))) [
    | inl e ↦ rw e (closed-Proving h ip now)
    | inr e ↦ rw e (elim (Bool-cases (over_quota h ip (normal p.lib hello.aid) now).1) [
      | inl over ↦ rw over (closed-Proving h ip now)
      | inr room ↦ rw room (elim (Option-cases drawn) [
        | inl f ↦ rw f (closed-Proving h ip now)
        | inr (n, f) ↦ rw f (λ aid rids nonce at.
            subst (λ k. HasRoom h ip k now) (proving_aid at)
              (over_quota-HasRoom h ip (normal p.lib hello.aid) now limited room))
      ])
    ])
  ]

  on_hello-Proving :
      (raw : List ℕ) (drawn : Option Text) → Proving h ip now (on_hello p h ip conn raw drawn now).1
  unfolding on_hello
  on_hello-Proving raw drawn = elim (Option-cases (decode_control p.lib.hello raw)) [
    | inl e ↦ rw (e, on_hello) (closed-Proving h ip now)
    | inr (hello, e) ↦
        rw (e, on_hello)
          (elim (Bool-cases (is_text hello.t (codes "hello"))) [
            | inl f ↦ rw f (on_greeting-Proving hello drawn)
            | inr f ↦ rw f (closed-Proving h ip now)
          ])
  ]

-- Under a limit on the hosts of an address, a hello is answered with a challenge only if the key
-- that it names is held from the same address, or the connections that are online from the address,
-- each counted once though it holds several keys, are fewer than the limit.
pub on_hello-quota :
    (p : Packages) (h : Handler) (ip : Text) (conn : Conn) (raw : List ℕ) (drawn : Option Text)
    (now : Time) (aid : Text) (rids : List Text) (nonce : Text)
    → non_positive h.max_agents_per_ip ≡ false
    → (on_hello p h ip conn raw drawn now).1 ≡ proving aid rids nonce
    → HasRoom h ip aid now
on_hello-quota p h ip conn raw drawn now aid rids nonce limited at =
    on_hello-Proving p h ip conn now limited raw drawn aid rids nonce at
