-- ===== src/Config/Settings.antt =====
-- What a loaded configuration promises: its limits, its metrics address, and where its numbers come
-- from.
use Prim.Native.String.{String}
use text.Mathlib.Text.{◌==◌}
use text.Mathlib.TextEquality.{eq_iff}
use spadeide_rendezvous.Prelude.{
  ◌*◌, ◌≡◌, refl, subst, ◌↔◌, ◌⊎◌, Bool, true, false, not, ◌&&◌, Option, some, arith,
}
use spadeide_rendezvous.Prelude.Int.{ℤ, pos, is_negative, non_positive}
use spadeide_rendezvous.Clock.{second}
use spadeide_rendezvous.Config.{
  Lib, Environment, Config, Error, Result, ok, err, ◌>>=◌, ◌>>◌, refuse, int_env, int64_env,
  duration_env, config_of, assert_loopback_metrics, validate, from_env, default_session_max_bytes,
  default_session_max_secs,
}

-- What the server's parts rely on.
pub record Sound (lib : Lib) (c : Config) : Type 0 where
  pub named : (c.domain == "" && not c.dev_insecure_tls) ≡ false
  pub bytes : is_negative c.session_max_bytes ≡ false
  pub seconds : non_positive c.session_max_secs ≡ false
  pub ttl : non_positive c.agent_ttl ≡ false
  pub agents : is_negative c.max_agents_per_ip ≡ false
  pub lookups : is_negative c.lookups_per_min ≡ false
  pub agent_rate : is_negative c.agent_per_min ≡ false
  pub reflex_rate : is_negative c.reflex_per_min ≡ false
  pub loopback :
      (host : String) × (lib.split_host c.metrics_listen ≡ some host)
      × (lib.is_loopback host ≡ true)

refuse-then :
    {A : Type 0} (b : Bool) (e : Error) (k : Result A) {a : A}
    → (refuse b e >> k) ≡ ok a
    → (b ≡ false) × (k ≡ ok a)
refuse-then true e k h = cc
refuse-then false e k h = (refl, h)

-- Seven numbers in a row, and what is made of them.
chain-ok :
    (r1 r2 r3 r4 r5 r6 r7 : Result ℤ) (k : ℤ → ℤ → ℤ → ℤ → ℤ → ℤ → ℤ → Result Config) {c : Config}
    → (r1 >>= λ a.
        r2 >>= λ b. r3 >>= λ d. r4 >>= λ e. r5 >>= λ f. r6 >>= λ g. r7 >>= λ h. k a b d e f g h)
      ≡ ok c
    → (a b d e f g h : ℤ) × (r1 ≡ ok a)
      × (r2 ≡ ok b)
      × (r3 ≡ ok d)
      × (r4 ≡ ok e)
      × (r5 ≡ ok f)
      × (r6 ≡ ok g)
      × (r7 ≡ ok h)
      × (k a b d e f g h ≡ ok c)
chain-ok (ok a) (ok b) (ok d) (ok e) (ok f) (ok g) (ok h) k p =
    (a, b, d, e, f, g, h, refl, refl, refl, refl, refl, refl, refl, p)
chain-ok _ _ _ _ _ _ _ k p = cc

validated-ok :
    (m : Result (Unit {0})) (made c : Config) → (m >> ok made) ≡ ok c → (m ≡ ok tt) × (made ≡ c)
validated-ok (ok u) made c h = (refl, cc)
validated-ok (err e) made c h = cc

metrics-ok :
    (lib : Lib) (addr : String)
    → assert_loopback_metrics lib addr ≡ ok tt
    → (host : String) × (lib.split_host addr ≡ some host) × (lib.is_loopback host ≡ true)
unfolding assert_loopback_metrics
metrics-ok lib addr h = ground arith

to-Sound : (lib : Lib) (c : Config) → validate lib c ≡ ok tt → Sound lib c
unfolding validate
to-Sound lib c h =
    let (named, h) = refuse-then _ _ _ h in
    let (bytes, h) = refuse-then _ _ _ h in
    let (seconds, h) = refuse-then _ _ _ h in
    let (ttl, h) = refuse-then _ _ _ h in
    let (agents, h) = refuse-then _ _ _ h in
    let (lookups, h) = refuse-then _ _ _ h in
    let (agent_rate, h) = refuse-then _ _ _ h in
    let (reflex_rate, h) = refuse-then _ _ _ h in
    record {
      named = named;
      bytes = bytes;
      seconds = seconds;
      ttl = ttl;
      agents = agents;
      lookups = lookups;
      agent_rate = agent_rate;
      reflex_rate = reflex_rate;
      loopback = metrics-ok lib c.metrics_listen h;
    }

from-Sound : (lib : Lib) (c : Config) → Sound lib c → validate lib c ≡ ok tt
unfolding validate assert_loopback_metrics
from-Sound lib c s =
    let (host, here, loops) = s.loopback in
    rw
      (
        s.named, s.bytes, s.seconds, s.ttl, s.agents, s.lookups, s.agent_rate, s.reflex_rate,
        assert_loopback_metrics, here, loops,
      )
      refl

-- Validation accepts a configuration exactly when a domain is named or the insecure mode is on, no
-- limit is negative, the session's lifetime and the agents' TTL are positive, and the metrics
-- address has a host on the loopback.
pub validate-ok_iff : (lib : Lib) (c : Config) → validate lib c ≡ ok tt ↔ Sound lib c
validate-ok_iff lib c = (to-Sound lib c, from-Sound lib c)

-- The number of a variable: the default if it is unset, and otherwise what the parser reads.
abbrev pub Reads : (String → Option ℤ) → String → ℤ → ℤ → Type 0
Reads parse v def n = ((v ≡ "") × (n ≡ def)) ⊎ (parse v ≡ some n)

int_env-Reads :
    (lib : Lib) (getenv : Environment) (k : String) (def n : ℤ)
    → int_env lib getenv k def ≡ ok n
    → Reads lib.atoi (getenv k) def n
unfolding int_env
int_env-Reads lib getenv k def n h = ground (arith, eq_iff (getenv k) "")

int64_env-Reads :
    (lib : Lib) (getenv : Environment) (k : String) (def n : ℤ)
    → int64_env lib getenv k def ≡ ok n
    → Reads lib.parse_int (getenv k) def n
unfolding int64_env
int64_env-Reads lib getenv k def n h = ground (arith, eq_iff (getenv k) "")

duration_env-Reads :
    (lib : Lib) (getenv : Environment) (k : String) (def n : ℤ)
    → duration_env lib getenv k def ≡ ok n
    → Reads lib.parse_duration (lib.trim_space (getenv k)) def n
unfolding duration_env
duration_env-Reads lib getenv k def n h = ground (arith, eq_iff (lib.trim_space (getenv k)) "")

-- Where the numbers of a configuration come from.
pub record FromVariables (lib : Lib) (getenv : Environment) (c : Config) : Type 0 where
  pub ttl :
      Reads lib.parse_duration
        (lib.trim_space (getenv "SPADE_RV_AGENT_TTL"))
        (pos (300 * second))
        c.agent_ttl
  pub bytes :
      Reads lib.parse_int
        (getenv "SPADE_RV_SESSION_MAX_BYTES")
        default_session_max_bytes
        c.session_max_bytes
  pub seconds :
      Reads lib.atoi
        (getenv "SPADE_RV_SESSION_MAX_SECONDS")
        default_session_max_secs
        c.session_max_secs
  pub agents : Reads lib.atoi (getenv "SPADE_RV_MAX_AGENTS_PER_IP") (pos 20) c.max_agents_per_ip
  pub lookups : Reads lib.atoi (getenv "SPADE_RV_RATE_LOOKUPS_PER_MIN") (pos 60) c.lookups_per_min
  pub agent_rate : Reads lib.atoi (getenv "SPADE_RV_RATE_AGENT_PER_MIN") (pos 30) c.agent_per_min
  pub reflex_rate :
      Reads lib.atoi (getenv "SPADE_RV_RATE_REFLEX_PER_MIN") (pos 120) c.reflex_per_min

-- A configuration that the environment gives passes validation, and each of its numbers is the
-- default of a variable that is unset or what the parser read from it: a malformed number is never
-- replaced by a default.
pub from_env-Sound :
    (lib : Lib) (getenv : Environment) (c : Config)
    → from_env lib getenv ≡ ok c
    → Sound lib c × FromVariables lib getenv c
unfolding from_env config_of
from_env-Sound lib getenv c h =
    let (a, b, d, e, f, g, i, e1, e2, e3, e4, e5, e6, e7, last) =
      chain-ok _ _ _ _ _ _ _
        (λ a b d e f g i.
          validate lib (config_of getenv a b d e f g i) >> ok (config_of getenv a b d e f g i))
        h in
    let (valid, made) = validated-ok _ (config_of getenv a b d e f g i) c last in
    subst (λ c. Sound lib c × FromVariables lib getenv c) made
      (
        to-Sound lib (config_of getenv a b d e f g i) valid,
        record {
          ttl = duration_env-Reads lib getenv "SPADE_RV_AGENT_TTL" (pos (300 * second)) a e1;
          bytes =
              int64_env-Reads lib getenv "SPADE_RV_SESSION_MAX_BYTES" default_session_max_bytes b
                e2;
          seconds =
              int_env-Reads lib getenv "SPADE_RV_SESSION_MAX_SECONDS" default_session_max_secs d e3;
          agents = int_env-Reads lib getenv "SPADE_RV_MAX_AGENTS_PER_IP" (pos 20) e e4;
          lookups = int_env-Reads lib getenv "SPADE_RV_RATE_LOOKUPS_PER_MIN" (pos 60) f e5;
          agent_rate = int_env-Reads lib getenv "SPADE_RV_RATE_AGENT_PER_MIN" (pos 30) g e6;
          reflex_rate = int_env-Reads lib getenv "SPADE_RV_RATE_REFLEX_PER_MIN" (pos 120) i e7;
        },
      )
