-- ===== src/Config.antt =====
-- Package config (server/internal/config/config.go): the server's settings, read from the
-- environment and validated.
pub mod Settings
use Prim.Native.String.{String}
use text.Mathlib.Text.{◌==◌}
use spadeide_rendezvous.Prelude.{
  ℕ, ◌*◌, ◌^◌, Bool, true, false, not, ◌&&◌, Option, none, some, if◌then◌else◌,
}
use spadeide_rendezvous.Prelude.Int.{ℤ, pos, is_negative, non_positive}
use spadeide_rendezvous.Clock.{second}

abbrev pub default_session_max_bytes : ℤ
default_session_max_bytes = pos (512 * 2 ^ 20)

abbrev pub default_session_max_secs : ℤ
default_session_max_secs = pos (8 * 3600)

-- What is used of packages strconv, strings, time and net: `Atoi`, `ParseInt(v, 10, 64)`,
-- `TrimSpace`, `ParseDuration`, the host of `SplitHostPort`, and whether `ParseIP` of a host gives
-- an address that `IsLoopback`. An error is `none`.
pub record Lib : Type 0 where
  pub atoi : String → Option ℤ
  pub parse_int : String → Option ℤ
  pub trim_space : String → String
  pub parse_duration : String → Option ℤ
  pub split_host : String → Option String
  pub is_loopback : String → Bool

-- `os.Getenv`: an unset variable is the empty text.
abbrev pub Environment : Type 0
Environment = String → String

pub record Config : Type 0 where
  pub domain : String
  pub listen : String
  pub udp_listen : String
  pub acme_cache : String
  pub acme_email : String
  pub metrics_listen : String
  pub agent_ttl : ℤ
  pub session_max_bytes : ℤ
  pub session_max_secs : ℤ
  pub max_agents_per_ip : ℤ
  pub lookups_per_min : ℤ
  pub agent_per_min : ℤ
  pub reflex_per_min : ℤ
  pub log_level : String
  pub dev_insecure_tls : Bool
  pub notice_file : String

-- The errors, with the variable that they name.
pub data Error : Type 0 where
  no_domain metrics_address metrics_not_loopback : Error
  malformed out_of_range : String → Error

pub data Result (A : Type 0) : Type 0 where
  err : Error → Result A
  ok : A → Result A

infixl 5 ◌>>=◌ ◌>>◌
-- The source's `if err != nil { return nil, err }`.
abbrev pub ◌>>=◌ : {A B : Type 0} → Result A → (A → Result B) → Result B
err e >>= next = err e
ok a >>= next = next a

abbrev pub ◌>>◌ : {A : Type 0} → Result (Unit {0}) → Result A → Result A
err e >> next = err e
ok u >> next = next

abbrev pub refuse : Bool → Error → Result (Unit {0})
refuse true e = err e
refuse false e = ok tt

abbrev pub from_option : String → Option ℤ → Result ℤ
from_option k none = err (malformed k)
from_option k (some n) = ok n

unfoldable pub env_or : Environment → String → String → String
env_or getenv k def = if getenv k == "" then def else getenv k

unfoldable pub int_env : Lib → Environment → String → ℤ → Result ℤ
int_env lib getenv k def = if getenv k == "" then ok def else from_option k (lib.atoi (getenv k))

unfoldable pub int64_env : Lib → Environment → String → ℤ → Result ℤ
int64_env lib getenv k def =
    if getenv k == "" then ok def else from_option k (lib.parse_int (getenv k))

unfoldable pub duration_env : Lib → Environment → String → ℤ → Result ℤ
duration_env lib getenv k def =
    let v = lib.trim_space (getenv k) in
    if v == "" then ok def else from_option k (lib.parse_duration v)

unfoldable pub assert_loopback_metrics : Lib → String → Result (Unit {0})
assert_loopback_metrics lib addr = elim (lib.split_host addr) [
  | none ↦ err metrics_address
  | some host ↦ refuse (not (lib.is_loopback host)) metrics_not_loopback
]

unfoldable pub validate : Lib → Config → Result (Unit {0})
unfolding assert_loopback_metrics
validate lib c = do
  refuse (c.domain == "" && not c.dev_insecure_tls) no_domain
  refuse (is_negative c.session_max_bytes) (out_of_range "SPADE_RV_SESSION_MAX_BYTES")
  refuse (non_positive c.session_max_secs) (out_of_range "SPADE_RV_SESSION_MAX_SECONDS")
  refuse (non_positive c.agent_ttl) (out_of_range "SPADE_RV_AGENT_TTL")
  refuse (is_negative c.max_agents_per_ip) (out_of_range "SPADE_RV_MAX_AGENTS_PER_IP")
  refuse (is_negative c.lookups_per_min) (out_of_range "SPADE_RV_RATE_LOOKUPS_PER_MIN")
  refuse (is_negative c.agent_per_min) (out_of_range "SPADE_RV_RATE_AGENT_PER_MIN")
  refuse (is_negative c.reflex_per_min) (out_of_range "SPADE_RV_RATE_REFLEX_PER_MIN")
  assert_loopback_metrics lib c.metrics_listen

-- The configuration that `FromEnv` builds of its numbers and the text variables.
unfoldable pub config_of : Environment → ℤ → ℤ → ℤ → ℤ → ℤ → ℤ → ℤ → Config
unfolding env_or
config_of getenv agent_ttl session_bytes session_secs max_agents lookups agent_per_min
      reflex_per_min =
    record {
      domain = getenv "SPADE_RV_DOMAIN";
      listen = env_or getenv "SPADE_RV_LISTEN" ":443";
      udp_listen = env_or getenv "SPADE_RV_UDP_LISTEN" ":443";
      acme_cache = env_or getenv "SPADE_RV_ACME_CACHE" "/var/lib/spade-rendezvous/acme";
      acme_email = getenv "SPADE_RV_ACME_EMAIL";
      metrics_listen = env_or getenv "SPADE_RV_METRICS_LISTEN" "127.0.0.1:9090";
      agent_ttl = agent_ttl;
      session_max_bytes = session_bytes;
      session_max_secs = session_secs;
      max_agents_per_ip = max_agents;
      lookups_per_min = lookups;
      agent_per_min = agent_per_min;
      reflex_per_min = reflex_per_min;
      log_level = env_or getenv "SPADE_RV_LOG_LEVEL" "info";
      dev_insecure_tls = getenv "SPADE_RV_DEV_INSECURE" == "1";
      notice_file = env_or getenv "SPADE_RV_NOTICE_FILE" "/etc/spade-rendezvous/notice.json";
    }

unfoldable pub from_env : Lib → Environment → Result Config
unfolding int_env int64_env duration_env config_of validate
from_env lib getenv = do
  agent_ttl ← duration_env lib getenv "SPADE_RV_AGENT_TTL" (pos (300 * second))
  session_bytes ← int64_env lib getenv "SPADE_RV_SESSION_MAX_BYTES" default_session_max_bytes
  session_secs ← int_env lib getenv "SPADE_RV_SESSION_MAX_SECONDS" default_session_max_secs
  max_agents ← int_env lib getenv "SPADE_RV_MAX_AGENTS_PER_IP" (pos 20)
  lookups ← int_env lib getenv "SPADE_RV_RATE_LOOKUPS_PER_MIN" (pos 60)
  agent_per_min ← int_env lib getenv "SPADE_RV_RATE_AGENT_PER_MIN" (pos 30)
  reflex_per_min ← int_env lib getenv "SPADE_RV_RATE_REFLEX_PER_MIN" (pos 120)
  let c =
      config_of getenv agent_ttl session_bytes session_secs max_agents lookups agent_per_min
        reflex_per_min
  validate lib c
  ok c
