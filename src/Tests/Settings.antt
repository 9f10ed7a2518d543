-- ===== src/Tests/Settings.antt =====
-- A configuration of the insecure mode, with every other variable unset.
use text.Mathlib.Text.{◌==◌}
use spadeide_rendezvous.Prelude.{◌≡◌, refl, ◌↔◌, true, none, some, if◌then◌else◌}
use spadeide_rendezvous.Prelude.Int.{pos}
use spadeide_rendezvous.Config.{Lib, Environment, Config, ok, validate, from_env, config_of}
use spadeide_rendezvous.Config.Settings.{Sound, FromVariables, validate-ok_iff, from_env-Sound}

-- Every address is on the loopback, and no text is a number.
abbrev lib : Lib
lib = record {
  atoi = λ s. none;
  parse_int = λ s. none;
  trim_space = λ s. s;
  parse_duration = λ s. none;
  split_host = some;
  is_loopback = λ s. true;
}

abbrev getenv : Environment
getenv k = if k == "SPADE_RV_DEV_INSECURE" then "1" else ""

abbrev loaded : Config
loaded =
    config_of getenv (pos 300000000000) (pos 536870912) (pos 28800) (pos 20) (pos 60) (pos 30)
      (pos 120)

validate-ok_iff_example : validate lib loaded ≡ ok tt ↔ Sound lib loaded
validate-ok_iff_example = validate-ok_iff lib loaded

from_env-Sound_example : Sound lib loaded × FromVariables lib getenv loaded
unfolding from_env
from_env-Sound_example = from_env-Sound lib getenv loaded refl
