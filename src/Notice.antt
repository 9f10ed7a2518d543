-- ===== src/Notice.antt =====
-- Package notice (server/internal/notice/notice.go): the operator's announcement, read again when
-- the modification time of its file changes.
pub mod Published
pub mod Reload
use Prim.Native.String.{String}
use text.Mathlib.Text.{◌==◌}
use spadeide_rendezvous.Prelude.{◌==◌ as same}
use spadeide_rendezvous.Prelude.{
  ℕ, ◌*◌, ◌^◌, Bool, true, false, not, ◌&&◌, ◌||◌, Option, none, some, List, [], ◌∷◌, length, ltb,
  if◌then◌else◌,
}
use spadeide_rendezvous.Clock.{Time}

abbrev pub default_path : String
default_path = "/etc/spade-rendezvous/notice.json"

abbrev pub max_file_bytes : ℕ
max_file_bytes = 16 * 2 ^ 10

pub record Notice : Type 0 where
  pub id : String
  pub title : String
  pub body : String
  pub severity : String
  pub below_app_version : String
  pub below_agent_version : String
  pub agent_url : String
  pub app_url : String

pub record FileDoc : Type 0 where
  pub enabled : Bool
  pub id : String
  pub title : String
  pub body : String
  pub severity : String
  pub below_app_version : String
  pub below_agent_version : String
  pub agent_url : String
  pub app_url : String
  pub url : String

-- What is used of packages strings, encoding/json and net/url, and the conversion of bytes to a
-- string: `url_parse` gives the scheme and the host.
pub record Lib : Type 0 where
  pub string_of : List ℕ → String
  pub trim_space : String → String
  pub to_lower : String → String
  pub unmarshal : List ℕ → Option FileDoc
  pub url_parse : String → Option (String × String)

pub record Store : Type 0 where
  pub path : String
  pub mtime : Time
  pub cur : Option Notice

-- What the operating system answers: `os.Stat` gives a modification time and a size, `os.ReadFile`
-- the bytes.
pub record Info : Type 0 where
  pub mod_time : Time
  pub size : ℕ

unfoldable pub trim_bom : List ℕ → List ℕ
trim_bom (a ∷ b ∷ c ∷ rest) =
    if same a 239 && same b 187 && same c 191 then rest else a ∷ b ∷ c ∷ rest
trim_bom bytes = bytes

unfoldable pub https_url_ok : Lib → String → Bool
https_url_ok lib raw = if raw == "" then true else (elim (lib.url_parse raw) [
  | none ↦ false
  | some (scheme, host) ↦ if not (scheme == "https") || (host == "") then false else true
])

-- The legacy link stands in for an empty one.
abbrev pub url_or : String → String → String
url_or legacy given = if not (legacy == "") && (given == "") then legacy else given

abbrev pub known_severity : String → Bool
known_severity s = (s == "info") || (s == "warning") || (s == "critical")

abbrev pub trimmed : Lib → FileDoc → Notice
trimmed lib doc = record {
  id = lib.trim_space doc.id;
  title = lib.trim_space doc.title;
  body = lib.trim_space doc.body;
  severity = lib.to_lower (lib.trim_space doc.severity);
  below_app_version = lib.trim_space doc.below_app_version;
  below_agent_version = lib.trim_space doc.below_agent_version;
  agent_url = url_or (lib.trim_space doc.url) (lib.trim_space doc.agent_url);
  app_url = url_or (lib.trim_space doc.url) (lib.trim_space doc.app_url);
}

-- The checks of an unmarshalled document.
unfoldable pub publish : Lib → FileDoc → Option Notice
unfolding https_url_ok
publish lib doc =
    let n = trimmed lib doc in
    if not doc.enabled
    then none
    else (if not (https_url_ok lib n.agent_url) || not (https_url_ok lib n.app_url)
        then none
        else (if (n.id == "") || ((n.title == "") && (n.body == ""))
            then none
            else some
                (record n { severity = if known_severity n.severity then n.severity else "info" })))

unfoldable pub parse : Lib → List ℕ → Option Notice
unfolding publish
parse lib bytes =
    if lib.trim_space (lib.string_of bytes) == ""
    then none
    else (elim (lib.unmarshal bytes) [ none ↦ none | some doc ↦ publish lib doc ])

-- What the file's size and bytes come to.
unfoldable pub load : Lib → ℕ → Option (List ℕ) → Option Notice
unfolding parse trim_bom
load lib size none = none
load lib size (some bytes) =
    if ltb max_file_bytes size || ltb max_file_bytes (length bytes)
    then none
    else parse lib (trim_bom bytes)

unfoldable pub refresh_locked : Lib → Store → Option Info → Option (List ℕ) → Store
unfolding load
refresh_locked lib s none file = record s { cur = none; mtime = 0 }
refresh_locked lib s (some info) file =
    if not (same s.mtime 0) && same info.mod_time s.mtime
    then s
    else record s { mtime = info.mod_time; cur = load lib info.size file }

-- `New`, with the answers that its first refresh gets.
unfoldable pub new : Lib → String → Option Info → Option (List ℕ) → Store
unfolding refresh_locked
new lib path info file =
    let p = lib.trim_space path in
    refresh_locked lib
      (record { path = if p == "" then default_path else p; mtime = 0; cur = none }) info file

-- A nil store has no notice.
abbrev pub get : Option Store → Option Notice
get none = none
get (some s) = s.cur

pub data Response : Type 0 where
  method_not_allowed no_content head_ok : Response
  document : Notice → Response

unfoldable pub handler : Option Store → String → Response
handler s method =
    if not (method == "GET") && not (method == "HEAD") then method_not_allowed else (elim (get s) [
      | none ↦ no_content
      | some n ↦ if method == "HEAD" then head_ok else document n
    ])
