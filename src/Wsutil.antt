-- ===== src/Wsutil.antt =====
-- Package wsutil (server/internal/wsutil/wsutil.go) but its two constants: who may open a websocket,
-- and under which address a request counts.
use spadeide_rendezvous.Prelude.{Text, Bool, Option, none, some, is_empty}

-- `CheckOrigin`, on the request's Origin header.
abbrev pub check_origin : Text → Bool
check_origin origin = is_empty origin

-- `SplitHostPort` of the remote address gives its host, or an error.
abbrev pub client_ip : (Text → Option Text) → Text → Text
client_ip split_host remote = elim (split_host remote) [ none ↦ remote | some host ↦ host ]
