-- ===== src/Lib.antt =====
-- Verification library of the Spade rendezvous server (server/): a public introducer that lets a
-- client find a host by opaque keys, hands both sides a ticket, and relays their bytes blindly.
--
-- The parts, and how they interact. An HTTP request is first admitted by a Limiter
-- (server/internal/ratelimit): a book of progressive bans, and a sliding window for each key; both
-- use the key that `BanKey` makes of an address. A host registers in the Registry
-- (server/internal/registry) under several keys on one connection, after it proved its key to the
-- signalling Handler (server/internal/signal); a client looks it up there. For a
-- relayed session both get a ticket of the ticket Manager (server/internal/ticket), and dial the
-- relay endpoint with it; the Hub (server/internal/relay) pairs the two and pumps frames. A ticker
-- sweeps the books and reloads the operator's notice (server/internal/notice). The settings come from the
-- environment (server/internal/config). A UDP service (server/internal/reflex) tells hosts their
-- address, under a limiter of its own.
--
-- The files:
--   Prelude, Map, Clock   bytes, integers, Go maps as association lists, instants and durations
--   Ratelimit/Window      window.go: NewWindow, Allow, Sweep
--   Ratelimit/Address     guard.go: BanKey
--   Ratelimit/Banbook     guard.go: Banbook with Blocked, NoteRejected, SoftStrike and Strike (one
--                         `strike` with a flag), ensureCapacityLocked, strikeLocked, Sweep
--   Ratelimit/Limiter     guard.go and http.go: CheckBan, Allow, RejectHTTP, Admit
--   Ticket                ticket.go: New, Issue, Verify, Sweep, maybeRotateLocked, splitDot
--   Registry              registry.go: all operations
--   Relay                 relay.go: New, Arrive, one direction of pump; Relay/System adds the calls
--                         that wait in a select, Relay/Session is pumpPair: the steps of its two
--                         loops and of its caller, in any order
--   Signal                handler.go and gate.go: Handler, noteFault, DeriveAID, admit
--   Signal/Messages       messages.go: the frames, DecodeControl, PeekType
--   Signal/Agent          agent.go: Handler.Agent in segments, collectRIDs
--   Signal/Client         client.go: Handler.Client in segments
--   Signal/System         the handler with its connections, as a function of the events
--   Wsutil                wsutil.go: CheckOrigin, ClientIP
--   Server                wire.go: NewWire, the handler of /v1/relay, SweepOnce
--   Command               server/cmd/spade-rendezvous/main.go: the choice of a command
--   Config                config.go: FromEnv, Validate and their helpers
--   Notice                notice.go: New, Refresh, Get, Handler
--   Reflex                reflex.go: a round of ListenAndServe; a datagram is what the buffer holds
--   Tests                 small stand-ins for the packages, and the theorems on concrete inputs
-- The children of a part hold its proofs and are named for what they prove.
--
-- How the code is read:
--   * A locked method is a function from the state to the new state and its result. `now` is the
--     instant at which the call reads the clock; a call that reads it twice gets the same instant.
--     Instants are nanoseconds since Go's zero time, and `Sub` saturates at the largest Duration.
--     Instants do not overflow; all that are read lie after the zero time.
--   * A Go map is an association list. Where the result depends on the iteration order, the order in
--     which a range meets the keys is an argument; theorems that need it suppose that the order meets
--     every key.
--   * A nil pointer that the code tests for is an option. The nil receivers of Banbook.Blocked and
--     its like are covered by the option in the Limiter.
--   * Several keys of the Registry share one `*Slot`, so its map holds addresses and the slots stand
--     on a heap; a connection is a number that stands for its identity.
--   * Byte strings are lists of numbers; the settings, which are only compared whole, are strings.
--   * Atomic counters are numbers without a bound. `int` and `int64` values that may be negative are
--     integers without a bound.
--   * Code of other packages is a parameter: IpLib for net, Crypto for ed25519, base64 and JSON,
--     Config.Lib for strconv, strings and time, Notice.Lib for strings, JSON and net/url. What a
--     theorem relies on is a record of laws that is documented there (IpLaws, PrintsText,
--     CryptoLaws), and the Tests give an instance of each. CryptoLaws speaks of keys that were
--     generated together and of tickets whose session and role are ASCII, as UUIDs are.
--   * A connection that was closed takes no more writes; its reader may still give what it holds.
--   * A handler of package signal is cut into segments, each from one read or wait of its goroutine
--     to the next: on_hello, on_prove and on_frame for an agent, on_lookup, on_ack and on_timeout for
--     a client. A segment is atomic. Its phase holds the locals that live on. An event says which
--     goroutine goes on; a missed deadline is a failed read. The random nonce and the session id are
--     given with the event, and so is the number of a new connection, which is also the place of its
--     slot on the heap. A channel is the list of acks in it, in a map from session ids.
--   * The signalling handler is the one that NewWire makes: its limiters share one book, and no part
--     of it but the notice is nil. A failed write is ignored, as in the source.
--   * Loops are structural recursion over what they range over, so nothing needs fuel. The pump is
--     a function of the frames that arrive before the stream ends.
--
-- Not modelled: RID, ProveMAC and VerifyProveMAC (blind.go) and ParseControlMessage (parse.go), which
-- only tests call; the metrics page; TLS, ACME and the serve loop, which are I/O of the standard
-- library; logging; packaging and scripts.
pub mod Prelude
pub mod Map
pub mod Clock
pub mod Config
pub mod Notice
pub mod Ratelimit
pub mod Ticket
pub mod Reflex
pub mod Registry
pub mod Relay
pub mod Signal
pub mod Wsutil
pub mod Server
pub mod Command
pub mod Tests
