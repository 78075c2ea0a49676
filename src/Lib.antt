-- ===== src/Lib.antt =====
-- BIG DUCKS LIVE: a supervisor that keeps the gateway connections of Discord on a pool of verified
-- public SOCKS5 proxies.
--
-- The parts, from the network up. A local SOCKS5 relay (internal/relay/socks5.go) takes the
-- connections of Discord, allows only gateway hosts, and dials each through the pool. The pool
-- (internal/proxy/pool.go, managed.go) keeps the verified proxies, the active one first; it evicts
-- those that refuse a dial or miss heartbeats, and refreshes itself. The dialer
-- (internal/proxy/socks5.go) speaks SOCKS5 to a proxy. The tracker (internal/relay/tracker.go) knows
-- the live tunnels, so that the tunnels of a dead proxy, or all, can be closed. Above them the core
-- (internal/app) connects the gateway, recovers a lost route, keeps a status with its events, and binds
-- the controls of the user interface to the run of the moment.
--
-- Where each part is modelled:
--   Base, Base/Text      lists, tests, and Go strings as lists of bytes with the functions of package
--                        strings that the program calls, for ASCII text
--   Errors               the errors that functions return
--   Base/Sort            insertion sort, for sort.Slice and sort.Strings, and the order of Go's strings
--   Model                internal/model/model.go: Endpoint, sameEndpoint; Model/Hosts: normalizeHost,
--                        HostAllowlist; Model/Url: Address, RedactedURL, URL; Model/Parse: ParseEndpoint
--   Wire                 a connection during a handshake: bytes to come, bytes written, failing writes
--   Proxy/Pool           internal/proxy/pool.go: Invalidate, uniqueEntries, Replace, Merge,
--                        PromoteReserve on the list of entries
--   Proxy/Select         internal/proxy/pool.go: SelectVerified
--   Proxy/Source         internal/proxy/source.go: ParseProxyScrape of a decoded list
--   Proxy/State          internal/proxy/pool.go: SaveState, LoadState
--   Proxy/Dial           internal/proxy/pool.go: DialWithEndpoint
--   Proxy/Managed        internal/proxy/managed.go: NewManagedPool, Refresh, HeartbeatOnce,
--                        DialWithEndpoint, PromoteReserve, reportDialRemovals
--   Proxy/Socks          internal/proxy/socks5.go: the client's handshake of DialViaSOCKS5
--   Relay/Handshake      internal/relay/socks5.go: negotiateNoAuth, readConnectRequest, writeReply
--   Relay/Server         internal/relay/socks5.go: allows, handle
--   Relay/Tracker        internal/relay/tracker.go; Relay/Tracker/Wait: WaitForConnection
--   App/Status           internal/app/control.go: the status; gateway.go: runtimeStatusStore
--   App/Gateway          internal/app/gateway.go: gatewayConnector
--   App/Recovery         internal/app/recovery.go
--   App/Control          internal/app/control.go: RuntimeControl
--   App/Config           internal/app/config.go: DefaultConfig, normalized, LoadConfig of a decoded file
--   Update/Version       internal/update/manifest.go: parseVersion, IsNewer
--   Update/Manifest      internal/update/manifest.go: the other functions
--   Update/Client        internal/update/client.go: Check, download, findReleaseAsset
--   Update/Apply         internal/update/apply.go: LoadApplyRequest, ApplyFromRequest, replaceExecutable
--   Bridge               internal/bridge/server.go: the server of Discord's injected script
--   ControlApi           internal/controlapi: the handlers of the core's control server, and its client
--   Supervisor           internal/supervisor/supervisor.go: Start and Stop of the core process
--   Pac                  internal/pac/pac.go: normalizeList, Render
--   Effects, Effects/Logic  programs whose actions may fail or be the last, and Hoare triples with a
--                        condition for a result, an error and a stop
--   Injection/Disk       the files of a Discord installation, and the actions of package os on them
--   Injection/Stub, Injection/Asar, Injection/Install   internal/injection/injection_windows.go
--   Startup              internal/startup/registry_windows.go: the registry values and the metadata files
--
-- The updater (internal/update) asks a server for the latest release and verifies its signed
-- manifest. Ed25519, SHA-256, base64 and JSON are parameters (Codec), and so is the server.
-- The signed executable is staged in a file, and applied when the program has ended: it is copied
-- beside the old one, which is moved aside and put back if the new one cannot take its place.
-- The bridge (internal/bridge) accepts one client, Discord's injected script, by a token, sends it
-- commands under fresh ids, and hands each answer to the command that waits for it. The control server
-- (internal/controlapi) lets the tray call the core's functions, by a token too.
-- The installer (internal/injection) puts a stub in the place of Discord's loader, app.asar, which it
-- backs up first. The transaction moves the loader aside and fills the stub's folder; a rollback, or a
-- recovery at the next start, undoes what was interrupted. Whether to install is decided from the
-- header of the archive (Injection/Asar) and the text of a stub (Injection/Stub).
-- The startup entry (internal/startup) takes the place of Discord's own value in the registry, and
-- records that value in a file before it deletes it.
--
-- How state and effects are modelled. A mutex makes a method one step on a record. Where a method
-- gives the mutex up (a dial, the refresh function), what others do meanwhile is a function argument,
-- or the method is cut in two. What the network, the clock, the context and the callbacks answer is
-- an argument, one answer for each place that asks. Callbacks that are called are recorded in lists.
-- The retry loop of DialWithEndpoint takes as fuel the number of entries at the start, as the source
-- does. Itoa takes the number itself as fuel, which is more than its digits. The 64-bit counters of
-- the tracker wrap as in the source; other integers are not large enough to.
--
-- `int` and `int64` have 64 bits: Atoi refuses what does not fit.
-- A program that changes files meets a list of faults, one for each action: it works, fails, or the
-- machine stops there. A failed or last action may be half done: a write that is cut short leaves any
-- part of the text from its beginning on, a RemoveAll any of the folder's files. What replaces a file over a temporary one (writeAtomic) is
-- one action. The reads of recoverablePartialStub are one look at the folder.
--
-- In the results, a length, a limit and an id are natural numbers; uptimes and timeouts of a proxy list,
-- which are finite floats, are integers in units of 2^-1074. WaitForConnection looks at the tracker
-- when it wakes: what happens between two looks is a list of events, and its select may take ctx.Done
-- although a tunnel was opened.
--
-- Not modelled: sockets, TLS and HTTP, timers and deadlines, windows and the tray, the wiring of the
-- parts in internal/app/run.go and cmd/bigducks, and the processes of Discord. The
-- results of the probes of one heartbeat are handled without other goroutines in between.
pub mod Base
pub mod Errors
pub mod Model
pub mod Proxy
pub mod Wire
pub mod Relay
mod Tests
pub mod App
pub mod Update
pub mod Effects
pub mod Injection
pub mod Startup
pub mod Bridge
pub mod ControlApi
pub mod Pac
pub mod Supervisor
