-- ===== src/Lib.antt =====
-- The PasarGuard node: a daemon that runs VPN cores for a panel and reports their users' traffic.
--
-- The panel tells the controller (controller/) which cores to run. The controller keeps one core
-- for each type and instance, and offers them as one, the composite (backend/composite.go), behind
-- the interface of a core (backend/backend.go). Users arrive as messages (common/service.proto),
-- whole or in pieces (controller/users_chunk.go). Each core keeps the users that belong to it: for
-- WireGuard the peers (backend/wireguard), for OpenVPN the names that may connect
-- (backend/openvpn), for L2TP the passwords (backend/l2tp), for sing-box the secrets and the
-- position of each user in the list that is pushed to it (backend/singbox), for Xray the accounts of
-- each inbound, in its configuration and in the running core (backend/xray). The cores feed their
-- counters to one kind of tracker (pkg/stats), which the panel reads and resets; sing-box's own are
-- kept until the panel takes them.
--
-- Prelude, Int64, Sorting and Dict are shared. Dict is Go's map with string keys: its laws fix what
-- is found under a key and that `range` visits each key once, and leave the order open. Int64 is
-- Go's int64 as its bit pattern, with the wrap-around of + and - written out. Time is in nanoseconds.
--
-- Files and code, functions with the names of the source in snake_case:
--   User                    common/service.proto: User, Proxy and the getters
--   Stats/Stat, Counters    pkg/stats/interface_counters.go: Delta and the labelled stats
--   Stats/Tracker           pkg/stats/tracker.go: every method
--   WireGuard/PeerStore     backend/wireguard/peer_store.go: every method
--   WireGuard/Users         backend/wireguard/user_common.go: normalizeUsers
--   WireGuard/Desired       backend/wireguard/user_common.go: collectDesiredPeers
--   WireGuard/Diff          backend/wireguard/user_common.go: buildSyncDiff
--   WireGuard/Manager       backend/wireguard/manager.go: the calls that configure and read the device
--   WireGuard/Interface     backend/wireguard/manager.go: InitializeWithPeers, Close and the clean-up
--   WireGuard/Start         backend/wireguard/wireguard.go: newWithManagerFactory
--   WireGuard/Sync, SyncParts  backend/wireguard/user_full_sync.go, user_partial_sync.go, user.go,
--                           the samples of jobs.go and restartLocked of wireguard.go
--   Openvpn/Config          backend/openvpn/config.go: NewConfig and normalizeListeners
--   Openvpn/Listeners       backend/openvpn/listeners.go: splitSubnet and bitsNeeded
--   Openvpn/Group           backend/openvpn: NewBackend of group.go, and derive of listeners.go
--   Openvpn/UserStore       backend/openvpn/users.go: every method
--   Openvpn/UserStore/Kills  backend/openvpn/openvpn.go: applyUsers and SyncUsers
--   Openvpn/Management      backend/openvpn/mgmt.go: handleLine and what it calls, kill, parseStatusLine
--   Openvpn/Poll            backend/openvpn/stats.go: recordSessionEnd and collectStats
--   L2tp/UserStore          backend/l2tp/users.go: every method
--   L2tp/Poll               backend/l2tp/stats.go: poll
--   L2tp/ChapSecrets, Pool  backend/l2tp/serverconf.go: the chap-secrets file, and poolRange
--   Backend                 backend/backend.go: the interface, without Logs
--   Backend/Composite       backend/composite.go: every method but Logs
--   Controller/UsersChunk   controller/users_chunk.go: BuildUsersFromChunks
--   Controller/Cores        controller/controller.go: StartBackend, retireFor, Disconnect, Backend
--   Singbox/Config          backend/singbox/config.go: NewConfig and InstanceID
--   Singbox/Users           backend/singbox/singbox.go: the secrets of the users, and their updates
--   Singbox/Slots           backend/singbox/singbox.go: the slots of the users and the pushes
--   Singbox/Counters        backend/singbox/stats.go: fold, take and GetStats
--   Singbox/Supervisor      backend/singbox/singbox.go: superviseRestart, its delays and its end
--   Singbox/Lifecycle       backend/singbox/singbox.go: New, start, Shutdown, Restart, the watchers and
--                           superviseRestart, interleaved
--   Xray/Accounts, Passwords  backend/xray/api/account.go and EnsureBase64Password of common/helper.go
--   Xray/Inbounds, Users    backend/xray/config.go and user.go: the changes of users
--   Xray/Restart            backend/xray/user.go, config_clone.go: Clone and applyConfigWithRestart
--   Xray/Routing, Api, ApplyApi  backend/xray/config.go: ApplyAPI and what it calls
--   Xray/Loading            backend/xray/config.go, core.go: NewConfig and collectUnixSocketPaths
-- Of Xray, what updates leave is in Settled, Updated, Standing, what the running core has in
-- Running, Agreement, InStep, OneUser, History, how a restart ends in Fallback, and what ApplyAPI
-- leaves in Rules, RulesKept, Stripped, Reapplied; of L2TP, SharedFile and PoolBounds hold
-- theorems.
-- The modules below one of these hold its theorems, the modules Examples and TestData tests.
--
-- A method takes the state and returns the new one. A lock that a method holds throughout makes it
-- one step, and a history is a list of steps; where locks are let go in between, as in the life of
-- sing-box's process, a history says which thread takes its next step. An error is a value. Loops
-- are by recursion on the list that they visit. Two loops over numbers run on fuel: in
-- BuildUsersFromChunks one round more than there are pieces is enough, and in bits.Len as many
-- rounds as the number says.
--
-- Arguments of the model, since their code is not in the repository or they answer for something
-- outside the program: the keys and networks of wgtypes and net (the record WgTypes), what wgctrl
-- makes of a configuration and counts, what netlink does to the host, JSON, TrimSpace, ToLower and
-- ParsePrefix, the free ports, the rows that an OpenVPN daemon answers, what the pppd hooks leave,
-- the answers of sing-box, the time, and what a core's package answers to a launch. For Xray these
-- are uuid.Parse, base64 and SHA-256 (the record Codecs), EqualFold, the answers of its handler,
-- how restarts and probes end, and what JSON leaves of a configuration. So are extractIP, which
-- cuts the port off an address in text, and freeSlotSecret, a hash with random bytes.
--
-- Not modelled: processes, files, sockets, netlink, nftables and timers, which keep no state that the
-- program reads back; how the processes of Xray and OpenVPN are started and watched; the REST and
-- gRPC handlers, which decode and encode; generated code.
pub mod Backend
pub mod Controller
pub mod Dict
pub mod Int64
pub mod L2tp
pub mod Openvpn
pub mod Prelude
pub mod Singbox
pub mod Sorting
pub mod Stats
pub mod User
pub mod WireGuard
pub mod Xray
