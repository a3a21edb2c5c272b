-- ===== src/Lib.antt =====
-- Tunploy: a panel for WireGuard servers.
--
-- A server (Instance) is a WireGuard interface with a subnet; a device (Peer) is a client of one
-- server, with keys, an address in the subnet, and limits on its traffic, speed and time. The store
-- keeps both in SQLite, gives out addresses and counts traffic; configs are written from what it
-- keeps. A command on a device saves in the store, records an event and asks the tunnel of the
-- server to update.
--
-- Which file models which part:
--   Apperr            internal/apperr: errors with a kind, a code and fields
--   Wg.Net            the part of net/netip that internal/wg uses, and how addresses print
--   Wg.Model          internal/wg/model.go: Instance, Peer and how new ones start
--   Wg.Key            internal/wg/key.go: clamping and base64
--   Wg.Limits         internal/wg/limits.go: Peer.Blocked and Peer.Status
--   Wg.Stats          internal/wg/stats.go: PeerStats
--   Wg.Address        internal/wg/address.go: NextAddress, hostRange, isHostAddress, Capacity
--   Wg.Validate       internal/wg/validate.go: Instance.Validate and Peer.Validate
--   Wg.Config         internal/wg/config.go: the configs of servers and clients
--   Store.Tables      internal/store/migrations: the tables
--   Store.Servers     internal/store/wireguard.go: the queries on wg_instances
--   Store.Peers       internal/store/wireguard.go: the queries on wg_peers
--   Store.Traffic     internal/store/traffic.go: counters, usage and limits; the status filter of
--                     internal/store/devices.go
--   Store.Devices     internal/store/devices.go: the list of devices
--   Store.Users       internal/store/users.go: users and their one-time codes
--   Store.Sessions    internal/store/sessions.go: who is signed in
--   Store.ApiKeys     internal/store/apikeys.go: API keys, and replies kept for requests sent again
--   Store.Webhooks    internal/store/webhooks.go: webhooks and their deliveries
--   Store.Nodes       internal/store/nodes.go and settings.go
--   Store.Events      internal/store/events.go: the journal
--   Webhook           internal/webhook/webhook.go: tries and retries of deliveries
--   Auth.Throttle     internal/auth/throttle.go
--   Auth.Totp         internal/auth/totp.go: one-time codes
--   Node              internal/node/pool.go: the connection to one node
--   Update.Version    internal/update/version.go
--   Event             internal/event/event.go and text.go: the events of devices
--   Deploy            internal/deploy: the containers of the servers and what the manager keeps of them
--   Deploy.Containers deploy.go and progress.go: the operations on one container
--   Deploy.Reconcile  reconcile.go: a node in line with the database
--   Deploy.Watch      watch.go, limits.go and status.go: health, limits and statistics
--   Deploy.Activity   activity.go: who is connected
--   Devices           internal/peer/peer.go: the commands on devices
--   Devices.Groups    internal/peer/group.go: commands on many devices
--   Devices.Sharing   internal/peer/share.go: share links
--   Servers           internal/instance/change.go: what a command on a server asks for
--   Servers.Requests  internal/instance/place.go: the defaults of a new server
--   Servers.Settings  internal/instance/settings.go: what new servers start from
--   Servers.Commands  internal/instance/instance.go: the commands on servers
--   Placement         internal/instance/place.go: Pick, and a new server's subnet and port
--   Store.Histories   sequences of those queries
-- A child module named for a subject holds the proofs about it; Samples and Tests hold examples.
--
-- How the code is read: the database is a record of tables, a query a function that returns the new
-- database or an error, and a transaction that fails returns none. Time is a number of nanoseconds,
-- stored in whole seconds; days are numbered in order. Text is a list of code points, and a path a
-- list of its parts, joined and cleaned as path/filepath does (Common.Path). Integers of Go
-- keep their wrap-around where a sum can overflow (Wg.Limits, Wg.Address); counters of bytes are
-- natural numbers, with bounds below 2^63 where they become int64.
--
-- A world of the commands is the store, the events recorded and the servers whose tunnels were asked
-- to update, in order.
--
-- The loop of NextAddress runs on fuel 2^32, as many steps as there are uint32 numbers, and never
-- runs out on a subnet of at most 30 bits. The search for a port runs on fuel 65536, more than there
-- are ports.
--
-- Parameters: X25519, random bytes and tokens, the parsing of IP addresses and of JSON, Unicode case
-- folding, the texts of sizes and local times, the interface Tunnels of the commands, and the answers of a machine (internal/host).
-- Failures of SQLite itself, the network, Docker and the web client are not modelled, nor are the HTTP
-- API, the set-up of nodes, mail, updates and backups.
pub mod Apperr
pub mod Auth
pub mod Common
pub mod Deploy
pub mod Devices
pub mod Event
pub mod Node
pub mod Placement
pub mod Servers
pub mod Store
pub mod Update
pub mod Webhook
pub mod Wg
