-- ===== src/Lib.antt =====
-- opcua-mcp: an MCP server that lets a client read, write, browse and watch the nodes of an OPC UA
-- server. A tool call passes the tool policy, then a handler, which goes through the caching client
-- to the client; the client keeps one connection, which it recovers when the server has dropped the
-- session; the store keeps cached entries and the intent of the subscriptions, from which the
-- subscription manager restores them after the connection was lost for good.
--
-- Session models the connection of internal/opcua/client.go (connectLocked, Connect, Disconnect,
-- stateForwarder) and internal/opcua/session_recovery.go (recoverConnection, withSessionRecovery,
-- sendWrite, EnsureConnected, probe). gopcua, the network and the server are a world `W` behind the
-- interface `Net`. Each function runs under `connectMu` or on one snapshot, so that what concurrent
-- callers do is a sequence of calls: `Session.History.run`.
-- Watcher models the loop of internal/opcua/reconnect_watcher.go over the states it receives.
-- Write models the typed writes of internal/opcua/client.go: Write.NodeType the types of nodes,
-- Write.Cast Go's wrapping conversions, Write.Parse strconv's integers, Write.Convert the functions
-- convertTo... (Write.Convert.Numbers those to integers) and convertArrayValue, Write.Validate ValidateValueForNode,
-- Write.Node Write and GetNodeTypeInfo, over Session. Value is `interface{}`.
-- Write.Runtime holds what is neither in the repository nor arithmetic on integers: floats (as bit
-- patterns), number formatting, and the parsing of floats, times and base64.
-- Store models internal/store: Store.Types the entries, Store.Encoding the tagged values of
-- value_encoding.go, Store.Bucket get, put and delete of store.go on one bucket, Store.Ops its
-- methods. bbolt and encoding/json are parameters; `BoltLaws` and `JsonLaw` say what is relied on:
-- a committed transaction is seen at its own key only, a failed one changes nothing, and what was
-- marshalled is unmarshalled to the same value.
-- Subscription models internal/opcua/subscription.go: subscribeInternal, Unsubscribe and
-- ListSubscriptions, each under `mu`, and warmStart, restoreFromIntent, rebuild, resubscribe and
-- Start, over the interface `Hub`. restoreFromIntent is one step here, though it releases `mu` after
-- the reset and between the restored subscriptions; a history of Subscription.History in which
-- other calls come in between has the reset and each subscription as steps of their own. A Subscribe
-- whose intent is stored in between, and is then restored too, is not in these histories.
-- Subscription.State has the manager's state and the steps on one group.
-- Subscription.Count counts the subscriptions of an interval, for the invariant of the groups.
-- Cache models internal/opcua/caching_client.go over the interface `Backend`, which is the store,
-- the client, the telemetry and the clock; Cache.Metadata has Browse and GetNodeTypeInfo, and
-- Cache.Stored puts the store of internal/store in, Cache.Published the pump in front of it.
-- ToolPolicy models internal/mcp/tool_policy.go, Telemetry the opt-out of
-- internal/telemetry/config.go and the error kinds and node buckets of aggregator.go.
-- Telemetry.Identity has LoadConfig of config.go, with the file of the anonymous identifier.
-- Telemetry.Aggregator has the counters of aggregator.go, Telemetry.Payload the payload and the flush
-- of internal/telemetry/telemetry.go, Telemetry.Middleware internal/mcp/telemetry_middleware.go.
-- Requests models the rest of internal/opcua/client.go that reads: Requests.Read read and
-- readIndividually, Requests.Browse browse with its continuations, Requests.Attributes the reads of
-- attributes, Requests.NodeIds ParseNodeIDs, Requests.ServerInfo GetServerInfo with the unpacking of
-- the status; the server behind gopcua is the interface `Server`.
-- Normalize models internal/opcua/value_convert.go, Security internal/opcua/security.go.
-- Discovery models internal/opcua/discovery.go: Discovery.Walk the walk with its generations, its
-- sweep and its batch, Discovery.Search the searches in the cache, Discovery.Index those of the
-- index, Discovery.Debug GetCacheStats, GetSearchStats and DebugSearchNodes. The client, the
-- telemetry and bleve are the interface `Space`.
-- Handlers.Read, Handlers.Unsubscribe and Handlers.BrowseNodes model handleRead with its fallback
-- (encoding/json is a parameter), handleSubscribe, handleUnsubscribe and browseNodesWithDepth of
-- internal/mcp/server.go. Handlers.Answer has what the handlers share (the arguments, marshalResponse,
-- the client's methods), Handlers.Values those of values and of a node's class, Handlers.Nodes those
-- that browse or use the discovery, Handlers.Connection those of the connection and the server's
-- status, Handlers.Write handleWrite. Handlers.Tools has the tools of SetupTools with their handlers
-- and a call of a tool, behind the policy, over the components in `Parts`; json.MarshalIndent, bleve
-- and the names of gopcua's constants are in `Parts` too. Handlers.Quiet, Handlers.Unchanged,
-- Handlers.ReadOnly, Handlers.OverClient and Handlers.Started are on what a call of a tool leaves
-- unchanged: over any client, then over that of Session and Requests, then from the configuration
-- on; Cache.Quiet and Discovery.Quiet are the parts of this on the cache and the discovery.
-- Subscription.Notify models pump and handleNotification;
-- Subscription.Removal has what an unsubscription leaves of the subscriptions.
-- Config models Validate of internal/config/config.go; Config.Settings has the sections and the
-- defaults of setDefaults, Config.Load Load and readConfigFile. viper, with the file and the
-- environment, is the record `Viper`; `ViperLaws` is its documented order of precedence.
-- Logging models New and resolveLogOutput of internal/logger/logger.go. Shutdown models the switch of
-- Start, serveStdio and shutdown of internal/mcp/server.go; what a step does to the rest is the
-- interface `Steps`, and the goroutines that trigger a shutdown are a number of triggers.
-- Command models main of cmd/opcua-mcp.go, Start of internal/mcp/server.go and NewDiscoveryService of
-- internal/opcua/discovery.go; Command.Order is on
-- what has happened when the server is started, and composes the start with Shutdown.
-- Prelude has integers, results, maps, texts and lists over the native numbers; Tests applies the
-- theorems at concrete inputs.
--
-- Bounds: loops are structural recursions over their lists. The walk and the browse with a depth
-- recur on the levels that are left, which the code bounds by MaxDiscoveryDepth and max_depth; the
-- continuations of a browse are bounded by the code's own 10000. The loop of GetNodeHierarchy has no
-- bound in the code; it has fuel here, one above the rank of the node, which ends it in a cache
-- without cycles.
-- The generations of connections and walks are uint64 counters that wrap, the client handles of
-- monitored items uint32 counters, the integer conversions are those of 8 to 64 bits. The reference
-- count of a group is a natural number, as the code ends a group at 0. Times are integers of
-- nanoseconds. The order in which Go ranges over a map is the order of the list that models it.
--
-- Not modelled: the goroutines and channels of the watcher, the manager, the discovery and the
-- telemetry, of which the loops are modelled over the sequence that they receive;
-- handleNodeResource, the HTTP transport and the signals of internal/mcp/server.go; the opening of
-- the store; the HTTP client of the telemetry; the wrappers of
-- log/slog. These are input and output around the parts above, or registrations with
-- mcp-go.
pub mod Prelude
pub mod Value
pub mod Write
pub mod Session
pub mod Watcher
pub mod Store
pub mod Subscription
pub mod Cache
pub mod ToolPolicy
pub mod Telemetry
pub mod Tests
pub mod Config
pub mod Discovery
pub mod Requests
pub mod Normalize
pub mod Handlers
pub mod Security
pub mod Logging
pub mod Shutdown
pub mod Command
