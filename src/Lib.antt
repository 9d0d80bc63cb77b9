-- ===== src/Lib.antt =====
-- Katacomb VPN, a desktop client for the Sentinel network: the decision logic of its main process.
--
-- The client buys bandwidth sessions on a chain, brings a tunnel up from a node's reply, guards the
-- machine with a firewall and a DNS override while it is up, watches that the paid session lasts and
-- that the tunnel carries traffic, and watches the chain's RPC endpoint. The parts meet in
-- src/main/ipc-handlers.ts: a purchase (Connect.Refund, Connect.Chain, Plans.Ladder) leaves a session;
-- a connect under the connection lock (Connect.Lifecycle) brings its tunnel up and applies the firewall
-- (Connect.Firewall); the watchdog (Watch) stands the session down, which goes through the same lock
-- and reverts the firewall; the RPC monitor (Rpc) is told of the changes of the path.
--
-- Prelude: the names that all modules share, Boolean tests on native numbers, results of fallible code,
-- lists and the stable sort of JavaScript.
--
-- Connect
--   Refund: `establishSessionOrRefund` and `shouldRetrySessionHandshake` (src/main/ipc-handlers.ts,
--     src/main/vpn/connect-decisions.ts). The loop over the attempts runs on fuel, three: one
--     for the first attempt and one for each of the two retries that the code allows. The chain and the
--     node are the record `Answers`.
--   Chain: `establishChainOrRefund`, `refundSessions`, `refundEachInTurn`, as a state and exception
--     monad with the code's order of calls.
--   Protocol, Firewall: src/main/vpn/kill-switch.ts, `armKillSwitch`, `applyPostConnectSettings`,
--     `revertPostConnectSettings`, `reapplyFirewall`, `restoreDnsOverride`, `healStrandedKillSwitch`,
--     `decideFirewallAction`. A privileged call is done, refused, or partial (failed half-way), in any
--     order; `chain` and `dns_set` are what may be installed, the marker files what the code knows.
--   Lifecycle: `withConnectionLock`, `performDisconnect`, `standDownSession`, `attemptReconnect`,
--     `decideReconnect`, `teardownToIdle` and the monitors as one machine. A job of the lock runs in
--     stages, and any event may come between two stages. A connect is one stage.
--
-- Plans
--   Ranking: src/main/plans/plan-connect.ts, `rankPlanCandidates`; the order of addresses is a parameter.
--   Ladder: the ladder of the handler `PLAN_SMART_CONNECT` in src/main/ipc-handlers.ts with
--     `shouldTryNextCandidate` and `ladderNextTx`. Turn `n` gets the answers `w n`.
--
-- Watch
--   Quota: `evaluateQuota` (src/main/vpn/connect-decisions.ts), `quotaFromSessionRow`, `verdictFor`,
--     `currentQuotaVerdict` (src/main/ipc-handlers.ts). Percentages are fractions, compared exactly where
--     the code divides floating numbers; durations are milliseconds.
--   Tunnel: `checkTunnelStalled`, `checkWireGuardHandshake`, `connectedSecondsAlive`,
--     `rememberUsageFor`, `prunableUsageIds`.
--
-- Hops
--   Rows: src/renderer/utils/chain-node.ts, which nodes may be picked for a chain; Diversity:
--     src/renderer/utils/chain-diversity.ts, what links two hops, over hosts split into labels.
--
-- Money: src/shared/funds.ts, src/shared/provider-economics.ts, src/shared/renewal-policy.ts. The
--   amounts are digit texts in the code and read with unbounded integers; they are numbers here, and
--   `none` where the text is no number.
--
-- Rpc
--   Health: src/shared/rpc-health.ts, the grading of a probe and the two pickers of an endpoint.
--   Monitor: src/main/chain/rpc-monitor.ts as a state machine of its polls, probes and timers.
--
-- Guard: src/main/config-guard.ts. Text has texts as lists of character codes and the operations of the
--   language on them; Wireguard has `assertSafeWireguardConfig` and `assertSafeAmneziaWgConfig`, one walk
--   over the lines with their keys and tests of values as its parameters, and regular expressions as
--   functions; Openvpn has `assertSafeOpenVpnConfig`, Bypass the rule for split-tunnel routes with
--   src/shared/split-tunnel.ts, Inbounds the encryption policy of V2Ray inbounds,
--   Endpoint the reading and the pinning of the server's host, Dns the DNS lines of a text
--   (src/main/vpn/connect-decisions.ts). Json has parsed values, V2ray the guard of a V2Ray configuration
--   with its pinned addresses, its log and its resolver over HTTPS (V2ray/Doh), in the order of
--   `connectV2RayFromConfig` (src/main/vpn/vpn-manager.ts); the resolver of names is a parameter.
--
-- Tunnels: src/main/vpn/vpn-manager.ts. Machine has the variables of the module with the interfaces,
--   files and processes that they stand for and the teardowns, Machine/Status what is reported of it,
--   Connects the bring-ups. A child is the number of its process. What a call answers is a parameter,
--   and the calls return.
--   Orphans is src/main/vpn/proxy-children.ts, the cores that outlive a run and their reaping; the polls
--   before the deadline are counted.
--
-- Helper: Daemon is `daemonRequest` (src/main/helper/daemon-client.ts) as a machine of the events of one
--   connection, Privileged is `runPrivileged`, and Requests are the words of a call and the requests
--   that `runViaDaemon` makes of them (src/main/helper/privileged.ts). `JSON.parse` is a parameter.
--
-- Nodes: Signature is the check of a node's signature over its handshake reply
--   (src/main/protocols/reply-signature.ts), with the libraries of the scheme as parameters.
--
-- Not modelled: the texts shown to the user, the calls to the chain's SDK, to nodes and to the helper
-- (their answers are parameters), the building of protocol configurations, the guard of Hysteria2
-- configurations, the wallet, the provider console, the pages of the user interface, and the
-- privileged service, which is written in Go. Times are numbers that a caller supplies. Session
-- identifiers are taken as unique, as they are on the chain, where the code looks up the payer of a
-- session by its identifier. That the calls of a teardown return is taken for granted in the
-- lifecycle.
--
-- Each module's Tests applies the theorems at concrete inputs.
pub mod Prelude
pub mod Rpc
pub mod Connect
pub mod Plans
pub mod Money
pub mod Watch
pub mod Hops
pub mod Guard
pub mod Tunnels
pub mod Nodes
pub mod Helper
