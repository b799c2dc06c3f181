-- ===== src/Lib.antt =====
-- Mezzium: a gateway that proxies blockchain RPC to the fastest of the upstream nodes that it keeps
-- under watch, in a cluster whose members gossip.
--
-- The parts and their files. pkg/registry/registry.go (Registry) holds, for each network, the nodes
-- it is configured with (all), the ones that serve (best) and the ones that gossip proposed
-- (discovered); Registry/Pick is PickFastestPerPriority, Registry/Removal is RemoveNodeEverywhere
-- and Registry/Prune is PruneAndMerge; Registry/Ownership has what is kept true of it. pkg/health
-- (Health) sends a request to each node, gives the answers to PickFastestPerPriority and collects
-- the URLs to drop; Health/Checks has the checks of the protocols, Health/Cycle the loop of
-- cmd/app/health.go that writes the results to the registry and removes the dropped nodes from it,
-- Health/Freshness what serves after a tick; Health/Limits has the limiters of cmd/app/limiter.go
-- that its goroutines wait for, Health/Fairness how they take turns. pkg/gossip (Gossip) exchanges
-- the peers of pkg/peers (Peers) and the nodes of the registry with the other members; pkg/leader
-- (Leader) elects one of the peers. pkg/api/gas.go (Gas) serves gas prices from a cache, an
-- external service or the best nodes of the registry; pkg/api/throttle.go (Throttle) leaves alone
-- upstreams that answer 429. pkg/api/proxy.go and ratelimit.go (Proxy) send a request to the best
-- nodes in turn, Proxy/Relay, take its path apart, Proxy/Paths, and leave the gas prices to Gas,
-- Proxy/Entry; what pkg/api/log_utils.go (Log) does to the bytes that it logs is followed there by
-- Proxy/Logging. pkg/api/ws.go (Ws) joins a client's websocket to an upstream's, Ws/Events,
-- Ws/Copying and Ws/Holding. pkg/api/admin.go (Admin) lets the administrator change the registry,
-- Admin/Keys, Admin/Deletion and Admin/Soundness. pkg/adapters (Adapters) turns the paths of a
-- network into requests that its nodes know, which Adapters/Routes follows through the proxy;
-- Adapters/Abi encodes the calls of NFT contracts, which Adapters/Nfts makes of a path. pkg/oracle
-- (Oracle) computes gas prices from the RPC of a node, Oracle/Evm, Oracle/Requests, Oracle/Tiers
-- and Oracle/Fallback, behind the interface of Gas, Oracle/Serving; Oracle/Eth, Oracle/Bsc,
-- Oracle/Arbitrum and Oracle/Optimism are its oracles as they are written there, Oracle/Agreement
-- that they are the one of Oracle, and Oracle/Written what they compute. pkg/api/public.go (Public)
-- asks the best nodes by their priorities, Public/Groups and Public/Order, around the throttled
-- ones, Public/Loops, Public/Sends and Public/Recovery, for the handlers of Public/Endpoints,
-- Public/Fees and Public/Pages; Public/Nodes shows the best nodes with their secrets hidden by
-- pkg/secrets (Secrets, Secrets/Redaction), Public/Redacted. pkg/bootstrap (Bootstrap) lets a
-- member that starts join the others. Hex has numbers and bytes as text. pkg/networks (Networks)
-- has the configuration's types and its loader, Networks/Loader, which expands placeholders,
-- Networks/Expansion and Networks/Placeholders, takes the files of a directory, Networks/Files, and
-- checks each, Networks/Configs and Networks/Loading. cmd/app/routes.go (Routes) gives each handler
-- its paths, Routes/Patterns, Routes/Dispatch and Routes/Table, and with server.go sets the headers
-- for browsers. The rest of cmd/app (System) loads the configuration and starts the program; System
-- also has the states that the parts reach together, whatever requests and ticks follow one
-- another: System/Soundness, System/Upstreams and System/Locked say what holds in all of them,
-- System/Websockets, System/Overtaken and System/Discovered how the health loop meets the
-- websockets, an administrator and the gossip. Base, Text and Dict have Boolean tests, lists and
-- 64-bit integers, Go's strings as lists of bytes, and Go's maps.
--
-- How it is modelled. An operation is a function from the state before it to the state after it and
-- its answer: Registry.AddNode is add_node, Throttler.Mark429 is mark_429, and so on, each by its
-- name in the source. Maps with string keys are association lists (Dict); a loop over a map takes
-- the entries in the order of the list, where Go leaves the order open; PickFastestPerPriority has
-- a form, pick_from, for entries in any order. A method that takes a lock holds it for the whole of
-- its body, and an operation is one step, also where the source takes none; the checks that run at
-- the same time in the health loop each write their own network, and are taken in turn, while
-- Health/Limits has the order in which they start and end as a step relation. Clock readings and
-- random numbers are arguments. What comes of a request to an upstream or a peer is a function of
-- the request, a parameter; so is the result of decoding JSON, `none` where that fails. An int is a
-- wrapped 64-bit integer where it is computed with, but for the counts of Throttler. The gas
-- endpoints take the oracles through the interface OracleApi, which is GasOracle of the source with
-- the constructors and which Oracle implements by gas_oracles; the proxy takes the adapters as an
-- argument, and the routes a ServeMux with the laws that net/http documents. A panic is `none`.
-- SetString of math/big leaves the value undefined for a text that is no number; Hex takes the
-- leading digits.
--
-- Bounds and fuel. All loops are structural recursion over the list that Go's loop ranges over; the
-- loop of Mark429 recurs on the rounds that are left, n - 1. The one use of fuel is big.Int.Bytes
-- in Hex, with the number itself, which is enough since a division by 256 makes it smaller.
--
-- Not modelled: metrics, and the log itself, which change no state that is read (what logging does
-- to the bytes is modelled in the proxy, not for the other handlers that log: the answers of
-- callFirst2xx, the bodies of the admin requests and the entries of the generic gas cache); the
-- HTTP server and the frames of websockets; adaptNFT, which nothing calls; URLs that do not parse,
-- for which no request is built.
pub mod Base
pub mod Text
pub mod Dict
pub mod Log
pub mod Networks
pub mod Registry
pub mod Peers
pub mod Throttle
pub mod Leader
pub mod Gossip
pub mod Health
pub mod Gas
pub mod Proxy
pub mod Ws
pub mod Admin
pub mod Hex
pub mod Secrets
pub mod Adapters
pub mod Public
pub mod Bootstrap
pub mod Oracle
pub mod Routes
pub mod System
