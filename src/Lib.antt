-- ===== src/Lib.antt =====
-- The farmerbot of the ThreeFold grid SDK, which keeps the nodes of a farm powered to the demand,
-- the deployer, the networks, the filter of nodes and the price calculator of the grid client, the
-- status of nodes in the grid proxy, the router, the peer and the remote calls of the message
-- bus's client, and the mass deployment of tfrobot.
--
-- The program's parts and their files. The farmerbot reads the chain and asks the nodes' daemons
-- (Farmerbot/Env.antt: the interfaces Substrate and RMB of farmerbot/internal/substrate.go and
-- rmb.go, as parameters, with Go's float64; what is relied on in them is in
-- Farmerbot/Env/Laws.antt). It keeps a list of nodes with their capacities
-- (Farmerbot/Capacity.antt and Farmerbot/Node.antt: farmerbot/internal/types.go;
-- Farmerbot/State.antt: farmerbot/internal/state.go). It starts from a configuration
-- (Farmerbot/Setup.antt: newState, fetchNodes and validate of state.go, addPriorityToNodes of
-- farmerbot.go, ParseIntoConfig of farmerbot/parser/parser.go; Farmerbot/WakeUpDate.antt:
-- wakeUpDate of types.go). In each round it removes nodes that left the farm, reads every node
-- anew, wakes some up and then powers nodes on or off by the demand (Farmerbot/Round.antt:
-- iterateOnNodes and shouldWakeUp of farmerbot.go; Farmerbot/Refresh.antt: update of types.go,
-- getNode of state.go, addOrUpdateNode of farmerbot.go; Farmerbot/Manage.antt: manageNodesPower of
-- power.go; Farmerbot/Power.antt: powerOn and powerOff). Between rounds it serves requests
-- (Farmerbot/Serve.antt: serve of farmerbot.go, createNodeReport of report.go;
-- Farmerbot/FindNode.antt: find_node.go). Each file's children hold its proofs, and
-- Farmerbot/Tests applies the theorems to the small farm of Farmerbot/Samples.antt.
--
-- Calculator.antt models a part of its own, grid-client/calculator/calculate.go: what resources
-- cost and the discount, with the order in which Go ranges over a map as a parameter.
-- NodeStatus.antt models grid-proxy/pkg/nodestatus/nodestatus.go: the status of a node, in Go and
-- in SQL.
--
-- The deployer of the grid client stands in Deployer.antt's children: the deployments and
-- workloads (Deployer/Zos.antt: grid-client/zos and grid-client/deployer/deployment_utils.go),
-- and, for grid-client/deployer/deployer.go, the calls of the chain and the nodes with what they
-- answer (Deployer/World.antt), the versions of an update (Deployer/Versions.antt), the wait for a
-- node (Deployer/Wait.antt), the three loops of deploy (Deployer/Run.antt), Validate
-- (Deployer/Validate.antt) and Deploy, which validates, deploys and goes back to the old
-- deployments (Deployer/Revert.antt); BatchDeploy stands in Deployer/Batch.antt. World.log has
-- every call with its outcome, and the answers may depend on it; a map is an association list
-- (Prelude/Maps.antt) in the order in which Go ranges over it.
--
-- Network.antt models AssignNodesIPs of grid-client/workloads/network.go, which gives each node of
-- a network a range; the loop of nextFreeIP has fuel for the octets up to 255, where it stops at
-- last. Mesh.antt models generateDeployments of the same file, which makes each node's WireGuard
-- peers after it has chosen a public node (Mesh/Plan.antt; the network is in Mesh/Net.antt), given
-- the addresses with AssignNodesIPs and drawn the ports; the draws are a list, whose end stands
-- for a loop that goes on. NodeFilter.antt models grid-client/deployer/node_filter.go:
-- FilterNodes, which asks the proxy for pages of nodes and the nodes for their pools
-- (NodeFilter/Pools.antt: hasEnoughStorage), and GetPublicNode in NodeFilter/PublicNode.antt,
-- which Mesh.antt takes the result of as `found`. page_rounds has fuel for the number of pages,
-- and each round has one at least. ContractIds.antt models StoreContractIDs and RemoveContractIDs
-- of grid-client/state/state.go.
--
-- Router.antt models rmb-sdk-go/peer/router.go: the tree of routers with their middlewares and
-- handlers, through which the farmerbot and other services take their requests
-- (Router/Semantics.antt has the rules for what a call may give). Peer.antt models
-- handleIncoming and process of rmb-sdk-go/peer/peer.go with VerifySignature of sig.go, where the
-- twins of the chain, the hash that is signed, the signature schemes and the decryption are
-- parameters. Rpc.antt models rmb-sdk-go/peer/rpc.go: its calls run at once and meet the handler
-- of the incoming envelopes in the map of channels, which is a step relation whose sequences of
-- steps are the interleavings; the handler gets what process of Peer.antt makes of an envelope.
--
-- Tfrobot.antt models tfrobot/pkg/deployer/deployer.go: the machines of a group of nodes are
-- spread over the nodes (Tfrobot/Build.antt) and deployed, and what failed is moved to other nodes
-- for the next trial. A group whose last trial fails has its contracts canceled by the name of its
-- project, of which the model keeps that it was called for. The filter of nodes and the deployers
-- of the grid client are parameters.
--
-- How code becomes definitions. An operation that changes the state takes the State and gives it
-- back beside its error; a handler that fails late gives back what it had changed by then.
-- State.calls is the record of the power targets set on the chain, the last one first, and the
-- chain's answers may depend on it. A copy of a node is a value, so a copy that is stored late
-- overwrites what was stored in between, as in the code. Loops are recursion on their list, so
-- there is no fuel but in nextFreeIP and page_rounds; Wait recurs over the attempts for which the
-- package backoff allows, and the trials of tfrobot over the retries that are left. A division by
-- zero, which is a panic in Go, is the error divide_by_zero.
--
-- Bounds. A uint64 is a number with its wrap-around at 2 ^ 64 written out; percentages wrap at
-- 256. An int8 is an integer. A float64 is a value with operations that are parameters; where a
-- theorem needs numbers, it assumes that float64 is exact on integers below 2 ^ 53. Times are
-- nanoseconds in UTC, and the clock stands still during one operation. slices.Delete leaves the
-- last element behind past the end, as in Go 1.21, which go.mod names. sort.Slice is a function
-- with the sorting property.
--
-- Not modelled: locks and interleavings but in Rpc.antt (elsewhere an operation is one step),
-- logging, the ticker of Run, the relay connection and the decoding of payloads, files and
-- environments, the printed report, and the rest of the repository (grid-client and grid-proxy but
-- for these parts, the sending side of the peer and the proxy's client in rmb-sdk-go, the parsing
-- and the output of tfrobot, grid-cli, gridify, monitoring-bot, user-contracts-mon,
-- activation-service).
pub mod Calculator
pub mod ContractIds
pub mod Deployer
pub mod Mesh
pub mod Network
pub mod NodeFilter
pub mod NodeStatus
pub mod Peer
pub mod Prelude
pub mod Router
pub mod Rpc
pub mod Tfrobot
pub mod Farmerbot
