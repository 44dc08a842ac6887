-- ===== src/Lib.antt =====
-- A model of the domino match server and of what makes its parts correct.
--
-- pkg/models holds the rules: a `GameSession` with hands, boneyard and board, the moves that change it, and
-- the evaluation that ends a match. Models.Tile, Models.Session, Models.Play, Models.Turn, Models.Evaluate,
-- Models.Deck and Models.View hold its data and operations, one function for each method, under the names
-- of the source in snake_case. A method returns the session as it leaves it beside its result, since some
-- methods change the session and then fail. The other modules below Models prove. Strings are native
-- strings, pips are integers (the code adds only the pips of hands, far below 2 ^ 63), maps are association
-- lists, and errors are constructors that carry what the message prints. The random sources are parameters:
-- `draw` for crypto/rand, `intn` for a math/rand generator.
--
-- pkg/consensus replicates the commands of the matches over a cluster. Consensus.Node is the state of a
-- `RaftNode` and how it reads its log, Consensus.Command the commands (commands.go), Consensus.Apply the
-- apply loop, configuration changes, compaction and persistence, Consensus.Rpc the three calls that a node
-- answers, Consensus.Leader elections, quorums and commits, Consensus.Replicate the calls of a leader, and
-- Consensus.Bootstrap the start from a storage (all raft_node.go). Consensus.Events puts the handlers
-- together: each runs under the lock of the node, so a run is a sequence of events in any order. The other
-- modules below Consensus prove. The match state machine, JSON and the storage are the fields of a
-- `Machine`, which a node takes as a parameter: what the code calls there may fail, as `none`. Indices and
-- terms are natural numbers, since they grow by one at a time from zero and stay below 2 ^ 64.
-- Consensus.Fsm is the counting match state machine and the bytes of its snapshot (fsm.go), and
-- Consensus.Membership a change of the configuration from its log entries on. The apply loop and the search
-- for an index to commit run on the number of rounds that are left, which is the distance that the loop of
-- the code covers. Where the code would read past the end of a log and panic, the model has `none` or
-- leaves the node as it is.
--
-- Consensus.Wait holds the calls of a node that wait: proposals that wait for their commit and their apply,
-- reads that wait for a quorum, changes of the members. What the node meets while a call waits is an
-- argument: a list of events before each look, and no more looks once the deadline is past.
--
-- pkg/gateway answers HTTP requests on matches, and takes the actions of the WebSocket router to the log.
-- Gateway.Cluster is what it uses of node and engine, an interface over their common state. Gateway.Node
-- fills it with a `RaftNode` that runs the game manager. match_gateway.go: Gateway.Reply holds requests,
-- responses and what goes on to the leader, Gateway.Handle the checks, and Gateway.Mutate, Gateway.Create,
-- Gateway.Read and Gateway.Fill the handlers, which return the response they write. The deadline of a fill
-- is the number of rounds before it. Gateway.Replicated and Gateway.Deltas are session.go: an
-- implementation of the actions that Ws.Router takes, and the deltas that the hub gets of what is applied.
-- Gateway.SessionCache (session_cache.go) keeps the responses of mutations that a client may repeat, with
-- the order of its keys. Gateway.SessionCache.Bounds, Gateway.Own (on Gateway.Carried), Gateway.Once,
-- Gateway.Secret, Gateway.HiddenDelta and Gateway.FreshRead prove. JSON, functions on texts and the HTTP
-- client are parameters.
--
-- pkg/engine keeps the sessions in memory, saves them and publishes what happened. Engine.Manager is the
-- registry (game_manager.go), Engine.Lifecycle a turn from its rules to its events, players who leave, and
-- the moves (lifecycle.go, abandonment.go, moves.go), Engine.Replicated what committed commands do
-- (replicated.go), Engine.Loop the events of pkg/game/loop.go, and Engine.Fsm the state machine of
-- pkg/consensus/fsm.go that hands commands to the manager. Repository, broker and random numbers are fields
-- of `Services`; JSON and gob are fields of `Codec`; floats are a type `F`. A `World` is a manager with the
-- states of database and broker. Every call runs to its end before the next, as the lock of a session makes
-- it for one session. A payload holds the session as it is when it is published, where the code hands over
-- a pointer. Engine.Committed, with Engine.LogTurns, joins the engine to the log of pkg/consensus: it
-- proves what the committed entries make of a session. Engine.Valid, Engine.Moves, Engine.Announced and
-- Engine.Lost prove the rest, on the lemmas of Engine.Settle, Engine.Ended, Engine.Frame and
-- Engine.StartFrame.
--
-- pkg/broker: Broker.State is the in-memory broker, whose channels are places in a store, with the record
-- of dropped events. A panic is `none`. Broker.Deliver and Broker.Panic prove.
--
-- pkg/ws: Ws.Hub holds the state of the hub with its maps of maps (Ws.Nested), Ws.Loop what its loop does
-- for each message, and Ws.Terminate the end of a match with its record for the ledger. In Ws.Happen these,
-- and the goroutines around the loop - clients that leave, timers, writers -, are happenings that may come
-- in any order. Ws.Tidy, Ws.Send, Ws.SendEnd, Ws.Receive, Ws.Seats and Ws.Run prove. Ws.Router is the
-- router of inbound messages, which returns the frames the hub is to send; Ws.Actor proves.
--
-- pkg/resilience: Resilience.Spool is the dead-letter spool. Resilience.Retry is the loop of Retry with its
-- delays in wrapped 64-bit integers; the called function, the context and the random numbers are
-- parameters, numbered by the call. Resilience.Attempts proves.
--
-- Not modelled: the RPC transport and its retries, the goroutines of a replication round, the tickers of an
-- election, worker pools and their queues, storage files, the options and routes of the gateway, the HTTP
-- handlers of pkg/api, pagination, rate limits and SQL, which are glue around libraries, and ratings in
-- floating point. The race of a publication with the closing of a channel, and writes through session
-- pointers that callers keep, are not either.
pub mod Prelude
pub mod Models
pub mod Consensus
pub mod Gateway
pub mod Engine
pub mod Broker
pub mod Resilience
pub mod Ws
