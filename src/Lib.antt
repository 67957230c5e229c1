-- ===== src/Lib.antt =====
-- Verification library of the Mutual Cloud prototype: a control server that keeps jobs in a SQL table
-- and mirrors them into a Kademlia DHT, and agents that discover jobs there, claim them under a lease
-- with a fencing token, keep the lease by heartbeats and finish the job.
--
-- The parts and their modules:
--   * Lease: internal/lease, the table demand_jobs and PGStore over it. Lease.Table has UPDATE, INSERT
--     and SELECT as functions on a list of rows; Lease.Update the WHERE and SET clauses of each
--     statement; Lease.Store and Lease.Queries the methods. Lease.History has sequences of committed
--     statements, by whatever session, for the theorems on interleavings.
--   * Dht: internal/dht. Dht.Json has PutJSON, GetJSON and DelJSON with the fallback to localStore,
--     Dht.Cas has PutJSONCAS, Dht.Addresses what a node advertises, Dht.Start the start of a node and
--     its other methods. Dht.Json.Medium gives the interface IsMap of a document store and fills it for
--     a connected network and for a node without peers.
--   * Task: internal/task, the documents, their keys, and the leases that Claim, Heartbeat and Release
--     keep in the DHT by PutJSONCAS.
--   * Control: cmd/control/control_http.go and cmd/control/main.go, the handlers over the table,
--     the DHT and the announcement manager. A handler takes a request and the server's state to the
--     new state and a response. Control.Routes has mountHTTP, Control.Loops and Control.Announce a
--     round of each loop, Control.Create the flag -create, Control.Main the select loops around
--     these rounds and the start of the program, and Control.Server handlers and rounds as one
--     transition system, beside other servers. The modules named Statements are about the
--     statements that each of them runs on the table. Control.Jobs.Waiting says what it is for a
--     job to wait in the DHT and for its announcement, which a created job, a restored one and the
--     loops share.
--   * Agent: cmd/agent and pkg/agent. Agent.Discovery has discover.go and ads.go, which jobs an agent
--     tries to claim; Agent.Client the requests and replies of claim.go and finish_client.go;
--     Agent.Heartbeats the interval and the goroutine of cmd/agent/main.go; Agent.Fetch fetch.go;
--     Agent.Container runner.go; Agent.Waiting wait_manifest.go, with a reading of the clock for each
--     poll; Agent.Execution onCandidate of cmd/agent/main.go, as the list of the actions that it takes;
--     Agent.Main the flags and the start of cmd/agent/main.go. Agent.Discovery.Created, Restarted,
--     Requeued and Flagged compose the server's handlers and loops with the agent's tick.
--   * Seeder: pkg/seeder, what the stream handler sends, and the start of cmd/seeder.
--   * Text: what the program uses of Go's strings, strconv, fmt and path/filepath. Base: shared names
--     and lemmas.
--
-- Correspondence. Instants are nanoseconds since Go's zero time as ℕ, the zero time being 0. An int64
-- is an integer whose increment wraps round (Base.Int), a uint64 is converted to BIGINT by the same
-- bits. Each SQL statement is atomic, runs at the instant now() that is an argument, and may fail with
-- or without having been committed (Lease.Store.Turn); other sessions may commit between the three
-- statements of TryClaim (Lease.Store.ClaimTurns). The clock of a handler is an argument
-- too, one reading where the code reads it several times in a row.
--
-- Parameters: the DHT of go-libp2p-kad-dht and encoding/json (Dht.Network), for which the theorems
-- name what they need: IsMap, IsFaithful and, for a shard of the index, IsReadable; libp2p,
-- go-multiaddr and the DHT's construction in Dht.Start.Library; libp2p's streams and package os in
-- Agent.Fetch and Seeder, Docker in Agent.Container. Between the agent and the server a request
-- for a job whose id is a plain segment of a path (Text.Paths.is_segment: no character that a URL or
-- ServeMux changes, and not empty, "." or "..") arrives as it was built, and a reply as it was
-- written. What ServeMux does with other paths is net/http's, and not modelled.
--
-- PutJSONCAS makes at most 5 rounds, which is the fuel of Dht.Cas.cas_loop, and a finish is reported
-- at most 20 times, which is that of Agent.Client.report_rounds; a number n has at most n decimal
-- digits (Text.Decimal.write_digits). NewNode's wait for peers has 27 turns (Dht.Start.wait_peers),
-- enough for five seconds in turns of 200 ms. Nothing else runs on fuel.
--
-- Not modelled: the parsing of flags and of the environment, listeners and signals, logging and log
-- files, the pauses between the rounds of PutJSONCAS and the retries of a finish, and the libraries
-- under vendor; of the program's own code noopValidator, which accepts everything, and what nothing
-- uses: newNonce, getNamespace and manifestAd of cmd/control, and internal/lease/types.go. BIGINT and
-- INTEGER columns do not overflow in the model. The agent's flags in seconds become int64 durations
-- that wrap round (Agent.Heartbeats.seconds); other durations fit into an int64. A query answers in
-- the order of the list of rows that it is given where SQL leaves the order open.
mod Base
pub mod Lease
pub mod Task
pub mod Dht
pub mod Text
pub mod Control
pub mod Agent
pub mod Seeder
