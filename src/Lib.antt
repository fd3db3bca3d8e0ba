-- ===== src/Lib.antt =====
-- Verification of the SMS gateway: a service that accepts messages from customers against prepaid
-- credits, queues them in PostgreSQL, sends them through external providers and tracks what became
-- of them.
--
-- The parts and how they interact. A request carries an API key, which internal/auth looks up for the
-- customer (authenticator.go) and internal/ratelimit admits or refuses. The HTTP API validates the
-- messages of a submission (internal/message/validate.go), counts their segments (internal/segment),
-- prices them and records them with their debit and queue rows (accept.go, internal/billing). The
-- workers of internal/dispatch claim queue rows under a lease (claim.go), send each message through a
-- provider whose circuit breaker allows it (send.go, circuit.go), and commit the outcomes in batches
-- (completer.go): sent, to be retried after a backoff (policy.go), put back, or ended with a refund.
-- The sweeper (internal/sweeper) ends messages whose time is over, removes queue rows that are left
-- behind and moves rows out of lanes that no longer exist; internal/dlr collects the delivery reports of
-- the providers (batcher.go) and applies them (apply.go). Customers and operators read messages and
-- transactions in pages (query.go of internal/message and internal/billing), and operators create, charge
-- and delete customers (internal/customer). All of them work on the same tables, in transactions of
-- their own; internal/invariant states what must hold of the tables after each.
--
-- The files and the code they model, each function under its Go name in snake case:
--   Common          native numbers, Boolean tests, lists, signed integers, texts as code points
--   Segment         internal/segment: Detect, Count and the character tables
--   Message         internal/message/message.go and price.go: the row of a message and its price
--   Store           Store/Tables: the tables of migrations/00001_init.sql as lists of rows;
--                   Store/Tx: internal/store/tx.go, WithTx on statement sequences that may fail;
--                   Store/Ids, Cursor and Migrate: ids.go and null.go, cursor.go, and Up and Down of
--                   migrate.go, of which Store/Migrate/Again has the proofs
--   Billing         internal/billing/ledger.go; Billing/Refunds, Credits and Apply prove what
--                   ApplyRefunds does, Billing/Charge what Charge does
--   Invariant       internal/invariant/invariant.go: the checks that hold at every commit, as `Inv`;
--                   Invariant/Update proves that an update of messages keeps it
--   Accept          internal/message/accept.go and lane.go: insert; Accept/Replay has resolveExisting,
--                   Accept/Attempts the loop of accept; Accept/Validate has validate.go, and
--                   Accept/Submit the whole of accept, from the requests to the tables
--   Dispatch/Claim, Completer, Circuit, Policy, Send
--                   the files of internal/dispatch of these names; Send also has classify.go.
--                   Dispatch/Claim/Lease and Exclusive prove what a lease promises;
--                   Dispatch/Completer/Run and Flush: run, flush and count of completer.go;
--                   Dispatch/Completer/Again: what a commit leaves of the leases of its batch
--   Sweeper         internal/sweeper/tasks.go: expire, flagSLA, removeOrphans; Sweeper/Lanes has
--                   reassignLanes and removeStaleWorkers, Sweeper/Sweep has Sweep of sweeper.go
--   Dlr             internal/dlr/apply.go: Apply; Dlr/Batcher: batcher.go
--   Batching        the select loop that completer.go and batcher.go share
--   Customers       internal/customer/customer.go; Customers/Delete proves what deleting one keeps
--   Paging          a page of a keyset query: the order, the cursor, and the row looked ahead
--   Queries         Queries/Messages and Summary: query.go, admin.go and report.go of
--                   internal/message; Queries/Accounts: internal/billing/query.go and the queries
--                   of customer.go
--   Auth            internal/auth: key.go and authenticator.go
--   RateLimit       internal/ratelimit/limiter.go
--   Config          internal/config: env.go; Config/Gateway has gateway.go
--   System          the transactions of the parts as one step relation, and what every sequence keeps
--   Examples        tables that satisfy the invariant, and runs of the transactions on them
--
-- How the code is modelled. The database is a record of four lists of rows. A statement is a function
-- on it, with the constraints of the schema as errors where the statement can meet them; a transaction
-- is a do block whose error leaves the tables as they were. Transactions follow each other: the
-- interleavings of READ COMMITTED and the row locks are not modelled, except that SKIP LOCKED passes
-- over an arbitrary set of rows. Where the input of an UPDATE joins a row twice, the first joined input
-- row is used. The transaction's now(), the clocks, the identifiers that store.NewID yields, the jitter,
-- the FNV hash of a customer's id, the rate budget and the providers' replies are arguments, so that the
-- theorems hold for all of them.
-- Times and durations are in nanoseconds, a UUID is a number, a Go string is the list of its code
-- points. A stored amount is an unbounded integer: the sums of int64 amounts stay far below 2^63,
-- since a message costs at most ten segments and a batch is small, and a balance past the BIGINT range
-- is an error of `credit`. The int64 shift of the backoff, and the product that the configuration check
-- compares the lease with, are modelled with their wrap-around. A connection that fails in a transaction
-- leaves the tables as they were; that the server may commit and its answer be lost is modelled where
-- the code runs a transaction again after an error, in flush. The loops
-- are over lists; the loops that repeat a transaction, in accept and in flush, end after a fixed number
-- of rounds, as in the code. A goroutine that selects on a channel, a timer and a stop is a function on
-- the list of the events it sees. What the code takes from libraries is an argument: SHA-256, the random
-- bytes of a key, the token buckets of golang.org/x/time, time.ParseDuration, url.Parse and the like.
--
-- Not modelled: the HTTP servers, their decoding and their error bodies, logging, metrics, monitoring and
-- administration, the fake provider and its configuration, start-up and shutdown; the reading and
-- splitting of migration files; the listener and the pools that start workers; BearerToken. Deleting a
-- customer is not a step of System: its theorem needs that every transaction of a message is of that
-- message's customer.
pub mod Common
pub mod Segment
pub mod Message
pub mod Store
pub mod Paging
pub mod Queries
pub mod Customers
pub mod Auth
pub mod RateLimit
pub mod Batching
pub mod Config
pub mod Invariant
pub mod Billing
pub mod Dispatch
pub mod Accept
pub mod Sweeper
pub mod Dlr
pub mod System
pub mod Examples
