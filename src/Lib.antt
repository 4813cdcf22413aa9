-- ===== src/Lib.antt =====
-- A verification library for Intertexum: a mesh of nodes that share signed records ("memory") and
-- messages, each under the policy of its owner.
--
-- Parts and files. A node keeps its tables in one SQLite file and takes every change in one
-- transaction; the modules below are its parts, and `State.Node` is the state that they share.
--   Crypto      agentmesh/crypto.py: identifiers, signed objects, and `Env`, the libraries
--   Records     agentmesh/records.py: the rules for texts, vectors, audiences and records
--   State       the tables that agentmesh/node.py and the schemas of its parts create
--   Policy      agentmesh/onboarding.py (`policy`, `require`) and agentmesh/source_policy.py
--   Node.Peers      `trust`, `peer`, `require`, `block`, `_key`, and `effective` and `authorize` of
--                   agentmesh/openmesh.py
--   Node.Ancestry   the recursion of `_active` over parents, with path, depth limit and memo
--   Node.Active     the tests on one record, and `_active`, which every serving path uses
--   Node.Share      `write_private`, `publish`, `ingest`, `approve`, `get`
--   Node.Retract    `retract`, `ingest_retraction` and the pools of withdrawals
--   Node.Message    `make_message` and `receive_message`, which calls `Work.admit`
--   Work        agentmesh/message_work.py: budgets, storage limits, tickets, permits, `admit`
--   Work.Outbound   `outbound` and `reply_info`: the permit that goes out with a message
--   Challenging `scope`, `challenge` and the accounting of `solve_for` of agentmesh/message_work.py
--   Outbox      agentmesh/conversations.py: the outbox, its claims and attempts; `resume` of
--               agentmesh/message_work.py
--   Ticketing   agentmesh/pow.py: the work that a seed asks for
--   Cache       agentmesh/cache.py: transit copies; `Lifecycle.maintain` ends with `Cache.sweep`
--   Lifecycle   agentmesh/lifecycle.py: retention, rejection, maintenance, deletion
--   Lifecycle.Inbox     `message_page`
--   Receipts    agentmesh/lifecycle.py: receipts of tool calls, and the epochs that retire them
--   Routing     agentmesh/routing.py: the policy and the link-state advertisements
--   Routing.Paths   `routes`, the search over the advertised links
--   Routing.Custody `accept`, `queue_message`, `ingest_receipt`: sealed envelopes and paid chains
--   Routing.Exchange    `exchange` and `refresh`
--   Routing.Paying      `pay`, the work for a hop
--   Routing.Delivery    `deliver`, the step of the worker
--   Threads     agentmesh/conversations.py: roots, replies, access; posts are paid by `Work.admit`
--   Threads.Pages   `page` and `read`
--   Onboarding  agentmesh/onboarding.py: `membership` and `admit`
--   Erasure     agentmesh/erasure.py: the request to be removed from a seed
--   Rendezvous  agentmesh/rendezvous.py: signals and their mailbox
--   Bootstrap   agentmesh/bootstrap.py: announcements and the directory of a seed, which spends the
--               tickets of `Ticketing` and is limited by `Defense`
--   Bootstrap.Dispatch  `dispatch`, `discover` and `Rendezvous.call`
--   Bootstrap.Client    the checks of `BootstrapClient` on answers
--   Defense     agentmesh/defense.py: blocks, evidence, audit, token buckets, automatic bans
-- A child module proves properties of its parent. `Tests` runs the model on a node with one peer.
--
-- How the model stands for the code. A method is a function from a state to a result with the new
-- state, and its guards stand in the code's order. An exception is an `err`: the transaction is
-- undone, so the state is then the old one; `ingest`, `deliver_claimed` and the `operation` of the
-- defense, which write in more than one transaction, return the state next to the result. Exceptions keep their class and
-- lose their text. An identifier is the number that its 64 hexadecimal digits spell, so those in
-- form are the numbers below 2 ^ 256. JSON values have the types that the code checks before it
-- uses them. Times are whole seconds or milliseconds, and a comparison of a whole expiry with a
-- float clock is that with its floor. Texts are lists of code points without lone surrogates.
--
-- Parameters. `Env` holds hashing, signatures, certificates, character classes, float tests, the
-- authenticator of tickets and the size of canonical JSON. `Routing.Custody.Seal` holds the sealing of
-- messages, `Routing.Paying.Peers` what other peers do, and `Bootstrap.Outside` addresses and the
-- validity of certificates. Theorems hold for all of these.
--
-- Bounds and fuel. `active_from` recurses on `MAX_DEPTH - len(path)`, 64 at the start: the code
-- answers `None` at that depth, as the model does. `Ticketing.search` recurses on the nonces that are
-- left, 2 ^ 64 in the code. `Routing.Paths.search` has fuel for every path that the hop limit and the
-- longest list of links leave, `find_nonce` of Routing.Paying fuel that stands for its clock, and
-- `discover_all` the 21 pages of the code. All other recursions are on lists.
--
-- Not modelled: the cache of verified wires, the search index and ranking, deadlines of remote
-- searches, the CPU debt of searches, the pace and the threads of the two delivery workers, the loop of
-- `solve_for`, `reply_message`, federated searches and endpoints (openmesh, connectivity), sockets,
-- TLS and framing (network, connectivity, discovery), files and reports for people.
pub mod Prelude
pub mod Crypto
pub mod Records
pub mod State
pub mod Policy
pub mod Node
pub mod Work
pub mod Outbox
pub mod Ticketing
pub mod Cache
pub mod Lifecycle
pub mod Receipts
pub mod Defense
pub mod Bootstrap
pub mod Challenging
pub mod Erasure
pub mod Onboarding
pub mod Rendezvous
pub mod Routing
pub mod Threads
pub mod Tests
