-- ===== src/State.antt =====
-- The durable state of a node: the tables of `mesh.sqlite` that agentmesh/node.py and its schemas
-- create, the policy files beside it and the clock.
--
-- A column that holds the canonical JSON of an object holds the object here. A table with a key
-- column is a `Table`, a table of one column a list without repetition.
use intertexum.Prelude.{ℕ, Bool, List, Table, Option, String}
use intertexum.Crypto.{
  Card, RecordBody, RetractBody, MessageBody, OfferBody, Signed, Operation, Ticket,
}

-- `CAPABILITIES` of agentmesh/onboarding.py
pub data Capability : Type 0 where
  network mdns cache reshare reward_relays write publish search fetch approve send receive :
      Capability
  serve_memory retain manage_access threads : Capability

-- A set of permissions: which of 'read', 'publish', 'message' and 'public' are in it.
pub record Permissions : Type 0 where
  pub read : Bool
  pub publish : Bool
  pub message : Bool
  pub public : Bool

-- agentmesh/source_policy.py: `none` is a missing list.
pub data Mode : Type 0 where
  standard provider : Mode

pub record SourcePolicy : Type 0 where
  pub mode : Mode
  pub sources : Option (List ℕ)
  pub authors : Option (List ℕ)
  pub senders : Option (List ℕ)

-- a row of `peers`
pub record Peer : Type 0 where
  pub card : Card
  pub permissions : Permissions
  pub blocked : Bool

pub data RecordState : Type 0 where
  private pending accepted : RecordState

-- a row of `records`
pub record Stored : Type 0 where
  pub wire : Signed RecordBody
  pub state : RecordState

pub data Allocation : Type 0 where
  local stored unknown : Allocation

-- a row of `retractions`, with the row of `retraction_sources` that is inserted beside it
pub record Retraction : Type 0 where
  pub origin : ℕ
  pub target : ℕ
  pub wire : Signed RetractBody
  pub supplier : ℕ
  pub allocation : Allocation

-- a row of `retention`; `expires` is 0 for no expiry
pub record Retention : Type 0 where
  pub priority : ℕ
  pub pinned : Bool
  pub expires : ℕ

-- a row of `transit_cache`
pub record Transit : Type 0 where
  pub expires : ℕ
  pub used : ℕ
  pub bytes : ℕ

-- a row of `relay_observations`
pub record Observation : Type 0 where
  pub peer : ℕ
  pub expires : ℕ

-- `cache_settings` over the defaults of agentmesh/cache.py
pub record CacheSettings : Type 0 where
  pub ttl : ℕ
  pub max_records : ℕ
  pub max_bytes : ℕ

-- a row of `grants`
pub record Grant : Type 0 where
  pub permissions : Permissions
  pub expires : ℕ

-- `message-policy.json` over the defaults of agentmesh/message_work.py
pub record WorkConfig : Type 0 where
  pub bits : ℕ
  pub peer_pending : ℕ
  pub peer_bytes : ℕ
  pub total_bytes : ℕ
  pub peer_hour : ℕ
  pub total_hour : ℕ
  pub peer_hour_bytes : ℕ
  pub total_hour_bytes : ℕ
  pub max_solve_bits : ℕ
  pub max_solve_ms : ℕ
  pub peer_solve_hour_ms : ℕ
  pub total_solve_hour_ms : ℕ
  pub reply_seconds : ℕ
  pub reply_bytes : ℕ

-- rows of `message_budget`, `message_storage`, `message_admitted`, `message_reply_sent` and
-- `message_work_out`
pub record Budget : Type 0 where
  pub window : ℕ
  pub n : ℕ
  pub bytes : ℕ

pub record Storage : Type 0 where
  pub peer : ℕ
  pub bytes : ℕ

pub record Admission : Type 0 where
  pub peer : ℕ
  pub offer : Signed OfferBody
  pub expires : ℕ

pub record ReplySent : Type 0 where
  pub reply : ℕ
  pub expires : ℕ

pub record WorkOut : Type 0 where
  pub peer : ℕ
  pub op : Operation
  pub offer : Option (Signed OfferBody)
  pub ticket : Option Ticket
  pub nonce : Option ℕ
  pub spent : ℕ
  pub expires : ℕ
  pub active : Bool
  pub consumed : Option ℕ

-- a row of `outbox`; its arguments are the message or the post that is sent
pub data Delivery : Type 0 where
  queued paused delivered lapsed : Delivery

pub record Outgoing : Type 0 where
  pub peer : ℕ
  pub op : Operation
  pub state : Delivery
  pub attempts : ℕ
  pub next : ℕ
  pub expires : ℕ

-- What a block of agentmesh/defense.py names: a peer, or a range of addresses by its number.
pub data Target : Type 0 where
  one_peer range : ℕ → Target

-- a row of `blocks`; times in milliseconds, 0 for ever
pub record Ban : Type 0 where
  pub target : Target
  pub expires : ℕ

pub record Node : Type 0 where
  pub id : ℕ
  -- the private key, the public key that belongs to it, and the certificate
  pub key : ℕ
  pub public_key : ℕ
  pub certificate : ℕ
  pub model : String
  pub dimensions : ℕ
  -- `int(time.time())`, and `time.time_ns()`
  pub now : ℕ
  pub now_ns : ℕ
  -- `policy.json` and `source-policy.json`
  pub policy : Capability → Bool
  pub source_policy : SourcePolicy
  pub peers : Table Peer
  pub admissions : Table ℕ
  pub grants : Table Grant
  pub records : Table Stored
  pub retractions : Table Retraction
  pub public_tombstones : List ℕ
  pub rejected : List ℕ
  pub retention : Table Retention
  pub transit : Table Transit
  pub cache_settings : CacheSettings
  pub observations : Table Observation
  -- the pairs (record, source)
  pub record_sources : List (ℕ × ℕ)
  pub messages : Table (Signed MessageBody)
  -- the received message IDs, with the expiry of each or 0
  pub received_ids : Table ℕ
  -- the network name of the profile, and the message policy with its tables
  pub network : String
  pub work_config : WorkConfig
  pub message_secret : ℕ
  pub budgets : Table Budget
  pub storage : Table Storage
  pub admitted_offers : Table Admission
  pub replies_sent : Table ReplySent
  pub work_out : Table WorkOut
  pub outbox : Table Outgoing
  -- the peers that a delivery is running for: `_delivery_peers`
  pub delivering : List ℕ
  -- the table `blocks` of `defense.sqlite`
  pub bans : List Ban
  -- `message_clock`: the sequence number of each message, and the largest one given out
  pub message_clock : Table ℕ
  pub last_seq : ℕ
