-- ===== src/Tests.antt =====
-- A small network to run the model on: the node 1, and the peer 2, whose certificate is the number 7.
-- A digest is a number made of one field and a signature the sum of key and digest.
mod Serving
mod Sharing
mod Charging
mod Keeping
mod Retiring
mod Sending
mod Carrying
mod Talking
mod Seeding
use intertexum.Prelude.{
  ℕ, ◌+◌, ◌==◌, ◌<◌, ltb, Bool, true, false, List, [], ◌∷◌, Option, none, some, Table, elem, add,
  lookup, has, delete, replace, insert_new, update,
}
use intertexum.Crypto.{
  Env, Payload, of_record, of_retract, of_message, of_offer, of_lsa, of_sealed, of_hop, of_delivery,
  of_post, of_announcement, Signed, RecordBody, RetractBody, MessageBody, OfferBody, Reader, anyone,
  everyone, Ticket, TicketBody, message, thread_post,
}
use intertexum.State.{
  Capability, Permissions, standard, SourcePolicy, Peer, Stored, RecordState, private, pending,
  accepted, CacheSettings, Node, Transit, Retention, WorkOut,
}
use intertexum.Work.{defaults, Subject, Proof}
use intertexum.Node.Ancestry.{Object}
use intertexum.Node.Message.{Message}
use intertexum.Cache.{
  drop_record, is_disposable, discard, insert_row, by_use, is_stale, expire_row, expire_rows,
  evict_rows, sweep, set_or, in_range, cap_expiry, configure, may_manage, store_copy, accepts_copy,
  remember_swept, excluded, remember, is_public_copy, touch, hit, credit,
}
use intertexum.Crypto.{valid_id, public_id, certificate, sign, verify}
use intertexum.Defense.{
  last_id, audit, note_evidence, remember as defense_remember, clear_evidence, is_lapsed,
  live_blocks, block, unblock, hits, blocked, refill, refill_all, write_buckets, consume,
  failures_of, occurrences_of, ban_duration, ban, failure, scope_key, admits_evidence, connection,
  keys_of, operation,
}
use intertexum.Lifecycle.{
  erase, retain_row, retain, insert_row as lifecycle_insert_row, by_priority, is_evictable, evict,
  clock_messages, is_acknowledged, acknowledge, upkeep, maintain, forget_row, forget,
}
use intertexum.Node.Active.{
  live, eligible, check_origin, withdrawn_in, visible, verified_record, stored_record, is_cached,
  inspect_row, admitted, active,
}
use intertexum.Node.Ancestry.{
  recall, passes, walk, settle, examine, all_pass, judge, active_from, lineage,
}
use intertexum.Node.Message.{
  has_fields, is_current, subject_of, check_message, store_message, receive_message, make_message,
}
use intertexum.Node.Peers.{
  union, grant_of, effective, known_peer, peer, holds, require, key_of, trust, block as peers_block,
  authorize,
}
use intertexum.Node.Retract.{
  same_allocation, count_rows, allocation_of, retraction_row, is_public_row, has_room, reserve,
  check_supplier, write_retraction, store_retraction, ingest_retraction, retract_row, retract,
}
use intertexum.Node.Share.{
  insert_id, sorted_ids, insert_reader, sorted_readers, save, is_covered, narrows, check_parent,
  check_each, write_private, publish_row, publish, check_import, note_source, noted, after_save,
  ingest, approve_row, approve, get,
}
use intertexum.Policy.{
  provider_disabled, capable, capability, is_distinct, check_list, validate, list_of, within,
  allowed, require_source, suppliers, record_allowed, require_record, insert_sorted, sort,
  trim_sources, remember_source,
}
use intertexum.Records.{
  utf8_size, byte_length, reader_lt, reader_eq, includes, is_sorted_readers, is_sorted_ids,
  is_reader_id, check_vector, check_text, check_audience, validate_record,
}
use intertexum.Work.{
  validate_config, global_key, peer_key, sweep as work_sweep, used_in, budget, of_peer,
  check_capacity, is_banned, check_offer, valid_work, valid_ticket, accept_offer, spend_permit,
  use_permit, clear, entry, keep_offer, charge, admit,
}

pub program : Unit {0}
unfolding elem add lookup has delete replace insert_new update drop_record is_disposable discard
    insert_row by_use is_stale expire_row expire_rows evict_rows sweep set_or in_range cap_expiry
    configure may_manage store_copy accepts_copy remember_swept excluded remember is_public_copy
    touch hit credit valid_id public_id certificate sign verify last_id audit note_evidence
    defense_remember clear_evidence is_lapsed live_blocks block unblock hits blocked refill
    refill_all write_buckets consume failures_of occurrences_of ban_duration ban failure scope_key
    admits_evidence connection keys_of operation erase retain_row retain lifecycle_insert_row
    by_priority is_evictable evict clock_messages is_acknowledged acknowledge upkeep maintain
    forget_row forget live eligible check_origin withdrawn_in visible verified_record stored_record
    is_cached inspect_row admitted active recall passes walk settle examine all_pass judge
    active_from lineage has_fields is_current subject_of check_message store_message receive_message
    make_message union grant_of effective known_peer peer holds require key_of trust peers_block
    authorize same_allocation count_rows allocation_of retraction_row is_public_row has_room reserve
    check_supplier write_retraction store_retraction ingest_retraction retract_row retract insert_id
    sorted_ids insert_reader sorted_readers save is_covered narrows check_parent check_each
    write_private publish_row publish check_import note_source noted after_save ingest approve_row
    approve get provider_disabled capable capability is_distinct check_list validate list_of within
    allowed require_source suppliers record_allowed require_record insert_sorted sort trim_sources
    remember_source utf8_size byte_length reader_lt reader_eq includes is_sorted_readers
    is_sorted_ids is_reader_id check_vector check_text check_audience validate_record
    validate_config global_key peer_key work_sweep used_in budget of_peer check_capacity is_banned
    check_offer valid_work valid_ticket accept_offer spend_permit use_permit clear entry keep_offer
    charge admit
program = tt

abbrev pub digest_of : Payload → ℕ
digest_of (of_record b) = 1000 + b.created_ms
digest_of (of_retract b) = 5000 + b.target
digest_of (of_message b) = 3000 + b.version
digest_of (of_offer b) = 4000 + b.nonce
digest_of (of_lsa b) = 7000 + b.seq
digest_of (of_sealed b) = 8000 + b.message
digest_of (of_hop b) = 9000 + b.receiver
digest_of (of_delivery b) = 9500 + b.message
digest_of (of_post b) = 10000 + b.created_ms
digest_of (of_announcement b) = 11000 + b.issued
digest_of _ = 12000

abbrev pub env : Env
env = record {
  digest = digest_of;
  verify_sig = λ key s p. s == key + digest_of p;
  sign_sig = λ key p. key + digest_of p;
  digest_key = λ key. key;
  load_certificate = λ pem. some pem;
  is_space = λ c. c == 32;
  is_bounded = λ x. true;
  is_zero_norm = λ v. false;
  authenticator = λ secret b. secret + b.message;
  work_hash = λ t n. n;
  offer_digest = λ o. 0;
  wire_size = λ p. 100;
}

abbrev pub all_permissions : Permissions
all_permissions = record { read = true; publish = true; message = true; public = true }

abbrev pub friend : Peer
friend = record {
  card = record { id = 2; certificate = 7; host = 97 ∷ []; port = 80 };
  permissions = all_permissions;
  blocked = false;
}

-- records of the node itself and of its peer, with their signatures
abbrev pub record_of : ℕ → ℕ → ℕ → List ℕ → Object
record_of origin key created parents = record {
  body = record {
    version = 1;
    origin = origin;
    model = "m";
    vector = 3 ∷ [];
    text = 97 ∷ [];
    parents = parents;
    audience = anyone ∷ [];
    created_ms = created;
  };
  id = 1000 + created;
  sig = key + (1000 + created);
}

-- a public record of the peer, one of the node derived from it, and a new one of the peer
abbrev pub base_record : Object
base_record = record_of 2 7 1 []

abbrev pub derived : Object
derived = record_of 1 5 2 (1001 ∷ [])

abbrev pub fresh : Object
fresh = record_of 2 7 3 []

abbrev pub stored_as : RecordState → Object → Stored
stored_as state obj = record { wire = obj; state = state }

abbrev pub node : Node
node = record {
  id = 1;
  key = 5;
  public_key = 5;
  certificate = 5;
  model = "m";
  dimensions = 1;
  now = 7200;
  now_ns = 7200000000000;
  policy = λ c. true;
  source_policy = record { mode = standard; sources = none; authors = none; senders = none };
  peers = (2, friend) ∷ [];
  admissions = [];
  grants = [];
  records = (1001, stored_as accepted base_record) ∷ (1002, stored_as accepted derived) ∷ [];
  retractions = [];
  public_tombstones = [];
  rejected = [];
  retention = [];
  transit = [];
  cache_settings = record { ttl = 3600; max_records = 1; max_bytes = 1000 };
  observations = [];
  record_sources = [];
  messages = [];
  received_ids = [];
  network = "n";
  work_config = defaults;
  message_secret = 9;
  budgets = [];
  storage = [];
  admitted_offers = [];
  replies_sent = [];
  work_out = [];
  outbox = [];
  delivering = [];
  bans = [];
  message_clock = [];
  last_seq = 0;
}

-- a message of the peer to the node
abbrev pub hello : Message
hello = record {
  body = record {
    version = 1;
    origin = 2;
    recipient = 1;
    text = 97 ∷ [];
    nonce =
        0 ∷ 0 ∷ 0 ∷ 0 ∷ 0 ∷ 0 ∷ 0 ∷ 0 ∷ 0 ∷ 0 ∷ 0 ∷ 0 ∷ 0 ∷ 0 ∷ 0 ∷ 0 ∷ 0 ∷ 0 ∷ 0 ∷ 0 ∷ 0 ∷ 0 ∷ 0
        ∷ 0 ∷ 0 ∷ 0 ∷ 0 ∷ 0 ∷ 0 ∷ 0 ∷ 0 ∷ 0 ∷ [];
    expires = none;
    reply_to = none;
    permit = none;
  };
  id = 3001;
  sig = 3008;
}
