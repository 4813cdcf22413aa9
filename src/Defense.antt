-- ===== src/Defense.antt =====
-- agentmesh/defense.py: bans, the bounded audit and evidence tables, token buckets and the
-- automatic ban after repeated failures.
--
-- Times are in milliseconds, rates in tenths of a token a second and tokens in ten-thousandths, so
-- that a refill is exact. The texts of events are kept, those of reasons and details are not. The
-- debt that `search` charges for CPU time is not modelled, so no bucket is below zero.
pub mod Rate
use intertexum.Prelude.{
  ℕ, zero, suc, ◌+◌, ◌-◌, ◌*◌, ◌^◌, Bool, true, false, not, ◌&&◌, ◌||◌, ◌==◌, leb, ltb, List, [],
  ◌∷◌, ◌++◌, length, keep, any, keep_rows, Table, Option, none, some, lookup, has, replace, min,
  max, Result, ok, err, invalid, denied, guard, ◌>>=◌, ◌>>◌, if◌then◌else◌, str_eq, String,
}
use intertexum.Crypto.{valid_id}
use intertexum.State.{Target, one_peer, range, Ban}

-- a row of `audit`
pub record Audit : Type 0 where
  pub id : ℕ
  pub at : ℕ
  pub event : String
  pub peer : Option ℕ

-- a row of `evidence`
pub record Evidence : Type 0 where
  pub target : Target
  pub event : String
  pub first_seen : ℕ
  pub last_seen : ℕ
  pub occurrences : ℕ

pub record Bucket : Type 0 where
  pub tokens : ℕ
  pub last : ℕ

-- the failures of a target since `start`
pub record Failures : Type 0 where
  pub target : Target
  pub count : ℕ
  pub start : ℕ

pub record Defense : Type 0 where
  pub clock : ℕ
  pub blocks : List Ban
  pub audits : List Audit
  pub evidence : List Evidence
  pub buckets : Table Bucket
  pub failures : List Failures

abbrev pub same_target : Target → Target → Bool
same_target (one_peer a) (one_peer b) = a == b
same_target (range a) (range b) = a == b
same_target _ _ = false

-- the largest rowid
unfoldable pub last_id : List Audit → ℕ
last_id [] = 0
last_id (r ∷ rs) = max r.id (last_id rs)

-- `audit`: at most 2000 rows, none older than a day
unfoldable pub audit : Defense → String → Option ℕ → Defense
unfolding last_id
audit d event peer =
    let id = last_id d.audits + 1 in
    let row : Audit = record { id = id; at = d.clock; event = event; peer = peer } in
    record d {
      audits =
          keep (λ r. not (ltb (r.at + 86400000) d.clock || leb (r.id + 2000) id))
            (d.audits ++ row ∷ []);
    }

abbrev pub max_evidence : ℕ
max_evidence = 10000

abbrev pub is_about : Target → String → Evidence → Bool
is_about target event e = same_target e.target target && str_eq e.event event

unfoldable pub note_evidence : Target → String → ℕ → List Evidence → List Evidence
note_evidence target event now [] = []
note_evidence target event now (e ∷ es) =
    (if is_about target event e
      then record e { last_seen = now; occurrences = e.occurrences + 1 }
      else e)
    ∷ note_evidence target event now es

-- `remember`: evidence is never evicted; at the bound nothing new is noted
unfoldable pub remember : Defense → Target → String → Defense
unfolding note_evidence
remember d target event =
    let row : Evidence = record {
      target = target;
      event = event;
      first_seen = d.clock;
      last_seen = d.clock;
      occurrences = 1;
    } in
    if any (is_about target event) d.evidence
    then record d { evidence = note_evidence target event d.clock d.evidence }
    else if leb max_evidence (length d.evidence)
    then d
    else record d { evidence = d.evidence ++ row ∷ [] }

-- `clear_evidence`; whether the reason is a text of 1 to 200 characters is given
unfoldable pub clear_evidence : Defense → Target → Bool → Result Defense
clear_evidence d target documented = do
  guard documented invalid
  ok (
      audit (record d { evidence = keep (λ e. not (same_target e.target target)) d.evidence })
        "retention_review" none)

-- `DELETE FROM blocks WHERE expires>0 AND expires<=?`
unfoldable pub is_lapsed : ℕ → Ban → Bool
is_lapsed now b = not (b.expires == 0) && leb b.expires now

unfoldable pub live_blocks : Defense → List Ban
unfolding is_lapsed
live_blocks d = keep (λ b. not (is_lapsed d.clock b)) d.blocks

abbrev pub max_blocks : ℕ
max_blocks = 1000

abbrev pub valid_target : Target → Bool
valid_target (one_peer p) = valid_id p
valid_target (range r) = true

abbrev pub peer_of : Target → Option ℕ
peer_of (one_peer p) = some p
peer_of (range r) = none

-- `block`; 0 for a ban without an end
unfoldable pub block : Defense → Target → ℕ → Result Defense
block d target duration = do
  guard (valid_target target) invalid
  guard (leb duration 31536000000) invalid
  let live = live_blocks d
  guard (ltb (length live) max_blocks) denied
  let row : Ban = record {
    target = target;
    expires = if duration == 0 then 0 else d.clock + duration;
  }
  let others = keep (λ b. not (same_target b.target target)) live
  ok (audit (record d { blocks = others ++ row ∷ [] }) "block" (peer_of target))

-- `unblock`
unfoldable pub unblock : Defense → Target → Defense
unblock d target =
    audit (record d { blocks = keep (λ b. not (same_target b.target target)) d.blocks }) "unblock"
      none

-- `blocked`; `contains` is the membership of an address in a range, of the module `ipaddress`
unfoldable pub hits : (ℕ → ℕ → Bool) → Option ℕ → Option ℕ → Target → Bool
hits contains source (some peer) (one_peer p) = p == peer
hits contains source none (one_peer p) = false
hits contains (some address) peer (range r) = contains address r
hits contains none peer (range r) = false

unfoldable pub blocked : (ℕ → ℕ → Bool) → Defense → Option ℕ → Option ℕ → Bool
unfolding hits
blocked contains d source peer = any (λ b. hits contains source peer b.target) (live_blocks d)

-- A scope of a limit, and what it may spend. The keys of the source are numbered by `scope_key`.
pub record Limit : Type 0 where
  pub key : ℕ
  pub rate : ℕ
  pub burst : ℕ

-- a token, in units that the rates below bring in whole numbers each millisecond
abbrev pub token : ℕ
token = 60000

unfoldable pub refill : ℕ → Limit → Option Bucket → ℕ
refill now l none = l.burst * token
refill now l (some b) = min (l.burst * token) (b.tokens + (now - b.last) * l.rate)

abbrev pub with_tokens : ℕ → ℕ → Bucket
with_tokens now n = record { tokens = n; last = now }

-- The loop of `consume` over the buckets that were there: what each key has now, and whether all
-- had a token. It stops behind the first that has none.
unfoldable pub refill_all : ℕ → Table Bucket → List Limit → List (ℕ × ℕ) → Bool × List (ℕ × ℕ)
unfolding refill
refill_all now buckets [] updated = (true, updated)
refill_all now buckets (l ∷ rest) updated =
    let n = refill now l (lookup l.key buckets) in
    let others = refill_all now buckets rest (updated ++ (l.key, n) ∷ []) in
    if ltb n token then (false, updated ++ (l.key, n) ∷ []) else others

-- `self.buckets.update(...)`, with `cost` taken from each
unfoldable pub write_buckets : ℕ → ℕ → List (ℕ × ℕ) → Table Bucket → Table Bucket
write_buckets now cost [] buckets = buckets
write_buckets now cost ((key, n) ∷ rest) buckets =
    write_buckets now cost rest (replace key (with_tokens now (n - cost)) buckets)

abbrev pub max_buckets : ℕ
max_buckets = 4096

-- `consume`
unfoldable pub consume : Defense → List Limit → Defense × Bool
unfolding refill_all write_buckets
consume d limits =
    let kept = keep_rows (λ _ b. ltb (d.clock - b.last) 120000) d.buckets in
    let (paid, updated) = refill_all d.clock kept limits [] in
    if ltb max_buckets (length kept + length limits)
    then (record d { buckets = kept }, false)
    else if paid
    then (record d { buckets = write_buckets d.clock token updated kept }, true)
    else (record d { buckets = write_buckets d.clock 0 updated kept }, false)

-- the failures of a target in the last minute
unfoldable pub failures_of : ℕ → Target → List Failures → ℕ × ℕ
failures_of now target [] = (0, now)
failures_of now target (f ∷ fs) =
    if same_target f.target target then (f.count, f.start) else failures_of now target fs

unfoldable pub occurrences_of : Target → String → List Evidence → ℕ
occurrences_of target event [] = 0
occurrences_of target event (e ∷ es) =
    if is_about target event e then e.occurrences else occurrences_of target event es

-- the ban that the eighth failure brings, in milliseconds: five minutes, doubled for each earlier one
unfoldable pub ban_duration : Defense → Target → ℕ
unfolding occurrences_of
ban_duration d target =
    min 86400000 (300000 * 2 ^ min (occurrences_of target "auto_ban" d.evidence) 9)

unfoldable pub ban : Defense → Target → String → Defense
unfolding ban_duration
ban d target event =
    let noted = remember d target "auto_ban" in
    elim (block noted target (ban_duration d target)) [
      | err e ↦ record noted { blocks = live_blocks noted }
      | ok banned ↦ audit banned "auto_ban" (peer_of target)
    ]

-- `failure`; `target` is the verified peer, or the range of the source address
unfoldable pub failure : Defense → Target → String → Defense
unfolding failures_of ban
failure d target event =
    let noted = remember d target event in
    let recent = keep (λ f. ltb (d.clock - f.start) 60000) noted.failures in
    let (count, start) = failures_of d.clock target recent in
    let others = keep (λ f. not (same_target f.target target)) recent in
    let row : Failures = record { target = target; count = count + 1; start = start } in
    let counted = record noted { failures = others ++ row ∷ [] } in
    let first = (if count == 0 then audit counted event (peer_of target) else counted) in
    if not (any (λ f. same_target f.target target) recent) && leb 4096 (length recent)
    then record noted { failures = recent }
    else if count + 1 == 8
    then ban first target event
    else first

-- the keys of `connection` and `operation`
pub data Role : Type 0 where
  data_role bootstrap_role : Role

pub data Op : Type 0 where
  search_op rpc_op signaling removal challenge register discovery : Op

unfoldable pub scope_key : ℕ → ℕ → ℕ
scope_key scope target = scope + 32 * target

-- a rate is in tenths of a token a second, and that of `limit_minute` in tokens a minute
abbrev pub limit : ℕ → ℕ → ℕ → ℕ → Limit
limit scope target rate burst = record {
  key = scope_key scope target;
  rate = 6 * rate;
  burst = burst;
}

abbrev pub limit_minute : ℕ → ℕ → ℕ → ℕ → Limit
limit_minute scope target rate burst = record {
  key = scope_key scope target;
  rate = rate;
  burst = burst;
}

-- `erase_routine`: the evidence stays
unfoldable pub erase_routine : Defense → ℕ → Defense
erase_routine d peer = record d {
  audits = keep (λ a. not (elim a.peer [ none ↦ false | some p ↦ p == peer ])) d.audits;
}

unfoldable pub admits_evidence : Defense → Bool
admits_evidence d = ltb (length d.evidence) max_evidence

-- `connection`; `network` is the range of the source address
unfoldable pub connection : (ℕ → ℕ → Bool) → Defense → ℕ → ℕ → Role → Defense × Bool
connection contains d source network data_role =
    let (d1, first) = consume d (limit 15 source 40 20 ∷ []) in
    let refused : Defense × Bool = (failure d1 (range network) "connection_rate", false) in
    let passed = consume d1 (limit 16 0 200 40 ∷ []) in
    if blocked contains d (some source) none || not (admits_evidence d)
    then (d, false)
    else if first
    then passed
    else refused
connection contains d source network bootstrap_role =
    let (d1, first) = consume d (limit 17 source 100 16 ∷ []) in
    let passed = consume d1 (limit 18 0 400 40 ∷ []) in
    if blocked contains d (some source) none || not (admits_evidence d)
    then (d, false)
    else if first
    then passed
    else (d1, false)

-- the keys of `operation`: the global one first, then those of the peer and the source
unfoldable pub keys_of : Op → ℕ → ℕ → Limit × List Limit
keys_of search_op source peer = (limit 0 0 40 16, limit 1 peer 20 8 ∷ limit 2 source 40 16 ∷ [])
keys_of rpc_op source peer = (limit 3 0 200 40, limit 4 peer 100 30 ∷ [])
keys_of signaling source peer = (limit 5 0 100 32, limit 6 source 80 24 ∷ [])
keys_of removal source peer = (limit 7 0 20 8, limit 8 source 2 4 ∷ [])
keys_of challenge source peer = (limit 9 0 10 8, limit 10 source 1 4 ∷ [])
keys_of register source peer = (limit 11 0 10 8, limit 12 source 1 4 ∷ [])
keys_of discovery source peer = (limit 13 0 50 20, limit 14 source 20 10 ∷ [])

abbrev pub is_data : Op → Bool
is_data search_op = true
is_data rpc_op = true
is_data _ = false

-- `operation`; the state is kept when it raises
unfoldable pub operation : (ℕ → ℕ → Bool) → Defense → ℕ → ℕ → Op → Defense × Result (Unit {0})
unfolding keys_of
operation contains d source peer op =
    let (shared, own) = keys_of op source peer in
    let (d1, mine) = consume d own in
    let (d2, all) = consume d1 (shared ∷ []) in
    let punished = (if is_data op then failure d1 (one_peer peer) "request_rate" else d1) in
    if blocked contains d (some source) (some peer)
    then (d, err denied)
    else if not mine
    then (punished, err denied)
    else (d2, (if all then ok tt else err denied))
