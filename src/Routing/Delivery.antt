-- ===== src/Routing/Delivery.antt =====
-- agentmesh/routing.py: the delivery worker's step. Requests of the network client are answers, given
-- by `Peers`.
pub mod Outcome
use intertexum.Prelude.{
  ℕ, zero, suc, ◌+◌, ◌-◌, ◌/◌, ◌%◌, ◌^◌, Bool, true, false, not, ◌&&◌, ◌||◌, ◌==◌, leb, ltb, keep,
  take, length, List, [], ◌∷◌, ◌++◌, map, Option, none, some, Table, lookup, has, delete, replace,
  insert_new, update, keep_rows, by_key, min, max, Result, ok, err, denied, invalid, guard, ◌>>=◌,
  ◌>>◌, if◌then◌else◌, is_ok,
}
use intertexum.Crypto.{Env, Signed, LsaBody, SealedBody, HopBody, DeliveryBody, of_hop, sign}
use intertexum.State.{Capability, Node}
use intertexum.Policy.{capability}
use intertexum.Node.Peers.{peer}
use intertexum.Defense.{Defense, consume, limit}
use intertexum.Routing.{
  Router, Routed, RouteState, RouteConfig, queued, forwarded, delivered, expired, require,
  neighbors, advertise, ingest_lsa, table,
}
use intertexum.Routing.Paths.{routes}
use intertexum.Routing.Custody.{Seal, ingest_receipt, last_hop}
use intertexum.Routing.Paying.{Peers, pay}

module _ (env : Env) (seal : Seal) (peers : Peers) where
  abbrev pub bits_of : Table LsaBody → ℕ → Option ℕ
  bits_of ads p = elim (lookup p ads) [ none ↦ none | some b ↦ some b.bits ]

  -- one turn of the loop over candidates: whether the peer has custody now
  unfoldable pub try_paid :
      Node
      → Router × Result (Signed HopBody)
      → Signed SealedBody
      → List (Signed HopBody)
      → ℕ
      → Router × Bool
  try_paid node (r, err e) obj chain p =
      (record r { failures = replace p (node.now + 30) r.failures }, false)
  try_paid node (r, ok proof) obj chain p =
      if peers.takes p obj (chain ++ proof ∷ [])
      then (r, true)
      else (record r { failures = replace p (node.now + 30) r.failures }, false)

  -- the toll is that of the peer's advertisement, which may have gone
  unfoldable pub try_toll :
      Node → Router → Signed SealedBody → List (Signed HopBody) → ℕ → Option ℕ → Router × Bool
  unfolding pay try_paid
  try_toll node r obj chain p none =
      (record r { failures = replace p (node.now + 30) r.failures }, false)
  try_toll node r obj chain p (some bits) =
      try_paid node (pay env seal peers node r obj chain p bits) obj chain p

  unfoldable pub try_hop :
      Node → Router → Signed SealedBody → List (Signed HopBody) → ℕ → Router × Bool
  unfolding try_toll
  try_hop node r obj chain p = try_toll node r obj chain p (bits_of (table node r) p)

  -- the peer that was tried last, and whether it has custody
  unfoldable pub try_routes :
      Node
      → Router
      → Signed SealedBody
      → List (Signed HopBody)
      → List (List ℕ)
      → ℕ
      → Router × ℕ × Bool
  unfolding try_hop
  try_routes node r obj chain [] last = (r, last, false)
  try_routes node r obj chain ([] ∷ rest) last = try_routes node r obj chain rest last
  try_routes node r obj chain ((p ∷ path) ∷ rest) last =
      let (r', sent) = try_hop node r obj chain p in
      let onward = try_routes node r' obj chain rest p in if sent then (r', p, true) else onward

-- the statements that `deliver` begins with
abbrev pub is_delivered : RouteState → Bool
is_delivered delivered = true
is_delivered _ = false

abbrev pub is_open : RouteState → Bool
is_open queued = true
is_open forwarded = true
is_open _ = false

unfoldable pub expire_row : ℕ → Routed → Routed
expire_row now q =
    if leb q.expires now
    then record q {
      state = if is_delivered q.state then q.state else expired;
      wire = none;
      chain = [];
    }
    else q

unfoldable pub expire_queue : ℕ → Router → Router
unfolding expire_row
expire_queue now r = record r {
  queue = map (λ row. (row.0, expire_row now row.1)) r.queue;
  receipts = keep_rows (λ _ o. ltb now o.body.expires) r.receipts;
}

-- `ORDER BY next,id LIMIT 1` of the rows that are due
abbrev pub earlier : ℕ × Routed → Option (ℕ × Routed) → Option (ℕ × Routed)
earlier x none = some x
earlier x (some y) =
    if ltb x.1.next y.1.next || (x.1.next == y.1.next && leb x.0 y.0) then some x else some y

unfoldable pub next_due : ℕ → Table Routed → Option (ℕ × Routed)
next_due now [] = none
next_due now (x ∷ rest) =
    let others = next_due now rest in
    if is_open x.1.state && leb x.1.next now then earlier x others else others

-- routes that do not begin with the peer tried before come first
abbrev pub starts_with : ℕ → List ℕ → Bool
starts_with p [] = false
starts_with p (x ∷ xs) = x == p

unfoldable pub prefer_other : Routed → List (List ℕ) → List (List ℕ)
prefer_other row found = elim row.state [
  | forwarded ↦
      keep (λ w. not (starts_with row.next_hop w)) found ++ keep (starts_with row.next_hop) found
  | _ ↦ found
]

-- the row behind the attempt: a receipt that came meanwhile stays
unfoldable pub note_hop : Node → Router → ℕ → ℕ → ℕ → Bool → Router
note_hop node r id attempts p sent = record r {
  queue =
      update id
        (λ q. record q {
          state = if is_delivered q.state then q.state else if sent then forwarded else queued;
          attempts = q.attempts + 1;
          next = node.now + (if sent then 30 else min 30 (2 ^ min (attempts + 1) 5));
          next_hop = p;
        })
        r.queue;
}

module _ (env : Env) (seal : Seal) (peers : Peers) where
  abbrev pub receivers : List (Signed HopBody) → List ℕ
  receivers = map (λ hop. hop.body.receiver)

  unfoldable pub paths_of : Node → Router → Routed → Signed SealedBody → Result (List (List ℕ))
  paths_of node r row obj = do
    guard (length row.chain == 0 || is_ok (require node r true)) denied
    routes node r row.destination (obj.body.origin ∷ receivers row.chain)
        (some (obj.body.max_hops - length row.chain))

  -- the attempt over the first three routes
  unfoldable pub attempt :
      Node
      → Router
      → ℕ
      → Routed
      → Signed SealedBody
      → Result (List (List ℕ))
      → Router × Result (Unit {0})
  unfolding try_routes prefer_other note_hop
  attempt node r id row obj (err e) = (r, err e)
  attempt node r id row obj (ok paths) =
      let (r', p, sent) =
        try_routes env seal peers node r obj row.chain (take 3 (prefer_other row paths)) 0 in
      (note_hop node r' id row.attempts p sent, ok tt)

  -- `deliver` of the row that is due; a wire that is gone does not decode
  unfoldable pub deliver_wire :
      Node → Router → ℕ → Routed → Option (Signed SealedBody) → Router × Result (Unit {0})
  unfolding attempt paths_of
  deliver_wire node r id row none = (r, err invalid)
  deliver_wire node r id row (some obj) = attempt node r id row obj (paths_of node r row obj)

  unfoldable pub deliver_due : Node → Router → Option (ℕ × Routed) → Router × Result (Unit {0})
  unfolding deliver_wire
  deliver_due node r none = (r, ok tt)
  deliver_due node r (some (id, row)) = deliver_wire node r id row row.wire

  unfoldable pub deliver_allowed : Node → Router → Result (Unit {0}) → Router × Result (Unit {0})
  unfolding expire_queue next_due deliver_due
  deliver_allowed node r (err e) = (r, err e)
  deliver_allowed node r (ok done) =
      let swept = expire_queue node.now r in deliver_due node swept (next_due node.now swept.queue)

  -- `deliver`
  unfoldable pub deliver : Node → Router → Router × Result (Unit {0})
  unfolding deliver_allowed
  deliver node r = deliver_allowed node r (require node r false >> capability node Capability.send)
