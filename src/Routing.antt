-- ===== src/Routing.antt =====
-- agentmesh/routing.py: the owner's routing policy and the link-state advertisements.
--
-- `Router` holds the tables `route_*`, the policy file and the two dictionaries of the running node.
-- A row of `route_lsas` is its wire, whose body has the sequence number and the expiry. A request of
-- the network client is its answer: the dictionary that it decodes to, or none where it raises.
pub mod Gossip
pub mod Paths
pub mod Custody
pub mod Exchange
pub mod Paying
pub mod Delivery
use intertexum.Prelude.{
  ℕ, ◌+◌, ◌^◌, Bool, true, false, not, ◌&&◌, ◌||◌, ◌==◌, leb, ltb, elem, any, all, keep, take,
  length, List, [], ◌∷◌, ◌++◌, map, Option, none, some, Table, lookup, has, delete, replace,
  keep_rows, by_key, max, Result, ok, err, Error, invalid, denied, guard, ◌>>=◌, ◌>>◌,
  if◌then◌else◌, is_ok,
}
use intertexum.Crypto.{
  Env, Signed, LsaBody, of_lsa, SealedBody, HopBody, DeliveryBody, sign, verify, valid_id,
}
use intertexum.State.{Capability, Node}
use intertexum.Policy.{capability, is_distinct, is_provider, sort}
use intertexum.Node.Peers.{key_of, peer}
use intertexum.Work.{between, is_banned}

-- `DEFAULTS` of the routing policy
pub record RouteConfig : Type 0 where
  pub enabled : Bool
  pub forward : Bool
  pub neighbors : List ℕ
  pub pow_bits : ℕ
  pub max_hops : ℕ
  pub max_solve_bits : ℕ
  pub max_solve_ms : ℕ
  pub solve_hour_ms : ℕ
  pub max_pending : ℕ
  pub max_bytes : ℕ

-- a row of `route_queue`; the wire and the chain go when the entry expires
pub data RouteState : Type 0 where
  queued forwarded delivered expired : RouteState

pub record Routed : Type 0 where
  pub message : ℕ
  pub origin : ℕ
  pub destination : ℕ
  pub wire : Option (Signed SealedBody)
  pub chain : List (Signed HopBody)
  pub state : RouteState
  pub attempts : ℕ
  pub next : ℕ
  pub expires : ℕ
  pub next_hop : ℕ

pub record Router : Type 0 where
  pub config : RouteConfig
  pub lsas : Table (Signed LsaBody)
  pub sequence : ℕ
  pub queue : Table Routed
  pub receipts : Table (Signed DeliveryBody)
  -- the hours of `route_work`, with the milliseconds spent
  pub work : Table ℕ
  pub links : Table ℕ
  pub failures : Table ℕ

-- `validate_config`, of the values over the defaults
unfoldable pub validate_config : RouteConfig → Result RouteConfig
validate_config c = do
  guard (between 8 24 c.pow_bits) invalid
  guard (between 1 4 c.max_hops) invalid
  guard (between 8 24 c.max_solve_bits) invalid
  guard (between 100 10000 c.max_solve_ms) invalid
  guard (between 1000 3600000 c.solve_hour_ms) invalid
  guard (between 1 1024 c.max_pending) invalid
  guard (between 65536 33554432 c.max_bytes) invalid
  guard (leb (length c.neighbors) 8 && all valid_id c.neighbors && is_distinct c.neighbors) invalid
  ok c

-- `config`
unfoldable pub config : Node → Router → RouteConfig
config node r =
    if is_provider node.source_policy.mode
    then record r.config { enabled = false; forward = false }
    else r.config

unfoldable pub check_peers : Node → List ℕ → Result (Unit {0})
check_peers node [] = ok tt
check_peers node (p ∷ rest) = let others = check_peers node rest in peer node p false >> others

-- `configure`
unfoldable pub configure : Node → Router → RouteConfig → Result Router
unfolding validate_config check_peers
configure node r values = do
  c ← validate_config values
  check_peers node c.neighbors
  ok (record r { config = c })

-- `require`
unfoldable pub require : Node → Router → Bool → Result RouteConfig
unfolding config
require node r forwarding = do
  capability node Capability.network
  let c = config node r
  guard (c.enabled && (not forwarding || c.forward)) denied
  ok c

-- `neighbors`
unfoldable pub listed_peers : Node → Router → List ℕ
unfolding config
listed_peers node r = elim (config node r).neighbors [
  | [] ↦ take 8 (sort (map (λ p. p.0) node.peers))
  | p ∷ rest ↦ p ∷ rest
]

abbrev pub is_neighbor : Node → ℕ → Bool
is_neighbor node p = is_ok (peer node p false) && not (p == node.id) && not (is_banned node p)

unfoldable pub neighbors : Node → Router → List ℕ
unfolding listed_peers
neighbors node r = keep (is_neighbor node) (listed_peers node r)

-- `price`
unfoldable pub price : Node → Router → ℕ
unfolding config
price node r = max (config node r).pow_bits node.work_config.bits

abbrev pub max_lsas : ℕ
max_lsas = 32

-- `_store_lsa`
unfoldable pub store_new : Router → Signed LsaBody → Option (Signed LsaBody) → Result Router
store_new r obj none = do
  guard (ltb (length r.lsas) max_lsas) denied
  ok (record r { lsas = replace obj.body.origin obj r.lsas })
store_new r obj (some old) =
    if leb obj.body.seq old.body.seq
    then ok r
    else ok (record r { lsas = replace obj.body.origin obj r.lsas })

unfoldable pub store_lsa : Router → Signed LsaBody → Result Router
unfolding store_new
store_lsa r obj = store_new r obj (lookup obj.body.origin r.lsas)

-- the tests of `ingest_lsa` on a body, at a time
unfoldable pub valid_lsa : ℕ → LsaBody → Bool
valid_lsa now b =
    b.version == 1
    && (ltb 0 b.seq && ltb b.seq (2 ^ 63))
    && (ltb now b.expires && leb b.expires (now + 120))
    && between 8 28 b.bits
    && valid_id b.key
    && leb (length b.links) 8
    && all (λ p. valid_id p && not (p == b.origin)) b.links
    && is_distinct b.links

module _ (env : Env) where
  -- `advertise`; `key` is the public half of the node's route key
  unfoldable pub advertise : Node → Router → ℕ → Result (Router × Signed LsaBody)
  unfolding store_lsa require neighbors price
  advertise node r key = do
    c ← require node r false
    let seq = r.sequence + 1
    let live = keep_rows (λ p until. ltb node.now until && elem p (neighbors node r)) r.links
    let body : LsaBody = record {
      version = 1;
      origin = node.id;
      seq = seq;
      expires = node.now + 90;
      links = sort (map (λ l. l.0) live);
      forward = c.forward;
      bits = price node r;
      key = key;
    }
    let obj = sign env of_lsa node.key body
    r' ← store_lsa (record r { sequence = seq }) obj
    ok (r', obj)

  -- `ingest_lsa`
  unfoldable pub ingest_lsa : Node → Router → Signed LsaBody → Result Router
  unfolding store_lsa valid_lsa
  ingest_lsa node r obj = do
    guard (valid_id obj.body.origin && leb (env.wire_size (of_lsa obj.body)) 16384) invalid
    key ← key_of env node obj.body.origin false
    b ← verify env of_lsa obj key
    guard (valid_lsa node.now b) invalid
    if b.origin == node.id then ok r else store_lsa r obj

-- `table`: the live advertisements of peers that the node would talk to
abbrev pub is_trusted : Node → ℕ → Bool
is_trusted node origin =
    (origin == node.id || is_ok (peer node origin false)) && not (is_banned node origin)

unfoldable pub table : Node → Router → Table LsaBody
table node r =
    map (λ row. (row.1.body.origin, row.1.body))
      (keep_rows (λ _ obj. ltb node.now obj.body.expires && is_trusted node obj.body.origin) r.lsas)
