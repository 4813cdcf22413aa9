-- ===== src/Policy.antt =====
-- The owner's policy files: the capabilities of agentmesh/onboarding.py and the source selection of
-- agentmesh/source_policy.py.
use intertexum.Prelude.{
  ℕ, Bool, true, false, not, ◌&&◌, ◌||◌, ◌==◌, List, [], ◌∷◌, ◌++◌, Option, none, some, elem, any,
  all, keep, length, leb, take, Result, ok, invalid, denied, guard, ◌>>◌, if◌then◌else◌, has,
}
use intertexum.Crypto.{RecordBody, Signed, valid_id}
use intertexum.State.{Capability, Mode, standard, provider, SourcePolicy, Node}

-- `PROVIDER_DISABLED`
unfoldable pub provider_disabled : Capability → Bool
provider_disabled Capability.search = true
provider_disabled Capability.fetch = true
provider_disabled Capability.approve = true
provider_disabled Capability.send = true
provider_disabled Capability.receive = true
provider_disabled Capability.threads = true
provider_disabled Capability.cache = true
provider_disabled Capability.reshare = true
provider_disabled Capability.reward_relays = true
provider_disabled _ = false

abbrev pub is_provider : Mode → Bool
is_provider provider = true
is_provider standard = false

-- `onboarding.policy(node)[name]`
unfoldable pub capable : Node → Capability → Bool
unfolding provider_disabled
capable node name =
    node.policy name && not (is_provider node.source_policy.mode && provider_disabled name)

-- `onboarding.require`; the file that suspends the network is not part of the state.
unfoldable pub capability : Node → Capability → Result (Unit {0})
capability node name = guard (capable node name) denied

-- One list of the policy: `items is not None and (len > 256 or invalid or repeated)`.
unfoldable pub is_distinct : List ℕ → Bool
is_distinct [] = true
is_distinct (x ∷ xs) = not (elem x xs) && is_distinct xs

unfoldable pub check_list : Option (List ℕ) → Result (Unit {0})
unfolding is_distinct
check_list none = ok tt
check_list (some items) = do
  guard (leb (length items) 256) invalid
  guard (all valid_id items) invalid
  guard (is_distinct items) invalid

unfoldable pub validate : SourcePolicy → Result SourcePolicy
validate c = do check_list c.sources; check_list c.authors; check_list c.senders; ok c

pub data Kind : Type 0 where
  sources authors senders : Kind

unfoldable pub list_of : SourcePolicy → Kind → Option (List ℕ)
list_of c sources = c.sources
list_of c authors = c.authors
list_of c senders = c.senders

unfoldable pub within : Option (List ℕ) → ℕ → Bool
within none peer = true
within (some items) peer = elem peer items

unfoldable pub allowed : Node → Kind → ℕ → Bool
unfolding list_of within
allowed node kind peer =
    peer == node.id
    || (not (is_provider node.source_policy.mode) && within (list_of node.source_policy kind) peer)

unfoldable pub require_source : Node → Kind → ℕ → Result (Unit {0})
require_source node kind peer = guard (allowed node kind peer) denied

abbrev pub is_none {ℓ} : {A : Type ℓ} → Option A → Bool
is_none none = true
is_none (some a) = false

-- the sources that `record_sources` names for a record
unfoldable pub suppliers : ℕ → List (ℕ × ℕ) → List ℕ
suppliers rid [] = []
suppliers rid ((r, s) ∷ rest) =
    let others = suppliers rid rest in if r == rid then s ∷ others else others

unfoldable pub record_allowed : Node → Signed RecordBody → Bool
record_allowed node obj =
    allowed node authors obj.body.origin
    && (obj.body.origin == node.id
        || is_none node.source_policy.sources
        || any (allowed node sources) (suppliers obj.id node.record_sources))

unfoldable pub require_record : Node → Signed RecordBody → Result (Unit {0})
require_record node obj = guard (record_allowed node obj) denied

-- insertion into a sorted list: `ORDER BY source`
unfoldable pub insert_sorted : ℕ → List ℕ → List ℕ
insert_sorted x [] = x ∷ []
insert_sorted x (y ∷ ys) = let rest = insert_sorted x ys in if leb x y then x ∷ y ∷ ys else y ∷ rest

unfoldable pub sort : List ℕ → List ℕ
unfolding insert_sorted
sort [] = []
sort (x ∷ xs) = insert_sorted x (sort xs)

-- the rows of `rid` that are left: those among its 256 smallest sources
unfoldable pub trim_sources : ℕ → List (ℕ × ℕ) → List (ℕ × ℕ)
unfolding sort
trim_sources rid rows =
    let kept = take 256 (sort (suppliers rid rows)) in
    keep (λ r. not (r.0 == rid) || elem r.1 kept) rows

unfoldable pub remember_source : Node → Signed RecordBody → ℕ → Result Node
remember_source node obj source = do
  require_source node sources source
  require_source node authors obj.body.origin
  let known = elem source (suppliers obj.id node.record_sources)
  let rows = if known then node.record_sources else node.record_sources ++ (obj.id, source) ∷ []
  if has obj.id node.records
      then ok (record node { record_sources = trim_sources obj.id rows })
      else ok node
