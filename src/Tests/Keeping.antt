-- ===== src/Tests/Keeping.antt =====
-- Runs of the transit cache, of maintenance, rejection and deletion, and of the rate limits, from
-- agentmesh/cache.py, agentmesh/lifecycle.py and agentmesh/defense.py.
use intertexum.Prelude.{
  ℕ, ◌+◌, ◌*◌, ◌≡◌, ◌≢◌, ◌⊎◌, ◌≤◌, refl, true, false, List, [], ◌∷◌, none, some, ok, err, Error,
  lookup, elem, arith, inl,
}
use intertexum.Records.{is_public}
use intertexum.State.{Node, Stored, private, accepted, pending}
use intertexum.Node.Active.{withdrawn}
use intertexum.Node.Share.{ingest}
use intertexum.Cache.{sweep}
use intertexum.Cache.Bounds.{IsWithin, sweep-IsWithin}
use intertexum.Cache.Keeps.{IsOwned, sweep-IsOwned}
use intertexum.Lifecycle.{retain, forget, maintain}
use intertexum.Lifecycle.Choices.{retain-reject, forget-gone}
use intertexum.Lifecycle.Upkeep.{maintain-own}
use intertexum.Defense.{Defense, Limit, token}
use intertexum.Defense.Rate.{attempts, total, attempts-le}
use intertexum.Tests.{program, env, node, base_record, derived, fresh, record_of, stored_as}

-- two transit copies where one is allowed, and a foreign record under a retention row
abbrev crowded : Node
crowded = record node {
  records =
      (1003, stored_as pending fresh)
      ∷ (1004, stored_as pending (record_of 2 7 4 []))
      ∷ node.records;
  transit =
      (1003, record { expires = 9000; used = 7000; bytes = 10 })
      ∷ (1004, record { expires = 9000; used = 7100; bytes = 10 })
      ∷ [];
  retention = (1001, record { priority = 1; pinned = false; expires = 0 }) ∷ [];
}

derived-IsOwned : IsOwned crowded 1002 (stored_as accepted derived)
unfolding program
derived-IsOwned = record { stored = refl; taken = inl (ground arith) }

sweep-IsOwned_example : IsOwned (sweep crowded).0 1002 (stored_as accepted derived)
sweep-IsOwned_example = sweep-IsOwned 1002 (stored_as accepted derived) crowded derived-IsOwned

swept : (sweep crowded).1 ≡ 1
unfolding program
swept = refl

-- the evicted record is the foreign one with a retention row, and the copy goes with the sweep
abbrev small : Node
small = record crowded {
  records =
      (1004, stored_as pending (record_of 2 7 4 [])) ∷ (1002, stored_as accepted derived) ∷ [];
  transit = (1004, record { expires = 9000; used = 7100; bytes = 10 }) ∷ [];
  retention = [];
}

maintains : maintain crowded 0 (some 1) ≡ ok (small, 2)
unfolding program
maintains = refl

own_row : lookup 1002 crowded.records ≡ some (stored_as accepted derived)
unfolding program
own_row = refl

not_pending : accepted ≢ pending
not_pending = λ e. cc e

maintain-own_example : lookup 1002 small.records ≡ some (stored_as accepted derived)
maintain-own_example =
    maintain-own crowded 0 (some 1) small 2 1002 (stored_as accepted derived) own_row refl
      not_pending maintains

abbrev rejecting : Node
rejecting = record node { records = (1002, stored_as accepted derived) ∷ []; rejected = 1001 ∷ [] }

rejects : retain node 1001 0 false 0 true ≡ ok rejecting
unfolding program
rejects = refl

retain-reject_example :
    ((row : Stored) × (lookup 1001 node.records ≡ some row)
      × (row.state ≢ private)
      × (row.wire.body.origin ≢ 1))
    × (lookup 1001 rejecting.records ≡ none)
    × ((e : Error) × (ingest env rejecting base_record none ≡ (err e, rejecting)))
retain-reject_example =
    retain-reject env node 1001 0 0 false rejecting base_record none rejects refl

-- a private record of the node
abbrev keeping : Node
keeping = record node { records = (1002, stored_as private derived) ∷ [] }

abbrev emptied : Node
emptied = record node { records = []; public_tombstones = 1002 ∷ [] }

forgets : forget keeping 1002 ≡ ok emptied
unfolding program
forgets = refl

private_row : lookup 1002 keeping.records ≡ some (stored_as private derived)
unfolding program
private_row = refl

forget-gone_example :
    (derived.body.origin ≡ 1)
    × ((private ≡ private) ⊎ (withdrawn emptied 1002 1 ≡ true))
    × (lookup 1002 emptied.records ≡ none)
    × ((is_public derived.body.audience ≡ false) ⊎ (elem 1002 emptied.public_tombstones ≡ true))
forget-gone_example =
    forget-gone keeping 1002 (stored_as private derived) emptied private_row forgets

abbrev defense : Defense
defense = record {
  clock = 1000;
  blocks = [];
  audits = [];
  evidence = [];
  buckets = [];
  failures = [];
}

-- the limit on the searches of one peer: two a second, and a burst of eight
abbrev searches : Limit
searches = record { key = 65; rate = 120; burst = 8 }

abbrev gaps : List ℕ
gaps = 0 ∷ 0 ∷ 100 ∷ 500 ∷ []

granted : (attempts searches defense gaps).1 ≡ 4
unfolding program attempts
granted = refl

attempts-le_example : (attempts searches defense gaps).1 * token ≤ 8 * token + total gaps * 120
attempts-le_example = attempts-le searches defense gaps (omega arith)

sweep-IsWithin_example : IsWithin crowded.cache_settings (sweep crowded).0.transit
sweep-IsWithin_example = sweep-IsWithin crowded
