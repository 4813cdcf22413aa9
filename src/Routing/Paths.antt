-- ===== src/Routing/Paths.antt =====
-- `routes` of agentmesh/routing.py: the breadth-first search over the advertised links.
--
-- A path stands with its last peer first, as it grows, and is never empty. `search` recurses on fuel, which `routes`
-- gives by `route_fuel`.
pub mod Total
pub mod Sound
use intertexum.Prelude.{
  ℕ, zero, suc, ◌+◌, ◌-◌, ◌*◌, ◌^◌, Bool, true, false, not, ◌&&◌, ◌||◌, ◌==◌, leb, ltb, elem, keep,
  length, List, [], ◌∷◌, ◌++◌, map, Option, none, some, Table, lookup, has, min, max, Result, ok,
  err, denied, guard, ◌>>=◌, ◌>>◌, if◌then◌else◌, sum_by,
}
use intertexum.Crypto.{LsaBody}
use intertexum.State.{Node}
use intertexum.Policy.{sort}
use intertexum.Routing.{Router, RouteConfig, require, table, neighbors}

-- the links that a peer advertises, and whether it forwards
unfoldable pub links_of : Table LsaBody → ℕ → List ℕ
links_of ads p = elim (lookup p ads) [ none ↦ [] | some b ↦ b.links ]

unfoldable pub forwards : Table LsaBody → ℕ → Bool
forwards ads p = elim (lookup p ads) [ none ↦ false | some b ↦ b.forward ]

unfoldable pub cost_of : Table LsaBody → ℕ → ℕ
cost_of ads p = elim (lookup p ads) [ none ↦ 0 | some b ↦ 2 ^ b.bits ]

-- what one search reads
pub record Network : Type 0 where
  pub ads : Table LsaBody
  pub here : ℕ
  pub near : List ℕ
  pub failures : Table ℕ
  pub now : ℕ
  pub destination : ℕ
  pub visited : List ℕ
  pub limit : ℕ

abbrev pub Walk : Type 0
Walk = List ℕ

abbrev pub failed_until : Network → ℕ → ℕ
failed_until net p = elim (lookup p net.failures) [ none ↦ 0 | some until ↦ until ]

abbrev pub max_queue : ℕ
max_queue = 256

abbrev pub max_found : ℕ
max_found = 8

module _ (net : Network) where
  -- the tests of the inner loop on a link from `at`
  unfoldable pub may_step : ℕ → Walk → ℕ → Bool
  unfolding links_of
  may_step at path p =
      not (elem p path || elem p net.visited)
      && has p net.ads
      && elem at (links_of net.ads p)
      && (not (at == net.here) || (elem p net.near && leb (failed_until net p) net.now))

  unfoldable pub extensions : ℕ → Walk → List Walk
  unfolding may_step
  extensions at path = map (λ p. p ∷ path) (keep (may_step at path) (sort (links_of net.ads at)))

  abbrev pub stops : ℕ → Walk → Bool
  stops at path =
      leb net.limit (length path - 1) || (not (at == net.here) && not (forwards net.ads at))

  -- the paths behind one that did not arrive, and whether the search goes on
  unfoldable pub grow : ℕ → Walk → List Walk → List Walk
  unfolding extensions
  grow at path rest = if stops at path then rest else rest ++ extensions at path

  -- the loop; none where the fuel does not last
  unfoldable pub search : ℕ → List Walk → List Walk → Option (List Walk)
  unfolding grow
  search fuel [] found = some found
  search fuel ([] ∷ queue) found = some found
  search zero ((at ∷ path) ∷ queue) found = none
  search (suc fuel) ((at ∷ path) ∷ queue) found =
      let arrived = search fuel queue (found ++ (at ∷ path) ∷ []) in
      let next = grow at (at ∷ path) queue in
      let onward = search fuel next found in
      if leb max_found (length found)
      then some found
      else if at == net.destination
      then arrived
      else if not (stops at (at ∷ path)) && ltb max_queue (length next)
      then some found
      else onward

-- the order of the answer: by length, then by price, then by the IDs
unfoldable pub before : List ℕ → List ℕ → Bool
before [] ys = true
before (x ∷ xs) [] = false
before (x ∷ xs) (y ∷ ys) = let rest = before xs ys in ltb x y || (x == y && rest)

abbrev pub toll : Table LsaBody → List ℕ → ℕ
toll ads = sum_by (cost_of ads)

unfoldable pub preferred : Table LsaBody → List ℕ → List ℕ → Bool
unfolding before cost_of
preferred ads p q =
    ltb (length p) (length q)
    || (length p == length q
        && (ltb (toll ads p) (toll ads q) || (toll ads p == toll ads q && before p q)))

unfoldable pub insert_route : Table LsaBody → List ℕ → List (List ℕ) → List (List ℕ)
insert_route ads p [] = p ∷ []
insert_route ads p (q ∷ qs) =
    let rest = insert_route ads p qs in if preferred ads p q then p ∷ q ∷ qs else q ∷ rest

unfoldable pub sort_routes : Table LsaBody → List (List ℕ) → List (List ℕ)
unfolding insert_route
sort_routes ads [] = []
sort_routes ads (p ∷ ps) = insert_route ads p (sort_routes ads ps)

-- `path[1:]`, in the order in which the hops follow
unfoldable pub reverse_onto : List ℕ → List ℕ → List ℕ
reverse_onto [] acc = acc
reverse_onto (x ∷ xs) acc = reverse_onto xs (x ∷ acc)

abbrev pub tail_of : List ℕ → List ℕ
tail_of [] = []
tail_of (x ∷ xs) = xs

unfoldable pub hops : Walk → List ℕ
unfolding reverse_onto
hops path = tail_of (reverse_onto path [])

-- rounds that suffice for a path which may grow by `left` links, each peer with at most `width`
unfoldable pub rounds : ℕ → ℕ → ℕ
rounds width zero = 1
rounds width (suc left) = 1 + width * rounds width left

unfoldable pub width_of : Table LsaBody → ℕ
width_of [] = 0
width_of ((_, b) ∷ ads) = max (length b.links) (width_of ads)

abbrev pub route_fuel : Network → ℕ
route_fuel net = rounds (width_of net.ads) net.limit

-- the answer for what was found
unfoldable pub finish_routes : Table LsaBody → Option (List Walk) → Result (List (List ℕ))
unfolding sort_routes hops
finish_routes ads none = err denied
finish_routes ads (some found) = ok (sort_routes ads (map hops found))

unfoldable pub network_of : Node → Router → ℕ → List ℕ → ℕ → Network
network_of node r destination visited limit = record {
  ads = table node r;
  here = node.id;
  near = neighbors node r;
  failures = r.failures;
  now = node.now;
  destination = destination;
  visited = visited;
  limit = limit;
}

abbrev pub hop_limit : RouteConfig → Option ℕ → ℕ
hop_limit c none = c.max_hops
hop_limit c (some remaining) = min remaining c.max_hops

-- `routes`
unfoldable pub routes : Node → Router → ℕ → List ℕ → Option ℕ → Result (List (List ℕ))
unfolding search finish_routes network_of rounds width_of
routes node r destination visited remaining = do
  c ← require node r false
  let net = network_of node r destination visited (hop_limit c remaining)
  finish_routes net.ads (search net (route_fuel net) ((node.id ∷ []) ∷ []) [])
