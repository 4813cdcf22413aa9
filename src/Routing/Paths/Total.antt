-- ===== src/Routing/Paths/Total.antt =====
-- agentmesh/routing.py: the search of `routes` ends.
use intertexum.Prelude.{
  ℕ, zero, suc, ◌+◌, ◌-◌, ◌*◌, ◌≤◌, ◌≡◌, ◌∙◌, refl, ap, Bool, true, false, not, ◌&&◌, ◌==◌, leb,
  ltb, keep, length, List, [], ◌∷◌, ◌++◌, map, Option, some, Table, lookup, ok, arith, Bool-cases,
  inl, inr, if◌then◌else◌, sum_by, sum_by-append, length-keep-le,
}
use intertexum.Crypto.{LsaBody}
use intertexum.State.{Node}
use intertexum.Policy.{sort, insert_sorted}
use intertexum.Routing.{Router, require, RouteConfig}
use intertexum.Routing.Paths.{
  Network, Walk, links_of, may_step, extensions, stops, grow, search, rounds, width_of, route_fuel,
  routes, finish_routes, network_of, hop_limit, max_queue, max_found,
}

length-insert_sorted : (x : ℕ) (xs : List ℕ) → length (insert_sorted x xs) ≡ suc (length xs)
unfolding insert_sorted
length-insert_sorted x [] = refl
length-insert_sorted x (y ∷ ys) = ground (arith, length-insert_sorted x ys)

length-sort : (xs : List ℕ) → length (sort xs) ≡ length xs
unfolding sort
length-sort [] = refl
length-sort (x ∷ xs) = length-insert_sorted x (sort xs) ∙ ap suc (length-sort xs)

length-links_of-le : (ads : Table LsaBody) (p : ℕ) → length (links_of ads p) ≤ width_of ads
unfolding links_of width_of lookup
length-links_of-le [] p = omega arith
length-links_of-le ((j, b) ∷ ads) p = ground (arith, length-links_of-le ads p)

rounds_pos : (width left : ℕ) → 1 ≤ rounds width left
unfolding rounds
rounds_pos width zero = omega arith
rounds_pos width (suc left) = grind arith

module _ (net : Network) where
  -- the rounds that a waiting path can bring
  weight : Walk → ℕ
  weight p = rounds (width_of net.ads) (net.limit + 1 - length p)

  weight-children :
      (path : Walk) (ps : List ℕ)
      → sum_by weight (map (λ p. p ∷ path) ps)
        ≡ length ps * rounds (width_of net.ads) (net.limit - length path)
  unfolding weight
  weight-children path [] = omega arith
  weight-children path (p ∷ ps) =
      let same : net.limit + 1 - suc (length path) ≡ net.limit - length path = omega arith in
      rw same (grind (arith, weight-children path ps))

  mul_mono : (a b c : ℕ) → a ≤ b → a * c ≤ b * c
  mul_mono a b c h = grind arith

  -- A path that goes on is worth one round more than the paths that it grows to.
  weight-grow :
      (at : ℕ) (path : Walk) (queue : List Walk)
      → sum_by weight (grow net at (at ∷ path) queue) + 1 ≤ weight (at ∷ path) + sum_by weight queue
  unfolding grow weight rounds extensions
  weight-grow at path queue = elim (Bool-cases (stops net at (at ∷ path))) [
    | inl e ↦
        rw e (omega (arith, rounds_pos (width_of net.ads) (net.limit + 1 - suc (length path))))
    | inr e ↦ rw e (grown (net.limit - suc (length path)) (ground arith))
  ]
    where
      grown :
          (left : ℕ)
          → net.limit + 1 - suc (length path) ≡ suc left
          → sum_by weight (queue ++ extensions net at (at ∷ path)) + 1
            ≤ rounds (width_of net.ads) (net.limit + 1 - suc (length path)) + sum_by weight queue
      grown left e =
          let same : net.limit - suc (length path) ≡ left = omega arith in
          let ps = keep (may_step net at (at ∷ path)) (sort (links_of net.ads at)) in
          let count : length ps ≤ width_of net.ads = omega (
            arith,
            length-keep-le (may_step net at (at ∷ path)) (sort (links_of net.ads at)),
            length-sort (links_of net.ads at),
            length-links_of-le net.ads at,
          ) in
          let children : sum_by weight (extensions net at (at ∷ path))
              ≡ length ps * rounds (width_of net.ads) left =
            weight-children (at ∷ path) ps
            ∙ ap (λ k. length ps * rounds (width_of net.ads) k) same in
          let all = sum_by-append weight queue (extensions net at (at ∷ path)) in
          let bound =
            mul_mono (length ps) (width_of net.ads) (rounds (width_of net.ads) left) count in
          rw e (omega (arith, all, children, bound))

  weight_pos : (p : Walk) → 1 ≤ weight p
  unfolding weight
  weight_pos p = rounds_pos (width_of net.ads) (net.limit + 1 - length p)

  -- each outcome of a round is an answer
  answered :
      (full arrived broke : Bool) (found a b : List Walk)
      → (all : List Walk) × ((if full
            then some found
            else if arrived
            then some a
            else if broke
            then some found
            else some b)
          ≡ some all)
  answered true arrived broke found a b = (found, refl)
  answered false true broke found a b = (a, refl)
  answered false false true found a b = (found, refl)
  answered false false false found a b = (b, refl)

  -- With fuel for every waiting path the loop ends.
  search_ends :
      (fuel : ℕ) (queue found : List Walk)
      → sum_by weight queue ≤ fuel
      → (all : List Walk) × (search net fuel queue found ≡ some all)
  unfolding search
  search_ends fuel [] found h = (found, refl)
  search_ends fuel ([] ∷ queue) found h = (found, refl)
  search_ends zero ((at ∷ path) ∷ queue) found h = absurd (omega (arith, weight_pos (at ∷ path)))
  search_ends (suc fuel) ((at ∷ path) ∷ queue) found h =
      let (a, e) =
        search_ends fuel queue (found ++ (at ∷ path) ∷ [])
          (omega (arith, weight_pos (at ∷ path))) in
      let (b, e') =
        search_ends fuel (grow net at (at ∷ path) queue) found
          (omega (arith, weight-grow at path queue)) in
      rw (e, e')
        (answered (leb max_found (length found)) (at == net.destination)
          (not (stops net at (at ∷ path)) && ltb max_queue (length (grow net at (at ∷ path) queue)))
          found a b)

start_fuel : (net : Network) (at : ℕ) → sum_by (weight net) ((at ∷ []) ∷ []) ≤ route_fuel net
unfolding weight
start_fuel net at =
    let same : net.limit + 1 - 1 ≡ net.limit = omega arith in
    omega (arith, ap (rounds (width_of net.ads)) same)

-- `routes` answers wherever routing is enabled: the fuel is enough for every table.
pub routes_answer :
    (node : Node) (r : Router) (destination : ℕ) (visited : List ℕ) (remaining : Option ℕ)
    (c : RouteConfig)
    → require node r false ≡ ok c
    → (all : List (List ℕ)) × (routes node r destination visited remaining ≡ ok all)
unfolding routes finish_routes
routes_answer node r destination visited remaining c e =
    let net = network_of node r destination visited (hop_limit c remaining) in
    let (found, ends) =
      search_ends net (route_fuel net) ((node.id ∷ []) ∷ []) [] (start_fuel net node.id) in
    rw (e, ends) (_, refl)
