-- ===== src/Routing/Paths/Sound.antt =====
-- agentmesh/routing.py: what the routes of `routes` are.
use intertexum.Prelude.{ℕ, ◌+◌, ◌≤◌, ◌≡◌, true, false, length, List, [], ◌∷◌}
use intertexum.Policy.{is_distinct}
use intertexum.Routing.Paths.{Network, Walk, may_step, stops, hops}

-- A walk from the node: each step goes by a link that both ends advertise, to a peer that was not
-- visited, and past the node itself only by peers that forward.
pub data IsWalk (net : Network) : Walk → Type 0 where
  start : IsWalk net (net.here ∷ [])
  step :
      {at p : ℕ} {path : Walk}
      → IsWalk net (at ∷ path)
      → may_step net at (at ∷ path) p ≡ true
      → stops net at (at ∷ path) ≡ false
      → IsWalk net (p ∷ at ∷ path)

-- a walk that arrived
pub record IsArrived (net : Network) (w : Walk) : Type 0 where
  pub path : Walk
  pub arrives : w ≡ net.destination ∷ path
  pub walk : IsWalk net w

-- A route: the hops of a walk that arrived, which repeats no peer and keeps the hop limit.
pub record IsRoute (net : Network) (route : List ℕ) : Type 0 where
  pub walk : Walk
  pub route_of : hops walk ≡ route
  pub arrived : IsArrived net walk
  pub simple : is_distinct walk ≡ true
  pub short : length walk ≤ net.limit + 1
