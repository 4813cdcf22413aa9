-- ===== src/Routing/Paying.antt =====
-- agentmesh/routing.py: the work that pays for a hop. What other peers do, and how long a search for
-- a nonce takes, is given by `Peers`.
use intertexum.Prelude.{
  ℕ, zero, suc, ◌+◌, ◌-◌, ◌/◌, ◌%◌, ◌^◌, Bool, false, ◌&&◌, ◌==◌, leb, ltb, List, Option, none,
  some, Table, lookup, insert_new, update, keep_rows, min, max, Result, ok, err, denied, guard,
  ◌>>=◌, ◌>>◌, if◌then◌else◌,
}
use intertexum.Crypto.{Env, Signed, SealedBody, HopBody, of_hop, sign}
use intertexum.State.{Capability, Node}
use intertexum.Policy.{capability}
use intertexum.Routing.{Router, RouteConfig, require}
use intertexum.Routing.Custody.{Seal, last_hop}

-- `route_work`, reserved for the current hour
unfoldable pub spent_in : ℕ → Table ℕ → ℕ
spent_in hour work = elim (lookup hour work) [ none ↦ 0 | some ms ↦ ms ]

unfoldable pub reserve_work : Node → Router → RouteConfig → Result Router
unfolding spent_in
reserve_work node r c = do
  let hour = node.now / 3600
  let rows = insert_new hour 0 (keep_rows (λ h _. h == hour) r.work)
  guard (leb (spent_in hour rows + c.max_solve_ms) c.solve_hour_ms) denied
  ok (record r { work = update hour (λ ms. ms + c.max_solve_ms) rows })

-- the refund in `finally`; `elapsed` is the time that the search took
unfoldable pub refund_work : Node → Router → RouteConfig → ℕ → Router
refund_work node r c elapsed =
    let used = min c.max_solve_ms (max 1 (elapsed + 1)) in
    record r { work = update (node.now / 3600) (λ ms. ms - (c.max_solve_ms - used)) r.work }

-- the loop of `pay` over nonces; `late` is the clock, and none stands for fuel that does not last
unfoldable pub find_nonce : (ℕ → Bool) → (ℕ → Bool) → ℕ → ℕ → Option (Result ℕ)
find_nonce solves late zero nonce = if solves nonce then some (ok nonce) else none
find_nonce solves late (suc fuel) nonce =
    let rest = find_nonce solves late fuel (nonce + 1) in
    if solves nonce
    then some (ok nonce)
    else if (nonce + 1) % 1024 == 0 && late (nonce + 1)
    then some (err denied)
    else rest

-- what the peers on the other side do, and how long a search for a nonce takes
pub record Peers : Type 0 where
  -- the clock of `pay`, read at a nonce, the milliseconds that its loop takes, and fuel for
  -- the loop, which is taken to be late when that is spent
  pub late : ℕ → Bool
  pub elapsed : ℕ
  pub fuel : ℕ
  -- whether the peer answers that it has custody of the envelope with that chain
  pub takes : ℕ → Signed SealedBody → List (Signed HopBody) → Bool

module _ (env : Env) (seal : Seal) (peers : Peers) where
  unfoldable pub hop_body : Node → Signed SealedBody → List (Signed HopBody) → ℕ → ℕ → HopBody
  hop_body node obj chain p bits = record {
    envelope = obj.id;
    payer = node.id;
    receiver = p;
    previous = elim (last_hop env seal chain) [ none ↦ obj.id | some hop ↦ hop.id ];
    expires = obj.body.expires;
    bits = bits;
    nonce = 0;
  }

  -- the loop of `pay` for a hop
  unfoldable pub solve_hop : HopBody → Result ℕ
  unfolding find_nonce
  solve_hop h =
      elim (find_nonce (λ n. ltb (seal.hop_hash (record h { nonce = n })) (2 ^ (256 - h.bits)))
        peers.late peers.fuel 0) [ none ↦ err denied | some found ↦ found ]

  -- the end of `pay`
  unfoldable pub sign_hop : Node → Router → HopBody → Result ℕ → Router × Result (Signed HopBody)
  sign_hop node r h (err e) = (r, err e)
  sign_hop node r h (ok nonce) = (r, ok (sign env of_hop node.key (record h { nonce = nonce })))

  -- `pay`: the work is reserved before it is done, and what is left of it comes back
  unfoldable pub pay_reserved :
      Node → Router → RouteConfig → HopBody → Result Router → Router × Result (Signed HopBody)
  unfolding sign_hop refund_work solve_hop
  pay_reserved node r c h (err e) = (r, err e)
  pay_reserved node r c h (ok reserved) =
      sign_hop node (refund_work node reserved c peers.elapsed) h (solve_hop h)

  unfoldable pub may_pay : Node → Router → ℕ → Result RouteConfig
  may_pay node r bits = do
    c ← require node r false
    capability node Capability.send
    guard (leb bits c.max_solve_bits) denied
    ok c

  unfoldable pub pay_allowed :
      Node → Router → HopBody → Result RouteConfig → Router × Result (Signed HopBody)
  unfolding pay_reserved reserve_work
  pay_allowed node r h (err e) = (r, err e)
  pay_allowed node r h (ok c) = pay_reserved node r c h (reserve_work node r c)

  unfoldable pub pay :
      Node
      → Router
      → Signed SealedBody
      → List (Signed HopBody)
      → ℕ
      → ℕ
      → Router × Result (Signed HopBody)
  unfolding pay_allowed may_pay hop_body
  pay node r obj chain p bits =
      pay_allowed node r (hop_body node obj chain p bits) (may_pay node r bits)
