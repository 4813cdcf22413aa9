-- ===== src/Routing/Custody/Chain.antt =====
-- agentmesh/routing.py: the chain of hops of an envelope that is accepted.
use intertexum.Prelude.{
  ℕ, ◌-◌, ◌^◌, ◌≤◌, ◌<◌, ◌≡◌, refl, true, false, leb, elem, length, List, [], ◌∷◌, Option, none,
  some, ok, invalid, denied, arith, >>=-eq-ok, guard-eq-ok,
}
use mathlib.Core.Path.{subst}
use intertexum.Crypto.{Env, Signed, SealedBody, HopBody, of_hop, verify}
use intertexum.State.{Node, Capability}
use intertexum.Policy.{capability}
use intertexum.Node.Peers.{key_of, peer}
use intertexum.Work.{between}
use intertexum.Routing.{Router, require, price, RouteConfig}
use intertexum.Routing.Custody.{
  Seal, proves, valid_hop, follow, last_hop, check_last, check_chain, accept, check_envelope,
}

module _ (env : Env) (seal : Seal) (node : Node) (obj : Signed SealedBody) where
  -- A hop that its payer signed and paid for: it hands this envelope on to a peer that has not had
  -- it, names the object before it, and its nonce solves the work that it states.
  pub record IsPaidHop (previous payer : ℕ) (visited : List ℕ) (hop : Signed HopBody) : Type 0 where
    pub key : ℕ
    pub pinned : key_of env node payer false ≡ ok key
    pub signed : env.verify_sig key hop.sig (of_hop hop.body) ≡ true
    pub same_envelope : hop.body.envelope ≡ obj.id
    pub by_payer : hop.body.payer ≡ payer
    pub linked : hop.body.previous ≡ previous
    pub new_peer : elem hop.body.receiver visited ≡ false
    pub least : 8 ≤ hop.body.bits
    pub paid : seal.hop_hash hop.body < 2 ^ (256 - hop.body.bits)

  -- paid hops from a payer to the peer that has the envelope at last
  pub data IsChain : ℕ → ℕ → List ℕ → List (Signed HopBody) → ℕ → Type 0 where
    done : {previous payer : ℕ} {visited : List ℕ} → IsChain previous payer visited [] payer
    next :
        {previous payer final : ℕ} {visited : List ℕ} {rest : List (Signed HopBody)}
        (hop : Signed HopBody)
        → IsPaidHop previous payer visited hop
        → IsChain hop.id hop.body.receiver (hop.body.receiver ∷ visited) rest final
        → IsChain previous payer visited (hop ∷ rest) final

  valid_hop-IsPaidHop :
      (previous payer key : ℕ) (visited : List ℕ) (hop : Signed HopBody)
      → key_of env node payer false ≡ ok key
      → verify env of_hop hop key ≡ ok hop.body
      → valid_hop env seal obj previous payer visited hop.body ≡ true
      → IsPaidHop previous payer visited hop
  unfolding valid_hop proves verify
  valid_hop-IsPaidHop previous payer key visited hop k v e = record {
    key = key;
    pinned = k;
    signed = ground arith;
    same_envelope = ground arith;
    by_payer = ground arith;
    linked = ground arith;
    new_peer = ground arith;
    least = ground arith;
    paid = ground arith;
  }

  verify-same :
      (hop : Signed HopBody) (key : ℕ) (h : HopBody)
      → verify env of_hop hop key ≡ ok h
      → h ≡ hop.body
  unfolding verify
  verify-same hop key h e = ground arith

  follow-IsChain :
      (previous payer : ℕ) (visited : List ℕ) (chain : List (Signed HopBody)) (final : ℕ)
      (seen : List ℕ)
      → follow env seal node obj previous payer visited chain ≡ ok (final, seen)
      → IsChain previous payer visited chain final
  unfolding follow
  follow-IsChain previous payer visited [] final seen e =
      let same : payer ≡ final = ground arith in rw (← same) done
  follow-IsChain previous payer visited (hop ∷ rest) final seen e =
      let (key, k, e1) = >>=-eq-ok (key_of env node payer false) _ e in
      let (h, v, e2) = >>=-eq-ok (verify env of_hop hop key) _ e1 in
      let (good, e3) = guard-eq-ok (valid_hop env seal obj previous payer visited h) invalid _ e2 in
      let same = verify-same hop key h v in
      next hop
        (valid_hop-IsPaidHop previous payer key visited hop k (rw same at v) (rw same at good))
        (follow-IsChain hop.id hop.body.receiver (hop.body.receiver ∷ visited) rest final seen e3)

  -- what the end of `_chain` asks of the last hop
  check_last_lem :
      (r : Router) (requester payer : ℕ) (o : Option (Signed HopBody)) (h : HopBody)
      → check_last env seal node r requester payer o ≡ ok h
      → (hop : Signed HopBody) × (o ≡ some hop)
        × (hop.body.payer ≡ requester)
        × (payer ≡ node.id)
        × (price node r ≤ hop.body.bits)
  unfolding check_last
  check_last_lem r requester payer none h e = cc
  check_last_lem r requester payer (some hop) h e =
      (hop, refl, ground arith, ground arith, ground arith)

  check_chain-IsChain :
      (r : Router) (chain : List (Signed HopBody)) (requester : ℕ) (h : HopBody)
      → check_chain env seal node r obj chain requester ≡ ok h
      → IsChain obj.id obj.body.origin (obj.body.origin ∷ []) chain node.id
        × (length chain ≤ obj.body.max_hops)
        × ((hop : Signed HopBody) × (last_hop env seal chain ≡ some hop)
            × (hop.body.payer ≡ requester)
            × (price node r ≤ hop.body.bits))
  unfolding check_chain
  check_chain-IsChain r chain requester h e =
      let (short, e1) = guard-eq-ok (between 1 obj.body.max_hops (length chain)) invalid _ e in
      let (found, followed, e2) =
        >>=-eq-ok (follow env seal node obj obj.id obj.body.origin (obj.body.origin ∷ []) chain) _
          e1 in
      let (hop, last, by, mine, toll) =
        check_last_lem r requester found.0 (last_hop env seal chain) h e2 in
      let whole =
        follow-IsChain obj.id obj.body.origin (obj.body.origin ∷ []) chain found.0 found.1
          followed in
      (
        subst (λ f. IsChain obj.id obj.body.origin (obj.body.origin ∷ []) chain f) mine whole,
        ground arith,
        (hop, last, by, toll),
      )

-- An envelope is accepted only with a chain of hops from its origin to this node, each signed by its
-- payer and paid for, which repeats no peer and keeps the hop limits of the envelope and the owner;
-- the peer that brings it paid the last one, at this node's price or more.
pub accept-IsChain :
    (env : Env) (seal : Seal) (node : Node) (r : Router) (requester : ℕ) (obj : Signed SealedBody)
    (chain : List (Signed HopBody)) (node' : Node) (r' : Router) (c : RouteConfig)
    → require node r false ≡ ok c
    → accept env seal node r requester obj chain ≡ ok (node', r')
    → IsChain env seal node obj obj.id obj.body.origin (obj.body.origin ∷ []) chain node.id
      × (length chain ≤ obj.body.max_hops)
      × (length chain ≤ c.max_hops)
      × ((hop : Signed HopBody) × (last_hop env seal chain ≡ some hop)
          × (hop.body.payer ≡ requester)
          × (price node r ≤ hop.body.bits))
unfolding accept
accept-IsChain env seal node r requester obj chain node' r' c enabled e =
    let (_, _, e1) = >>=-eq-ok (capability node Capability.receive) _ e in
    let (_, _, e2) = >>=-eq-ok (peer node requester false) _ (rw enabled at e1) in
    let (b, _, e3) = >>=-eq-ok (check_envelope env node obj) _ e2 in
    let (last, checked, e4) = >>=-eq-ok (check_chain env seal node r obj chain requester) _ e3 in
    let (few, _) = guard-eq-ok (leb (length chain) c.max_hops) denied _ e4 in
    let (whole, short, paid) =
      check_chain-IsChain env seal node obj r chain requester last checked in
    (whole, short, ground arith, paid)
