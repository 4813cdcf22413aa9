-- ===== src/Routing/Delivery/Outcome.antt =====
-- agentmesh/routing.py: what the delivery worker does to the entries of its queue.
use intertexum.Prelude.{
  ℕ, ◌≡◌, ◌∙◌, refl, ap, Bool, true, false, ◌==◌, leb, List, [], ◌∷◌, map, take, Option, none, some,
  Table, lookup, update, Result, ok, err, arith, if◌then◌else◌, Bool-cases, inl, inr, ◌>>◌,
}
use intertexum.Crypto.{Env, Signed, SealedBody, HopBody}
use intertexum.State.{Node, Capability}
use intertexum.Policy.{capability}
use intertexum.Routing.{
  Router, Routed, RouteState, RouteConfig, queued, forwarded, delivered, expired, require,
}
use intertexum.Routing.Custody.{Seal}
use intertexum.Routing.Delivery.{
  is_delivered, expire_row, expire_queue, note_hop, try_routes, try_hop, try_paid, try_toll,
  paths_of, attempt, deliver_wire, deliver_due, deliver_allowed, deliver, next_due, bits_of,
  prefer_other,
}
use intertexum.Routing.Paying.{
  Peers, pay, pay_reserved, sign_hop, refund_work, solve_hop, reserve_work, may_pay, pay_allowed,
  hop_body,
}
use intertexum.Routing.{table}

module _ (env : Env) (seal : Seal) (peers : Peers) (node : Node) where
  queue-sign_hop :
      (r : Router) (h : HopBody) (o : Result ℕ)
      → (sign_hop env seal peers node r h o).0.queue ≡ r.queue
  unfolding sign_hop
  queue-sign_hop r h (err e) = refl
  queue-sign_hop r h (ok n) = refl

  reserve_work-queue :
      (r r' : Router) (c : RouteConfig) → reserve_work node r c ≡ ok r' → r'.queue ≡ r.queue
  unfolding reserve_work
  reserve_work-queue r r' c e = ground arith

  queue-pay_reserved :
      (r : Router) (c : RouteConfig) (h : HopBody) (o : Result Router)
      → ((r' : Router) → o ≡ ok r' → r'.queue ≡ r.queue)
      → (pay_reserved env seal peers node r c h o).0.queue ≡ r.queue
  unfolding pay_reserved refund_work
  queue-pay_reserved r c h (err e) k = refl
  queue-pay_reserved r c h (ok r') k =
      queue-sign_hop (refund_work node r' c peers.elapsed) h (solve_hop env seal peers h)
      ∙ k r' refl

  queue-pay_allowed :
      (r : Router) (h : HopBody) (o : Result RouteConfig)
      → (pay_allowed env seal peers node r h o).0.queue ≡ r.queue
  unfolding pay_allowed
  queue-pay_allowed r h (err e) = refl
  queue-pay_allowed r h (ok c) =
      queue-pay_reserved r c h (reserve_work node r c) (λ r' e. reserve_work-queue r r' c e)

  queue-try_paid :
      (r : Router) (o : Result (Signed HopBody)) (obj : Signed SealedBody)
      (chain : List (Signed HopBody)) (p : ℕ)
      → (try_paid env seal peers node (r, o) obj chain p).0.queue ≡ r.queue
  unfolding try_paid
  queue-try_paid r (err e) obj chain p = refl
  queue-try_paid r (ok proof) obj chain p = ground arith

  queue-try_toll :
      (r : Router) (obj : Signed SealedBody) (chain : List (Signed HopBody)) (p : ℕ)
      (bits : Option ℕ)
      → (try_toll env seal peers node r obj chain p bits).0.queue ≡ r.queue
  unfolding try_toll pay
  queue-try_toll r obj chain p none = refl
  queue-try_toll r obj chain p (some bits) =
      let h = hop_body env seal peers node obj chain p bits in
      let paid = pay_allowed env seal peers node r h (may_pay env seal peers node r bits) in
      queue-try_paid paid.0 paid.1 obj chain p
      ∙ queue-pay_allowed r h (may_pay env seal peers node r bits)

  queue-try_routes :
      (r : Router) (obj : Signed SealedBody) (chain : List (Signed HopBody)) (paths : List (List ℕ))
      (last : ℕ)
      → (try_routes env seal peers node r obj chain paths last).0.queue ≡ r.queue
  unfolding try_routes try_hop
  queue-try_routes r obj chain [] last = refl
  queue-try_routes r obj chain ([] ∷ rest) last = queue-try_routes r obj chain rest last
  queue-try_routes r obj chain ((p ∷ path) ∷ rest) last =
      let tried =
        try_toll env seal peers node r obj chain p (bits_of env seal peers (table node r) p) in
      let here = queue-try_toll r obj chain p (bits_of env seal peers (table node r) p) in
      let onward = queue-try_routes tried.0 obj chain rest p in
      elim (Bool-cases tried.1) [ inl e ↦ rw e here | inr e ↦ rw e (onward ∙ here) ]

abbrev pub state_of : Option Routed → Option Bool
state_of none = none
state_of (some q) = some (is_delivered q.state)

-- whether an entry is delivered, where it is in the queue
abbrev pub delivered_at : Router → ℕ → Option Bool
delivered_at r id = state_of (lookup id r.queue)

delivered_at-update :
    (f : Routed → Routed) (k id : ℕ) (t : Table Routed)
    → ((q : Routed) → is_delivered (f q).state ≡ is_delivered q.state)
    → state_of (lookup id (update k f t)) ≡ state_of (lookup id t)
unfolding lookup update
delivered_at-update f k id [] same = refl
delivered_at-update f k id ((j, q) ∷ t) same = elim (Bool-cases (j == id)) [
  | inr e ↦ rw e (delivered_at-update f k id t same)
  | inl e ↦ elim (Bool-cases (j == k)) [
    | inl e' ↦ rw (e, e') (ap (λ b. some b) (same q))
    | inr e' ↦ rw (e, e') refl
  ]
]

noted_state :
    (s : RouteState) (sent : Bool)
    → is_delivered (if is_delivered s then s else if sent then forwarded else queued)
      ≡ is_delivered s
noted_state queued true = refl
noted_state queued false = refl
noted_state forwarded true = refl
noted_state forwarded false = refl
noted_state delivered sent = refl
noted_state expired true = refl
noted_state expired false = refl

delivered_at-note_hop :
    (node : Node) (r : Router) (id attempts p other : ℕ) (sent : Bool)
    → delivered_at (note_hop node r id attempts p sent) other ≡ delivered_at r other
unfolding note_hop
delivered_at-note_hop node r id attempts p other sent =
    delivered_at-update _ id other r.queue (λ q. noted_state q.state sent)

expired_state :
    (s : RouteState) → is_delivered (if is_delivered s then s else expired) ≡ is_delivered s
expired_state queued = refl
expired_state forwarded = refl
expired_state delivered = refl
expired_state expired = refl

delivered_at-expire_queue :
    (now id : ℕ) (t : Table Routed)
    → state_of (lookup id (map (λ row. (row.0, expire_row now row.1)) t)) ≡ state_of (lookup id t)
unfolding lookup expire_row
delivered_at-expire_queue now id [] = refl
delivered_at-expire_queue now id ((j, q) ∷ t) = elim (Bool-cases (j == id)) [
  | inr e ↦ rw e (delivered_at-expire_queue now id t)
  | inl e ↦ elim (Bool-cases (leb q.expires now)) [
    | inl e' ↦ rw (e, e') (ap (λ b. some b) (expired_state q.state))
    | inr e' ↦ rw (e, e') refl
  ]
]

module _ (env : Env) (seal : Seal) (peers : Peers) (node : Node) where
  delivered_at-attempt :
      (r : Router) (id other : ℕ) (row : Routed) (obj : Signed SealedBody)
      (o : Result (List (List ℕ)))
      → delivered_at (attempt env seal peers node r id row obj o).0 other ≡ delivered_at r other
  unfolding attempt
  delivered_at-attempt r id other row obj (err e) = refl
  delivered_at-attempt r id other row obj (ok paths) =
      let out =
        try_routes env seal peers node r obj row.chain (take 3 (prefer_other row paths)) 0 in
      delivered_at-note_hop node out.0 id row.attempts out.1 other out.2
      ∙ ap (λ (t : Table Routed). state_of (lookup other t))
          (queue-try_routes env seal peers node r obj row.chain (take 3 (prefer_other row paths)) 0)

  delivered_at-deliver_wire :
      (r : Router) (id other : ℕ) (row : Routed) (wire : Option (Signed SealedBody))
      → delivered_at (deliver_wire env seal peers node r id row wire).0 other ≡ delivered_at r other
  unfolding deliver_wire
  delivered_at-deliver_wire r id other row none = refl
  delivered_at-deliver_wire r id other row (some obj) =
      delivered_at-attempt r id other row obj (paths_of env seal peers node r row obj)

  delivered_at-deliver_due :
      (r : Router) (due : Option (ℕ × Routed)) (other : ℕ)
      → delivered_at (deliver_due env seal peers node r due).0 other ≡ delivered_at r other
  unfolding deliver_due
  delivered_at-deliver_due r none other = refl
  delivered_at-deliver_due r (some (id, row)) other =
      delivered_at-deliver_wire r id other row row.wire

  delivered_at-deliver_allowed :
      (r : Router) (o : Result (Unit {0})) (id : ℕ)
      → delivered_at (deliver_allowed env seal peers node r o).0 id ≡ delivered_at r id
  unfolding deliver_allowed expire_queue
  delivered_at-deliver_allowed r (err e) id = refl
  delivered_at-deliver_allowed r (ok done) id =
      let swept = expire_queue node.now r in
      delivered_at-deliver_due swept (next_due node.now swept.queue) id
      ∙ delivered_at-expire_queue node.now id r.queue

-- A step of the delivery worker, whatever the peers answer, adds no entry, drops none and changes of
-- none whether it is delivered.
pub delivered_at-deliver :
    (env : Env) (seal : Seal) (peers : Peers) (node : Node) (r : Router) (id : ℕ)
    → delivered_at (deliver env seal peers node r).0 id ≡ delivered_at r id
unfolding deliver
delivered_at-deliver env seal peers node r id =
    delivered_at-deliver_allowed env seal peers node r
      (require node r false >> capability node Capability.send) id
