-- ===== src/Node/Retract/Quota.antt =====
-- The pools of withdrawals in agentmesh/node.py: no origin and no supplier fills the pool of unknown
-- targets, and no pool grows past its limit.
use intertexum.Prelude.{
  ℕ, ◌+◌, ◌≤◌, ◌≡◌, ap, Bool, true, ◌&&◌, ◌==◌, [], ◌∷◌, ◌++◌, Table, Option, arith, ok, inl, inr,
  insert_new, if◌then◌else◌,
}
use intertexum.Crypto.{Env, RetractBody, Signed}
use intertexum.State.{Node, Retraction, Allocation}
use intertexum.Node.Ancestry.{Object}
use intertexum.Node.Retract.{
  ingest_retraction, retraction_row, has_room, count_rows, same_allocation, is_unknown, max_events,
  max_unknown_per_origin, max_unknown_per_supplier,
}
use intertexum.Node.Retract.Withdrawn.{ingest_retraction_cases, store_retraction_lem}

-- the limits on the three pools, and on each origin and each supplier of the unknown pool
pub record IsBounded (t : Table Retraction) : Type 0 where
  pub pools : (a : Allocation) → count_rows (λ r. same_allocation r.allocation a) t ≤ max_events
  pub origins :
      (origin : ℕ)
      → count_rows (λ r. is_unknown r.allocation && r.origin == origin) t ≤ max_unknown_per_origin
  pub suppliers :
      (supplier : ℕ)
      → count_rows (λ r. is_unknown r.allocation && r.supplier == supplier) t
        ≤ max_unknown_per_supplier

count_rows-append :
    (p : Retraction → Bool) (k : ℕ) (r : Retraction) (t : Table Retraction)
    → count_rows p (t ++ (k, r) ∷ []) ≡ count_rows p t + (if p r then 1 else 0)
unfolding count_rows
count_rows-append p k r [] = omega arith
count_rows-append p k r ((j, x) ∷ t) = omega (arith, count_rows-append p k r t)

module _ (t : Table Retraction) (obj : Signed RetractBody) (from : ℕ)
    (allocation : Allocation) where
  IsBounded-insert_new :
      IsBounded t
      → has_room t obj.body.origin from allocation ≡ true
      → IsBounded (t ++ (obj.id, retraction_row obj from allocation) ∷ [])
  unfolding has_room retraction_row same_allocation
  IsBounded-insert_new b room =
      let row = retraction_row obj from allocation in
      record {
        pools = λ a. ground (
          arith,
          b.pools a,
          count_rows-append (λ r. same_allocation r.allocation a) obj.id row t,
          count_rows-append (λ r. same_allocation r.allocation allocation) obj.id row t,
        );
        origins = λ origin. ground (
          arith,
          b.origins origin,
          count_rows-append (λ r. is_unknown r.allocation && r.origin == origin) obj.id row t,
        );
        suppliers = λ supplier. ground (
          arith,
          b.suppliers supplier,
          count_rows-append (λ r. is_unknown r.allocation && r.supplier == supplier) obj.id row t,
        );
      }

-- Taking a withdrawal in keeps every limit: one origin holds at most 256 withdrawals of unknown
-- targets and one supplier 512, and the pools of the node's own withdrawals, of stored targets and
-- of unknown ones hold 10000 each.
pub ingest_retraction-IsBounded :
    (env : Env) (node : Node) (obj : Signed RetractBody) (supplier : Option ℕ)
    (requested : Option Object) (node' : Node)
    → IsBounded node.retractions
    → ingest_retraction env node obj supplier requested ≡ ok node'
    → IsBounded node'.retractions
unfolding insert_new
ingest_retraction-IsBounded env node obj supplier requested node' b e =
    elim (ingest_retraction_cases env node obj supplier requested node' e).1 [
      | inl (_, same) ↦ rw same b
      | inr (_, stores) ↦
          let (from, allocation, fresh, room, same) =
            store_retraction_lem env node obj supplier requested node' stores in
          rw (ap (λ (n : Node). n.retractions) same, insert_new)
            (rw fresh (IsBounded-insert_new node.retractions obj from allocation b room))
    ]
