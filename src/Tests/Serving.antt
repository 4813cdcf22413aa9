-- ===== src/Tests/Serving.antt =====
-- Runs of the serving path, from agentmesh/node.py.
use intertexum.Prelude.{
  ℕ, ◌≡◌, ◌≢◌, ◌⊎◌, ◌<◌, refl, sym, ◌∙◌, inl, inr, Bool, true, false, [], ◌∷◌, Option, none, some,
  ok, lookup, elem, arith, All, delete,
}
use mathlib.Core.Path.{subst}
use intertexum.Crypto.{anyone, RecordBody}
use intertexum.State.{Node, Capability, Stored, private, pending, accepted}
use intertexum.Policy.{capable}
use intertexum.Node.Peers.{require, reading}
use intertexum.Node.Ancestry.{lineage, Object}
use intertexum.Node.Ancestry.Memo.{IsRanked}
use intertexum.Node.Active.{active, admitted, withdrawn, visible}
use intertexum.Node.Active.Sound.{
  IsServable, Ancestor, self, up, active-Ancestor-IsServable, active-eq-lineage,
}
use intertexum.Node.Share.{approve, get, check_parents, check_each, with_state}
use intertexum.Node.Share.Audience.{check_each-visible}
use intertexum.Node.Share.Approval.{get-IsServable, approve-active}
use intertexum.Records.{max_depth}
use intertexum.Tests.{program, env, node, base_record, derived, fresh, stored_as}

served : active env node 2 false 1002 ≡ some derived
unfolding program
served = refl

-- the derived record has the base record as an ancestor
chain : Ancestor node 1002 1001
unfolding program
chain = up (stored_as accepted derived) refl refl self

active-Ancestor-IsServable_example : (o : Object) × IsServable env node 2 false 1001 o
active-Ancestor-IsServable_example =
    active-Ancestor-IsServable env node 2 false 1002 1001 derived served chain

fetched : get env node 1002 2 ≡ ok derived
unfolding program
fetched = refl

get-IsServable_example :
    ((2 ≡ node.id) ⊎ (capable node Capability.serve_memory ≡ true))
    × (require node 2 reading ≡ ok tt)
    × ((o : Object) × IsServable env node 2 false 1001 o)
get-IsServable_example = get-IsServable env node 1002 2 1001 derived fetched chain

-- the node with an import that waits for approval
abbrev waiting : Node
waiting = record node { records = (1003, stored_as pending fresh) ∷ node.records }

abbrev approved : Node
approved = record waiting { records = (1003, stored_as accepted fresh) ∷ node.records }

approves : approve env waiting 1003 ≡ ok approved
unfolding program
approves = refl

approve-active_example :
    (row : Stored) × (lookup 1003 waiting.records ≡ some row)
    × (capable waiting Capability.approve ≡ true)
    × (row.state ≢ private)
    × (withdrawn waiting 1003 row.wire.body.origin ≡ false)
    × (check_parents env waiting row.wire.body ≡ ok tt)
    × (approved
        ≡ record (with_state waiting 1003 accepted) { transit = delete 1003 waiting.transit })
    × ((obj : Object) × (active env approved 1 false 1003 ≡ some obj))
approve-active_example = approve-active env waiting 1003 approved approves

-- a public record that is derived from both stored ones, and a peer that reads it
abbrev summary : RecordBody
summary = record base_record.body { parents = 1001 ∷ 1002 ∷ []; audience = anyone ∷ [] }

parents_pass : check_each env node summary.audience summary.parents ≡ ok tt
unfolding program
parents_pass = refl

listed : elem 1002 summary.parents ≡ true
unfolding program
listed = refl

peer_reads : visible node summary 3 ≡ ok true
unfolding program
peer_reads = refl

check_each-visible_example :
    (parent : Object) × (active env node node.id false 1002 ≡ some parent)
    × (visible node parent.body 3 ≡ ok true)
check_each-visible_example =
    check_each-visible env node summary summary.parents 1002 3 parents_pass listed peer_reads
      (ground arith)

known_id : (rid : ℕ) → (rid ≡ 1001) ⊎ (rid ≡ 1002) ⊎ (lookup rid node.records ≡ none)
unfolding program
known_id rid = ground arith

ranked_at :
    (rid : ℕ) (found obj : Object) (cached : Bool)
    → All (λ parent. parent < rid) found.body.parents
    → ◌≡◌ {A = Option (Object × Bool)} (some (found, false)) (some (obj, cached))
    → All (λ parent. parent < rid) obj.body.parents
ranked_at rid found obj cached below e =
    let same : found ≡ obj = cc e in
    subst (λ (o : Object). All (λ parent. parent < rid) o.body.parents) same below

admitted-none : (rid : ℕ) → lookup rid node.records ≡ none → admitted env node 2 false rid ≡ none
unfolding admitted
admitted-none rid h = rw (admitted, h) refl

ranked_below :
    (rid : ℕ) (obj : Object) (cached : Bool)
    → admitted env node 2 false rid ≡ some (obj, cached)
    → All (λ parent. parent < rid) obj.body.parents
unfolding program
ranked_below rid obj cached e = elim (known_id rid) [
  | inl base ↦ ranked_at rid base_record obj cached tt (rw base at e)
  | inr (inl here) ↦ ranked_at rid derived obj cached (omega arith, tt) (rw here at e)
  | inr (inr none_) ↦
      let missing : ◌≡◌ {A = Option (Object × Bool)} none (some (obj, cached)) =
        sym (admitted-none rid none_) ∙ e in
      absurd (cc missing)
]

-- the identifiers rank the records
ranked : IsRanked (admitted env node 2 false) (λ rid. rid)
ranked = record { below = ranked_below }

active-eq-lineage_example :
    active env node 2 false 1002 ≡ lineage (admitted env node 2 false) max_depth 1002
active-eq-lineage_example = active-eq-lineage env node 2 false (λ rid. rid) ranked 1002
