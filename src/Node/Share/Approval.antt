-- ===== src/Node/Share/Approval.antt =====
-- Approval and reading: `approve` and `get` of agentmesh/node.py.
use intertexum.Prelude.{
  ℕ, ◌≡◌, ◌≢◌, ==_refl, ◌⊎◌, ◌∙◌, refl, Bool, true, false, [], Option, none, some, arith, inl, inr,
  ok, ap, Option-cases, lookup, Table, delete,
}
use mathlib.Core.Path.{fun_ext}
use intertexum.Crypto.{Env, verify}
use intertexum.State.{Node, Stored, Capability, accepted, private, Transit}
use intertexum.Policy.{capable, capability, require_record, record_allowed, allowed}
use intertexum.Node.Peers.{peer, key_of, require, reading}
use intertexum.Node.Ancestry.{Object, active_from}
use intertexum.Records.{max_depth}
use intertexum.Node.Active.{
  check_origin, to_option, active, admitted, inspect_row, is_cached, verified_record, withdrawn,
  visible, stored_record,
}
use intertexum.Node.Active.Sound.{IsServable, Ancestor, active-Ancestor-IsServable}
use intertexum.Node.Share.{approve_row, approve, get, with_state, check_parents, is_some}

module _ (env : Env) where
  -- Whoever reads a record by `get` may read from the node, which serves others only with the
  -- capability `serve_memory`, and the record is servable to that requester with every ancestor.
  pub get-IsServable :
      (node : Node) (rid requester a : ℕ) (obj : Object)
      → get env node rid requester ≡ ok obj
      → Ancestor node rid a
      → ((requester ≡ node.id) ⊎ (capable node Capability.serve_memory ≡ true))
        × (require node requester reading ≡ ok tt)
        × ((o : Object) × IsServable env node requester false a o)
  unfolding get
  get-IsServable node rid requester a obj e chain =
      let found : active env node requester false rid ≡ some obj = ground arith in
      (
        ground arith,
        ground arith,
        active-Ancestor-IsServable env node requester false rid a obj found chain,
      )

  is_cached_own :
      (node : Node) (rid : ℕ) (row : Stored) → is_cached env node node.id false rid row ≡ false
  unfolding is_cached
  is_cached_own node rid row = ground (arith, ==_refl node.id)

  inspect_row-transit :
      (node : Node) (t : Table Transit) (rid : ℕ) (row : Stored)
      → inspect_row env (record node { transit = t }) node.id false rid row
        ≡ inspect_row env node node.id false rid row
  unfolding inspect_row stored_record verified_record check_origin key_of peer require_record
      record_allowed allowed capable visible
  inspect_row-transit node t rid row =
      rw (is_cached_own (record node { transit = t }) rid row, is_cached_own node rid row) refl

  -- A transit table does not matter to the owner's own reads.
  admitted-transit :
      (node : Node) (t : Table Transit)
      → admitted env (record node { transit = t }) node.id false ≡ admitted env node node.id false
  unfolding admitted
  admitted-transit node t = fun_ext λ rid. elim (Option-cases (lookup rid node.records)) [
    | inl miss ↦ rw (miss, admitted) refl
    | inr (row, hit) ↦
        rw (hit, admitted) (ap (to_option {A = Object × Bool}) (inspect_row-transit node t rid row))
  ]

  active-transit :
      (node : Node) (t : Table Transit) (rid : ℕ)
      → active env (record node { transit = t }) node.id false rid
        ≡ active env node node.id false rid
  unfolding active
  active-transit node t rid =
      ap (λ (a : ℕ → Option (Object × Bool)). (active_from a max_depth [] rid []).0)
        (admitted-transit node t)

  approve_row_lem :
      (node : Node) (rid : ℕ) (row : Stored) (node' : Node)
      → approve_row env node rid row ≡ ok node'
      → (node' ≡ record (with_state node rid accepted) { transit = delete rid node.transit })
        × (check_parents env node row.wire.body ≡ ok tt)
        × (is_some (active env (with_state node rid accepted) node.id false rid) ≡ true)
        × (row.state ≢ private)
        × (withdrawn node rid row.wire.body.origin ≡ false)
  unfolding approve_row verified_record verify
  approve_row_lem node rid row node' e =
      (ground arith, ground arith, ground arith, ground arith, ground arith)

  some_of : {A : Type 0} (o : Option A) → is_some o ≡ true → (a : A) × (o ≡ some a)
  some_of none h = cc
  some_of (some a) h = (a, refl)

  approve-row :
      (node : Node) (rid : ℕ) (node' : Node)
      → approve env node rid ≡ ok node'
      → (row : Stored) × (lookup rid node.records ≡ some row)
        × (capable node Capability.approve ≡ true)
        × (approve_row env node rid row ≡ ok node')
  unfolding approve capability
  approve-row node rid node' e = elim (Option-cases (lookup rid node.records)) [
    | inl miss ↦ absurd (ground arith)
    | inr (row, hit) ↦ (row, hit, ground arith, ground arith)
  ]

  -- An approval that succeeds was of a record that is neither private nor withdrawn. It makes the
  -- record accepted, drops its transit row and changes nothing else; the parents had passed
  -- `_check_parents`, and the record is then active for the owner.
  pub approve-active :
      (node : Node) (rid : ℕ) (node' : Node)
      → approve env node rid ≡ ok node'
      → (row : Stored) × (lookup rid node.records ≡ some row)
        × (capable node Capability.approve ≡ true)
        × (row.state ≢ private)
        × (withdrawn node rid row.wire.body.origin ≡ false)
        × (check_parents env node row.wire.body ≡ ok tt)
        × (node' ≡ record (with_state node rid accepted) { transit = delete rid node.transit })
        × ((obj : Object) × (active env node' node'.id false rid ≡ some obj))
  approve-active node rid node' e =
      let (row, hit, able, done) = approve-row node rid node' e in
      let (same, parents, found, open_, kept) = approve_row_lem node rid row node' done in
      let approved = with_state node rid accepted in
      let (obj, current) = some_of (active env approved node.id false rid) found in
      let served : active env (record approved { transit = delete rid node.transit }) node.id false
            rid
          ≡ some obj =
        active-transit approved (delete rid node.transit) rid ∙ current in
      (row, hit, able, open_, kept, parents, same, (obj, rw same served))
