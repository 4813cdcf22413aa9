-- ===== src/Node/Active/Sound.antt =====
-- What a record must meet before agentmesh/node.py serves it, and every ancestor with it.
use intertexum.Prelude.{
  ℕ, ◌≡◌, sym, ◌∙◌, ap, Bool, true, false, [], none, some, elem, All, All-elem, arith, Option-cases,
  inl, inr, ◌⊎◌, lookup, ok, is_ok,
}
use intertexum.Crypto.{Env}
use intertexum.State.{Node, Stored, accepted, private, pending}
use intertexum.Policy.{record_allowed, require_record}
use intertexum.Records.{is_public, max_depth}
use intertexum.Node.Ancestry.{Object, lineage, recall}
use intertexum.Node.Ancestry.Memo.{IsRanked, memo_transparent}
use intertexum.Node.Ancestry.Closed.{Good, IsClosed, active_from_closed}
use intertexum.Node.Active.{
  withdrawn, visible, verified_record, stored_record, inspect_row, admitted, active, is_own,
  is_cached,
}

module _ (env : Env) (node : Node) (requester : ℕ) (transit : Bool) where
  -- The record alone: verified against the pinned key of its origin, allowed by the source policy,
  -- not withdrawn, visible to the requester, and approved, or a public transit copy, or the owner's.
  pub record IsServable (rid : ℕ) (obj : Object) : Type 0 where
    pub stored_row : Stored
    pub stored : lookup rid node.records ≡ some stored_row
    pub same : obj ≡ stored_row.wire
    pub verified :
        is_ok (verified_record env node obj (is_own env node requester transit stored_row)) ≡ true
    pub from_source : record_allowed node obj ≡ true
    pub kept : withdrawn node rid obj.body.origin ≡ false
    pub seen : visible node obj.body requester ≡ ok true
    pub released :
        (stored_row.state ≡ accepted)
        ⊎ ((stored_row.state ≡ pending)
            × (is_cached env node requester transit rid stored_row ≡ true)
            × (is_public obj.body.audience ≡ true))
        ⊎ ((stored_row.state ≡ private) × (requester ≡ node.id) × (obj.body.origin ≡ node.id))

  is_cached-pending :
      (rid : ℕ) (row : Stored)
      → is_cached env node requester transit rid row ≡ true
      → row.state ≡ pending
  unfolding is_cached
  is_cached-pending rid row h = ground arith

  inspect_row-IsServable :
      (rid : ℕ) (row : Stored) (obj : Object) (cached : Bool)
      → lookup rid node.records ≡ some row
      → inspect_row env node requester transit rid row ≡ ok (obj, cached)
      → IsServable rid obj
  unfolding inspect_row stored_record require_record
  inspect_row-IsServable rid row obj cached at e = record {
    stored_row = row;
    stored = at;
    same = ground arith;
    verified = ground arith;
    from_source = ground arith;
    kept = ground arith;
    seen = ground arith;
    released = ground (arith, is_cached-pending rid row);
  }

-- `a` is the record itself or one of its ancestors, by the parents in the stored bodies.
pub data Ancestor (node : Node) : ℕ → ℕ → Type 0 where
  self : {a : ℕ} → Ancestor node a a
  up :
      {a p b : ℕ} (row : Stored)
      → lookup a node.records ≡ some row
      → elem p row.wire.body.parents ≡ true
      → Ancestor node p b
      → Ancestor node a b

module _ (env : Env) (node : Node) (requester : ℕ) (transit : Bool) where
  -- the record and all its ancestors are servable
  IsLineage : ℕ → Object → Type 0
  IsLineage rid obj =
      IsServable env node requester transit rid obj
      × ((a : ℕ) → Ancestor node rid a → (o : Object) × IsServable env node requester transit a o)

  admitted-IsServable :
      (rid : ℕ) (obj : Object) (cached : Bool)
      → admitted env node requester transit rid ≡ some (obj, cached)
      → IsServable env node requester transit rid obj
  unfolding admitted
  admitted-IsServable rid obj cached e = elim (Option-cases (lookup rid node.records)) [
    | inl miss ↦ absurd (ground arith)
    | inr (row, hit) ↦
        inspect_row-IsServable env node requester transit rid row obj cached hit (ground arith)
  ]

  extend :
      {a b : ℕ} (obj : Object) (cached : Bool)
      → Ancestor node a b
      → IsServable env node requester transit a obj
      → All (Good (admitted env node requester transit) IsLineage cached) obj.body.parents
      → (o : Object) × IsServable env node requester transit b o
  unfolding IsLineage
  extend obj cached self s good = (obj, s)
  extend {b} obj cached (up {p = p} row at mem chain) s good =
      let rows : some s.stored_row ≡ some row = sym s.stored ∙ at in
      let same_row : s.stored_row ≡ row = cc rows in
      let same : obj ≡ row.wire = s.same ∙ ap (λ (r : Stored). r.wire) same_row in
      let listed : elem p obj.body.parents ≡ true = rw same mem in
      let (o, lineage_of, _) =
        All-elem (Good (admitted env node requester transit) IsLineage cached) p obj.body.parents
          good listed in
      lineage_of.1 b chain

  IsClosed-IsLineage : IsClosed (admitted env node requester transit) IsLineage
  unfolding IsLineage
  IsClosed-IsLineage = record {
    step = λ rid obj cached adm good.
        let s = admitted-IsServable rid obj cached adm in
        (s, λ a chain. extend obj cached chain s good);
  }

  pub active-IsServable :
      (rid : ℕ) (obj : Object)
      → active env node requester transit rid ≡ some obj
      → IsServable env node requester transit rid obj
        × ((a : ℕ) → Ancestor node rid a → (o : Object) × IsServable env node requester transit a o)
  unfolding active IsLineage
  active-IsServable rid obj e =
      active_from_closed (admitted env node requester transit) IsLineage IsClosed-IsLineage
        max_depth rid obj e

  -- Where `_active` answers, the record and every ancestor of it are servable: there is no way to a
  -- record past a withdrawn, unapproved, unverified or hidden ancestor.
  pub active-Ancestor-IsServable :
      (rid a : ℕ) (obj : Object)
      → active env node requester transit rid ≡ some obj
      → Ancestor node rid a
      → (o : Object) × IsServable env node requester transit a o
  active-Ancestor-IsServable rid a obj e chain = (active-IsServable rid obj e).1 a chain

  -- `_active` is the recursion without memo and path, where parents rank below their records.
  pub active-eq-lineage :
      (rank : ℕ → ℕ)
      → IsRanked (admitted env node requester transit) rank
      → (rid : ℕ)
      → active env node requester transit rid
        ≡ lineage (admitted env node requester transit) max_depth rid
  unfolding active recall
  active-eq-lineage rank ranked rid =
      (memo_transparent (admitted env node requester transit) rank ranked max_depth rid []
        (record { holds = λ r k o le e. cc })).0

  -- A pending record is not active for the owner.
  pub pending-active :
      (rid : ℕ) (row : Stored)
      → requester ≡ node.id
      → transit ≡ false
      → lookup rid node.records ≡ some row
      → row.state ≡ pending
      → active env node requester transit rid ≡ none
  unfolding is_cached
  pending-active rid row own direct at waits =
      elim (Option-cases (active env node requester transit rid)) [
        | inl nothing ↦ nothing
        | inr (obj, found) ↦
            let s = (active-IsServable rid obj found).0 in
            let rows : some s.stored_row ≡ some row = sym s.stored ∙ at in
            let same_row : s.stored_row ≡ row = cc rows in
            absurd (ground (arith, s.released, ap (λ (r : Stored). r.state) same_row))
      ]
