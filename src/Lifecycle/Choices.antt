-- ===== src/Lifecycle/Choices.antt =====
-- agentmesh/lifecycle.py: what a rejection and a deletion bring about.
use intertexum.Prelude.{
  ℕ, ◌+◌, ◌≡◌, ◌≢◌, ◌⊎◌, ◌∙◌, Bool, true, false, ◌==◌, Table, Option, none, some, lookup, delete,
  elem, arith, ok, err, Error, if◌then◌else◌, Bool-cases, inl, inr, Option-cases, lookup-delete,
  ==_refl, elem-add,
}
use intertexum.Crypto.{Env}
use intertexum.Records.{is_public}
use intertexum.State.{Node, Stored, Retention, private}
use intertexum.Policy.{capability}
use intertexum.Node.Ancestry.{Object}
use intertexum.Node.Active.{withdrawn}
use intertexum.Node.Share.{check_import, ingest}
use intertexum.Node.Share.Import.{ingest_cases}
use intertexum.Lifecycle.{retain, retain_row, forget, forget_row, erase}

lookup-delete_self {ℓ} : {V : Type ℓ} (k : ℕ) (t : Table V) → lookup k (delete k t) ≡ none
lookup-delete_self k t = lookup-delete k k t ∙ ground (arith, ==_refl k)

retain_row-reject :
    (node : Node) (rid : ℕ) (row : Stored) (choice : Retention) (node' : Node)
    → retain_row node rid row choice true ≡ ok node'
    → (row.state ≢ private)
      × (row.wire.body.origin ≢ node.id)
      × (lookup rid node'.records ≡ none)
      × (elem rid node'.rejected ≡ true)
unfolding retain_row erase
retain_row-reject node rid row choice node' e = (
  ground arith,
  ground arith,
  ground (arith, lookup-delete_self rid node.records),
  ground (arith, elem-add rid rid node.rejected, ==_refl rid),
)

check_import-rejected :
    (env : Env) (node : Node) (obj : Object) (source : Option ℕ)
    → check_import env node obj source ≡ ok tt
    → elem obj.id node.rejected ≡ true
    → ⊥
unfolding check_import
check_import-rejected env node obj source e listed = ground arith

-- what a rejection leaves
retain_reject :
    (node : Node) (rid priority ttl : ℕ) (pinned : Bool) (node' : Node)
    → retain node rid priority pinned ttl true ≡ ok node'
    → ((row : Stored) × (lookup rid node.records ≡ some row)
        × (row.state ≢ private)
        × (row.wire.body.origin ≢ node.id))
      × (lookup rid node'.records ≡ none)
      × (elem rid node'.rejected ≡ true)
unfolding retain capability
retain_reject node rid priority ttl pinned node' e = elim (Option-cases (lookup rid node.records)) [
  | inl miss ↦ absurd (ground arith)
  | inr (row, hit) ↦
      let choice : Retention = record {
        priority = priority;
        pinned = pinned;
        expires = if ttl == 0 then 0 else node.now + ttl;
      } in
      let (open_, foreign, gone, listed) =
        retain_row-reject node rid row choice node' (ground arith) in
      ((row, hit, open_, foreign), gone, listed)
]

-- A rejection removes an imported record for good: it was neither private nor the owner's, it is
-- gone, and the import of an object of that ID raises, whatever its source.
pub retain-reject :
    (env : Env) (node : Node) (rid priority ttl : ℕ) (pinned : Bool) (node' : Node) (obj : Object)
    (source : Option ℕ)
    → retain node rid priority pinned ttl true ≡ ok node'
    → obj.id ≡ rid
    → ((row : Stored) × (lookup rid node.records ≡ some row)
        × (row.state ≢ private)
        × (row.wire.body.origin ≢ node.id))
      × (lookup rid node'.records ≡ none)
      × ((e : Error) × (ingest env node' obj source ≡ (err e, node')))
retain-reject env node rid priority ttl pinned node' obj source e same =
    let (foreign, gone, listed) = retain_reject node rid priority ttl pinned node' e in
    let barred : elem obj.id node'.rejected ≡ true = rw same listed in
    elim (ingest_cases env node' obj source) [
      | inl failed ↦ (foreign, gone, failed)
      | inr (n, returned, imported) ↦
          absurd (check_import-rejected env node' obj source imported.checked barred)
    ]

forget_row_lem :
    (node : Node) (rid : ℕ) (row : Stored) (node' : Node)
    → forget_row node rid row ≡ ok node'
    → (row.wire.body.origin ≡ node.id)
      × ((row.state ≡ private) ⊎ (withdrawn node rid node.id ≡ true))
      × (lookup rid node'.records ≡ none)
      × (is_public row.wire.body.audience ≡ true → elem rid node'.public_tombstones ≡ true)
      × (node'.retractions ≡ node.retractions)
unfolding forget_row erase
forget_row_lem node rid row node' e = (
  ground arith,
  ground arith,
  ground (arith, lookup-delete_self rid node.records),
  λ p. ground (arith, elem-add rid rid node.public_tombstones, ==_refl rid),
  ground arith,
)

-- Only the author forgets a record, and a shared one only after its withdrawal, which stays; the
-- record is then gone, and a public one is remembered as a public tombstone.
pub forget-gone :
    (node : Node) (rid : ℕ) (row : Stored) (node' : Node)
    → lookup rid node.records ≡ some row
    → forget node rid ≡ ok node'
    → (row.wire.body.origin ≡ node.id)
      × ((row.state ≡ private) ⊎ (withdrawn node' rid node.id ≡ true))
      × (lookup rid node'.records ≡ none)
      × ((is_public row.wire.body.audience ≡ false) ⊎ (elem rid node'.public_tombstones ≡ true))
unfolding forget capability
forget-gone node rid row node' hit e =
    let (own, over, gone, marked, same) = forget_row_lem node rid row node' (ground arith) in
    (
      own,
      rw same over,
      gone,
      elim (Bool-cases (is_public row.wire.body.audience)) [
        | inl p ↦ inr (marked p)
        | inr p ↦ inl p
      ],
    )
