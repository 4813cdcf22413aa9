-- ===== src/Node/Retract/Withdrawn.antt =====
-- Withdrawals of agentmesh/node.py: what `ingest_retraction` and `retract` bring about, and that a
-- withdrawn record is served to nobody.
use intertexum.Prelude.{
  ℕ, ◌≡◌, ◌≢◌, ◌⊎◌, ◌∙◌, refl, sym, ap, Bool, true, false, [], ◌∷◌, ◌++◌, ◌||◌, ◌&&◌, ◌==◌, Table,
  Option, some, lookup, has, insert_new, arith, ok, Bool-cases, inl, inr, >>=-eq-ok, ==_refl,
}
use intertexum.Crypto.{Env, RetractBody, Signed, of_retract, verify, Payload}
use intertexum.State.{Node, Retraction, Allocation, Stored}
use intertexum.Node.Peers.{key_of}
use intertexum.Node.Ancestry.{Object}
use intertexum.Node.Active.{withdrawn, withdrawn_in, active}
use intertexum.Node.Active.Sound.{Ancestor, active-IsServable}
use intertexum.Node.Retract.{
  ingest_retraction, store_retraction, supplier_of, allocation_of, write_retraction, retraction_row,
  has_room, reserve, check_supplier,
}

-- a row behind the others withdraws what it names, and no more
withdrawn_in-snoc :
    (rid origin k : ℕ) (r : Retraction) (t : Table Retraction)
    → withdrawn_in rid origin (t ++ (k, r) ∷ [])
      ≡ (withdrawn_in rid origin t || (r.target == rid && r.origin == origin))
unfolding withdrawn_in
withdrawn_in-snoc rid origin k r [] = ground arith
withdrawn_in-snoc rid origin k r ((j, x) ∷ t) = ground (arith, withdrawn_in-snoc rid origin k r t)

withdrawn_in-append :
    (k : ℕ) (r : Retraction) (t : Table Retraction)
    → withdrawn_in r.target r.origin (t ++ (k, r) ∷ []) ≡ true
unfolding withdrawn_in
withdrawn_in-append k r [] = ground (arith, ==_refl r.target, ==_refl r.origin)
withdrawn_in-append k r ((j, x) ∷ t) = ground (arith, withdrawn_in-append k r t)

verify_body :
    {B : Type 0} (env : Env) (payload : B → Payload) (obj : Signed B) (key : ℕ) (b : B)
    → verify env payload obj key ≡ ok b
    → b ≡ obj.body
unfolding verify
verify_body env payload obj key b e = ground arith

-- the withdrawal was signed by its origin, blocked or not
pub record IsAuthored (env : Env) (node : Node) (obj : Signed RetractBody) : Type 0 where
  pub key : ℕ
  pub pinned : key_of env node obj.body.origin true ≡ ok key
  pub signed : env.verify_sig key obj.sig (of_retract obj.body) ≡ true

module _ (env : Env) (node : Node) (obj : Signed RetractBody) (supplier : Option ℕ)
    (requested : Option Object) where
  pub ingest_retraction_cases :
      (node' : Node)
      → ingest_retraction env node obj supplier requested ≡ ok node'
      → IsAuthored env node obj
        × (((withdrawn node obj.body.target obj.body.origin ≡ true) × (node' ≡ node))
            ⊎ ((withdrawn node obj.body.target obj.body.origin ≡ false)
                × (store_retraction env node obj supplier requested ≡ ok node')))
  unfolding ingest_retraction verify
  ingest_retraction_cases node' e =
      let (key, k, e1) = >>=-eq-ok (key_of env node obj.body.origin true) _ e in
      (record { key = key; pinned = k; signed = ground arith }, ground arith)

  -- the writes, and no others
  pub store_retraction_lem :
      (node' : Node)
      → store_retraction env node obj supplier requested ≡ ok node'
      → (from : ℕ) × (allocation : Allocation) × (has obj.id node.retractions ≡ false)
        × (has_room node.retractions obj.body.origin from allocation ≡ true)
        × (node' ≡ record node {
          retractions = insert_new obj.id (retraction_row obj from allocation) node.retractions;
          public_tombstones = node'.public_tombstones;
        })
  unfolding store_retraction write_retraction
  store_retraction_lem node' e =
      let (u, _, e1) =
        >>=-eq-ok (check_supplier env node (supplier_of env obj.body supplier)) _ e in
      let ((allocation, marked), _, e2) =
        >>=-eq-ok
          (reserve env node obj.body
            (allocation_of node obj.body.origin (lookup obj.body.target node.records)) requested)
          _ e1 in
      (supplier_of env obj.body supplier, allocation, ground arith, ground arith, ground arith)

  -- a withdrawal that is known adds none
  known :
      (rid origin : ℕ)
      → withdrawn node obj.body.target obj.body.origin ≡ true
      → withdrawn node rid origin
        ≡ (withdrawn node rid origin || (obj.body.target == rid && obj.body.origin == origin))
  known rid origin old = elim (Bool-cases (obj.body.target == rid && obj.body.origin == origin)) [
    | inr other ↦ rw other (ground arith)
    | inl same ↦
        let target : obj.body.target ≡ rid = ground arith in
        let author : obj.body.origin ≡ origin = ground arith in
        let here : withdrawn node rid origin ≡ true = rw (← target, ← author) old in rw here refl
  ]

  ingest_retraction_effect :
      (node' : Node)
      → ingest_retraction env node obj supplier requested ≡ ok node'
      → IsAuthored env node obj
        × (withdrawn node' obj.body.target obj.body.origin ≡ true)
        × (node' ≡ record node {
          retractions = node'.retractions;
          public_tombstones = node'.public_tombstones;
        })
        × ((rid origin : ℕ)
            → withdrawn node' rid origin ≡ (
                withdrawn node rid origin || (obj.body.target == rid && obj.body.origin == origin)))
  unfolding insert_new retraction_row
  ingest_retraction_effect node' e =
      let (authored, cases) = ingest_retraction_cases node' e in
      elim cases [
        | inl (old, same) ↦
            (authored, rw same old, rw same refl, λ rid origin. rw same (known rid origin old))
        | inr (_, stores) ↦
            let (from, allocation, fresh, _, same) = store_retraction_lem node' stores in
            let row = retraction_row obj from allocation in
            let rows : node'.retractions ≡ insert_new obj.id row node.retractions =
              ap (λ (n : Node). n.retractions) same in
            (
              authored,
              rw (rows, insert_new) (rw fresh (withdrawn_in-append obj.id row node.retractions)),
              ground arith,
              λ rid origin.
                  rw (rows, insert_new)
                    (rw fresh (withdrawn_in-snoc rid origin obj.id row node.retractions)),
            )
      ]

  -- A withdrawal that is taken in was signed with the pinned key of the origin that it names. After
  -- it a record of an origin counts as withdrawn just where it did before or is the target of the
  -- withdrawal with the origin that it names. Only the withdrawals and the public tombstones change.
  pub ingest_retraction-withdrawn :
      (node' : Node)
      → ingest_retraction env node obj supplier requested ≡ ok node'
      → IsAuthored env node obj
        × ((rid origin : ℕ)
            → withdrawn node' rid origin ≡ (
                withdrawn node rid origin || (obj.body.target == rid && obj.body.origin == origin)))
        × (node' ≡ record node {
          retractions = node'.retractions;
          public_tombstones = node'.public_tombstones;
        })
  ingest_retraction-withdrawn node' e =
      let (authored, _, frame, exact) = ingest_retraction_effect node' e in (authored, exact, frame)

  -- After it nobody reads a record below the withdrawn one: not the owner, not the origin, and not
  -- by way of any derived record, whatever else happens to the other tables.
  pub withdrawn-active :
      (node' : Node) (requester rid a : ℕ) (transit : Bool) (row : Stored) (found : Object)
      → ingest_retraction env node obj supplier requested ≡ ok node'
      → lookup a node'.records ≡ some row
      → a ≡ obj.body.target
      → row.wire.body.origin ≡ obj.body.origin
      → Ancestor node' rid a
      → active env node' requester transit rid ≢ some found
  withdrawn-active node' requester rid a transit row found e at target origin chain served =
      let (_, gone, _, _) = ingest_retraction_effect node' e in
      let (o, s) = (active-IsServable env node' requester transit rid found served).1 a chain in
      let rows : some s.stored_row ≡ some row = sym s.stored ∙ at in
      let same_row : s.stored_row ≡ row = cc rows in
      let author : o.body.origin ≡ obj.body.origin =
        ap (λ (x : Object). x.body.origin) s.same
        ∙ ap (λ (r : Stored). r.wire.body.origin) same_row
        ∙ origin in
      let kept : withdrawn node' obj.body.target obj.body.origin ≡ false =
        rw (← author, ← target) s.kept in
      cc (sym kept ∙ gone)
