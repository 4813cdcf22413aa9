-- ===== src/Node/Share/Import.antt =====
-- Import into quarantine: `ingest` and `_save` of agentmesh/node.py.
use intertexum.Prelude.{
  ℕ, ◌≡◌, ◌⊎◌, ◌∙◌, refl, sym, ltb, ◌++◌, true, false, ◌||◌, [], ◌∷◌, Option, none, some, elem,
  arith, Bool-cases, inl, inr, if◌then◌else◌, ok, err, ap, ◌>>◌, Error, lookup, has, insert_new,
  lookup-insert_new_self, Result, length, List, ◌==◌, ◌≢◌, keep, false, ==_iff, ==_refl, Bool,
}
use intertexum.Crypto.{Env, verify}
use intertexum.State.{Node, Stored, pending}
use intertexum.Policy.{
  Kind, sources, authors, allowed, require_source, remember_source, suppliers, trim_sources,
}
use intertexum.Node.Ancestry.{Object}
use intertexum.Node.Active.{active, verified_record}
use intertexum.Node.Active.Sound.{pending-active}
use intertexum.Node.Share.{check_import, save, note_source, ingest, after_save, max_records}

-- the rows of `record_sources` after a source of a record was noted
abbrev noted_rows : ℕ → ℕ → List (ℕ × ℕ) → List (ℕ × ℕ)
noted_rows id s rows =
    trim_sources id (if elem s (suppliers id rows) then rows else rows ++ (id, s) ∷ [])

suppliers-keep :
    (rid : ℕ) (p : ℕ × ℕ → Bool)
    → ((s : ℕ) → p (rid, s) ≡ true)
    → (rows : List (ℕ × ℕ)) → suppliers rid (keep p rows) ≡ suppliers rid rows
unfolding suppliers
suppliers-keep rid p own [] = refl
suppliers-keep rid p own ((r, s) ∷ rest) =
    let tail = suppliers-keep rid p own rest in
    elim (Bool-cases (r == rid)) [
      | inl here ↦
          let same : r ≡ rid = (==_iff r rid).0 here in
          rw (same, own s) (rw (==_refl rid, tail) refl)
      | inr away ↦ elim (Bool-cases (p (r, s))) [
        | inl stays ↦ rw (stays, away) tail
        | inr goes ↦ rw goes (rw away tail)
      ]
    ]

module _ (id rid : ℕ) where
  suppliers-snoc :
      (s : ℕ)
      → (rid == id) ≡ false
      → (rows : List (ℕ × ℕ)) → suppliers rid (rows ++ (id, s) ∷ []) ≡ suppliers rid rows
  unfolding suppliers
  suppliers-snoc s other [] = ground arith
  suppliers-snoc s other ((r, t) ∷ rest) = let tail = suppliers-snoc s other rest in ground arith

  suppliers-noted_rows :
      (s : ℕ)
      → rid ≢ id
      → (rows : List (ℕ × ℕ)) → suppliers rid (noted_rows id s rows) ≡ suppliers rid rows
  unfolding trim_sources
  suppliers-noted_rows s other rows =
      let off : (rid == id) ≡ false = ground arith in
      elim (Bool-cases (elem s (suppliers id rows))) [
        | inl known ↦ rw known (suppliers-keep rid _ (λ t. rw off refl) rows)
        | inr new ↦ rw new (
            suppliers-keep rid _ (λ t. rw off refl) (rows ++ (id, s) ∷ [])
            ∙ suppliers-snoc s off rows)
      ]

module _ (env : Env) (node : Node) (obj : Object) where
  -- what `check_import` settled about the sources, `remember_source` asks again
  check_import-allowed :
      (s : ℕ)
      → check_import env node obj (some s) ≡ ok tt
      → (allowed node sources s ≡ true) × (allowed node authors obj.body.origin ≡ true)
  unfolding check_import require_source verified_record verify
  check_import-allowed s h = (ground arith, ground arith)

  save_ok :
      (node' : Node)
      → save node obj pending ≡ ok node'
      → node' ≡ record node {
        records = insert_new obj.id (record { wire = obj; state = pending }) node.records;
      }
  unfolding save
  save_ok node' h = ground arith

  save_room :
      (node' : Node)
      → save node obj pending ≡ ok node'
      → (has obj.id node.records || ltb (length node.records) max_records) ≡ true
  unfolding save
  save_room node' h = ground arith

  save-allowed :
      (node' : Node) (k : Kind) (peer : ℕ)
      → save node obj pending ≡ ok node'
      → allowed node' k peer ≡ allowed node k peer
  unfolding allowed
  save-allowed node' k peer h = rw (save_ok node' h) refl

  remember_source_lem :
      (node' : Node) (s : ℕ)
      → allowed node' sources s ≡ true
      → allowed node' authors obj.body.origin ≡ true
      → (node'' : Node) × (remember_source node' obj s ≡ ok node'')
        × (node'' ≡ record node' { record_sources = node''.record_sources })
        × ((rid : ℕ)
            → rid ≢ obj.id
            → suppliers rid node''.record_sources ≡ suppliers rid node'.record_sources)
  unfolding remember_source require_source
  remember_source_lem node' s a b = elim (Bool-cases (has obj.id node'.records)) [
    | inr absent ↦ (node', ground arith, refl, λ rid other. refl)
    | inl present ↦ (
      record node' { record_sources = noted_rows obj.id s node'.record_sources },
      ground arith,
      refl,
      λ rid other. suppliers-noted_rows obj.id rid s other node'.record_sources,
    )
  ]

  note_source-keeps :
      (node' : Node) (source : Option ℕ)
      → check_import env node obj source ≡ ok tt
      → save node obj pending ≡ ok node'
      → (node'' : Node) × (note_source env node' obj source ≡ ok node'')
        × (node'' ≡ record node' { record_sources = node''.record_sources })
        × ((rid : ℕ)
            → rid ≢ obj.id
            → suppliers rid node''.record_sources ≡ suppliers rid node'.record_sources)
  unfolding note_source
  note_source-keeps node' none checked saved = (node', refl, refl, λ rid other. refl)
  note_source-keeps node' (some s) checked saved =
      let (a, b) = check_import-allowed s checked in
      remember_source_lem node' s (save-allowed node' sources s saved ∙ a)
        (save-allowed node' authors obj.body.origin saved ∙ b)

  -- what an import wrote when it returned
  pub record IsImported (source : Option ℕ) (node'' : Node) : Type 0 where
    pub checked : check_import env node obj source ≡ ok tt
    pub room : (has obj.id node.records || ltb (length node.records) max_records) ≡ true
    pub writes : node'' ≡ record node {
      records = insert_new obj.id (record { wire = obj; state = pending }) node.records;
      record_sources = node''.record_sources;
    }
    pub others :
        (rid : ℕ)
        → rid ≢ obj.id
        → suppliers rid node''.record_sources ≡ suppliers rid node.record_sources

  -- The two ways that an import goes: nothing was written, or the record was saved and nothing
  -- after that can fail.
  after_save-cases :
      (source : Option ℕ) (c : Result (Unit {0})) (r : Result Node)
      → check_import env node obj source ≡ c
      → save node obj pending ≡ r
      → ((e : Error) × (after_save env node obj source (c >> r) ≡ (err e, node)))
        ⊎ ((node'' : Node) × (after_save env node obj source (c >> r) ≡ (ok obj.id, node''))
            × IsImported source node'')
  unfolding after_save
  after_save-cases source (err e) r c s = inl (e, refl)
  after_save-cases source (ok tt) (err e) c s = inl (e, refl)
  after_save-cases source (ok tt) (ok node') c s =
      let (node'', noted_, frame, others) = note_source-keeps node' source c s in
      let same = save_ok node' s in
      inr (
        node'',
        rw noted_ refl,
        record {
          checked = c;
          room = save_room node' s;
          writes =
              frame ∙ ap (λ (n : Node). record n { record_sources = node''.record_sources }) same;
          others = λ rid other.
              others rid other ∙ ap (λ (n : Node). suppliers rid n.record_sources) same;
        },
      )

  -- An import that raises wrote nothing. One that returns had passed all checks and found room. It
  -- added the record as pending if its ID was new and left a stored record of the ID as it was.
  -- Beside the records it changed at most the rows of `record_sources` that name this record.
  pub ingest_cases :
      (source : Option ℕ)
      → ((e : Error) × (ingest env node obj source ≡ (err e, node)))
        ⊎ ((node'' : Node) × (ingest env node obj source ≡ (ok obj.id, node''))
            × IsImported source node'')
  unfolding ingest
  ingest_cases source =
      after_save-cases source (check_import env node obj source) (save node obj pending) refl refl

  -- Quarantine: what an import adds is not active for the owner.
  pub ingest-pending :
      (source : Option ℕ) (node'' : Node) (rid : ℕ)
      → lookup obj.id node.records ≡ none
      → ingest env node obj source ≡ (ok rid, node'')
      → active env node'' node''.id false rid ≡ none
  ingest-pending source node'' rid new e = elim (ingest_cases source) [
    | inl (e', failed) ↦ absurd (ground (arith, sym e ∙ failed))
    | inr (n, returned, imported) ↦
        let saved = ap (λ (m : Node). m.records) imported.writes in
        let same : n ≡ node'' = ap (λ (p : Result ℕ × Node). p.1) (sym returned ∙ e) in
        let ids : obj.id ≡ rid = ground arith in
        let row : Stored = record { wire = obj; state = pending } in
        let at : lookup rid node''.records ≡ some row =
          rw (← ids, ← same, saved) (lookup-insert_new_self obj.id row node.records new) in
        pending-active env node'' node''.id false rid row refl refl at refl
  ]
