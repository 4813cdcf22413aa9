-- ===== src/Cache/Bounds.antt =====
-- agentmesh/cache.py: a sweep leaves at most the configured number of copies and bytes.
use intertexum.Prelude.{
  ℕ, ◌+◌, ◌-◌, ◌≤◌, ◌≡◌, ◌∙◌, refl, ◌&&◌, ◌==◌, leb, List, [], ◌∷◌, Table, delete, arith, length,
  sum_by, if◌then◌else◌, Bool-cases, inl, inr, leb→le, &&_true, keep_rows, ltb,
}
use mathlib.Core.Path.{subst}
use intertexum.State.{Node, Transit, CacheSettings}
use intertexum.Cache.{
  discard, by_use, insert_row, TransitRow, expire_row, expire_rows, evict_rows, transit_bytes,
  sweep, before,
}

sum_by-insert_row :
    (f : TransitRow → ℕ) (x : TransitRow) (rows : List TransitRow)
    → sum_by f (insert_row x rows) ≡ f x + sum_by f rows
unfolding insert_row
sum_by-insert_row f x [] = refl
sum_by-insert_row f x (y ∷ ys) = elim (Bool-cases (before x y)) [
  | inl e ↦ rw e refl
  | inr e ↦ rw e (omega (arith, sum_by-insert_row f x ys))
]

-- `ORDER BY` loses no row and adds none.
sum_by-by_use :
    (f : TransitRow → ℕ) (rows : List TransitRow) → sum_by f (by_use rows) ≡ sum_by f rows
unfolding by_use
sum_by-by_use f [] = refl
sum_by-by_use f (x ∷ xs) = omega (arith, sum_by-insert_row f x (by_use xs), sum_by-by_use f xs)

transit-discard : (node : Node) (rid : ℕ) → (discard node rid).0.transit ≡ delete rid node.transit
unfolding discard
transit-discard node rid = ground arith

-- the weights of the rows with another ID
off : ℕ → (TransitRow → ℕ) → TransitRow → ℕ
off rid f x = if x.0 == rid then 0 else f x

sum_by-delete :
    (rid : ℕ) (f : TransitRow → ℕ) (t : Table Transit)
    → sum_by f (delete rid t) ≡ sum_by (off rid f) t
unfolding delete off
sum_by-delete rid f [] = refl
sum_by-delete rid f ((j, r) ∷ t) = ground (arith, sum_by-delete rid f t)

sum_by-off-le :
    (rid : ℕ) (f : TransitRow → ℕ) (rows : List TransitRow)
    → sum_by (off rid f) rows ≤ sum_by f rows
unfolding off
sum_by-off-le rid f [] = omega arith
sum_by-off-le rid f (x ∷ xs) = ground (arith, sum_by-off-le rid f xs)

-- The table is covered by rows that are still to be looked at, whatever the weights.
record IsCovered (t : Table Transit) (rows : List TransitRow) : Type 0 where
  by_weight : (f : TransitRow → ℕ) → sum_by f t ≤ sum_by f rows

IsCovered-delete :
    (rid : ℕ) (row : Transit) (rest : List TransitRow) (t : Table Transit)
    → IsCovered t ((rid, row) ∷ rest)
    → IsCovered (delete rid t) rest
unfolding off
IsCovered-delete rid row rest t c = record {
  by_weight =
      λ f. ground (arith, sum_by-delete rid f t, c.by_weight (off rid f), sum_by-off-le rid f rest);
}

length-sum_by : (t : List TransitRow) → sum_by (λ _. 1) t ≡ length t
length-sum_by [] = refl
length-sum_by (x ∷ xs) = omega (arith, length-sum_by xs)

-- the limits of the settings
pub record IsWithin (opts : CacheSettings) (t : Table Transit) : Type 0 where
  pub records : length t ≤ opts.max_records
  pub bytes : transit_bytes t ≤ opts.max_bytes

evict_rows-IsWithin :
    (opts : CacheSettings) (rows : List TransitRow) (count size : ℕ) (node : Node) (removed : ℕ)
    → count ≡ length rows
    → size ≡ transit_bytes rows
    → IsCovered node.transit rows
    → IsWithin opts (evict_rows opts rows count size (node, removed)).0.transit
unfolding evict_rows
evict_rows-IsWithin opts [] count size node removed e e' c = record {
  records = omega (arith, length-sum_by node.transit, c.by_weight (λ _. 1));
  bytes = omega (arith, c.by_weight (λ r. r.1.bytes));
}
evict_rows-IsWithin opts ((rid, row) ∷ rest) count size node removed e e' c =
    elim (Bool-cases (leb count opts.max_records && leb size opts.max_bytes)) [
      | inl fits ↦
          let (a, b) = &&_true (leb count opts.max_records) (leb size opts.max_bytes) fits in
          rw fits (record {
            records = omega (
              arith,
              length-sum_by node.transit,
              length-sum_by rest,
              c.by_weight (λ _. 1),
              leb→le count opts.max_records a,
            );
            bytes = omega (arith, c.by_weight (λ r. r.1.bytes), leb→le size opts.max_bytes b);
          })
      | inr full ↦ rw full (
          evict_rows-IsWithin opts rest (count - 1) (size - row.bytes) (discard node rid).0
            (removed + (discard node rid).1) (omega arith) (omega arith)
            (rw (transit-discard node rid) (IsCovered-delete rid row rest node.transit c)))
    ]

settings-discard :
    (node : Node) (rid : ℕ) → (discard node rid).0.cache_settings ≡ node.cache_settings
unfolding discard
settings-discard node rid = ground arith

settings-expire_row :
    (seen : Node) (entry : TransitRow) (node : Node) (removed : ℕ)
    → (expire_row seen entry node removed).0.cache_settings ≡ node.cache_settings
unfolding expire_row
settings-expire_row seen (rid, row) node removed = ground (arith, settings-discard node rid)

settings-expire_rows :
    (seen : Node) (rows : List TransitRow) (node : Node) (removed : ℕ)
    → (expire_rows seen rows (node, removed)).0.cache_settings ≡ node.cache_settings
unfolding expire_rows
settings-expire_rows seen [] node removed = refl
settings-expire_rows seen (entry ∷ rest) node removed =
    let (node', n) = expire_row seen entry node removed in
    settings-expire_rows seen rest node' n ∙ settings-expire_row seen entry node removed

-- After a sweep the transit copies are at most as many, and as large together, as the settings say.
pub sweep-IsWithin : (node : Node) → IsWithin node.cache_settings (sweep node).0.transit
unfolding sweep
sweep-IsWithin node =
    let watched : Node = record node {
      observations = keep_rows (λ _ o. ltb node.now o.expires) node.observations;
    } in
    let out = expire_rows watched (by_use watched.transit) (watched, 0) in
    let same = settings-expire_rows watched (by_use watched.transit) watched 0 in
    let rows = by_use out.0.transit in
    subst
      (λ (o : CacheSettings).
        IsWithin o
          (evict_rows out.0.cache_settings rows (length rows) (transit_bytes rows) out).0.transit)
      same
      (evict_rows-IsWithin out.0.cache_settings rows (length rows) (transit_bytes rows) out.0 out.1
        refl refl (record { by_weight = λ f. omega (arith, sum_by-by_use f out.0.transit) }))
