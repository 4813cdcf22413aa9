-- ===== src/Cache/Keeps.antt =====
-- agentmesh/cache.py: what a sweep never deletes.
use intertexum.Prelude.{
  ℕ, ◌+◌, ◌-◌, ◌≡◌, ◌≢◌, ◌⊎◌, ◌∙◌, ap, true, false, ◌&&◌, ◌==◌, leb, ltb, List, [], ◌∷◌, some,
  lookup, has, keep_rows, arith, length, Bool-cases, inl, inr, lookup-delete, ==_iff,
}
use intertexum.State.{Node, CacheSettings, Stored, pending}
use intertexum.Cache.{
  discard, by_use, TransitRow, expire_row, expire_rows, evict_rows, transit_bytes, sweep, is_stale,
  is_disposable,
}

-- a record that the owner has taken over: approved or private, or with a retention row
pub record IsOwned (node : Node) (rid : ℕ) (row : Stored) : Type 0 where
  pub stored : lookup rid node.records ≡ some row
  pub taken : (row.state ≢ pending) ⊎ (has rid node.retention ≡ true)

is_disposable-owned :
    (node : Node) (rid : ℕ) (row : Stored)
    → IsOwned node rid row
    → is_disposable node rid (lookup rid node.records) ≡ false
unfolding is_disposable
is_disposable-owned node rid row o = rw o.stored (ground (arith, o.taken))

IsOwned-discard :
    (node : Node) (rid other : ℕ) (row : Stored)
    → IsOwned node rid row
    → IsOwned (discard node other).0 rid row
unfolding discard
IsOwned-discard node rid other row o =
    elim (Bool-cases (is_disposable node other (lookup other node.records))) [
      | inr kept ↦ rw kept (record { stored = o.stored; taken = o.taken })
      | inl gone ↦ elim (Bool-cases (other == rid)) [
        | inl same ↦
            let e : other ≡ rid = (==_iff other rid).0 same in
            absurd (
              ground (
                arith,
                is_disposable-owned node rid row o,
                ap (λ k. is_disposable node k (lookup k node.records)) e,
              ))
        | inr apart ↦ rw gone (record {
          stored = lookup-delete other rid node.records ∙ ground (arith, o.stored);
          taken = o.taken;
        })
      ]
    ]

module _ (rid : ℕ) (stored_row : Stored) where
  IsOwned-expire_row :
      (seen : Node) (entry : TransitRow) (node : Node) (removed : ℕ)
      → IsOwned node rid stored_row
      → IsOwned (expire_row seen entry node removed).0 rid stored_row
  unfolding expire_row
  IsOwned-expire_row seen (other, row) node removed o =
      elim (Bool-cases (is_stale seen seen.now (lookup other seen.records) row.expires)) [
        | inl e ↦ rw e (IsOwned-discard node rid other stored_row o)
        | inr e ↦ rw e o
      ]

  IsOwned-expire_rows :
      (seen : Node) (rows : List TransitRow) (node : Node) (removed : ℕ)
      → IsOwned node rid stored_row
      → IsOwned (expire_rows seen rows (node, removed)).0 rid stored_row
  unfolding expire_rows
  IsOwned-expire_rows seen [] node removed o = o
  IsOwned-expire_rows seen (entry ∷ rest) node removed o =
      let (node', n) = expire_row seen entry node removed in
      IsOwned-expire_rows seen rest node' n (IsOwned-expire_row seen entry node removed o)

  IsOwned-evict_rows :
      (opts : CacheSettings) (rows : List TransitRow) (count size : ℕ) (node : Node) (removed : ℕ)
      → IsOwned node rid stored_row
      → IsOwned (evict_rows opts rows count size (node, removed)).0 rid stored_row
  unfolding evict_rows
  IsOwned-evict_rows opts [] count size node removed o = o
  IsOwned-evict_rows opts ((other, row) ∷ rest) count size node removed o =
      elim (Bool-cases (leb count opts.max_records && leb size opts.max_bytes)) [
        | inl fits ↦ rw fits o
        | inr full ↦ rw full (
            IsOwned-evict_rows opts rest (count - 1) (size - row.bytes) (discard node other).0
              (removed + (discard node other).1) (IsOwned-discard node rid other stored_row o))
      ]

  -- A sweep never deletes a record that was approved, that is private or that has a retention row.
  pub sweep-IsOwned :
      (node : Node) → IsOwned node rid stored_row → IsOwned (sweep node).0 rid stored_row
  unfolding sweep
  sweep-IsOwned node o =
      let watched : Node = record node {
        observations = keep_rows (λ _ o. ltb node.now o.expires) node.observations;
      } in
      let (fresh, removed) = expire_rows watched (by_use watched.transit) (watched, 0) in
      let rows = by_use fresh.transit in
      IsOwned-evict_rows fresh.cache_settings rows (length rows) (transit_bytes rows) fresh removed
        (IsOwned-expire_rows watched (by_use watched.transit) watched 0
          (record { stored = o.stored; taken = o.taken }))
