-- ===== src/Work/Hour.antt =====
-- agentmesh/message_work.py: `budget` and `sweep` over one hour, for all callers of `budget`.
use intertexum.Prelude.{
  ℕ, ◌+◌, ◌/◌, ◌≤◌, ◌≡◌, ◌≢◌, ◌⊎◌, refl, ap, List, [], ◌∷◌, lookup, arith, ok, err, is_ok, Result,
  ==_iff, ◌==◌, ◌&&◌, leb, keep_rows, Table, All, Bool-cases, inl, inr, true, false, Bool,
}
use intertexum.State.{Node, Budget}
use intertexum.Work.{used_in, budget, sweep}
use intertexum.Work.Limits.{budget_ok, budget-charges}

-- what happens to the table of budgets, at a state of the node that is otherwise any
pub data Event : Type 0 where
  charging : (node : Node) (key n size : ℕ) → Event
  sweeping : (node : Node) → Event

abbrev pub clock : Event → ℕ
clock (charging node key n size) = node.now
clock (sweeping node) = node.now

-- the state of an event, with the budgets that are kept by then
abbrev with_budgets : Node → Table Budget → Node
with_budgets node rows = record node { budgets = rows }

abbrev budgets_after : Table Budget → Result Node → Table Budget
budgets_after rows (err e) = rows
budgets_after rows (ok node') = node'.budgets

-- what a charge counts, where it was granted
abbrev amount : Bool → ℕ → ℕ → ℕ × ℕ
amount true n size = (n, size)
amount false n size = (0, 0)

amount-none : (b : Bool) (n size : ℕ) → amount (b && false) n size ≡ (0, 0)
amount-none false n size = refl
amount-none true n size = refl

-- what a charge that is granted does to what was used in the hour
granted-used :
    (node node' : Node) (rows : Table Budget) (key n size nlimit blimit : ℕ)
    → budget (with_budgets node rows) key n size nlimit blimit ≡ ok node'
    → ((used_in (node.now / 3600) (lookup key node'.budgets)).0
        ≡ (used_in (node.now / 3600) (lookup key rows)).0 + n)
      × ((used_in (node.now / 3600) (lookup key node'.budgets)).1
          ≡ (used_in (node.now / 3600) (lookup key rows)).1 + size)
      × ((used_in (node.now / 3600) (lookup key rows)).0 + n ≤ nlimit)
      × ((used_in (node.now / 3600) (lookup key rows)).1 + size ≤ blimit)
      × ((other : ℕ)
          → other ≢ key
          → used_in (node.now / 3600) (lookup other node'.budgets)
            ≡ used_in (node.now / 3600) (lookup other rows))
granted-used node node' rows key n size nlimit blimit e =
    let start = with_budgets node rows in
    let (same, below, fits) = budget_ok start key n size nlimit blimit node' e in
    let (c1, c2, c3, c4, c5) = budget-charges start key n size nlimit blimit node' e in
    let clock_same : node'.now ≡ node.now = ap (λ (m : Node). m.now) same in
    (
      rw clock_same at c1,
      rw clock_same at c2,
      below,
      fits,
      λ other differs. rw clock_same at (c5 other differs),
    )

sweep-used :
    (hour now key : ℕ) (rows : Table Budget)
    → now ≡ hour
    → (used_in hour (lookup key rows) ≡ (0, 0))
      ⊎ (used_in hour (lookup key (keep_rows (λ _ b. leb now b.window) rows))
          ≡ used_in hour (lookup key rows))
unfolding used_in lookup
sweep-used hour now key [] at = inl refl
sweep-used hour now key ((k, row) ∷ rest) at =
    let later = sweep-used hour now key rest at in
    elim (Bool-cases (k == key)) [
      | inl here ↦ elim (Bool-cases (leb now row.window)) [
        | inl stays ↦ inr (rw (stays, here) refl)
        | inr goes ↦ inl (rw here (ground arith))
      ]
      | inr away ↦ elim (Bool-cases (leb now row.window)) [
        | inl stays ↦ rw (stays, away) later
        | inr goes ↦ rw (goes, away) later
      ]
    ]

-- The limits of each key stay the same for the run.
module _ (nlimit blimit : ℕ → ℕ) where
  abbrev try_charge : Table Budget → Node → ℕ → ℕ → ℕ → Result Node
  try_charge rows node key n size =
      budget (with_budgets node rows) key n size (nlimit key) (blimit key)

  -- the budgets after an event; a charge that is refused leaves them
  unfoldable after : Table Budget → Event → Table Budget
  after rows (charging node key n size) = budgets_after rows (try_charge rows node key n size)
  after rows (sweeping node) = (sweep (with_budgets node rows)).budgets

  -- what an event charges under a key: nothing, where it is refused
  unfoldable charged : ℕ → Table Budget → Event → ℕ × ℕ
  charged key rows (charging node k n size) =
      amount (k == key && is_ok (try_charge rows node k n size)) n size
  charged key rows (sweeping node) = (0, 0)

  -- what a run charges under a key
  unfoldable pub all_charged : ℕ → Table Budget → List Event → ℕ × ℕ
  unfolding after charged
  all_charged key rows [] = (0, 0)
  all_charged key rows (e ∷ rest) =
      let first = charged key rows e in
      let others = all_charged key (after rows e) rest in (first.0 + others.0, first.1 + others.1)

  module _ (hour key : ℕ) where
    -- what was charged is counted in the table, and within the limits
    record Counted (rows : Table Budget) (n size : ℕ) : Type 0 where
      counts : n ≤ (used_in hour (lookup key rows)).0
      bytes : size ≤ (used_in hour (lookup key rows)).1
      count_fits : n ≤ nlimit key
      bytes_fit : size ≤ blimit key

    charging-Counted :
        (rows : Table Budget) (node : Node) (k n size : ℕ) (r : Result Node) (m b : ℕ)
        → node.now / 3600 ≡ hour
        → try_charge rows node k n size ≡ r
        → Counted rows m b
        → Counted
            (budgets_after rows r)
            (m + (amount (k == key && is_ok r) n size).0)
            (b + (amount (k == key && is_ok r) n size).1)
    charging-Counted rows node k n size (err e) m b at c h =
        rw (amount-none (k == key) n size) (record {
          counts = omega (arith, h.counts);
          bytes = omega (arith, h.bytes);
          count_fits = omega (arith, h.count_fits);
          bytes_fit = omega (arith, h.bytes_fit);
        })
    charging-Counted rows node k n size (ok node') m b at c h =
        let (c1, c2, c3, c4, c5) = granted-used node node' rows k n size (nlimit k) (blimit k) c in
        elim (Bool-cases (k == key)) [
          | inl here ↦
              let same : k ≡ key = (==_iff k key).0 here in
              let d1 = rw (at, same) at c1 in
              let d2 = rw (at, same) at c2 in
              let d3 = rw (at, same) at c3 in
              let d4 = rw (at, same) at c4 in
              rw here (record {
                counts = omega (arith, h.counts, d1);
                bytes = omega (arith, h.bytes, d2);
                count_fits = omega (arith, h.counts, d3);
                bytes_fit = omega (arith, h.bytes, d4);
              })
          | inr away ↦
              let differs : key ≢ k = ground arith in
              let kept = rw at at (c5 key differs) in
              rw away (record {
                counts = rw kept (omega (arith, h.counts));
                bytes = rw kept (omega (arith, h.bytes));
                count_fits = omega (arith, h.count_fits);
                bytes_fit = omega (arith, h.bytes_fit);
              })
        ]

    after-Counted :
        (rows : Table Budget) (e : Event) (m b : ℕ)
        → clock e / 3600 ≡ hour
        → Counted rows m b
        → Counted (after rows e) (m + (charged key rows e).0) (b + (charged key rows e).1)
    unfolding after charged sweep
    after-Counted rows (charging node k n size) m b at h =
        charging-Counted rows node k n size (try_charge rows node k n size) m b at refl h
    after-Counted rows (sweeping node) m b at h =
        elim (sweep-used hour (node.now / 3600) key rows at) [
          | inl nothing ↦
              let none_counted : m ≤ 0 = rw nothing at h.counts in
              let no_bytes : b ≤ 0 = rw nothing at h.bytes in
              record {
                counts = omega (arith, none_counted);
                bytes = omega (arith, no_bytes);
                count_fits = omega (arith, h.count_fits);
                bytes_fit = omega (arith, h.bytes_fit);
              }
          | inr kept ↦ record {
            counts = rw kept (omega (arith, h.counts));
            bytes = rw kept (omega (arith, h.bytes));
            count_fits = omega (arith, h.count_fits);
            bytes_fit = omega (arith, h.bytes_fit);
          }
        ]

    all_charged-Counted :
        (rows : Table Budget) (events : List Event) (m b : ℕ)
        → All (λ e. clock e / 3600 ≡ hour) events
        → Counted rows m b
        → (m + (all_charged key rows events).0 ≤ nlimit key)
          × (b + (all_charged key rows events).1 ≤ blimit key)
    unfolding all_charged
    all_charged-Counted rows [] m b inside h =
        (omega (arith, h.count_fits), omega (arith, h.bytes_fit))
    all_charged-Counted rows (e ∷ rest) m b (now, later) h =
        let next = after-Counted rows e m b now h in
        let (c, d) =
          all_charged-Counted (after rows e) rest (m + (charged key rows e).0)
            (b + (charged key rows e).1) later next in
        (omega (arith, c), omega (arith, d))

    -- Whatever charges and sweeps happen in one hour, in whatever order, at whatever times in it and
    -- under whatever keys, refused ones included, and whatever else of the node changes in between:
    -- what was charged under a key in that hour is within its two limits, where these stay the same.
    pub all_charged-le :
        (rows : Table Budget) (events : List Event)
        → All (λ e. clock e / 3600 ≡ hour) events
        → ((all_charged key rows events).0 ≤ nlimit key)
          × ((all_charged key rows events).1 ≤ blimit key)
    all_charged-le rows events inside =
        let start : Counted rows 0 0 = record {
          counts = omega arith;
          bytes = omega arith;
          count_fits = omega arith;
          bytes_fit = omega arith;
        } in
        let (c, d) = all_charged-Counted rows events 0 0 inside start in
        (omega (arith, c), omega (arith, d))
