-- ===== src/Work/Limits.antt =====
-- agentmesh/message_work.py: what the accounting of `admit` guarantees.
use intertexum.Prelude.{
  ℕ, ◌+◌, ◌/◌, ◌≤◌, ◌≡◌, ◌≢◌, ◌∙◌, refl, ap, lookup, replace, arith, ok, lookup-replace, ==_refl,
}
use intertexum.State.{Node, Budget}
use intertexum.Work.{used_in, budget}

-- what has been used under a key in the current hour
abbrev pub used : Node → ℕ → ℕ × ℕ
used node key = used_in (node.now / 3600) (lookup key node.budgets)

unfoldable pub spent_row : Node → ℕ → ℕ → ℕ → Budget
spent_row node key n size = record {
  window = node.now / 3600;
  n = (used node key).0 + n;
  bytes = (used node key).1 + size;
}

pub budget_ok :
    (node : Node) (key n size nlimit blimit : ℕ) (node' : Node)
    → budget node key n size nlimit blimit ≡ ok node'
    → (node' ≡ record node { budgets = replace key (spent_row node key n size) node.budgets })
      × ((used node key).0 + n ≤ nlimit)
      × ((used node key).1 + size ≤ blimit)
unfolding budget spent_row
budget_ok node key n size nlimit blimit node' e = (ground arith, ground arith, ground arith)

used_self :
    (node : Node) (key : ℕ) (row : Budget)
    → row.window ≡ node.now / 3600
    → used (record node { budgets = replace key row node.budgets }) key ≡ (row.n, row.bytes)
unfolding used_in
used_self node key row w =
    rw (lookup-replace key key row node.budgets) (ground (arith, ==_refl key))

-- A charge that succeeds adds to what was used under its key and under no other, and what is
-- then used is within the limits.
pub budget-charges :
    (node : Node) (key n size nlimit blimit : ℕ) (node' : Node)
    → budget node key n size nlimit blimit ≡ ok node'
    → ((used node' key).0 ≡ (used node key).0 + n)
      × ((used node' key).1 ≡ (used node key).1 + size)
      × ((used node' key).0 ≤ nlimit)
      × ((used node' key).1 ≤ blimit)
      × ((other : ℕ) → other ≢ key → used node' other ≡ used node other)
unfolding spent_row
budget-charges node key n size nlimit blimit node' e =
    let (same, below, fits) = budget_ok node key n size nlimit blimit node' e in
    let now_used = used_self node key (spent_row node key n size) refl in
    let at = ap (λ (m : Node). used m key) same ∙ now_used in
    let first : (used node' key).0 ≡ (used node key).0 + n = ap (λ (p : ℕ × ℕ). p.0) at in
    let second : (used node' key).1 ≡ (used node key).1 + size = ap (λ (p : ℕ × ℕ). p.1) at in
    (
      first,
      second,
      omega arith,
      omega arith,
      λ other differs.
          ap (λ (m : Node). used m other) same
          ∙ ap (used_in (node.now / 3600))
              (lookup-replace key other (spent_row node key n size) node.budgets ∙ ground arith),
    )
