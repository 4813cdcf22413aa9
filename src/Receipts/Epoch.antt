-- ===== src/Receipts/Epoch.antt =====
-- agentmesh/lifecycle.py: a retired key is never accepted again.
use intertexum.Prelude.{
  ℕ, ◌<◌, ◌≡◌, ◌⊎◌, ◌∙◌, ap, ◌==◌, Option, List, [], ◌∷◌, Result, ok, err, denied, ◌>>=◌,
  Bool-cases, inl, inr, >>=-eq-ok, arith,
}
use intertexum.State.{Node}
use intertexum.Policy.{capability}
use intertexum.Receipts.{Receipts, receipt_guard, retire_epoch}

-- retirements, one after the other
unfoldable pub retire_all : Node → Receipts → List ℕ → Result Receipts
retire_all node r [] = ok r
retire_all node r (expected ∷ rest) = do
  next ← retire_epoch node r expected
  retire_all node next rest

retire_epoch_cases :
    (node : Node) (r r' : Receipts) (expected : ℕ)
    → retire_epoch node r expected ≡ ok r'
    → (r ≡ r') ⊎ (r.epoch < r'.epoch)
unfolding retire_epoch capability
retire_epoch_cases node r r' expected e = elim (Bool-cases (expected == r.epoch)) [
  | inl h ↦ inr (ground arith)
  | inr h ↦ inl (ground arith)
]

retire_all_cases :
    (node : Node) (r r' : Receipts) (all : List ℕ)
    → retire_all node r all ≡ ok r'
    → (r ≡ r') ⊎ (r.epoch < r'.epoch)
unfolding retire_all
retire_all_cases node r r' [] e = inl (cc e)
retire_all_cases node r r' (expected ∷ rest) e =
    let (next, retired, later) =
      >>=-eq-ok (retire_epoch node r expected) (λ n. retire_all node n rest) e in
    elim (retire_epoch_cases node r next expected retired) [
      | inl a ↦ elim (retire_all_cases node next r' rest later) [
        | inl b ↦ inl (a ∙ b)
        | inr b ↦ inr (omega (arith, ap (λ (x : Receipts). x.epoch) a, b))
      ]
      | inr a ↦ elim (retire_all_cases node next r' rest later) [
        | inl b ↦ inr (omega (arith, ap (λ (x : Receipts). x.epoch) b, a))
        | inr b ↦ inr (omega (arith, a, b))
      ]
    ]

module _ (digit : ℕ → Option ℕ) where
  receipt_guard-later :
      (now later : ℕ) (key : List ℕ)
      → now < later
      → receipt_guard digit now key ≡ ok tt
      → receipt_guard digit later key ≡ err denied
  unfolding receipt_guard
  receipt_guard-later now later key more old = ground arith

  -- However often epochs are retired, either nothing was retired or every key that was accepted
  -- before is refused.
  pub receipt_guard-retire_all :
      (node : Node) (r r' : Receipts) (all key : List ℕ)
      → receipt_guard digit r.epoch key ≡ ok tt
      → retire_all node r all ≡ ok r'
      → (r ≡ r') ⊎ (receipt_guard digit r'.epoch key ≡ err denied)
  receipt_guard-retire_all node r r' all key old e = elim (retire_all_cases node r r' all e) [
    | inl same ↦ inl same
    | inr more ↦ inr (receipt_guard-later r.epoch r'.epoch key more old)
  ]
