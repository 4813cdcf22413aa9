-- ===== src/Tests/Retiring.antt =====
-- Runs of the retirement of receipts, from agentmesh/lifecycle.py.
use intertexum.Prelude.{
  ℕ, ◌≡◌, ◌⊎◌, ◌-◌, ◌&&◌, leb, if◌then◌else◌, List, Option, none, refl, [], ◌∷◌, some, ok, err,
  denied,
}
use intertexum.Receipts.{Receipts, receipt_guard, retire_epoch}
use intertexum.Receipts.Epoch.{retire_all, receipt_guard-retire_all}
use intertexum.Tests.{program, node}

retiring : Unit {0}
unfolding program receipt_guard retire_epoch retire_all
retiring = tt

abbrev kept : Receipts
kept = record {
  epoch = 2;
  rows = (7, record { fingerprint = 5; response = some 1 }) ∷ [];
  running = [];
}

abbrev emptied : Receipts
emptied = record { epoch = 3; rows = []; running = [] }

-- the decimal digits of ASCII
abbrev ascii_digit : ℕ → Option ℕ
ascii_digit c = if leb 48 c && leb c 57 then some (c - 48) else none

-- "mcp:e2:a"
abbrev call_key : List ℕ
call_key = 109 ∷ 99 ∷ 112 ∷ 58 ∷ 101 ∷ 50 ∷ 58 ∷ 97 ∷ []

accepted : receipt_guard ascii_digit 2 call_key ≡ ok tt
unfolding retiring
accepted = refl

retires : retire_all node kept (1 ∷ 2 ∷ []) ≡ ok emptied
unfolding retiring
retires = refl

receipt_guard-retire_all_example :
    (kept ≡ emptied) ⊎ (receipt_guard ascii_digit 3 call_key ≡ err denied)
receipt_guard-retire_all_example =
    receipt_guard-retire_all ascii_digit node kept emptied (1 ∷ 2 ∷ []) call_key accepted retires
