-- ===== src/Receipts.antt =====
-- agentmesh/lifecycle.py: the receipts of tool calls and the epochs that retire them.
--
-- The key of `receipt_guard` is its characters. Which characters are digits, and their values, is an
-- argument: `str.isdigit` and `int` of Python, where the few digits that `int` refuses are none. In
-- the table a key is a number, a missing table is an empty one, and a response is a number.
pub mod Epoch
use intertexum.Prelude.{
  ℕ, ◌+◌, ◌*◌, Bool, true, false, not, ◌&&◌, ◌==◌, leb, elem, any, List, [], ◌∷◌, Table, Option,
  none, some, lookup, update, Result, ok, err, invalid, denied, guard, ◌>>=◌, ◌>>◌, if◌then◌else◌,
}
use intertexum.State.{Capability, Node}
use intertexum.Policy.{capability, is_none}

-- a row of `tool_receipts`
pub record ToolReceipt : Type 0 where
  pub fingerprint : ℕ
  pub response : Option ℕ

pub record Receipts : Type 0 where
  pub epoch : ℕ
  pub rows : Table ToolReceipt
  -- `node.active_mutations`
  pub running : List ℕ

-- a decimal number with one more digit
unfoldable add_digit : Option ℕ → ℕ → ℕ
add_digit none d = d
add_digit (some n) d = 10 * n + d

-- a key without the prefix `mcp:`
unfoldable strip_mcp : List ℕ → List ℕ
strip_mcp (a ∷ b ∷ c ∷ d ∷ rest) =
    if a == 109 && b == 99 && c == 112 && d == 58 then rest else a ∷ b ∷ c ∷ d ∷ rest
strip_mcp key = key

module _ (digit : ℕ → Option ℕ) where
  -- the number that the digits up to a colon spell, after those that were read
  unfoldable digits_to_colon : Option ℕ → List ℕ → Option ℕ
  unfolding add_digit
  digits_to_colon read [] = none
  digits_to_colon read (c ∷ rest) =
      if c == 58
      then read
      else elim (digit c) [ none ↦ none | some d ↦ digits_to_colon (some (add_digit read d)) rest ]

  -- the epoch that a key names: `e`, digits and a colon
  unfoldable named_epoch : List ℕ → Option ℕ
  unfolding digits_to_colon
  named_epoch [] = none
  named_epoch (c ∷ rest) = if c == 101 then digits_to_colon none rest else none

  -- `receipt_guard`
  unfoldable pub receipt_guard : ℕ → List ℕ → Result (Unit {0})
  unfolding strip_mcp named_epoch
  receipt_guard current rid = elim (named_epoch (strip_mcp rid)) [
    | none ↦ guard (current == 0) denied
    | some epoch ↦ guard (epoch == current) denied
  ]

abbrev pub is_incomplete : ℕ × ToolReceipt → Bool
is_incomplete row = is_none row.1.response

-- `retire_epoch`
unfoldable pub retire_epoch : Node → Receipts → ℕ → Result Receipts
retire_epoch node r expected = do
  capability node Capability.retain
  guard (leb expected r.epoch) invalid
  if expected == r.epoch
      then (do
        guard (not (any is_incomplete r.rows)) denied
        ok (record r { epoch = r.epoch + 1; rows = [] }))
      else ok r

-- The answer to a row: `abandoned` is the response that is written for a call that was given up.
-- It tells whether the call is settled.
unfoldable pub settle_row : Receipts → ℕ → ℕ → ToolReceipt → Option ℕ → Result (Receipts × Bool)
settle_row r abandoned key row none = ok (r, not (is_none row.response))
settle_row r abandoned key row (some expected) = do
  guard (not (elem key r.running)) denied
  guard (expected == row.fingerprint) invalid
  if is_none row.response
      then ok (
        record r { rows = update key (λ t. record t { response = some abandoned }) r.rows },
        true,
      )
      else ok (r, true)

-- `receipt`, for a key of 1 to 128 characters
unfoldable pub receipt : Node → Receipts → ℕ → ℕ → Option ℕ → Result (Receipts × Bool)
unfolding settle_row
receipt node r abandoned key expected = do
  capability node Capability.retain
  elim (lookup key r.rows) [
    | none ↦ err invalid
    | some row ↦ settle_row r abandoned key row expected
  ]
