-- ===== src/Node/Ancestry.antt =====
-- The recursion of `Node._active` in agentmesh/node.py over the parents of a record, with its path
-- of visited IDs, its depth limit and its memo, for any test of the single record.
pub mod Memo
pub mod Closed
use intertexum.Prelude.{
  ℕ, zero, suc, Bool, true, false, not, ◌&&◌, ◌||◌, ◌==◌, List, [], ◌∷◌, Option, none, some, elem,
  if◌then◌else◌,
}
use intertexum.Crypto.{RecordBody, Signed}
use intertexum.Records.{is_public}

abbrev pub Object : Type 0
Object = Signed RecordBody

-- The dictionary `memo`. Its keys are an ID and the length of the path, here the levels that the
-- path leaves below the depth limit.
abbrev pub Memo : Type 0
Memo = List (ℕ × ℕ × Option Object)

unfoldable pub recall : ℕ → ℕ → Memo → Option (Option Object)
recall rid n [] = none
recall rid n ((r, m, o) ∷ memo) = if r == rid && m == n then some o else recall rid n memo

-- One turn of the loop over `body["parents"]`: a transit copy wants public ancestors.
unfoldable pub passes : Bool → Option Object → Bool
passes cached none = false
passes cached (some ancestor) = not cached || is_public ancestor.body.audience

unfoldable pub walk : (ℕ → Memo → Option Object × Memo) → Bool → List ℕ → Memo → Bool × Memo
walk visit cached [] memo = (true, memo)
walk visit cached (parent ∷ rest) memo =
    let (found, memo') = visit parent memo in
    let others = walk visit cached rest memo' in
    if passes cached found then others else (false, memo')

-- `memo[cache_key] = obj` after all parents passed; otherwise the placeholder `None` stays.
unfoldable pub settle : ℕ → ℕ → Object → Bool × Memo → Option Object × Memo
settle rid n obj (true, memo) = (some obj, (rid, n, some obj) ∷ memo)
settle rid n obj (false, memo) = (none, memo)

-- the body of the record `rid`, below the memo
unfoldable pub examine :
    (ℕ → Memo → Option Object × Memo) → ℕ → ℕ → Memo → Option (Object × Bool) → Option Object × Memo
unfolding walk settle
examine visit rid n memo none = (none, memo)
examine visit rid n memo (some (obj, cached)) =
    settle rid n obj (walk visit cached obj.body.parents memo)

unfoldable pub all_pass : (ℕ → Option Object) → Bool → List ℕ → Bool
unfolding passes
all_pass visit cached [] = true
all_pass visit cached (parent ∷ rest) =
    let others = all_pass visit cached rest in
    if passes cached (visit parent) then others else false

unfoldable pub judge : (ℕ → Option Object) → Option (Object × Bool) → Option Object
unfolding all_pass
judge visit none = none
judge visit (some (obj, cached)) = if all_pass visit cached obj.body.parents then some obj else none

module _ (admitted : ℕ → Option (Object × Bool)) where
  -- the first argument is `MAX_DEPTH - len(path)`
  unfoldable pub active_from : ℕ → List ℕ → ℕ → Memo → Option Object × Memo
  active_from zero path rid memo = (none, memo)
  active_from (suc n) path rid memo =
      if elem rid path then (none, memo) else elim (recall rid (suc n) memo) [
        | some found ↦ (found, memo)
        | none ↦
            examine (active_from n (rid ∷ path)) rid (suc n) ((rid, suc n, none) ∷ memo)
              (admitted rid)
      ]

  -- The reference: the same recursion with neither memo nor path.
  unfoldable pub lineage : ℕ → ℕ → Option Object
  lineage zero rid = none
  lineage (suc n) rid = judge (lineage n) (admitted rid)
