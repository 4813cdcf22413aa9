-- ===== src/Prelude/Raising.antt =====
-- The exceptions of agentmesh/crypto.py and its subclasses, and the code that may raise them.
use mathlib.Core.Bool.{Bool, false, true}
use mathlib.Core.Path.{◌≡◌, refl}

-- `Invalid`, `Denied`, the subclass `WorkBudget` of `Denied` that a caller tells apart, and
-- `sqlite3.IntegrityError` of an insertion that repeats a primary key.
pub data Error : Type 0 where
  invalid denied work_budget integrity : Error

-- what a call returns, or what it raises
pub data Result {ℓ} (X : Type ℓ) : Type ℓ where
  err : Error → Result X
  ok : X → Result X

abbrev pub is_ok {ℓ} : {X : Type ℓ} → Result X → Bool
is_ok (err raised) = false
is_ok (ok x) = true

-- `if not test: raise raised`
abbrev pub guard : (test : Bool) (raised : Error) → Result (Unit {0})
guard false raised = err raised
guard true raised = ok tt

infixl 5 ◌>>=◌
-- the statements behind a call that may raise
abbrev pub ◌>>=◌ {ℓ κ} :
    {X : Type ℓ} {Y : Type κ} (first : Result X) (rest : X → Result Y) → Result Y
err raised >>= rest = err raised
ok x >>= rest = rest x

infixl 5 ◌>>◌
abbrev pub ◌>>◌ {ℓ κ} : {X : Type ℓ} {Y : Type κ} (first : Result X) (rest : Result Y) → Result Y
first >> rest = first >>= λ x. rest

pub >>=-eq-ok {ℓ κ} :
    {X : Type ℓ} {Y : Type κ} (first : Result X) (rest : X → Result Y) {y : Y}
    → (first >>= rest) ≡ ok y
    → (x : X) × (first ≡ ok x) × (rest x ≡ ok y)
>>=-eq-ok (err raised) rest e = cc
>>=-eq-ok (ok x) rest e = (x, refl, e)

pub guard-eq-ok :
    {X : Type 0} (test : Bool) (raised : Error) (rest : Result X) {x : X}
    → (guard test raised >> rest) ≡ ok x
    → (test ≡ true) × (rest ≡ ok x)
guard-eq-ok false raised rest e = cc
guard-eq-ok true raised rest e = (refl, e)
