-- ===== src/Routing/Gossip.antt =====
-- agentmesh/routing.py: what the table of advertisements promises.
use intertexum.Prelude.{
  ℕ, ◌≤◌, ◌≡◌, ◌∙◌, refl, sym, ap, ◌==◌, leb, Option, none, some, lookup, replace, max, ok, arith,
  if◌then◌else◌, Bool-cases, inl, inr, lookup-replace, ==_iff,
}
use intertexum.Crypto.{Env, Signed, LsaBody, verify}
use intertexum.State.{Node}
use intertexum.Routing.{Router, store_new, store_lsa, ingest_lsa}

abbrev pub seq_of : Option (Signed LsaBody) → ℕ
seq_of none = 0
seq_of (some obj) = obj.body.seq

-- The abstract table: for each origin the highest sequence number that was taken, 0 for none.
abbrev pub newest : Router → ℕ → ℕ
newest r origin = seq_of (lookup origin r.lsas)

-- what the abstract table does with an advertisement
abbrev pub raise_to : (ℕ → ℕ) → LsaBody → ℕ → ℕ
raise_to seqs b origin = if b.origin == origin then max (seqs origin) b.seq else seqs origin

newest-replace :
    (r : Router) (obj : Signed LsaBody) (origin : ℕ)
    → newest (record r { lsas = replace obj.body.origin obj r.lsas }) origin
      ≡ (if obj.body.origin == origin then obj.body.seq else newest r origin)
newest-replace r obj origin = elim (Bool-cases (obj.body.origin == origin)) [
  | inl e ↦ rw (lookup-replace obj.body.origin origin obj r.lsas) (rw e refl)
  | inr e ↦ rw (lookup-replace obj.body.origin origin obj r.lsas) (rw e refl)
]

-- A newer sequence number replaces the old one, and an older one does not.
raise_to-newer :
    (r : Router) (b : LsaBody) (origin : ℕ)
    → newest r b.origin ≤ b.seq
    → (if b.origin == origin then b.seq else newest r origin) ≡ raise_to (newest r) b origin
raise_to-newer r b origin h = elim (Bool-cases (b.origin == origin)) [
  | inr e ↦ rw e refl
  | inl e ↦ let same = ap (newest r) ((==_iff b.origin origin).0 e) in rw e (omega (arith, same))
]

raise_to-older :
    (r : Router) (b : LsaBody) (origin : ℕ)
    → b.seq ≤ newest r b.origin
    → newest r origin ≡ raise_to (newest r) b origin
raise_to-older r b origin h = elim (Bool-cases (b.origin == origin)) [
  | inr e ↦ rw e refl
  | inl e ↦ let same = ap (newest r) ((==_iff b.origin origin).0 e) in rw e (omega (arith, same))
]

store_new-newest :
    (r r' : Router) (obj : Signed LsaBody) (o : Option (Signed LsaBody)) (origin : ℕ)
    → lookup obj.body.origin r.lsas ≡ o
    → store_new r obj o ≡ ok r'
    → newest r' origin ≡ raise_to (newest r) obj.body origin
unfolding store_new
store_new-newest r r' obj none origin at e =
    let same : record r { lsas = replace obj.body.origin obj r.lsas } ≡ r' = ground arith in
    let before : newest r obj.body.origin ≡ 0 = ap seq_of at in
    sym (ap (λ (x : Router). newest x origin) same)
    ∙ newest-replace r obj origin
    ∙ raise_to-newer r obj.body origin (omega (arith, before))
store_new-newest r r' obj (some old) origin at e =
    let before : newest r obj.body.origin ≡ old.body.seq = ap seq_of at in
    elim (Bool-cases (leb obj.body.seq old.body.seq)) [
      | inl older ↦
          let same : r ≡ r' = ground arith in
          sym (ap (λ (x : Router). newest x origin) same)
          ∙ raise_to-older r obj.body origin (ground (arith, before))
      | inr newer ↦
          let same : record r { lsas = replace obj.body.origin obj r.lsas } ≡ r' = ground arith in
          sym (ap (λ (x : Router). newest x origin) same)
          ∙ newest-replace r obj origin
          ∙ raise_to-newer r obj.body origin (ground (arith, before))
    ]

-- The table of advertisements is the map from each origin to the highest sequence number: taking an
-- advertisement in raises the number of its origin and leaves every other, and one that names this
-- node itself changes nothing.
pub ingest_lsa-newest :
    (env : Env) (node : Node) (r r' : Router) (obj : Signed LsaBody) (origin : ℕ)
    → ingest_lsa env node r obj ≡ ok r'
    → newest r' origin ≡ (
        if obj.body.origin == node.id then newest r origin else raise_to (newest r) obj.body origin)
unfolding ingest_lsa store_lsa verify
ingest_lsa-newest env node r r' obj origin e = elim (Bool-cases (obj.body.origin == node.id)) [
  | inl own ↦
      let same : r ≡ r' = ground arith in rw own (ap (λ (x : Router). newest x origin) (sym same))
  | inr other ↦
      let stored : store_new r obj (lookup obj.body.origin r.lsas) ≡ ok r' = ground arith in
      rw other (store_new-newest r r' obj (lookup obj.body.origin r.lsas) origin refl stored)
]
