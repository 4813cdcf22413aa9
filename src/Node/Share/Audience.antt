-- ===== src/Node/Share/Audience.antt =====
-- `_check_parents` of agentmesh/node.py, by who can read what.
use intertexum.Prelude.{
  ℕ, ◌≡◌, ◌≢◌, refl, true, false, ◌||◌, ◌==◌, List, [], ◌∷◌, Option, none, some, elem, arith,
  Bool-cases, inl, inr, ok, err, Result, ==_iff,
}
use intertexum.Crypto.{Env, Reader, everyone, anyone, named, RecordBody}
use intertexum.Records.{includes, reader_eq}
use intertexum.State.{Node, Peer}
use intertexum.Node.Peers.{peer}
use intertexum.Node.Ancestry.{Object}
use intertexum.Node.Active.{active, visible}
use intertexum.Node.Share.{narrows, is_covered, check_parent, check_each}

all_covered :
    (pa : List Reader) (origin peer : ℕ) (audience : List Reader)
    → is_covered pa origin audience ≡ true
    → includes audience (named peer) ≡ true
    → (includes pa (named peer) || peer == origin) ≡ true
unfolding is_covered includes reader_eq
all_covered pa origin peer [] h e = cc
all_covered pa origin peer (everyone ∷ rest) h e = all_covered pa origin peer rest (ground arith) e
all_covered pa origin peer (anyone ∷ rest) h e = all_covered pa origin peer rest (ground arith) e
all_covered pa origin peer (named n ∷ rest) h e = elim (Bool-cases (peer == n)) [
  | inl here ↦ let same : peer ≡ n = (==_iff peer n).0 here in rw same (ground arith)
  | inr later ↦ all_covered pa origin peer rest (ground arith) (ground arith)
]

-- An audience that narrows a parent's lets nobody read, its writer aside, whom the parent's does
-- not.
narrows-visible_by :
    (node : Node) (body parent : RecordBody) (requester : ℕ) (known : Result Peer)
    → peer node requester false ≡ known
    → narrows body.audience parent ≡ true
    → visible node body requester ≡ ok true
    → (requester == body.origin) ≡ false
    → visible node parent requester ≡ ok true
unfolding narrows visible
narrows-visible_by node body parent requester (err e) at n v o =
    let covered = all_covered parent.audience parent.origin requester body.audience in
    ground (arith, covered)
narrows-visible_by node body parent requester (ok p) at n v o =
    let covered = all_covered parent.audience parent.origin requester body.audience in
    ground (arith, covered)

module _ (env : Env) (node : Node) (body : RecordBody) where
  check_parent-visible :
      (requester rid : ℕ) (o : Option Object)
      → active env node node.id false rid ≡ o
      → check_parent env node body.audience o ≡ ok tt
      → visible node body requester ≡ ok true
      → (requester == body.origin) ≡ false
      → (parent : Object) × (active env node node.id false rid ≡ some parent)
        × (visible node parent.body requester ≡ ok true)
  unfolding check_parent
  check_parent-visible requester rid none e h v other = cc
  check_parent-visible requester rid (some parent) e h v other = (
    parent,
    e,
    narrows-visible_by node body parent.body requester (peer node requester false) refl
        (ground arith) v other,
  )

  -- Each parent that passes `_check_parents` for a body is active for the owner, and every
  -- requester that `_visible` lets read the body, other than its origin, it lets read that parent.
  pub check_each-visible :
      (parents : List ℕ) (rid requester : ℕ)
      → check_each env node body.audience parents ≡ ok tt
      → elem rid parents ≡ true
      → visible node body requester ≡ ok true
      → requester ≢ body.origin
      → (parent : Object) × (active env node node.id false rid ≡ some parent)
        × (visible node parent.body requester ≡ ok true)
  unfolding check_each elem
  check_each-visible [] rid requester h e v other = cc
  check_each-visible (p ∷ rest) rid requester h e v other = elim (Bool-cases (rid == p)) [
    | inl here ↦
        let same : rid ≡ p = (==_iff rid p).0 here in
        rw same (
          check_parent-visible requester p (active env node node.id false p) refl (ground arith) v
            (ground arith))
    | inr later ↦ check_each-visible rest rid requester (ground arith) (ground arith) v other
  ]
