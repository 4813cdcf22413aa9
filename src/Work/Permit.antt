-- ===== src/Work/Permit.antt =====
-- agentmesh/message_work.py: a reply permit serves once.
use intertexum.Prelude.{
  ℕ, ◌≡◌, ◌∙◌, refl, sym, ap, Bool, false, [], ◌∷◌, Table, Option, none, some, lookup, update,
  keep_rows, arith, ok, err, Result, is_ok,
}
use intertexum.Crypto.{Env, message, Signed, OfferBody}
use intertexum.State.{Node, WorkOut}
use intertexum.Work.{Subject, Proof, budget, charge, keep_offer, admit, entry, clear, sweep}
use intertexum.Work.Entry.{admit-IsAdmitted, IsSpent, spend_permit-IsSpent}

-- every row under the key, if there is one, has been consumed
IsConsumed : ℕ → Table WorkOut → Type 0
IsConsumed k t =
    (r : WorkOut)
    → (p : ℕ → WorkOut → Bool) → lookup k (keep_rows p t) ≡ some r
    → r.consumed ≡ none
    → ⊥

update-IsConsumed :
    (k id : ℕ) (t : Table WorkOut)
    → IsConsumed k (update k (λ r. record r { consumed = some id }) t)
unfolding IsConsumed lookup update
update-IsConsumed k id [] r p e c = cc
update-IsConsumed k id ((j, w) ∷ t) r p e c = ground (arith, update-IsConsumed k id t r p)

work_out-charge :
    (env : Env) (node : Node) (obj : Subject) (peer : ℕ) (node' : Node)
    → charge env node obj peer ≡ ok node'
    → node'.work_out ≡ node.work_out
unfolding charge budget
work_out-charge env node obj peer node' e = ground arith

work_out-keep_offer :
    (env : Env) (node : Node) (id peer : ℕ) (offer : Option (Signed OfferBody)) (node' : Node)
    → keep_offer env node id peer offer ≡ ok node'
    → node'.work_out ≡ node.work_out
unfolding keep_offer
work_out-keep_offer env node id peer none node' e = ground arith
work_out-keep_offer env node id peer (some offer) node' e = ground arith

module _ (env : Env) (obj : Subject) (peer : ℕ) (admission : Option Proof) where
  -- a free reply goes by `spend_permit`
  entry-IsSpent :
      (node node' : Node) (offer : Option (Signed OfferBody))
      → obj.version ≡ 3
      → entry env node obj peer message admission none ≡ ok (node', offer)
      → IsSpent env node obj peer node'
  unfolding entry clear
  entry-IsSpent node node' offer v e =
      spend_permit-IsSpent env node obj peer (lookup obj.reply_to node.work_out) node' refl
        (ground arith)

module _ (env : Env) (first second : Subject) (node node' : Node) where
  work_out-admit :
      (peer : ℕ) (admission : Option Proof)
      → first.version ≡ 3
      → admit env node first peer message admission none ≡ ok node'
      → IsConsumed first.reply_to node'.work_out
  work_out-admit peer admission v e =
      let s = admit-IsAdmitted env node first peer message admission none node' e in
      let sp = entry-IsSpent env first peer admission (sweep node) s.cleared s.offer v s.entered in
      let rows =
        work_out-keep_offer env s.charged first.id peer s.offer node' s.keeps
        ∙ work_out-charge env s.cleared first peer s.charged s.charges
        ∙ ap (λ (n : Node). n.work_out) sp.spends in
      rw rows (update-IsConsumed first.reply_to first.id (sweep node).work_out)

  -- After a free reply was admitted, no other free reply to the same request is, from whatever
  -- peer and at whatever later time.
  pub permit_once :
      (peer peer' t t_ns : ℕ) (admission admission' : Option Proof)
      → first.version ≡ 3
      → second.version ≡ 3
      → second.reply_to ≡ first.reply_to
      → admit env node first peer message admission none ≡ ok node'
      → is_ok
          (admit env (record node' { now = t; now_ns = t_ns }) second peer' message admission' none)
        ≡ false
  unfolding IsConsumed sweep
  permit_once peer peer' t t_ns admission admission' v v' same e =
      refuse (admit env later second peer' message admission' none) refl
    where
      later : Node
      later = record node' { now = t; now_ns = t_ns }

      refuse :
          (r : Result Node)
          → admit env later second peer' message admission' none ≡ r
          → is_ok r ≡ false
      refuse (err x) e' = refl
      refuse (ok node'') e' =
          let s = admit-IsAdmitted env later second peer' message admission' none node'' e' in
          let sp =
            entry-IsSpent env second peer' admission' (sweep later) s.cleared s.offer v'
              s.entered in
          absurd (
            work_out-admit peer admission v e sp.by.row _
              (ap (λ k. lookup k (sweep later).work_out) (sym same) ∙ sp.by.at) sp.by.unused)
