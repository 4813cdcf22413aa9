-- ===== src/Bootstrap/Suppressed.antt =====
-- agentmesh/bootstrap.py: what the receipt of a removal promises.
use intertexum.Prelude.{
  ℕ, ◌+◌, ◌<◌, ◌≡◌, ◌∙◌, refl, sym, ap, Bool, true, false, not, ◌&&◌, ltb, length, Option, none,
  some, lookup, has, insert_new, keep_rows, Result, ok, err, is_ok, denied, arith, Bool-cases, inl,
  inr, guard-eq-ok, has-keep_rows, has-by_key, lookup-insert_new_self, has_of_lookup,
}
use mathlib.Core.Path.{subst}
use intertexum.Crypto.{Env, Signed, RemovalBody, RemovalReceiptBody, sign}
use intertexum.Defense.{Defense}
use intertexum.Erasure.{validate}
use intertexum.Rendezvous.{remove}
use intertexum.Ticketing.{Sealed}
use intertexum.Bootstrap.{
  Outside, Announcement, Removal, Directory, purge, schedule, removal_receipt, settle_removal,
  deregister_valid, deregister, check_registration, may_register, register,
}
use intertexum.Bootstrap.Dispatch.{listed, is_behind}
use intertexum.Bootstrap.Steps.{Follows}
use intertexum.Bootstrap.Removed.{IsHeld, IsHeld-IsKept}
use intertexum.Bootstrap.Kept.{Follows-kept, register_paid-refused}

-- what a receipt says of the row
record IsReceipt (b : RemovalBody) (old : Removal) (receipt : Signed RemovalReceiptBody)
    : Type 0 where
  peer : receipt.body.peer ≡ b.peer
  until : receipt.body.suppression_until ≡ old.suppress_until
  cleared : receipt.body.cleared ≡ old.cleared

module _ (env : Env) where
  settle_removal_lem :
      (dir dir' : Directory) (d d' : Defense) (b : RemovalBody) (id : ℕ)
      (o : Result (Directory × Removal)) (receipt : Signed RemovalReceiptBody)
      → settle_removal env dir d b id o ≡ (dir', d', ok receipt)
      → (old : Removal) × (o ≡ ok (dir', old)) × IsReceipt b old receipt
  unfolding settle_removal removal_receipt sign
  settle_removal_lem dir dir' d d' b id (err e) receipt h = cc
  settle_removal_lem dir dir' d d' b id (ok (x, old)) receipt h =
      let same : removal_receipt env x b id old ≡ receipt = cc h in
      (
        old,
        cc h,
        subst (IsReceipt b old) same (record { peer = refl; until = refl; cleared = refl }),
      )

  schedule_lem :
      (dir dir' : Directory) (b : RemovalBody) (id : ℕ) (o : Option Removal) (old : Removal)
      → lookup b.peer dir.removals ≡ o
      → schedule dir b id o ≡ ok (dir', old)
      → old.cleared ≡ false
      → lookup b.peer dir'.removals ≡ some old
  unfolding schedule
  schedule_lem dir dir' b id (some row) old at e pending_ =
      let same : dir ≡ dir' = cc e in
      let row_ : row ≡ old = cc e in
      ap (λ (x : Directory). lookup b.peer x.removals) (sym same) ∙ at ∙ ap (λ r. some r) row_
  schedule_lem dir dir' b id none old at e pending_ =
      elim (Bool-cases (has b.peer dir.announcements)) [
        | inr away ↦ absurd (ground (arith, rw away at e))
        | inl listed_ ↦
            let now = dir.node.now in
            let planned : Removal = record {
              request_id = id;
              received = now;
              clear_at = now + 60;
              suppress_until = now + 3630;
              cleared = false;
            } in
            let (_, e') =
              guard-eq-ok (ltb (length dir.removals) 10000) denied _ (rw listed_ at e) in
            let same : record dir { removals = insert_new b.peer planned dir.removals } ≡ dir' =
              cc e' in
            let row_ : planned ≡ old = cc e' in
            ap (λ (x : Directory). lookup b.peer x.removals) (sym same)
            ∙ lookup-insert_new_self b.peer planned dir.removals at
            ∙ ap (λ r. some r) row_
      ]

  deregister_valid-IsHeld :
      (dir dir' : Directory) (d d' : Defense) (id : ℕ) (o : Result RemovalBody)
      (receipt : Signed RemovalReceiptBody)
      → deregister_valid env dir d id o ≡ (dir', d', ok receipt)
      → receipt.body.cleared ≡ false
      → IsHeld receipt.body.peer receipt.body.suppression_until dir'
  unfolding deregister_valid IsHeld
  deregister_valid-IsHeld dir dir' d d' id (err e) receipt h pending_ = cc
  deregister_valid-IsHeld dir dir' d d' id (ok b) receipt h pending_ =
      let swept = purge (record dir { mailbox = remove b.peer dir.mailbox }) d in
      let (old, made, said) =
        settle_removal_lem swept.0 dir' swept.1 d' b id
          (schedule swept.0 b id (lookup b.peer swept.0.removals)) receipt h in
      let row =
        schedule_lem swept.0 dir' b id (lookup b.peer swept.0.removals) old refl made
          (sym said.cleared ∙ pending_) in
      inr (old, ap (λ (p : ℕ). lookup p dir'.removals) said.peer ∙ row, omega (arith, said.until))

-- While a removal stands, a registration raises.
module _ (env : Env) (out : Outside) where
  may_register-removed :
      (dir : Directory) (obj : Announcement) (o : Result (ℕ × ℕ))
      → has obj.body.card.id dir.removals ≡ true
      → is_ok (may_register env out dir obj o) ≡ false
  unfolding may_register
  may_register-removed dir obj (err e) there = refl
  may_register-removed dir obj (ok (salt, expires)) there = rw there refl

listed-removed :
    (dir : Directory) (after : Option ℕ) (peer : ℕ)
    → has peer dir.removals ≡ true
    → has peer (listed dir after) ≡ false
unfolding listed
listed-removed dir after peer there =
    has-by_key peer (
      keep_rows (λ p a. is_behind after p && ltb dir.node.now a.expires && not (has p dir.removals))
        dir.announcements)
    ∙ has-keep_rows
        (λ p a. is_behind after p && ltb dir.node.now a.expires && not (has p dir.removals)) peer
        dir.announcements (λ a. ground (arith, there))

-- A receipt for a removal that is scheduled keeps its word: whatever is asked of the seed, purged or
-- forgotten since, until the suppression that it states ends no page lists the peer, and every
-- announcement of the peer is refused and changes nothing.
pub deregister-suppressed :
    (env : Env) (out : Outside) (reaches : ℕ → ℕ → Bool) (dir dir' later : Directory)
    (d d' d2 : Defense) (request : Signed RemovalBody) (receipt : Signed RemovalReceiptBody)
    (obj : Announcement) (ticket : Sealed) (nonce : ℕ) (after : Option ℕ)
    → deregister env dir d request ≡ (dir', d', ok receipt)
    → receipt.body.cleared ≡ false
    → Follows env out reaches dir' later
    → later.node.now < receipt.body.suppression_until
    → obj.body.card.id ≡ receipt.body.peer
    → (has receipt.body.peer (listed later after) ≡ false)
      × (is_ok (register env out later d2 obj ticket nonce).2 ≡ false)
      × ((register env out later d2 obj ticket nonce).0 ≡ later)
unfolding deregister register IsHeld
deregister-suppressed env out reaches dir dir' later d d' d2 request receipt obj ticket nonce after
      e pending_ follows early own =
    let peer = receipt.body.peer in
    let until = receipt.body.suppression_until in
    let held =
      deregister_valid-IsHeld env dir dir' d d' request.id
        (validate env dir.node.id dir.network dir.node.now request) receipt e pending_ in
    elim (Follows-kept env out reaches (IsHeld peer until) (IsHeld-IsKept peer until env out) dir'
      later follows held) [
        | inl over ↦ absurd (omega arith)
        | inr (row, found, late) ↦
            let there = has_of_lookup peer later.removals row found in
            let (refused, same) =
              register_paid-refused env out later d2 obj
                (may_register env out later obj
                  (check_registration env out later d2 obj ticket nonce))
                (may_register-removed env out later obj
                  (check_registration env out later d2 obj ticket nonce)
                  (ap (λ (p : ℕ). has p later.removals) own ∙ there)) in
            (listed-removed later after peer there, refused, same)
      ]
