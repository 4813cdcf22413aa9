-- ===== src/Bootstrap/Once.antt =====
-- agentmesh/bootstrap.py: the work of a registration is spent once.
use intertexum.Prelude.{
  ℕ, ◌≤◌, ◌<◌, ◌≡◌, ◌⊎◌, ◌∙◌, refl, sym, ap, Bool, true, false, not, leb, ltb, [], ◌∷◌, Option,
  none, some, Table, lookup, has, insert_new, keep_rows, Result, ok, err, is_ok, denied, invalid,
  arith, Bool-cases, inl, inr, >>=-eq-ok, guard-eq-ok, lookup-keep_rows, lookup-insert_new,
  lookup-insert_new_self, has_of_lookup, has-none,
}
use mathlib.Core.Path.{subst}
use intertexum.Crypto.{Env, RemovalBody, of_announcement}
use intertexum.State.{Node}
use intertexum.Defense.{Defense, consume, limit_minute, blocked}
use intertexum.Ticketing.{Sealed, verify as verify_ticket}
use intertexum.Bootstrap.{
  Outside, Announcement, Removal, Directory, purge, schedule, check_registration,
  check_announcement, may_register, store_announcement, note_registration, register_paid, register,
}
use intertexum.Bootstrap.Steps.{Follows}
use intertexum.Bootstrap.Kept.{IsKept, Follows-kept, register_paid-refused}

-- The salt of a ticket is in the table of those spent, at least until a time, or that time has come.
pub IsSpent : ℕ → ℕ → Directory → Type 0
IsSpent salt until dir =
    (until ≤ dir.node.now) ⊎ ((t : ℕ) × (lookup salt dir.spent ≡ some t) × (until ≤ t))

module _ (salt until : ℕ) where
  IsSpent-rows :
      (a b : Directory)
      → a.node ≡ b.node
      → ((t : ℕ) → a.node.now < t → lookup salt a.spent ≡ some t → lookup salt b.spent ≡ some t)
      → IsSpent salt until a
      → IsSpent salt until b
  unfolding IsSpent
  IsSpent-rows a b same rows (inl over) = inl (subst (λ (n : Node). until ≤ n.now) same over)
  IsSpent-rows a b same rows (inr (t, found, late)) = elim (Bool-cases (leb until a.node.now)) [
    | inl over ↦ inl (subst (λ (n : Node). until ≤ n.now) same (ground arith))
    | inr before ↦ inr (t, rows t (ground arith) found, late)
  ]

  schedule-spent :
      (dir dir' : Directory) (b : RemovalBody) (id : ℕ) (o : Option Removal) (old : Removal)
      → schedule dir b id o ≡ ok (dir', old)
      → (dir.node ≡ dir'.node) × (dir.spent ≡ dir'.spent)
  unfolding schedule
  schedule-spent dir dir' b id (some row) old e = (ground arith, ground arith)
  schedule-spent dir dir' b id none old e = (ground arith, ground arith)

  inserted :
      (k new t : ℕ) (rows : Table ℕ)
      → lookup salt rows ≡ some t
      → lookup salt (insert_new k new rows) ≡ some t
  inserted k new t rows found =
      lookup-insert_new k salt new rows ∙ (rw (has_of_lookup salt rows t found) found)

  -- what the transaction writes into the table
  store_announcement-spent :
      (env : Env) (out : Outside) (dir dir' : Directory) (obj : Announcement) (k expires : ℕ)
      (allowed : Bool)
      → store_announcement env out dir obj k expires allowed ≡ ok dir'
      → (dir.node ≡ dir'.node)
        × (insert_new k expires (keep_rows (λ _ t. ltb dir.node.now t) dir.spent) ≡ dir'.spent)
  unfolding store_announcement
  store_announcement-spent env out dir dir' obj k expires allowed e = (ground arith, ground arith)

  IsSpent-IsKept : (env : Env) (out : Outside) → IsKept env out (IsSpent salt until)
  unfolding IsSpent purge
  IsSpent-IsKept env out = record {
    same = λ a b same h.
        IsSpent-rows a b (sym same.node)
          (λ t live found. ap (λ (x : Table ℕ). lookup salt x) same.spent ∙ found) h;
    sweep = λ dir d h.
        IsSpent-rows dir (purge dir d).0 refl
          (λ t live found.
            lookup-keep_rows (λ _ x. ltb dir.node.now x) salt t dir.spent found (ground arith))
          h;
    removal = λ dir dir' b id o old e h.
        let (node, rows) = schedule-spent dir dir' b id o old e in
        IsSpent-rows dir dir' node
          (λ t live found. sym (ap (λ (x : Table ℕ). lookup salt x) rows) ∙ found) h;
    storing = λ dir dir' obj k expires allowed e h.
        let (node, rows) = store_announcement-spent env out dir dir' obj k expires allowed e in
        IsSpent-rows dir dir' node
          (λ t live found.
            sym (ap (λ (x : Table ℕ). lookup salt x) rows)
            ∙ inserted k expires t (keep_rows (λ _ x. ltb dir.node.now x) dir.spent) (
                lookup-keep_rows (λ _ x. ltb dir.node.now x) salt t dir.spent found (ground arith)))
          h;
    later = λ dir now le h. elim h [ inl over ↦ inl (omega arith) | inr row ↦ inr row ];
  }

module _ (env : Env) (out : Outside) where
  -- a ticket that passes is live, and what is spent is its salt
  check_registration_lem :
      (dir : Directory) (d : Defense) (obj : Announcement) (ticket : Sealed) (nonce : ℕ) (p : ℕ × ℕ)
      → check_registration env out dir d obj ticket nonce ≡ ok p
      → ((ticket.body.salt, ticket.body.expires) ≡ p) × (dir.node.now < ticket.body.expires)
  unfolding check_registration verify_ticket
  check_registration_lem dir d obj ticket nonce p e =
      let now = dir.node.now in
      let peer = obj.body.card.id in
      let (_, e1) = guard-eq-ok (leb (env.wire_size (of_announcement obj.body)) 8192) invalid _ e in
      let (q, v, e2) =
        >>=-eq-ok (verify_ticket out.mac_of out.work_hash dir.issuer ticket nonce peer obj.id now) _
          e1 in
      let (b, _, e3) = >>=-eq-ok (check_announcement env out now dir.network dir.public obj) _ e2 in
      let (_, e4) =
        guard-eq-ok (not (blocked out.contains d (some (out.address b.card.host)) (some peer)))
          denied _ e3 in
      let same : q ≡ p = cc e4 in (ground (arith, v) ∙ same, ground (arith, v))

  may_register_lem :
      (dir : Directory) (obj : Announcement) (o : Result (ℕ × ℕ)) (salt expires : ℕ)
      → may_register env out dir obj o ≡ ok (salt, expires)
      → (o ≡ ok (salt, expires))
        × (has salt (keep_rows (λ _ t. ltb dir.node.now t) dir.spent) ≡ false)
  unfolding may_register
  may_register_lem dir obj (err e) salt expires h = cc
  may_register_lem dir obj (ok (k, t)) salt expires h =
      let live = keep_rows (λ _ x. ltb dir.node.now x) dir.spent in
      let (_, e1) = guard-eq-ok (not (has obj.body.card.id dir.removals)) denied _ h in
      let (new, e2) = guard-eq-ok (not (has k live)) denied _ e1 in
      let same : k ≡ salt = cc e2 in
      (e2, ap (λ (x : ℕ). has x live) (sym same) ∙ ground (arith, new))

  may_register-spent :
      (dir : Directory) (obj : Announcement) (o : Result (ℕ × ℕ))
      → ((p : ℕ × ℕ) → o ≡ ok p → has p.0 (keep_rows (λ _ t. ltb dir.node.now t) dir.spent) ≡ true)
      → is_ok (may_register env out dir obj o) ≡ false
  unfolding may_register
  may_register-spent dir obj (err e) k = refl
  may_register-spent dir obj (ok (salt, expires)) k =
      elim (Bool-cases (has obj.body.card.id dir.removals)) [
        | inl gone ↦ rw gone refl
        | inr here ↦ rw (here, k (salt, expires) refl) refl
      ]

  register_paid_lem :
      (dir dir' : Directory) (d d' : Defense) (obj : Announcement) (o : Result (ℕ × ℕ)) (x : ℕ)
      → register_paid env out dir d obj o ≡ (dir', d', ok x)
      → (salt : ℕ) × (expires : ℕ) × (o ≡ ok (salt, expires))
        × (allowed : Bool) × (store_announcement env out dir obj salt expires allowed ≡ ok dir')
  unfolding register_paid note_registration
  register_paid_lem dir dir' d d' obj (err e) x h = cc
  register_paid_lem dir dir' d d' obj (ok (salt, expires)) x h =
      let paid = consume d (limit_minute 20 obj.body.card.id 1 2 ∷ []) in
      (
        salt,
        expires,
        refl,
        paid.1,
        noted (store_announcement env out dir obj salt expires paid.1) paid.0 h,
      )
    where
      noted :
          (o : Result Directory) (d0 : Defense)
          → note_registration env out dir d0 obj o ≡ (dir', d', ok x)
          → o ≡ ok dir'
      noted (err e) d0 h = cc
      noted (ok y) d0 h = cc h

  register-IsSpent :
      (dir dir' : Directory) (d d' : Defense) (obj : Announcement) (ticket : Sealed) (nonce x : ℕ)
      → register env out dir d obj ticket nonce ≡ (dir', d', ok x)
      → IsSpent ticket.body.salt ticket.body.expires dir'
  unfolding register IsSpent
  register-IsSpent dir dir' d d' obj ticket nonce x e =
      let checked = check_registration env out dir d obj ticket nonce in
      let (salt, expires, passed, allowed, stored) =
        register_paid_lem dir dir' d d' obj (may_register env out dir obj checked) x e in
      let (was, new) = may_register_lem dir obj checked salt expires passed in
      let (same, _) = check_registration_lem dir d obj ticket nonce (salt, expires) was in
      let (_, rows) =
        store_announcement-spent salt expires env out dir dir' obj salt expires allowed stored in
      let live = keep_rows (λ _ t. ltb dir.node.now t) dir.spent in
      let found : lookup salt dir'.spent ≡ some expires =
        sym (ap (λ (t : Table ℕ). lookup salt t) rows)
        ∙ lookup-insert_new_self salt expires live (has-none salt live new) in
      let own : ticket.body.salt ≡ salt = ap (λ (p : ℕ × ℕ). p.0) same in
      let late : ticket.body.expires ≡ expires = ap (λ (p : ℕ × ℕ). p.1) same in
      inr (expires, ap (λ (k : ℕ). lookup k dir'.spent) own ∙ found, omega (arith, late))

-- The work of a ticket registers once: whatever is asked of the seed since, and whenever, no other
-- announcement and no other nonce is taken for that ticket, and such a request changes nothing.
pub register_once :
    (env : Env) (out : Outside) (reaches : ℕ → ℕ → Bool) (dir dir' later : Directory)
    (d d' d2 : Defense) (obj again : Announcement) (ticket : Sealed) (nonce nonce' x : ℕ)
    → register env out dir d obj ticket nonce ≡ (dir', d', ok x)
    → Follows env out reaches dir' later
    → (is_ok (register env out later d2 again ticket nonce').2 ≡ false)
      × ((register env out later d2 again ticket nonce').0 ≡ later)
unfolding register IsSpent
register_once env out reaches dir dir' later d d' d2 obj again ticket nonce nonce' x e follows =
    let salt = ticket.body.salt in
    let until = ticket.body.expires in
    let spent =
      Follows-kept env out reaches (IsSpent salt until) (IsSpent-IsKept salt until env out) dir'
        later follows (register-IsSpent env out dir dir' d d' obj ticket nonce x e) in
    let checked = check_registration env out later d2 again ticket nonce' in
    register_paid-refused env out later d2 again (may_register env out later again checked) (
      may_register-spent env out later again checked (λ p passed.
        there spent (check_registration_lem env out later d2 again ticket nonce' p passed)))
  where
    there :
        {p : ℕ × ℕ}
        → (ticket.body.expires ≤ later.node.now)
          ⊎ ((t : ℕ) × (lookup ticket.body.salt later.spent ≡ some t) × (ticket.body.expires ≤ t))
        → ((ticket.body.salt, ticket.body.expires) ≡ p) × (later.node.now < ticket.body.expires)
        → has p.0 (keep_rows (λ _ t. ltb later.node.now t) later.spent) ≡ true
    there (inl over) (same, live) = absurd (omega arith)
    there (inr (t, found, late)) (same, live) =
        let kept = keep_rows (λ _ x. ltb later.node.now x) later.spent in
        let row =
          lookup-keep_rows (λ _ x. ltb later.node.now x) ticket.body.salt t later.spent found
            (ground arith) in
        subst (λ (p : ℕ × ℕ). has p.0 kept ≡ true) same (has_of_lookup ticket.body.salt kept t row)
