-- ===== src/Bootstrap/Removed.antt =====
-- agentmesh/bootstrap.py: a peer that asked to be removed stays out until the suppression ends.
use intertexum.Prelude.{
  ℕ, ◌+◌, ◌≤◌, ◌≡◌, ◌⊎◌, ◌∙◌, refl, sym, ap, Bool, true, false, leb, ltb, length, map, Option, none,
  some, Table, lookup, has, insert_new, ok, denied, arith, Bool-cases, inl, inr, guard-eq-ok,
  lookup-keep_rows, lookup-map_rows, lookup-insert_new, has_of_lookup,
}
use mathlib.Core.Path.{subst}
use intertexum.Crypto.{Env, RemovalBody}
use intertexum.State.{Node}
use intertexum.Defense.{Defense}
use intertexum.Bootstrap.{
  Outside, Announcement, Removal, Directory, is_due, cleared_at, stays, purge, schedule,
  store_announcement,
}
use intertexum.Bootstrap.Steps.{IsSame}
use intertexum.Bootstrap.Kept.{IsKept}

-- The removal of a peer stands, at least until a time, or that time has come.
unfoldable pub IsHeld : ℕ → ℕ → Directory → Type 0
IsHeld peer until dir =
    (until ≤ dir.node.now)
    ⊎ ((row : Removal) × (lookup peer dir.removals ≡ some row) × (until ≤ row.suppress_until))

module _ (peer until : ℕ) where
  -- a step that keeps the clock and the row, or the whole table
  IsHeld-rows :
      (a b : Directory)
      → a.node ≡ b.node
      → ((row : Removal) → lookup peer a.removals ≡ some row → lookup peer b.removals ≡ some row)
      → IsHeld peer until a
      → IsHeld peer until b
  unfolding IsHeld
  IsHeld-rows a b same rows (inl over) = inl (subst (λ (n : Node). until ≤ n.now) same over)
  IsHeld-rows a b same rows (inr (row, found, late)) = inr (row, rows row found, late)

  IsHeld-same : (a b : Directory) → IsSame b a → IsHeld peer until a → IsHeld peer until b
  IsHeld-same a b same h =
      IsHeld-rows a b (sym same.node)
        (λ row found. ap (λ (t : Table Removal). lookup peer t) same.removals ∙ found) h

  suppressed : (now : ℕ) (row : Removal) → (cleared_at now row).suppress_until ≡ row.suppress_until
  suppressed now row = elim (Bool-cases (is_due now row)) [ inl e ↦ rw e refl | inr e ↦ rw e refl ]

  IsHeld-purge :
      (dir : Directory) (d : Defense) → IsHeld peer until dir → IsHeld peer until (purge dir d).0
  unfolding IsHeld purge
  IsHeld-purge dir d (inl over) = inl over
  IsHeld-purge dir d (inr (row, found, late)) =
      let now = dir.node.now in
      elim (Bool-cases (leb until now)) [
        | inl over ↦ inl (ground arith)
        | inr before ↦
            let same = suppressed now row in
            let kept : stays now (cleared_at now row) ≡ true = rw same (ground arith) in
            inr (
              cleared_at now row,
              lookup-keep_rows (λ _ r. stays now r) peer (cleared_at now row)
                  (map (λ x. (x.0, cleared_at now x.1)) dir.removals)
                  (lookup-map_rows (cleared_at now) peer row dir.removals found) kept,
              rw same late,
            )
      ]

  inserted :
      (k : ℕ) (new row : Removal) (t : Table Removal)
      → lookup peer t ≡ some row
      → lookup peer (insert_new k new t) ≡ some row
  inserted k new row t found =
      let there = has_of_lookup peer t row found in
      lookup-insert_new k peer new t ∙ (rw there found)

  schedule-IsHeld :
      (dir dir' : Directory) (b : RemovalBody) (id : ℕ) (o : Option Removal) (old : Removal)
      → schedule dir b id o ≡ ok (dir', old)
      → IsHeld peer until dir
      → IsHeld peer until dir'
  unfolding schedule
  schedule-IsHeld dir dir' b id (some row) old e h =
      let same : dir ≡ dir' = cc e in subst (IsHeld peer until) same h
  schedule-IsHeld dir dir' b id none old e h = elim (Bool-cases (has b.peer dir.announcements)) [
    | inr away ↦ let same : dir ≡ dir' = cc (rw away at e) in subst (IsHeld peer until) same h
    | inl listed_ ↦
        let now = dir.node.now in
        let planned : Removal = record {
          request_id = id;
          received = now;
          clear_at = now + 60;
          suppress_until = now + 3630;
          cleared = false;
        } in
        let (_, e') = guard-eq-ok (ltb (length dir.removals) 10000) denied _ (rw listed_ at e) in
        let same : record dir { removals = insert_new b.peer planned dir.removals } ≡ dir' =
          cc e' in
        subst (IsHeld peer until) same (
          IsHeld-rows dir (record dir { removals = insert_new b.peer planned dir.removals }) refl
            (λ row found. inserted b.peer planned row dir.removals found) h)
  ]

  store_announcement-rows :
      (env : Env) (out : Outside) (dir dir' : Directory) (obj : Announcement) (salt expires : ℕ)
      (allowed : Bool)
      → store_announcement env out dir obj salt expires allowed ≡ ok dir'
      → (dir.node ≡ dir'.node) × (dir.removals ≡ dir'.removals)
  unfolding store_announcement
  store_announcement-rows env out dir dir' obj salt expires allowed e = (ground arith, ground arith)

  -- no step of the directory takes the row back
  pub IsHeld-IsKept : (env : Env) (out : Outside) → IsKept env out (IsHeld peer until)
  unfolding IsHeld
  IsHeld-IsKept env out = record {
    same = IsHeld-same;
    sweep = IsHeld-purge;
    removal = schedule-IsHeld;
    storing = λ dir dir' obj salt expires allowed e h.
        let (node, rows) = store_announcement-rows env out dir dir' obj salt expires allowed e in
        IsHeld-rows dir dir' node
          (λ row found. sym (ap (λ (t : Table Removal). lookup peer t) rows) ∙ found) h;
    later = λ dir now le h. elim h [ inl over ↦ inl (omega arith) | inr row ↦ inr row ];
  }
