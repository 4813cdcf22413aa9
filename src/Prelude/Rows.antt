-- ===== src/Prelude/Rows.antt =====
-- A table of the database with one key column: the rows in the order of their rowid.
use Prim.Native.Nat.{ℕ, suc, ◌+◌, ◌≤◌}
use mathlib.Core.Path.{◌≡◌, refl, ap, ◌∙◌, sym, subst}
use mathlib.Core.Bool.{Bool, true, false, ◌&&◌, ◌||◌, not}
use mathlib.Core.List.{List, [], ◌∷◌, ◌++◌, map}
use mathlib.Core.Option.{Option, none, some}
use native.Mathlib.Omega.{arith}
use intertexum.Prelude.Tests.{==_iff, ◌==◌, leb, if◌then◌else◌, ==_refl, Bool-cases}
use mathlib.Core.Logic.{inl, inr}
use intertexum.Prelude.Lists.{length, keep, length-append}

abbrev pub Table {ℓ} : Type ℓ → Type ℓ
Table V = List (ℕ × V)

module _ {ℓ} {V : Type ℓ} where
  -- `SELECT ... WHERE id=?`
  unfoldable pub lookup : ℕ → Table V → Option V
  lookup k [] = none
  lookup k ((j, v) ∷ t) = if j == k then some v else lookup k t

  -- `SELECT 1 FROM ... WHERE id=?`
  unfoldable pub has : ℕ → Table V → Bool
  has k [] = false
  has k ((j, v) ∷ t) = j == k || has k t

  -- `DELETE FROM ... WHERE id=?`
  unfoldable pub delete : ℕ → Table V → Table V
  delete k [] = []
  delete k ((j, v) ∷ t) = let rest = delete k t in if j == k then rest else (j, v) ∷ rest

  -- `INSERT OR REPLACE`: the old row goes, the new one has the last rowid.
  unfoldable pub replace : ℕ → V → Table V → Table V
  unfolding delete
  replace k v t = delete k t ++ (k, v) ∷ []

  -- `INSERT OR IGNORE`
  unfoldable pub insert_new : ℕ → V → Table V → Table V
  unfolding has
  insert_new k v t = if has k t then t else t ++ (k, v) ∷ []

  -- `UPDATE ... WHERE id=?`
  unfoldable pub update : ℕ → (V → V) → Table V → Table V
  update k f [] = []
  update k f ((j, v) ∷ t) = (j, (if j == k then f v else v)) ∷ update k f t

  -- `ORDER BY id`
  unfoldable pub insert_by_key : ℕ × V → Table V → Table V
  insert_by_key x [] = x ∷ []
  insert_by_key x (y ∷ ys) =
      let rest = insert_by_key x ys in if leb x.0 y.0 then x ∷ y ∷ ys else y ∷ rest

  unfoldable pub by_key : Table V → Table V
  unfolding insert_by_key
  by_key [] = []
  by_key (x ∷ xs) = insert_by_key x (by_key xs)

  -- `DELETE FROM ... WHERE <the row does not pass>`
  abbrev pub keep_rows : (ℕ → V → Bool) → Table V → Table V
  keep_rows p = keep (λ r. p r.0 r.1)

  pub lookup-delete :
      (k j : ℕ) (t : Table V) → lookup j (delete k t) ≡ (if k == j then none else lookup j t)
  unfolding lookup delete
  lookup-delete k j [] = ground arith
  lookup-delete k j ((i, v) ∷ t) = ground (arith, lookup-delete k j t)

  pub lookup-append :
      (j k : ℕ) (v : V) (t : Table V)
      → lookup j (t ++ (k, v) ∷ [])
        ≡ (if has j t then lookup j t else if k == j then some v else none)
  unfolding lookup has
  lookup-append j k v [] = refl
  lookup-append j k v ((i, w) ∷ t) = ground (arith, lookup-append j k v t)

  pub has-delete : (k j : ℕ) (t : Table V) → has j (delete k t) ≡ (not (k == j) && has j t)
  unfolding has delete
  has-delete k j [] = ground arith
  has-delete k j ((i, v) ∷ t) = ground (arith, has-delete k j t)

  pub has-none : (k : ℕ) (t : Table V) → has k t ≡ false → lookup k t ≡ none
  unfolding has lookup
  has-none k [] h = refl
  has-none k ((i, v) ∷ t) h = ground (arith, has-none k t)

  pub has_of_lookup : (k : ℕ) (t : Table V) (v : V) → lookup k t ≡ some v → has k t ≡ true
  unfolding has lookup
  has_of_lookup k [] v h = cc
  has_of_lookup k ((i, w) ∷ t) v h = ground (arith, has_of_lookup k t v)

  pub has_of_none : (k : ℕ) (t : Table V) → lookup k t ≡ none → has k t ≡ false
  unfolding has lookup
  has_of_none k [] h = refl
  has_of_none k ((i, w) ∷ t) h = ground (arith, has_of_none k t)

  pub lookup-replace :
      (k j : ℕ) (v : V) (t : Table V)
      → lookup j (replace k v t) ≡ (if k == j then some v else lookup j t)
  unfolding replace
  lookup-replace k j v t =
      ground (
        arith,
        lookup-append j k v (delete k t),
        has-delete k j t,
        lookup-delete k j t,
        has-none j t,
      )

  pub lookup-insert_new :
      (k j : ℕ) (v : V) (t : Table V)
      → lookup j (insert_new k v t)
        ≡ (if has j t then lookup j t else if k == j then some v else none)
  unfolding insert_new
  lookup-insert_new k j v t = ground (arith, lookup-append j k v t, has-none j t, has_congr)
    where
      has_congr : k ≡ j → has k t ≡ has j t
      has_congr e = ap (λ z. has z t) e

  -- Where there is no row of the key yet, a new row is found under it.
  pub lookup-insert_new_self :
      (k : ℕ) (v : V) (t : Table V) → lookup k t ≡ none → lookup k (insert_new k v t) ≡ some v
  lookup-insert_new_self k v t h = lookup-insert_new k k v t ∙ ground (arith, has_of_none k t h)

  pub has-append_self : (k : ℕ) (v : V) (t : Table V) → has k (t ++ (k, v) ∷ []) ≡ true
  unfolding has
  has-append_self k v [] = ground (arith, ==_refl k)
  has-append_self k v ((i, w) ∷ t) = ground (arith, has-append_self k v t)

  pub has-insert_new : (k : ℕ) (v : V) (t : Table V) → has k (insert_new k v t) ≡ true
  unfolding insert_new
  has-insert_new k v t = elim (Bool-cases (has k t)) [
    | inl e ↦ rw e e
    | inr e ↦ rw e (has-append_self k v t)
  ]

  -- a row that is kept is found as before
  pub lookup-keep_rows :
      (p : ℕ → V → Bool) (k : ℕ) (v : V) (t : Table V)
      → lookup k t ≡ some v
      → p k v ≡ true
      → lookup k (keep_rows p t) ≡ some v
  unfolding lookup
  lookup-keep_rows p k v [] e h = cc
  lookup-keep_rows p k v ((j, w) ∷ t) e h = elim (Bool-cases (j == k)) [
    | inl here ↦
        let row : w ≡ v = ground (arith, e) in
        let kept : p j w ≡ true =
          subst (λ i. p i w ≡ true) (sym ((==_iff j k).0 here))
            (subst (λ x. p k x ≡ true) (sym row) h) in
        rw kept (rw here (ap (λ x. some x) row))
    | inr away ↦
        let found = lookup-keep_rows p k v t (rw away at e) h in
        elim (Bool-cases (p j w)) [ inl kept ↦ rw kept (rw away found) | inr gone ↦ rw gone found ]
  ]

  pub lookup-map_rows :
      (g : V → V) (k : ℕ) (v : V) (t : Table V)
      → lookup k t ≡ some v
      → lookup k (map (λ x. (x.0, g x.1)) t) ≡ some (g v)
  unfolding lookup
  lookup-map_rows g k v [] e = cc
  lookup-map_rows g k v ((j, w) ∷ t) e = elim (Bool-cases (j == k)) [
    | inl here ↦
        rw here (ap (λ (o : Option V). elim o [ none ↦ none | some x ↦ some (g x) ]) (rw here at e))
    | inr away ↦ rw away (lookup-map_rows g k v t (rw away at e))
  ]

  -- no row of a key that is not kept
  pub has-keep_rows :
      (p : ℕ → V → Bool) (k : ℕ) (t : Table V)
      → ((v : V) → p k v ≡ false)
      → has k (keep_rows p t) ≡ false
  unfolding has
  has-keep_rows p k [] h = refl
  has-keep_rows p k ((j, w) ∷ t) h = elim (Bool-cases (j == k)) [
    | inl here ↦
        let gone : p j w ≡ false = subst (λ i. p i w ≡ false) (sym ((==_iff j k).0 here)) (h w) in
        rw gone (has-keep_rows p k t h)
    | inr away ↦ elim (Bool-cases (p j w)) [
      | inl kept ↦ rw kept (rw away (has-keep_rows p k t h))
      | inr gone ↦ rw gone (has-keep_rows p k t h)
    ]
  ]

  has-insert_by_key :
      (k : ℕ) (x : ℕ × V) (t : Table V) → has k (insert_by_key x t) ≡ (x.0 == k || has k t)
  unfolding has insert_by_key
  has-insert_by_key k (j, w) [] = refl
  has-insert_by_key k (j, w) ((i, v) ∷ t) = ground (arith, has-insert_by_key k (j, w) t)

  pub has-by_key : (k : ℕ) (t : Table V) → has k (by_key t) ≡ has k t
  unfolding has by_key
  has-by_key k [] = refl
  has-by_key k ((j, w) ∷ t) =
      has-insert_by_key k (j, w) (by_key t) ∙ ap (λ b. j == k || b) (has-by_key k t)

  pub lookup-update :
      (k j : ℕ) (f : V → V) (t : Table V)
      → lookup j (update k f t)
        ≡ (if k == j then elim (lookup j t) [ none ↦ none | some v ↦ some (f v) ] else lookup j t)
  unfolding lookup update
  lookup-update k j f [] = ground arith
  lookup-update k j f ((i, v) ∷ t) = ground (arith, lookup-update k j f t)

  pub length-update : (k : ℕ) (f : V → V) (t : Table V) → length (update k f t) ≡ length t
  unfolding update
  length-update k f [] = refl
  length-update k f ((i, v) ∷ t) = ap suc (length-update k f t)

  pub length-delete-le : (k : ℕ) (t : Table V) → length (delete k t) ≤ length t
  unfolding delete
  length-delete-le k [] = omega arith
  length-delete-le k ((i, v) ∷ t) = ground (arith, length-delete-le k t)

  pub length-insert_new-le :
      (k : ℕ) (v : V) (t : Table V) → length (insert_new k v t) ≤ length t + 1
  unfolding insert_new
  length-insert_new-le k v t = ground (arith, length-append t ((k, v) ∷ []))

  pub length-replace-le : (k : ℕ) (v : V) (t : Table V) → length (replace k v t) ≤ length t + 1
  unfolding replace
  length-replace-le k v t =
      ground (arith, length-append (delete k t) ((k, v) ∷ []), length-delete-le k t)

pub ruleset table_laws = (lookup-delete, lookup-replace, lookup-insert_new, lookup-update)
