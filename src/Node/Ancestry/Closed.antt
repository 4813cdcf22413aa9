-- ===== src/Node/Ancestry/Closed.antt =====
-- What holds of every record that `_active` answers with: whatever a record has as soon as all its
-- parents have it, for any memo that holds such answers, and with cycles in the store or not.
use intertexum.Prelude.{
  ℕ, zero, suc, ◌≡◌, refl, ◌∙◌, ap, Bool, true, false, List, [], ◌∷◌, Option, none, some, elem, All,
  arith, Bool-cases, Option-cases, inl, inr,
}
use intertexum.Node.Ancestry.Memo.{recall_cons}
use intertexum.Node.Ancestry.{Object, Memo, recall, passes, walk, settle, examine, active_from}

module _ (admitted : ℕ → Option (Object × Bool)) (P : ℕ → Object → Type 0) where
  -- a parent that the loop let pass
  abbrev pub Good : Bool → ℕ → Type 0
  Good cached p = (o : Object) × P p o × (passes cached (some o) ≡ true)

  pub record IsClosed : Type 0 where
    pub step :
        (rid : ℕ) (obj : Object) (cached : Bool)
        → admitted rid ≡ some (obj, cached)
        → All (Good cached) obj.body.parents
        → P rid obj

  pub record Holds (memo : Memo) : Type 0 where
    pub at : (rid k : ℕ) (o : Object) → recall rid k memo ≡ some (some o) → P rid o

  Answers : ℕ → Option Object × Memo → Type 0
  Answers rid out = ((o : Object) → out.0 ≡ some o → P rid o) × Holds out.1

  Holds-none : (rid n : ℕ) (memo : Memo) → Holds memo → Holds ((rid, n, none) ∷ memo)
  unfolding recall
  Holds-none rid n memo h = record { at = λ r k o e. ground (arith, h.at r k o) }

  Holds-some :
      (rid n : ℕ) (obj : Object) (memo : Memo)
      → P rid obj
      → Holds memo
      → Holds ((rid, n, some obj) ∷ memo)
  Holds-some rid n obj memo p h = record {
    at = λ r k o e. elim (recall_cons r rid n k (some obj) (some o) memo e) [
      | inl (a, _, c) ↦ let d : o ≡ obj = ground arith in rw (a, d) p
      | inr (_, before) ↦ h.at r k o before
    ];
  }

  Good-found :
      (cached : Bool) (p : ℕ) (found : Option Object)
      → ((o : Object) → found ≡ some o → P p o)
      → passes cached found ≡ true
      → Good cached p
  unfolding passes
  Good-found cached p none good pass = cc
  Good-found cached p (some o) good pass = (o, good o refl, pass)

  settle-Answers :
      (rid n : ℕ) (obj : Object) (out : Bool × Memo)
      → (out.0 ≡ true → P rid obj)
      → Holds out.1
      → Answers rid (settle rid n obj out)
  unfolding settle Answers
  settle-Answers rid n obj (true, memo) p h = (
    (λ o e. let d : o ≡ obj = ground arith in rw d (p refl)),
    Holds-some rid n obj memo (p refl) h,
  )
  settle-Answers rid n obj (false, memo) p h = ((λ o e. cc), h)

  walk-Good :
      (visit : ℕ → Memo → Option Object × Memo)
      → ((r : ℕ) (m : Memo) → Holds m → Answers r (visit r m))
      → (cached : Bool) (parents : List ℕ) (memo : Memo) → Holds memo
      → ((walk visit cached parents memo).0 ≡ true → All (Good cached) parents)
        × Holds (walk visit cached parents memo).1
  unfolding walk Answers
  walk-Good visit step cached [] memo h = (λ _. tt, h)
  walk-Good visit step cached (p ∷ rest) memo h =
      let (good, held) = step p memo h in
      let (found, memo') = visit p memo in
      elim (Bool-cases (passes cached found)) [
        | inr stop ↦ rw stop ((λ e. cc), held)
        | inl pass ↦
            let (rest_good, rest_held) = walk-Good visit step cached rest memo' held in
            rw pass ((λ e. (Good-found cached p found good pass, rest_good e)), rest_held)
      ]

  examine-Answers :
      IsClosed
      → (visit : ℕ → Memo → Option Object × Memo)
      → ((r : ℕ) (m : Memo) → Holds m → Answers r (visit r m))
      → (rid n : ℕ) (memo : Memo) (a : Option (Object × Bool)) → admitted rid ≡ a
      → Holds memo
      → Answers rid (examine visit rid n memo a)
  unfolding Answers examine
  examine-Answers closed visit step rid n memo none adm h = ((λ o e. cc), h)
  examine-Answers closed visit step rid n memo (some (obj, cached)) adm h =
      settle-Answers rid n obj (walk visit cached obj.body.parents memo)
        (λ e.
          closed.step rid obj cached adm
            ((walk-Good visit step cached obj.body.parents memo h).0 e))
        (walk-Good visit step cached obj.body.parents memo h).1

  active_from-Answers :
      IsClosed
      → (n : ℕ) (path : List ℕ) (rid : ℕ) (memo : Memo) → Holds memo
      → Answers rid (active_from admitted n path rid memo)
  unfolding active_from Answers
  active_from-Answers closed zero path rid memo h = ((λ o e. cc), h)
  active_from-Answers closed (suc n) path rid memo h = elim (Bool-cases (elem rid path)) [
    | inl cyclic ↦ rw cyclic ((λ o e. cc), h)
    | inr fresh ↦ rw fresh (elim (Option-cases (recall rid (suc n) memo)) [
      | inr (found, hit) ↦ rw hit ((λ o e. h.at rid (suc n) o (hit ∙ ap some e)), h)
      | inl miss ↦ rw miss (
          examine-Answers closed (active_from admitted n (rid ∷ path))
            (λ r m held. active_from-Answers closed n (rid ∷ path) r m held) rid (suc n)
            ((rid, suc n, none) ∷ memo) (admitted rid) refl (Holds-none rid (suc n) memo h))
    ])
  ]

  -- With a new memo, every record that the recursion answers with has the property.
  pub active_from_closed :
      IsClosed → (n rid : ℕ) (o : Object) → (active_from admitted n [] rid []).0 ≡ some o → P rid o
  unfolding Answers recall
  active_from_closed closed n rid o e =
      (active_from-Answers closed n [] rid [] (record { at = λ r k o' h. cc })).0 o e
