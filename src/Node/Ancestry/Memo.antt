-- ===== src/Node/Ancestry/Memo.antt =====
-- The memo and the path of `_active` in agentmesh/node.py change nothing: on records whose parents
-- have a rank below theirs, the recursion agrees with the one that has neither.
use intertexum.Prelude.{
  ℕ, zero, suc, ◌≤◌, ◌<◌, ◌≡◌, ◌≢◌, ◌⊎◌, refl, sym, ◌∙◌, ap, Bool, true, false, ◌==◌, List, [], ◌∷◌,
  Option, none, some, elem, All, arith, Bool-cases, Option-cases, inl, inr, ==_iff,
}
use native.Mathlib.Decide.{dec_le}
use intertexum.Node.Ancestry.{
  Object, Memo, recall, passes, walk, settle, examine, active_from, all_pass, judge, lineage,
}

-- the parents of every admitted record rank below it
pub record IsRanked (admitted : ℕ → Option (Object × Bool)) (rank : ℕ → ℕ) : Type 0 where
  pub below :
      (rid : ℕ) (obj : Object) (cached : Bool)
      → admitted rid ≡ some (obj, cached)
      → All (λ parent. rank parent < rank rid) obj.body.parents

module _ (admitted : ℕ → Option (Object × Bool)) where
  -- what the memo holds for the `n` lowest levels is what the reference computes
  pub record IsSound (n : ℕ) (memo : Memo) : Type 0 where
    pub holds :
        (rid k : ℕ) (o : Option Object)
        → k ≤ n
        → recall rid k memo ≡ some o
        → o ≡ lineage admitted k rid

-- nothing is written above level `n`
pub record IsFramed (n : ℕ) (memo memo' : Memo) : Type 0 where
  pub keeps : (rid k : ℕ) → n < k → recall rid k memo' ≡ recall rid k memo

elem_above :
    (rank : ℕ → ℕ) (rid : ℕ) (path : List ℕ)
    → All (λ p. rank rid < rank p) path
    → elem rid path ≡ false
unfolding elem
elem_above rank rid [] h = refl
elem_above rank rid (p ∷ path) h = elim (Bool-cases (rid == p)) [
  | inl e ↦ absurd (omega (arith, ap rank ((==_iff rid p).0 e), h.0))
  | inr e ↦ rw e (elem_above rank rid path h.1)
]

above_trans :
    (rank : ℕ → ℕ) (a b : ℕ) (path : List ℕ)
    → rank a < rank b
    → All (λ p. rank b < rank p) path
    → All (λ p. rank a < rank p) path
above_trans rank a b [] h hs = tt
above_trans rank a b (p ∷ path) h hs = (omega arith, above_trans rank a b path h hs.1)

recall_cons_self :
    (rid n : ℕ) (o : Option Object) (memo : Memo) → recall rid n ((rid, n, o) ∷ memo) ≡ some o
unfolding recall
recall_cons_self rid n o memo = ground arith

recall_cons_level :
    (rid r n k : ℕ) (o : Option Object) (memo : Memo)
    → k ≢ n
    → recall rid k ((r, n, o) ∷ memo) ≡ recall rid k memo
unfolding recall
recall_cons_level rid r n k o memo h = ground arith

pub recall_cons :
    (rid r n k : ℕ) (o o' : Option Object) (memo : Memo)
    → recall rid k ((r, n, o) ∷ memo) ≡ some o'
    → ((rid ≡ r) × (k ≡ n) × (o' ≡ o)) ⊎ (((rid ≢ r) ⊎ (k ≢ n)) × (recall rid k memo ≡ some o'))
unfolding recall
recall_cons rid r n k o o' memo h = ground arith

module _ (admitted : ℕ → Option (Object × Bool)) (rank : ℕ → ℕ) where
  -- what a visit of level `n` gives
  Visits : ℕ → ℕ → Memo → Option Object × Memo → Type 0
  Visits n rid memo out =
      (out.0 ≡ lineage admitted n rid) × IsSound admitted n out.1 × IsFramed n memo out.1

  Walks : ℕ → Bool → List ℕ → Memo → Bool × Memo → Type 0
  Walks n cached parents memo out =
      (out.0 ≡ all_pass (lineage admitted n) cached parents)
      × IsSound admitted n out.1
      × IsFramed n memo out.1

  IsFramed-trans : (n : ℕ) (a b c : Memo) → IsFramed n a b → IsFramed n b c → IsFramed n a c
  IsFramed-trans n a b c f g = record { keeps = λ r k h. g.keeps r k h ∙ f.keeps r k h }

  walk-Walks :
      (n bound : ℕ) (visit : ℕ → Memo → Option Object × Memo)
      → ((rid : ℕ) (memo : Memo)
          → rank rid < bound
          → IsSound admitted n memo
          → Visits n rid memo (visit rid memo))
      → (cached : Bool) (parents : List ℕ) (memo : Memo) → All (λ p. rank p < bound) parents
      → IsSound admitted n memo
      → Walks n cached parents memo (walk visit cached parents memo)
  unfolding walk all_pass Visits Walks
  walk-Walks n bound visit step cached [] memo h s = (refl, s, record { keeps = λ r k h. refl })
  walk-Walks n bound visit step cached (p ∷ rest) memo h s =
      let (same, sound, framed) = step p memo h.0 s in
      let (found, memo') = visit p memo in
      elim (Bool-cases (passes cached found)) [
        | inl yes_ ↦
            let (e, s', f') = walk-Walks n bound visit step cached rest memo' h.1 sound in
            rw (← same, yes_) (e, s', IsFramed-trans n memo memo' _ framed f')
        | inr no_ ↦ rw (← same, no_) (refl, sound, framed)
      ]

  IsSound-push :
      (n rid : ℕ) (o : Option Object) (memo : Memo)
      → IsSound admitted (suc n) memo
      → IsSound admitted n ((rid, suc n, o) ∷ memo)
  IsSound-push n rid o memo s = record {
    holds = λ r k o' le e.
        s.holds r k o' (omega arith)
          (sym (recall_cons_level r rid (suc n) k o memo (omega arith)) ∙ e);
  }

  IsFramed-push :
      (n rid : ℕ) (o : Option Object) (memo : Memo) → IsFramed n memo ((rid, n, o) ∷ memo)
  IsFramed-push n rid o memo = record {
    keeps = λ r k lt. recall_cons_level r rid n k o memo (omega arith);
  }

  lineage-none : (n rid : ℕ) → admitted rid ≡ none → none ≡ lineage admitted (suc n) rid
  unfolding lineage judge
  lineage-none n rid adm = rw (adm, judge) refl

  -- After the walk only the placeholder of the record itself may be wrong at level `suc n`.
  level_sound :
      (n rid : ℕ) (memo memo' : Memo)
      → IsSound admitted (suc n) memo
      → IsSound admitted n memo'
      → IsFramed n ((rid, suc n, none) ∷ memo) memo'
      → (r k : ℕ) (o : Option Object) → k ≤ suc n
      → recall r k memo' ≡ some o
      → ((r ≡ rid) × (k ≡ suc n) × (o ≡ none)) ⊎ (o ≡ lineage admitted k r)
  level_sound n rid memo memo' old new framed r k o le e = elim (dec_le k n) [
    | yes low ↦ inr (new.holds r k o low e)
    | no high ↦
        elim (recall_cons r rid (suc n) k none o memo (sym (framed.keeps r k (omega arith)) ∙ e)) [
          | inl self ↦ inl self
          | inr (_, before) ↦ inr (old.holds r k o le before)
        ]
  ]

  at_self :
      (n rid r k : ℕ) (o o' : Option Object)
      → o ≡ lineage admitted (suc n) rid
      → (r ≡ rid) × (k ≡ suc n) × (o' ≡ o)
      → o' ≡ lineage admitted k r
  at_self n rid r k o o' e (a, b, c) = rw (a, b) (c ∙ e)

  IsSound-answer :
      (n rid : ℕ) (o : Option Object) (memo : Memo)
      → o ≡ lineage admitted (suc n) rid
      → IsSound admitted (suc n) memo
      → IsSound admitted (suc n) ((rid, suc n, o) ∷ memo)
  IsSound-answer n rid o memo same s = record {
    holds = λ r k o' le e. elim (recall_cons r rid (suc n) k o o' memo e) [
      | inl self ↦ at_self n rid r k o o' same self
      | inr (_, before) ↦ s.holds r k o' le before
    ];
  }

  lineage-true :
      (n rid : ℕ) (obj : Object) (cached : Bool)
      → admitted rid ≡ some (obj, cached)
      → true ≡ all_pass (lineage admitted n) cached obj.body.parents
      → some obj ≡ lineage admitted (suc n) rid
  unfolding lineage judge
  lineage-true n rid obj cached adm e = rw (adm, judge) (rw (← e) refl)

  lineage-false :
      (n rid : ℕ) (obj : Object) (cached : Bool)
      → admitted rid ≡ some (obj, cached)
      → false ≡ all_pass (lineage admitted n) cached obj.body.parents
      → none ≡ lineage admitted (suc n) rid
  unfolding lineage judge
  lineage-false n rid obj cached adm e = rw (adm, judge) (rw (← e) refl)

  settle-Visits :
      (n rid : ℕ) (obj : Object) (cached : Bool) (memo : Memo) (out : Bool × Memo)
      → admitted rid ≡ some (obj, cached)
      → IsSound admitted (suc n) memo
      → Walks n cached obj.body.parents ((rid, suc n, none) ∷ memo) out
      → Visits (suc n) rid memo (settle rid (suc n) obj out)
  unfolding Visits Walks settle
  settle-Visits n rid obj cached memo (true, memo') adm old (e, s, f) =
      let same = lineage-true n rid obj cached adm e in
      (
        same,
        record {
          holds = λ r k o le held. elim (recall_cons r rid (suc n) k (some obj) o memo' held) [
            | inl self ↦ at_self n rid r k (some obj) o same self
            | inr (other, before) ↦ elim (level_sound n rid memo memo' old s f r k o le before) [
              | inl (a, b, c) ↦ elim other [ inl d ↦ absurd (d a) | inr d ↦ absurd (d b) ]
              | inr right ↦ right
            ]
          ];
        },
        record {
          keeps = λ r k lt.
              recall_cons_level r rid (suc n) k (some obj) memo' (omega arith)
              ∙ f.keeps r k (omega arith)
              ∙ recall_cons_level r rid (suc n) k none memo (omega arith);
        },
      )
  settle-Visits n rid obj cached memo (false, memo') adm old (e, s, f) =
      let same = lineage-false n rid obj cached adm e in
      (
        same,
        record {
          holds = λ r k o le held. elim (level_sound n rid memo memo' old s f r k o le held) [
            | inl self ↦ at_self n rid r k none o same self
            | inr right ↦ right
          ];
        },
        record {
          keeps = λ r k lt.
              f.keeps r k (omega arith) ∙ recall_cons_level r rid (suc n) k none memo (omega arith);
        },
      )

  examine-Visits :
      (ranked : IsRanked admitted rank) (n rid : ℕ) (visit : ℕ → Memo → Option Object × Memo)
      → ((r : ℕ) (m : Memo) → rank r < rank rid → IsSound admitted n m → Visits n r m (visit r m))
      → (memo : Memo) (a : Option (Object × Bool)) → admitted rid ≡ a
      → IsSound admitted (suc n) memo
      → Visits (suc n) rid memo (examine visit rid (suc n) ((rid, suc n, none) ∷ memo) a)
  unfolding Visits examine lineage judge
  examine-Visits ranked n rid visit step memo none adm s =
      let same = lineage-none n rid adm in
      (same, IsSound-answer n rid none memo same s, IsFramed-push (suc n) rid none memo)
  examine-Visits ranked n rid visit step memo (some (obj, cached)) adm s =
      settle-Visits n rid obj cached memo
        (walk visit cached obj.body.parents ((rid, suc n, none) ∷ memo)) adm s
        (walk-Walks n (rank rid) visit step cached obj.body.parents ((rid, suc n, none) ∷ memo)
          (ranked.below rid obj cached adm) (IsSound-push n rid none memo s))

  active_from-Visits :
      IsRanked admitted rank
      → (n rid : ℕ) (path : List ℕ) (memo : Memo) → All (λ p. rank rid < rank p) path
      → IsSound admitted n memo
      → Visits n rid memo (active_from admitted n path rid memo)
  unfolding active_from Visits lineage
  active_from-Visits ranked zero rid path memo h s = (refl, s, record { keeps = λ r k lt. refl })
  active_from-Visits ranked (suc n) rid path memo h s =
      rw (elem_above rank rid path h) (elim (Option-cases (recall rid (suc n) memo)) [
        | inl miss ↦ rw miss (
            examine-Visits ranked n rid (active_from admitted n (rid ∷ path))
              (λ r m lt sm.
                active_from-Visits ranked n r (rid ∷ path) m (lt, above_trans rank r rid path lt h)
                  sm)
              memo (admitted rid) refl s)
        | inr (found, hit) ↦
            rw hit
              (s.holds rid (suc n) found (omega arith) hit, s, record { keeps = λ r k lt. refl })
      ])

  -- On records whose parents rank below them, `_active` gives for every memo that holds right
  -- answers the answer of the recursion without memo and path, and leaves a memo that does.
  pub memo_transparent :
      IsRanked admitted rank
      → (n rid : ℕ) (memo : Memo) → IsSound admitted n memo
      → ((active_from admitted n [] rid memo).0 ≡ lineage admitted n rid)
        × IsSound admitted n (active_from admitted n [] rid memo).1
  unfolding Visits
  memo_transparent ranked n rid memo s =
      let (same, sound, framed) = active_from-Visits ranked n rid [] memo tt s in (same, sound)
