-- ===== src/Defense/Rate.antt =====
-- The token buckets of agentmesh/defense.py keep the rate that they state.
use intertexum.Prelude.{
  ℕ, ◌+◌, ◌-◌, ◌*◌, ◌≤◌, ◌≡◌, ◌⊎◌, refl, Bool, true, false, ◌==◌, ltb, List, [], ◌∷◌, length,
  keep_rows, Table, Option, none, some, lookup, replace, lookup-replace, arith, if◌then◌else◌,
  Bool-cases, inl, inr, ==_refl,
}
use intertexum.Defense.{
  Defense, Bucket, Limit, token, refill, refill_all, write_buckets, with_tokens, consume,
  max_buckets,
}

-- what a scope could spend now
abbrev pub available : Defense → Limit → ℕ
available d l = refill d.clock l (lookup l.key d.buckets)

mul_mono : (a b c : ℕ) → a ≤ b → a * c ≤ b * c
mul_mono a b c h = grind arith

refill-le : (now : ℕ) (l : Limit) (b : Option Bucket) → refill now l b ≤ l.burst * token
unfolding refill
refill-le now l none = omega arith
refill-le now l (some b) = omega arith

-- a bucket that has been idle for two minutes is full
idle_full :
    (now : ℕ) (l : Limit) (b : Bucket)
    → l.burst * token ≤ 120000 * l.rate
    → ltb (now - b.last) 120000 ≡ false
    → refill now l (some b) ≡ l.burst * token
unfolding refill
idle_full now l b h idle =
    let long : 120000 ≤ now - b.last = ground arith in
    let more : 120000 * l.rate ≤ (now - b.last) * l.rate =
      mul_mono 120000 (now - b.last) l.rate long in
    omega arith

lookup-keep_rows :
    (k : ℕ) (p : Bucket → Bool) (t : Table Bucket)
    → (lookup k (keep_rows (λ _ b. p b) t) ≡ lookup k t)
      ⊎ ((b : Bucket) × (lookup k t ≡ some b) × (p b ≡ false))
unfolding lookup
lookup-keep_rows k p [] = inl refl
lookup-keep_rows k p ((j, b) ∷ t) = elim (Bool-cases (j == k)) [
  | inr other ↦ elim (lookup-keep_rows k p t) [
    | inl same ↦ inl (ground arith)
    | inr (c, at, stale) ↦ inr (c, ground arith, stale)
  ]
  | inl here ↦ elim (Bool-cases (p b)) [
    | inl fresh ↦ inl (ground arith)
    | inr stale ↦ inr (b, ground arith, stale)
  ]
]

refill-kept :
    (now : ℕ) (l : Limit) (t : Table Bucket)
    → l.burst * token ≤ 120000 * l.rate
    → refill now l (lookup l.key (keep_rows (λ _ b. ltb (now - b.last) 120000) t))
      ≤ refill now l (lookup l.key t)
refill-kept now l t h = elim (lookup-keep_rows l.key (λ b. ltb (now - b.last) 120000) t) [
  | inl same ↦ rw same (omega arith)
  | inr (b, at, stale) ↦
      rw (at, idle_full now l b h stale)
        (refill-le now l (lookup l.key (keep_rows (λ _ b. ltb (now - b.last) 120000) t)))
]

refill-later :
    (now gap : ℕ) (l : Limit) (b : Option Bucket)
    → refill (now + gap) l b ≤ refill now l b + gap * l.rate
unfolding refill
refill-later now gap l none = omega arith
refill-later now gap l (some b) =
    let x = now - b.last in
    let y = now + gap - b.last in
    let near : y ≤ x + gap = omega arith in
    let more : y * l.rate ≤ (x + gap) * l.rate = mul_mono y (x + gap) l.rate near in omega arith

refill_written :
    (now n : ℕ) (l : Limit) → n ≤ l.burst * token → refill now l (some (with_tokens now n)) ≡ n
unfolding refill
refill_written now n l h = let none_yet : (now - now) * l.rate ≡ 0 = grind arith in omega arith

abbrev kept_buckets : Defense → Table Bucket
kept_buckets d = keep_rows (λ _ b. ltb (d.clock - b.last) 120000) d.buckets

abbrev written : Defense → Limit → ℕ → Defense
written d l n = record d { buckets = replace l.key (with_tokens d.clock n) (kept_buckets d) }

-- the three outcomes of a request under one limit
consume_cases :
    (d : Defense) (l : Limit)
    → (consume d (l ∷ []) ≡ (record d { buckets = kept_buckets d }, false))
      ⊎ (consume d (l ∷ [])
          ≡ (written d l (refill d.clock l (lookup l.key (kept_buckets d)) - 0), false))
      ⊎ ((token ≤ refill d.clock l (lookup l.key (kept_buckets d)))
          × (consume d (l ∷ [])
              ≡ (written d l (refill d.clock l (lookup l.key (kept_buckets d)) - token), true)))
unfolding consume refill_all write_buckets
consume_cases d l =
    let n = refill d.clock l (lookup l.key (kept_buckets d)) in
    elim (Bool-cases (ltb max_buckets (length (kept_buckets d) + 1))) [
      | inl full ↦ inl (rw full refl)
      | inr room ↦ elim (Bool-cases (ltb n token)) [
        | inl poor ↦ inr (inl (rw (room, poor) refl))
        | inr rich ↦ inr (inr (ground arith, rw (room, rich) refl))
      ]
    ]

available-written :
    (d : Defense) (l : Limit) (n : ℕ) → n ≤ l.burst * token → available (written d l n) l ≡ n
available-written d l n h =
    rw (lookup-replace l.key l.key (with_tokens d.clock n) (kept_buckets d))
      (rw (==_refl l.key) (refill_written d.clock n l h))

-- what a granted request is worth
spent : Bool → ℕ
spent true = token
spent false = 0

consume-spends :
    (d : Defense) (l : Limit)
    → l.burst * token ≤ 120000 * l.rate
    → available (consume d (l ∷ [])).0 l + spent (consume d (l ∷ [])).1 ≤ available d l
unfolding spent
consume-spends d l h =
    let n = refill d.clock l (lookup l.key (kept_buckets d)) in
    let less = refill-kept d.clock l d.buckets h in
    let top = refill-le d.clock l (lookup l.key (kept_buckets d)) in
    elim (consume_cases d l) [
      | inl e ↦ rw e (omega arith)
      | inr (inl e) ↦ rw e (omega (arith, available-written d l (n - 0) (omega arith)))
      | inr (inr (rich, e)) ↦ rw e (omega (arith, available-written d l (n - token) (omega arith)))
    ]

-- requests for one token, each that many milliseconds after the one before, and how many are granted
unfoldable pub attempts : Limit → Defense → List ℕ → Defense × ℕ
attempts l d [] = (d, 0)
attempts l d (gap ∷ gaps) =
    let (next, granted) = consume (record d { clock = d.clock + gap }) (l ∷ []) in
    let (last, count) = attempts l next gaps in (last, (if granted then count + 1 else count))

unfoldable pub total : List ℕ → ℕ
total [] = 0
total (g ∷ gs) = g + total gs

-- one request and those behind it
counted :
    (granted : Bool) (n a b c g t r : ℕ)
    → b ≤ c + g * r
    → a + spent granted ≤ b
    → n * token ≤ a + t * r
    → (if granted then n + 1 else n) * token ≤ c + (g + t) * r
unfolding spent
counted true n a b c g t r x y z = grind arith
counted false n a b c g t r x y z = grind arith

attempts-available :
    (l : Limit) (d : Defense) (gaps : List ℕ)
    → l.burst * token ≤ 120000 * l.rate
    → (attempts l d gaps).1 * token ≤ available d l + total gaps * l.rate
unfolding attempts total
attempts-available l d [] h = omega arith
attempts-available l d (gap ∷ gaps) h =
    let ticked : Defense = record d { clock = d.clock + gap } in
    let out = consume ticked (l ∷ []) in
    let later : available ticked l ≤ available d l + gap * l.rate =
      refill-later d.clock gap l (lookup l.key d.buckets) in
    let rest = attempts-available l out.0 gaps h in
    counted out.1 (attempts l out.0 gaps).1 (available out.0 l) (available ticked l) (available d l)
      gap (total gaps) l.rate later (consume-spends ticked l h) rest

-- However requests for one token are spaced, the granted ones are at most the burst and what the
-- rate yields in the time that passed, where an idle bucket fills up in two minutes.
pub attempts-le :
    (l : Limit) (d : Defense) (gaps : List ℕ)
    → l.burst * token ≤ 120000 * l.rate
    → (attempts l d gaps).1 * token ≤ l.burst * token + total gaps * l.rate
attempts-le l d gaps h =
    let top = refill-le d.clock l (lookup l.key d.buckets) in
    omega (arith, attempts-available l d gaps h)
