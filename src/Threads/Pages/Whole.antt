-- ===== src/Threads/Pages/Whole.antt =====
-- agentmesh/conversations.py: nothing is lost between the pages of a thread.
use intertexum.Prelude.{
  ℕ, zero, suc, ◌+◌, ◌≤◌, ◌≡◌, ◌⊎◌, ◌∙◌, refl, sym, ap, ◌||◌, ltb, keep, take, length, List, [],
  ◌∷◌, ◌++◌, map, Option, none, some, ok, invalid, arith, Bool-cases, inl, inr, >>=-eq-ok,
  guard-eq-ok,
}
use mathlib.Core.Path.{subst}
use intertexum.State.{Node, Capability}
use intertexum.Policy.{capability}
use intertexum.Threads.{Root, Stored, Threads}
use intertexum.Threads.Order.{Ascending, IsOrdered, Ascending-from, Reached, reached-IsOrdered}
use intertexum.Crypto.{Env}
use intertexum.Threads.Pages.{
  Filters, Row, Entry, Page, Sizes, page_bytes, valid_filters, is_asked_post, of_post_row,
  of_root_row, rows_of, page_root, is_shown, entry_of, fill, last_seq, next_cursor, page,
}

-- the row numbers rise from a cursor on
abbrev Rising : ℕ → List Row → Type 0
Rising = Ascending (λ row. row.seq)

module _ (node : Node) (requester : ℕ) (f : Filters) where
  -- What the loop makes of its rows: it looked at the first of them, up to its cursor.
  record IsFilled (rows : List Row) (start : ℕ) (out : List Entry × ℕ) : Type 0 where
    done : List Row
    rest : List Row
    split : rows ≡ done ++ rest
    items : out.0 ≡ map (entry_of node requester f) (keep (is_shown node requester f) done)
    cursor : out.1 ≡ last_seq start done

  fill-IsFilled :
      (sizes : Sizes) (rows : List Row) (size start : ℕ)
      → IsFilled rows start (fill node requester f sizes rows size start)
  unfolding fill last_seq
  fill-IsFilled sizes [] size start = record {
    done = [];
    rest = [];
    split = refl;
    items = refl;
    cursor = refl;
  }
  fill-IsFilled sizes (row ∷ rows) size start =
      let cost = sizes.of_entry (entry_of node requester f row) in
      let passed = fill-IsFilled sizes rows size row.seq in
      let onward = fill-IsFilled sizes rows (size + cost) row.seq in
      elim (Bool-cases (is_shown node requester f row)) [
        | inr hidden ↦ rw hidden (record {
          done = row ∷ passed.done;
          rest = passed.rest;
          split = ap (λ xs. row ∷ xs) passed.split;
          items = rw hidden passed.items;
          cursor = passed.cursor;
        })
        | inl shown ↦ elim (Bool-cases (ltb page_bytes (size + cost))) [
          | inl full ↦
              rw (shown, full)
                (record { done = []; rest = row ∷ rows; split = refl; items = refl; cursor = refl })
          | inr room ↦
              rw (shown, room)
                (record {
                  done = row ∷ onward.done;
                  rest = onward.rest;
                  split = ap (λ xs. row ∷ xs) onward.split;
                  items = rw shown (ap (λ es. entry_of node requester f row ∷ es) onward.items);
                  cursor = onward.cursor;
                })
        ]
      ]

take-split {ℓ} : {A : Type ℓ} (n : ℕ) (xs : List A) → (tail : List A) × (xs ≡ take n xs ++ tail)
take-split zero xs = (xs, refl)
take-split (suc n) [] = ([], refl)
take-split (suc n) (x ∷ xs) = let (tail, e) = take-split n xs in (tail, ap (λ ys. x ∷ ys) e)

take-whole {ℓ} :
    {A : Type ℓ} (n : ℕ) (xs : List A) → length (take (suc n) xs) ≤ n → take (suc n) xs ≡ xs
take-whole n [] h = refl
take-whole zero (x ∷ xs) h = absurd (omega arith)
take-whole (suc n) (x ∷ xs) h = ap (λ ys. x ∷ ys) (take-whole n xs (omega arith))

take-enough {ℓ} :
    {A : Type ℓ} (n : ℕ) (xs : List A) → length (take (n + 1) xs) ≤ n → take (n + 1) xs ≡ xs
take-enough n xs =
    let same : suc n ≡ n + 1 = omega arith in
    subst (λ k. length (take k xs) ≤ n → take k xs ≡ xs) same (take-whole n xs)

take-again {ℓ} : {A : Type ℓ} (n m : ℕ) (xs : List A) → n ≤ m → take n (take m xs) ≡ take n xs
take-again zero m xs h = refl
take-again (suc n) zero xs h = absurd (omega arith)
take-again (suc n) (suc m) [] h = refl
take-again (suc n) (suc m) (x ∷ xs) h = ap (λ ys. x ∷ ys) (take-again n m xs (omega arith))

ok_inj {ℓ} : {A : Type ℓ} {x y : A} → ok x ≡ ok y → x ≡ y
ok_inj e = cc e

append_assoc {ℓ} : {A : Type ℓ} (xs ys zs : List A) → (xs ++ ys) ++ zs ≡ xs ++ (ys ++ zs)
append_assoc [] ys zs = refl
append_assoc (x ∷ xs) ys zs = ap (λ l. x ∷ l) (append_assoc xs ys zs)

Rising-last : (b : ℕ) (rows : List Row) → Rising b rows → b ≤ last_seq b rows
unfolding Ascending last_seq
Rising-last b [] a = omega arith
Rising-last b (row ∷ rows) (first, a) = omega (arith, Rising-last row.seq rows a)

-- Where the last number of all rows is not above that of the first part, there is no second part.
last_seq-none :
    (b : ℕ) (done rest : List Row)
    → Rising b (done ++ rest)
    → last_seq b (done ++ rest) ≤ last_seq b done
    → rest ≡ []
unfolding Ascending last_seq
last_seq-none b [] [] a h = refl
last_seq-none b [] (row ∷ rest) (first, a) h = absurd (omega (arith, Rising-last row.seq rest a))
last_seq-none b (x ∷ done) rest (first, a) h = last_seq-none x.seq done rest a h

next_cursor_cases :
    (rows : List Row) (limit cursor b : ℕ)
    → (next_cursor rows limit cursor ≡ some cursor)
      ⊎ ((next_cursor rows limit cursor ≡ none)
          × (length rows ≤ limit)
          × ((rows ≡ []) ⊎ (last_seq b rows ≤ cursor)))
unfolding next_cursor last_seq
next_cursor_cases [] limit cursor b = inr (refl, omega arith, inl refl)
next_cursor_cases (row ∷ rest) limit cursor b =
    elim (Bool-cases (ltb limit (length (row ∷ rest)) || ltb cursor (last_seq row.seq rest))) [
      | inl more ↦ inl (rw more refl)
      | inr last ↦ inr (rw last refl, ground arith, inr (ground arith))
    ]

Rising-map {ℓ} :
    {A : Type ℓ} (g : A → Row) (b : ℕ) (xs : List A)
    → Ascending (λ x. (g x).seq) b xs
    → Rising b (map g xs)
unfolding Ascending
Rising-map g b [] a = tt
Rising-map g b (x ∷ xs) (first, a) = (first, Rising-map g (g x).seq xs a)

rows_of-Rising :
    (t : Threads) (f : Filters) (thread : Option ℕ)
    → IsOrdered t
    → Rising f.after (rows_of t f thread)
unfolding rows_of
rows_of-Rising t f (some thread) h =
    Rising-map of_post_row f.after (keep (λ x. is_asked_post f thread x.1) t.posts) (
      Ascending-from (λ (x : ℕ × Stored). x.1.seq) (λ x. is_asked_post f thread x.1) 0 f.after
        t.posts (λ x e. ground arith) h.posts)
rows_of-Rising t f none h =
    Rising-map of_root_row f.after (keep (λ x. ltb f.after x.1.seq) t.threads) (
      Ascending-from (λ (x : ℕ × Root). x.1.seq) (λ x. ltb f.after x.1.seq) 0 f.after t.threads
        (λ x e. ground arith) h.roots)

-- A page that shows what may be shown of the first of the rows that were asked for, with a cursor
-- behind these, or of all of them.
pub record IsWhole (node : Node) (requester : ℕ) (f : Filters) (rows : List Row) (p : Page)
    : Type 0 where
  pub done : List Row
  pub rest : List Row
  pub split : rows ≡ done ++ rest
  pub items : p.items ≡ map (entry_of node requester f) (keep (is_shown node requester f) done)
  pub next : (p.next ≡ some (last_seq f.after done)) ⊎ ((p.next ≡ none) × (rest ≡ []))

next-IsWhole :
    (f : Filters) (rows done rest : List Row) (cursor : ℕ)
    → Rising f.after rows
    → rows ≡ done ++ rest
    → cursor ≡ last_seq f.after done
    → (next_cursor (take (f.limit + 1) rows) f.limit cursor ≡ some (last_seq f.after done))
      ⊎ ((next_cursor (take (f.limit + 1) rows) f.limit cursor ≡ none) × (rest ≡ []))
next-IsWhole f rows done rest cursor rising split at =
    elim (next_cursor_cases (take (f.limit + 1) rows) f.limit cursor f.after) [
      | inl more ↦ inl (more ∙ ap (λ c. some c) at)
      | inr (last, few, end) ↦
          let all = take-enough f.limit rows few in
          inr (
            last,
            elim end [
              | inl empty ↦ append-nil done rest (sym split ∙ sym all ∙ empty)
              | inr below ↦ last_seq-none f.after done rest (subst (Rising f.after) split rising) (
                  subst (λ l. last_seq f.after l ≤ last_seq f.after done) (all ∙ split)
                    (subst (λ c. last_seq f.after (take (f.limit + 1) rows) ≤ c) at below))
            ],
          )
    ]
  where
    append-nil : (xs ys : List Row) → xs ++ ys ≡ [] → ys ≡ []
    append-nil [] ys e = e
    append-nil (x ∷ xs) ys e = cc

-- Whatever a host did to its threads, a page that it serves shows, in order, just what the requester
-- may be shown of the rows that were asked for: of all of them where no cursor comes with it, and
-- else of those up to the cursor.
pub page-IsWhole :
    (env : Env) (sizes : Sizes) (node : Node) (t : Threads) (requester : ℕ) (f : Filters) (p : Page)
    → Reached env t
    → page sizes node t requester f ≡ ok p
    → IsWhole node requester f (rows_of t f f.thread) p
unfolding page
page-IsWhole env sizes node t requester f p reached e =
    let (_, _, e1) = >>=-eq-ok (capability node Capability.threads) _ e in
    let (_, e2) = guard-eq-ok (valid_filters f) invalid _ e1 in
    let (host, _, e3) = >>=-eq-ok (page_root node requester f t f.thread) _ e2 in
    let all = rows_of t f f.thread in
    let rows = take (f.limit + 1) all in
    let out = fill node requester f sizes (take f.limit rows) (sizes.of_root host) f.after in
    let filled =
      fill-IsFilled node requester f sizes (take f.limit rows) (sizes.of_root host) f.after in
    let (tail, cut) = take-split f.limit all in
    let split : all ≡ filled.done ++ (filled.rest ++ tail) =
      cut
      ∙ ap (λ l. l ++ tail)
          (sym (take-again f.limit (f.limit + 1) all (omega arith)) ∙ filled.split)
      ∙ append_assoc filled.done filled.rest tail in
    let rising = rows_of-Rising t f f.thread (reached-IsOrdered env t reached) in
    subst (IsWhole node requester f all) (ok_inj e3) (record {
      done = filled.done;
      rest = filled.rest ++ tail;
      split = split;
      items = filled.items;
      next = next-IsWhole f all filled.done (filled.rest ++ tail) out.1 rising split filled.cursor;
    })
