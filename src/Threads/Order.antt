-- ===== src/Threads/Order.antt =====
-- agentmesh/conversations.py: the row numbers of threads and posts rise.
use intertexum.Prelude.{
  ℕ, ◌+◌, ◌≤◌, ◌<◌, ◌≡◌, Bool, true, false, not, ◌==◌, keep, max, List, [], ◌∷◌, ◌++◌, Option,
  Table, has, delete, insert_new, keep_rows, ok, invalid, arith, Bool-cases, inl, inr, >>=-eq-ok,
  guard-eq-ok,
}
use mathlib.Core.Path.{subst}
use intertexum.Crypto.{Env, Reader, PostKind, root, reply}
use intertexum.State.{Node, Capability}
use intertexum.Policy.{capability, require_source, senders}
use intertexum.Work.{Proof}
use intertexum.Threads.{
  Post, Root, Stored, Threads, last_root, insert_root, insert_post, create, accept, accept_kind,
  retire_thread, now_ms, check_pin, may_answer, make_body, checked,
}
use intertexum.Records.{check_audience, is_everyone}
use intertexum.Node.Share.{sorted_readers}

-- the numbers of a list rise, and the first is above a bound
unfoldable pub Ascending {ℓ} : {A : Type ℓ} → (A → ℕ) → ℕ → List A → Type 0
Ascending s b [] = Unit {0}
Ascending s b (x ∷ xs) = (b < s x) × Ascending s (s x) xs

module _ {ℓ} {A : Type ℓ} (s : A → ℕ) where
  Ascending-relax : (b c : ℕ) (xs : List A) → b ≤ c → Ascending s c xs → Ascending s b xs
  unfolding Ascending
  Ascending-relax b c [] h a = tt
  Ascending-relax b c (x ∷ xs) h (first, a) = (omega arith, a)

  pub Ascending-keep :
      (p : A → Bool) (b : ℕ) (xs : List A) → Ascending s b xs → Ascending s b (keep p xs)
  unfolding Ascending
  Ascending-keep p b [] a = tt
  Ascending-keep p b (x ∷ xs) (first, a) = elim (Bool-cases (p x)) [
    | inl e ↦ rw e (first, Ascending-keep p (s x) xs a)
    | inr e ↦ rw e (Ascending-relax b (s x) (keep p xs) (omega arith) (Ascending-keep p (s x) xs a))
  ]

  -- a part whose rows are all above a cursor rises from that cursor
  pub Ascending-from :
      (p : A → Bool) (b c : ℕ) (xs : List A)
      → ((x : A) → p x ≡ true → c < s x)
      → Ascending s b xs
      → Ascending s c (keep p xs)
  unfolding Ascending
  Ascending-from p b c [] above a = tt
  Ascending-from p b c (x ∷ xs) above (first, a) = elim (Bool-cases (p x)) [
    | inl e ↦ rw e (above x e, Ascending-keep p (s x) xs a)
    | inr e ↦ rw e (Ascending-from p (s x) c xs above a)
  ]

  -- every number is at most a limit
  pub AtMost : ℕ → List A → Type 0
  AtMost top [] = Unit {0}
  AtMost top (x ∷ xs) = (s x ≤ top) × AtMost top xs

  AtMost-relax : (b c : ℕ) (xs : List A) → b ≤ c → AtMost b xs → AtMost c xs
  unfolding AtMost
  AtMost-relax b c [] h a = tt
  AtMost-relax b c (x ∷ xs) h (first, a) = (omega arith, AtMost-relax b c xs h a)

  AtMost-keep : (p : A → Bool) (top : ℕ) (xs : List A) → AtMost top xs → AtMost top (keep p xs)
  unfolding AtMost
  AtMost-keep p top [] a = tt
  AtMost-keep p top (x ∷ xs) (first, a) = elim (Bool-cases (p x)) [
    | inl e ↦ rw e (first, AtMost-keep p top xs a)
    | inr e ↦ rw e (AtMost-keep p top xs a)
  ]

  Ascending-snoc :
      (b top : ℕ) (xs : List A) (y : A)
      → Ascending s b xs
      → AtMost top xs
      → b ≤ top
      → top < s y
      → Ascending s b (xs ++ y ∷ [])
  unfolding Ascending AtMost
  Ascending-snoc b top [] y a m low h = (omega arith, tt)
  Ascending-snoc b top (x ∷ xs) y (first, a) (here, m) low h =
      (first, Ascending-snoc (s x) top xs y a m here h)

  AtMost-snoc :
      (top : ℕ) (xs : List A) (y : A) → AtMost top xs → s y ≤ top → AtMost top (xs ++ y ∷ [])
  unfolding AtMost
  AtMost-snoc top [] y m h = (h, tt)
  AtMost-snoc top (x ∷ xs) y (here, m) h = (here, AtMost-snoc top xs y m h)

-- The tables stand in the order of their row numbers, and the counters are not behind them.
pub record IsOrdered (t : Threads) : Type 0 where
  pub roots : Ascending (λ (x : ℕ × Root). x.1.seq) 0 t.threads
  pub roots_top : AtMost (λ (x : ℕ × Root). x.1.seq) t.thread_seq t.threads
  pub posts : Ascending (λ (x : ℕ × Stored). x.1.seq) 0 t.posts
  pub posts_top : AtMost (λ (x : ℕ × Stored). x.1.seq) t.post_seq t.posts

-- one operation of a host, at any time and under any policy
pub data Step (env : Env) (t t' : Threads) : Type 0 where
  created :
      (node : Node) (content : List ℕ) (members : List Reader) (nonce : List ℕ) (obj : Post)
      → create env node t content members nonce ≡ ok (t', obj)
      → Step env t t'
  accepted :
      (node node' : Node) (obj : Post) (requester : ℕ) (admission : Option Proof)
      → accept env node t obj requester admission ≡ ok (node', t')
      → Step env t t'
  retired :
      (node node' : Node) (thread : ℕ)
      → retire_thread node t thread ≡ ok (node', t')
      → Step env t t'

abbrev pub no_threads : Threads
no_threads = record { threads = []; thread_seq = 0; posts = []; post_seq = 0 }

-- the tables that a host comes to
pub data Reached (env : Env) : Threads → Type 0 where
  fresh : Reached env no_threads
  then_step : {t t' : Threads} → Reached env t → Step env t t' → Reached env t'

module _ {ℓ} {A : Type ℓ} (s : ℕ × A → ℕ) where
  Ascending-delete : (k b : ℕ) (xs : Table A) → Ascending s b xs → Ascending s b (delete k xs)
  unfolding Ascending delete
  Ascending-delete k b [] a = tt
  Ascending-delete k b (x ∷ xs) (first, a) = elim (Bool-cases (x.0 == k)) [
    | inl e ↦
        rw e (Ascending-relax s b (s x) (delete k xs) (omega arith) (Ascending-delete k (s x) xs a))
    | inr e ↦ rw e (first, Ascending-delete k (s x) xs a)
  ]

  AtMost-delete : (k top : ℕ) (xs : Table A) → AtMost s top xs → AtMost s top (delete k xs)
  unfolding AtMost delete
  AtMost-delete k top [] a = tt
  AtMost-delete k top (x ∷ xs) (first, a) = elim (Bool-cases (x.0 == k)) [
    | inl e ↦ rw e (AtMost-delete k top xs a)
    | inr e ↦ rw e (first, AtMost-delete k top xs a)
  ]

  -- a row that is new stands behind all others
  Ascending-insert_new :
      (k top : ℕ) (v : A) (xs : Table A)
      → Ascending s 0 xs
      → AtMost s top xs
      → top < s (k, v)
      → Ascending s 0 (insert_new k v xs) × AtMost s (s (k, v)) (insert_new k v xs)
  unfolding insert_new
  Ascending-insert_new k top v xs a m h = elim (Bool-cases (has k xs)) [
    | inl e ↦ rw e (a, AtMost-relax s top (s (k, v)) xs (omega arith) m)
    | inr e ↦ rw e (
      Ascending-snoc s 0 top xs (k, v) a m (omega arith) h,
      AtMost-snoc s (s (k, v)) xs (k, v) (AtMost-relax s top (s (k, v)) xs (omega arith) m)
          (omega arith),
    )
  ]

insert_root-IsOrdered :
    (t t' : Threads) (obj : Post) → IsOrdered t → insert_root t obj ≡ ok t' → IsOrdered t'
unfolding insert_root
insert_root-IsOrdered t t' obj h e =
    let seq = max t.thread_seq (last_root t.threads) + 1 in
    let row : Root = record { seq = seq; wire = obj } in
    let (a, m) =
      Ascending-insert_new (λ (x : ℕ × Root). x.1.seq) obj.id t.thread_seq row t.threads h.roots
        h.roots_top (omega arith) in
    let same : record t { thread_seq = seq; threads = insert_new obj.id row t.threads } ≡ t' =
      ground arith in
    subst IsOrdered same
      (record { roots = a; roots_top = m; posts = h.posts; posts_top = h.posts_top })

insert_post-IsOrdered :
    (env : Env) (node node' : Node) (t t' : Threads) (obj : Post) (thread requester : ℕ)
    (admission : Option Proof)
    → IsOrdered t
    → insert_post env node t obj thread requester admission ≡ ok (node', t')
    → IsOrdered t'
unfolding insert_post
insert_post-IsOrdered env node node' t t' obj thread requester admission h e =
    let row : Stored = record {
      seq = t.post_seq + 1;
      thread = thread;
      received = now_ms node;
      wire = obj;
    } in
    let (a, m) =
      Ascending-insert_new (λ (x : ℕ × Stored). x.1.seq) obj.id t.post_seq row t.posts h.posts
        h.posts_top (omega arith) in
    let same : record t { post_seq = t.post_seq + 1; posts = insert_new obj.id row t.posts } ≡ t' =
      ground arith in
    subst IsOrdered same
      (record { roots = h.roots; roots_top = h.roots_top; posts = a; posts_top = m })

accept_kind-IsOrdered :
    (env : Env) (node node' : Node) (t t' : Threads) (obj : Post) (kind : PostKind) (requester : ℕ)
    (admission : Option Proof)
    → IsOrdered t
    → accept_kind env node t obj kind requester admission ≡ ok (node', t')
    → IsOrdered t'
unfolding accept_kind
accept_kind-IsOrdered env node node' t t' obj (root audience) requester admission h e = cc
accept_kind-IsOrdered env node node' t t' obj (reply thread parent) requester admission h e =
    let (_, e1) = guard-eq-ok (obj.body.origin == requester) invalid _ e in
    let (_, _, e2) = >>=-eq-ok (check_pin env node requester) _ e1 in
    let (_, _, e3) = >>=-eq-ok (may_answer env node t thread parent requester) _ e2 in
    elim (Bool-cases (has obj.id t.posts)) [
      | inl old ↦ subst IsOrdered (ground (arith, rw old at e3)) h
      | inr new ↦
          insert_post-IsOrdered env node node' t t' obj thread requester admission h (rw new at e3)
    ]

Step-IsOrdered : (env : Env) (t t' : Threads) → IsOrdered t → Step env t t' → IsOrdered t'
unfolding create accept retire_thread
Step-IsOrdered env t t' h (created node content members nonce obj e) =
    let (_, _, e1) = >>=-eq-ok (capability node Capability.threads) _ e in
    let (_, _, e2) = >>=-eq-ok (capability node Capability.publish) _ e1 in
    let (_, _, e3) = >>=-eq-ok (check_audience (sorted_readers members) false) _ e2 in
    let (_, e4) = guard-eq-ok (not (is_everyone (sorted_readers members))) invalid _ e3 in
    let (made, _, e5) =
      >>=-eq-ok (make_body env node (root (sorted_readers members)) content nonce) _ e4 in
    let (_, _, e6) = >>=-eq-ok (checked env node made) _ e5 in
    let (t1, stored, e7) = >>=-eq-ok (insert_root t made) _ e6 in
    let same : t1 ≡ t' = cc e7 in subst IsOrdered same (insert_root-IsOrdered t t1 made h stored)
Step-IsOrdered env t t' h (accepted node node' obj requester admission e) =
    let (_, _, e1) = >>=-eq-ok (capability node Capability.threads) _ e in
    let (_, _, e2) = >>=-eq-ok (capability node Capability.receive) _ e1 in
    let (_, _, e3) = >>=-eq-ok (require_source node senders requester) _ e2 in
    let (b, _, e4) = >>=-eq-ok (checked env node obj) _ e3 in
    accept_kind-IsOrdered env node node' t t' obj b.kind requester admission h e4
Step-IsOrdered env t t' h (retired node node' thread e) =
    let left : Threads = record t {
      posts = keep_rows (λ _ p. not (p.thread == thread)) t.posts;
      threads = delete thread t.threads;
    } in
    let same : left ≡ t' = ground arith in
    subst IsOrdered same (record {
      roots = Ascending-delete (λ (x : ℕ × Root). x.1.seq) thread 0 t.threads h.roots;
      roots_top =
          AtMost-delete (λ (x : ℕ × Root). x.1.seq) thread t.thread_seq t.threads h.roots_top;
      posts = Ascending-keep (λ (x : ℕ × Stored). x.1.seq) _ 0 t.posts h.posts;
      posts_top = AtMost-keep (λ (x : ℕ × Stored). x.1.seq) _ t.post_seq t.posts h.posts_top;
    })

-- However a host creates threads, accepts replies and retires threads, its tables stand in the order
-- of strictly rising row numbers, none of which is above its counter.
pub reached-IsOrdered : (env : Env) (t : Threads) → Reached env t → IsOrdered t
unfolding Ascending AtMost
reached-IsOrdered env _ fresh = record { roots = tt; roots_top = tt; posts = tt; posts_top = tt }
reached-IsOrdered env t' (then_step {t} r step) =
    Step-IsOrdered env t t' (reached-IsOrdered env t r) step
