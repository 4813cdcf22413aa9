-- ===== src/Threads.antt =====
-- agentmesh/conversations.py: roots of threads, the posts of a host, and the pages that it serves.
--
-- `Threads` holds the tables `threads` and `posts` in the order of their row numbers. The size of
-- canonical JSON is an argument of `page`, and an answer of another host one of `read`.
pub mod Order
pub mod Accepted
pub mod Pages
use intertexum.Prelude.{
  ℕ, ◌+◌, ◌*◌, ◌-◌, ◌/◌, ◌^◌, Bool, true, false, not, ◌&&◌, ◌||◌, ◌==◌, leb, ltb, all, any, keep,
  take, length, List, [], ◌∷◌, map, Option, none, some, Table, lookup, has, delete, insert_new,
  keep_rows, max, Result, ok, err, invalid, denied, integrity, guard, ◌>>=◌, ◌>>◌, if◌then◌else◌,
  is_ok,
}
use intertexum.Crypto.{
  Env, Reader, named, Signed, OfferBody, PostBody, PostKind, root, reply, of_post, sign, verify,
  certificate, public_id, valid_id, thread_post,
}
use intertexum.Records.{check_text, check_audience, is_everyone, is_public, includes}
use intertexum.State.{Capability, Node}
use intertexum.Policy.{capability, require_source, allowed, authors, senders, is_none}
use intertexum.Node.Peers.{peer, require, reading, messaging}
use intertexum.Node.Share.{sorted_readers}
use intertexum.Work.{Subject, Proof, admit}
use intertexum.Work.Outbound.{reply_info}
use intertexum.Outbox.{enqueue}

abbrev pub Post : Type 0
Post = Signed PostBody

-- a row of `threads`
pub record Root : Type 0 where
  pub seq : ℕ
  pub wire : Post

-- a row of `posts`
pub record Stored : Type 0 where
  pub seq : ℕ
  pub thread : ℕ
  pub received : ℕ
  pub wire : Post

pub record Threads : Type 0 where
  pub threads : Table Root
  -- the row `thread_seq` of `lifecycle`, 0 for none, and the counter of `posts`
  pub thread_seq : ℕ
  pub posts : Table Stored
  pub post_seq : ℕ

abbrev pub now_ms : Node → ℕ
now_ms node = node.now_ns / 1000000

abbrev pub audience_of : PostKind → List Reader
audience_of (root audience) = audience
audience_of (reply thread parent) = []

abbrev pub is_root : PostKind → Bool
is_root (root audience) = true
is_root (reply thread parent) = false

-- `_root`
unfoldable pub found_root : Option Root → Result Root
found_root none = err denied
found_root (some row) = ok row

unfoldable pub root_of : Threads → ℕ → Result Root
unfolding found_root
root_of t thread = found_root (lookup thread t.threads)

-- `_access`
unfoldable pub is_member : Node → List Reader → ℕ → Result (Unit {0})
is_member node audience requester = if is_public audience then ok tt else do
  guard (includes audience (named requester)) denied
  p ← peer node requester false
  guard p.permissions.read denied

unfoldable pub access : Node → PostBody → ℕ → Result (Unit {0})
unfolding is_member
access node body requester =
    if requester == node.id
    then ok tt
    else require node requester reading >> is_member node (audience_of body.kind) requester

-- named members of a thread need the permission to message besides
unfoldable pub may_write : Node → List Reader → ℕ → Result (Unit {0})
may_write node audience requester =
    if is_public audience || requester == node.id then ok tt else require node requester messaging

-- the tests of `checked` on the fields of the two kinds
unfoldable pub check_kind : PostKind → Result (Unit {0})
check_kind (root audience) = do
  check_audience audience false
  guard (not (is_everyone audience)) invalid
check_kind (reply thread parent) = guard (valid_id thread && valid_id parent) invalid

abbrev pub max_threads : ℕ
max_threads = 1000

abbrev pub max_posts : ℕ
max_posts = 10000

abbrev pub last_root : Table Root → ℕ
last_root [] = 0
last_root ((_, r) ∷ rest) = max r.seq (last_root rest)

-- the rows of `create`
unfoldable pub insert_root : Threads → Post → Result Threads
insert_root t obj = do
  guard (ltb (length t.threads) max_threads) denied
  guard (not (has obj.id t.threads)) integrity
  let seq = max t.thread_seq (last_root t.threads) + 1
  ok (record t {
    thread_seq = seq;
    threads = insert_new obj.id (record { seq = seq; wire = obj }) t.threads;
  })

-- whether a reply hangs on its thread: the parent is the thread or one of its posts
unfoldable pub hangs : Threads → ℕ → ℕ → Bool
hangs t thread parent =
    parent == thread
    || (elim (lookup parent t.posts) [ none ↦ false | some p ↦ p.thread == thread ])

module _ (env : Env) where
  -- `_body`; the nonce is `uuid4().hex`
  unfoldable pub make_body : Node → PostKind → List ℕ → List ℕ → Result Post
  make_body node kind content nonce = do
    check_text env content
    let body : PostBody = record {
      version = 1;
      kind = kind;
      origin = node.id;
      certificate = node.certificate;
      text = content;
      created_ms = now_ms node;
      nonce = nonce;
    }
    ok (sign env of_post node.key body)

  -- `checked`
  unfoldable pub checked : Node → Post → Result PostBody
  unfolding check_kind
  checked node obj = do
    key ← certificate env obj.body.certificate
    b ← verify env of_post obj key
    guard (b.origin == public_id env key && b.version == 1) invalid
    guard (leb b.created_ms (now_ms node + 300000)) invalid
    guard (length b.nonce == 32) invalid
    check_text env b.text
    check_kind b.kind
    ok b

  -- `create`
  unfoldable pub create : Node → Threads → List ℕ → List Reader → List ℕ → Result (Threads × Post)
  unfolding make_body checked insert_root
  create node t content members nonce = do
    capability node Capability.threads
    capability node Capability.publish
    let audience = sorted_readers members
    check_audience audience false
    guard (not (is_everyone audience)) invalid
    obj ← make_body node (root audience) content nonce
    checked node obj
    t' ← insert_root t obj
    ok (t', obj)

  -- what `admit` reads of a post
  unfoldable pub subject_of : Post → Subject
  subject_of obj = record {
    id = obj.id;
    version = obj.body.version;
    thread = elim obj.body.kind [ root _ ↦ none | reply thread _ ↦ some thread ];
    text = obj.body.text;
    expires = none;
    reply_to = 0;
    permit = 0;
    size = env.wire_size (of_post obj.body);
  }

  -- the key of a remote sender is the pinned one
  unfoldable pub check_pin : Node → ℕ → Result (Unit {0})
  check_pin node requester = if requester == node.id then ok tt else do
    p ← peer node requester false
    key ← certificate env p.card.certificate
    guard (public_id env key == requester) denied

  unfoldable pub pay_post : Node → Post → ℕ → Option Proof → Result Node
  unfolding subject_of
  pay_post node obj requester admission =
      if requester == node.id
      then ok node
      else admit env node (subject_of obj) requester thread_post admission none

  -- a reply that is new
  unfoldable pub insert_post :
      Node → Threads → Post → ℕ → ℕ → Option Proof → Result (Node × Threads)
  unfolding pay_post
  insert_post node t obj thread requester admission = do
    guard (ltb (length t.posts) max_posts) denied
    node' ← pay_post node obj requester admission
    let row : Stored = record {
      seq = t.post_seq + 1;
      thread = thread;
      received = now_ms node;
      wire = obj;
    }
    ok (node', record t { post_seq = t.post_seq + 1; posts = insert_new obj.id row t.posts })

  -- the transaction of `accept`
  unfoldable pub may_answer : Node → Threads → ℕ → ℕ → ℕ → Result (Unit {0})
  unfolding root_of access may_write hangs
  may_answer node t thread parent requester = do
    host ← root_of t thread
    access node host.wire.body requester
    may_write node (audience_of host.wire.body.kind) requester
    guard (hangs t thread parent) invalid

  unfoldable pub accept_kind :
      Node → Threads → Post → PostKind → ℕ → Option Proof → Result (Node × Threads)
  unfolding check_pin may_answer insert_post
  accept_kind node t obj (root audience) requester admission = err invalid
  accept_kind node t obj (reply thread parent) requester admission = do
    guard (obj.body.origin == requester) invalid
    check_pin node requester
    may_answer node t thread parent requester
    let fresh = insert_post node t obj thread requester admission
    if has obj.id t.posts then ok (node, t) else fresh

  -- `accept`
  unfoldable pub accept : Node → Threads → Post → ℕ → Option Proof → Result (Node × Threads)
  unfolding checked accept_kind
  accept node t obj requester admission = do
    capability node Capability.threads
    capability node Capability.receive
    require_source node senders requester
    b ← checked node obj
    accept_kind node t obj b.kind requester admission

  -- `reply`, with the lifetime of a delivery
  unfoldable pub answer :
      Node → Threads → ℕ → ℕ → List ℕ → Option ℕ → List ℕ → ℕ → Result (Node × Threads × Post)
  unfolding make_body accept
  answer node t host thread content parent nonce ttl = do
    capability node Capability.threads
    capability node Capability.send
    guard (valid_id thread && (elim parent [ none ↦ true | some p ↦ valid_id p ])) invalid
    let above : ℕ = elim parent [ none ↦ thread | some p ↦ p ]
    obj ← make_body node (reply thread above) content nonce
    let here : Result (Node × Threads × Post) = do
      done ← accept node t obj node.id none
      ok (done.0, done.1, obj)
    let away : Result (Node × Threads × Post) = do
      node' ← enqueue node host thread_post obj.id ttl
      ok (node', t, obj)
    if host == node.id then here else away

-- `retire_thread`, with the trigger `post_storage_delete` of agentmesh/message_work.py: the posts of
-- the thread, for which a row of `message_storage` is no longer kept
unfoldable pub is_retired : Threads → ℕ → ℕ → Bool
is_retired t thread id = has id (keep_rows (λ _ p. p.thread == thread) t.posts)

unfoldable pub retire_thread : Node → Threads → ℕ → Result (Node × Threads)
unfolding is_retired
retire_thread node t thread = do
  capability node Capability.threads
  capability node Capability.retain
  guard (valid_id thread) invalid
  ok (
    record node { storage = keep_rows (λ id _. not (is_retired t thread id)) node.storage },
    record t {
      posts = keep_rows (λ _ p. not (p.thread == thread)) t.posts;
      threads = delete thread t.threads;
    },
  )
