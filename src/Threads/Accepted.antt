-- ===== src/Threads/Accepted.antt =====
-- agentmesh/conversations.py: the replies that a host accepts.
use intertexum.Prelude.{
  ℕ, ◌+◌, ◌≡◌, ◌∙◌, refl, sym, ap, true, ◌&&◌, ◌==◌, leb, length, Option, none, some, lookup, has,
  insert_new, ltb, ==_iff, has-insert_new, ok, invalid, denied, arith, Bool-cases, inl, inr,
  >>=-eq-ok, guard-eq-ok,
}
use mathlib.Core.Path.{subst}
use intertexum.Crypto.{
  Env, PostBody, PostKind, root, reply, of_post, certificate, verify, public_id,
}
use intertexum.State.{Node, Capability}
use intertexum.Policy.{capability, require_source, senders}
use intertexum.Records.{check_text}
use intertexum.Work.{Proof}
use intertexum.Threads.{
  Post, Root, Stored, Threads, audience_of, found_root, root_of, access, may_write, hangs,
  check_kind, checked, check_pin, may_answer, insert_post, pay_post, accept_kind, accept, now_ms,
  max_posts,
}

-- A reply that stands: signed with the key of its certificate, whose identity is the sender's, under
-- a thread of the host that the sender may read and write, below the root or a post of it.
pub record IsAnswer (env : Env) (node : Node) (t : Threads) (obj : Post) (requester : ℕ)
    : Type 0 where
  pub thread : ℕ
  pub parent : ℕ
  pub is_reply : obj.body.kind ≡ reply thread parent
  pub key : ℕ
  pub certified : certificate env obj.body.certificate ≡ ok key
  pub signed : env.verify_sig key obj.sig (of_post obj.body) ≡ true
  pub identity : public_id env key ≡ requester
  pub host : Root
  pub here : lookup thread t.threads ≡ some host
  pub readable : access node host.wire.body requester ≡ ok tt
  pub writable : may_write node (audience_of host.wire.body.kind) requester ≡ ok tt
  pub below : hangs t thread parent ≡ true

checked_lem :
    (env : Env) (node : Node) (obj : Post) (b : PostBody)
    → checked env node obj ≡ ok b
    → (key : ℕ) × (certificate env obj.body.certificate ≡ ok key)
      × (env.verify_sig key obj.sig (of_post obj.body) ≡ true)
      × (obj.body.origin ≡ public_id env key)
      × (obj.body ≡ b)
unfolding checked verify
checked_lem env node obj b e =
    let (key, c, e1) = >>=-eq-ok (certificate env obj.body.certificate) _ e in
    let (body, v, e2) = >>=-eq-ok (verify env of_post obj key) _ e1 in
    let (same, e3) =
      guard-eq-ok (body.origin == public_id env key && body.version == 1) invalid _ e2 in
    let (_, e4) = guard-eq-ok (leb body.created_ms (now_ms node + 300000)) invalid _ e3 in
    let (_, e5) = guard-eq-ok (length body.nonce == 32) invalid _ e4 in
    let (_, _, e6) = >>=-eq-ok (check_text env body.text) _ e5 in
    let (_, _, e7) = >>=-eq-ok (check_kind body.kind) _ e6 in
    let own : obj.body ≡ body = ground arith in
    (key, c, ground arith, rw own (ground arith), own ∙ cc e7)

found_root_lem : (o : Option Root) (host : Root) → found_root o ≡ ok host → o ≡ some host
unfolding found_root
found_root_lem none host e = cc
found_root_lem (some row) host e = cc e

may_answer_lem :
    (env : Env) (node : Node) (t : Threads) (thread parent requester : ℕ)
    → may_answer env node t thread parent requester ≡ ok tt
    → (host : Root) × (lookup thread t.threads ≡ some host)
      × (access node host.wire.body requester ≡ ok tt)
      × (may_write node (audience_of host.wire.body.kind) requester ≡ ok tt)
      × (hangs t thread parent ≡ true)
unfolding may_answer root_of
may_answer_lem env node t thread parent requester e =
    let (host, r, e1) = >>=-eq-ok (found_root (lookup thread t.threads)) _ e in
    let (_, a, e2) = >>=-eq-ok (access node host.wire.body requester) _ e1 in
    let (_, w, e3) = >>=-eq-ok (may_write node (audience_of host.wire.body.kind) requester) _ e2 in
    (host, found_root_lem (lookup thread t.threads) host r, a, w, ground arith)

-- what `insert_post` leaves
insert_post_lem :
    (env : Env) (node node' : Node) (t t' : Threads) (obj : Post) (thread requester : ℕ)
    (admission : Option Proof)
    → insert_post env node t obj thread requester admission ≡ ok (node', t')
    → (t'.threads ≡ t.threads) × (has obj.id t'.posts ≡ true)
unfolding insert_post
insert_post_lem env node node' t t' obj thread requester admission e =
    let (_, e1) = guard-eq-ok (ltb (length t.posts) max_posts) denied _ e in
    let (paid, _, e2) = >>=-eq-ok (pay_post env node obj requester admission) _ e1 in
    let row : Stored = record {
      seq = t.post_seq + 1;
      thread = thread;
      received = now_ms node;
      wire = obj;
    } in
    let same : record t { post_seq = t.post_seq + 1; posts = insert_new obj.id row t.posts } ≡ t' =
      cc e2 in
    subst (λ (x : Threads). (x.threads ≡ t.threads) × (has obj.id x.posts ≡ true)) same
      (refl, has-insert_new obj.id row t.posts)

accept_kind_lem :
    (env : Env) (node node' : Node) (t t' : Threads) (obj : Post) (kind : PostKind) (requester : ℕ)
    (admission : Option Proof)
    → accept_kind env node t obj kind requester admission ≡ ok (node', t')
    → (thread : ℕ) × (parent : ℕ) × (kind ≡ reply thread parent)
      × (obj.body.origin ≡ requester)
      × (may_answer env node t thread parent requester ≡ ok tt)
      × (t'.threads ≡ t.threads)
      × (has obj.id t'.posts ≡ true)
unfolding accept_kind
accept_kind_lem env node node' t t' obj (root audience) requester admission e = cc
accept_kind_lem env node node' t t' obj (reply thread parent) requester admission e =
    let (own, e1) = guard-eq-ok (obj.body.origin == requester) invalid _ e in
    let (_, _, e2) = >>=-eq-ok (check_pin env node requester) _ e1 in
    let (_, may, e3) = >>=-eq-ok (may_answer env node t thread parent requester) _ e2 in
    let stands : (t'.threads ≡ t.threads) × (has obj.id t'.posts ≡ true) =
      elim (Bool-cases (has obj.id t.posts)) [
        | inl old ↦
            let same : t ≡ t' = cc (rw old at e3) in
            subst (λ (x : Threads). (x.threads ≡ t.threads) × (has obj.id x.posts ≡ true)) same
              (refl, old)
        | inr new ↦
            insert_post_lem env node node' t t' obj thread requester admission (rw new at e3)
      ] in
    (thread, parent, refl, (==_iff obj.body.origin requester).0 own, may, stands.0, stands.1)

-- A post that is accepted, the first time or again, is a reply signed with the key of the sender's
-- identity, under a thread of the host that the sender may read and write, below its root or one of
-- its posts; the threads stay, and the post stands among them.
pub accept-IsAnswer :
    (env : Env) (node node' : Node) (t t' : Threads) (obj : Post) (requester : ℕ)
    (admission : Option Proof)
    → accept env node t obj requester admission ≡ ok (node', t')
    → IsAnswer env node t obj requester × (t'.threads ≡ t.threads) × (has obj.id t'.posts ≡ true)
unfolding accept
accept-IsAnswer env node node' t t' obj requester admission e =
    let (_, _, e1) = >>=-eq-ok (capability node Capability.threads) _ e in
    let (_, _, e2) = >>=-eq-ok (capability node Capability.receive) _ e1 in
    let (_, _, e3) = >>=-eq-ok (require_source node senders requester) _ e2 in
    let (b, c, e4) = >>=-eq-ok (checked env node obj) _ e3 in
    let (key, certified, signed, own, same) = checked_lem env node obj b c in
    let (thread, parent, kind, sender, may, kept, stands) =
      accept_kind_lem env node node' t t' obj b.kind requester admission e4 in
    let (host, here, readable, writable, below) =
      may_answer_lem env node t thread parent requester may in
    (
      record {
        thread = thread;
        parent = parent;
        is_reply = ap (λ (x : PostBody). x.kind) same ∙ kind;
        key = key;
        certified = certified;
        signed = signed;
        identity = sym own ∙ sender;
        host = host;
        here = here;
        readable = readable;
        writable = writable;
        below = below;
      },
      kept,
      stands,
    )
