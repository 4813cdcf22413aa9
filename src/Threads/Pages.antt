-- ===== src/Threads/Pages.antt =====
-- agentmesh/conversations.py: `page`, which a host serves, and `read`, which checks the page of another.
pub mod Whole
use intertexum.Prelude.{
  ℕ, ◌+◌, ◌-◌, ◌*◌, ◌^◌, Bool, true, false, not, ◌&&◌, ◌||◌, ◌==◌, leb, ltb, all, keep, take,
  length, List, [], ◌∷◌, map, Option, none, some, keep_rows, Result, ok, err, invalid, denied,
  guard, ◌>>=◌, ◌>>◌, if◌then◌else◌, is_ok,
}
use intertexum.Crypto.{Env, Reader, named, PostBody, PostKind, root, reply, valid_id}
use intertexum.Records.{is_public, includes}
use intertexum.State.{Capability, Node}
use intertexum.Policy.{capability, require_source, allowed, authors, senders, is_none}
use intertexum.Node.Peers.{require, reading}
use intertexum.Work.{between}
use intertexum.Work.Outbound.{reply_info}
use intertexum.Threads.{Post, Root, Stored, Threads, audience_of, root_of, access, checked}

-- the arguments of a page
pub record Filters : Type 0 where
  pub thread : Option ℕ
  pub after : ℕ
  pub since_ms : ℕ
  pub until_ms : ℕ
  pub limit : ℕ

-- a row that a page may show; a root has no time of receipt
pub record Row : Type 0 where
  pub seq : ℕ
  pub received : Option ℕ
  pub wire : Post

pub record Entry : Type 0 where
  pub object : Post
  pub cursor : ℕ
  pub received_ms : Option ℕ
  pub reply_offer : Option (ℕ × ℕ)

pub record Page : Type 0 where
  pub root : Option Post
  pub items : List Entry
  pub next : Option ℕ

-- the size of the canonical JSON
pub record Sizes : Type 0 where
  pub of_root : Option Post → ℕ
  pub of_entry : Entry → ℕ

abbrev pub page_bytes : ℕ
page_bytes = 512 * 1024

unfoldable pub valid_filters : Filters → Bool
valid_filters f =
    ltb f.after (2 ^ 63)
    && ltb f.since_ms (2 ^ 63)
    && ltb f.until_ms (2 ^ 63)
    && between 1 100 f.limit
    && leb f.since_ms f.until_ms

-- the rows that the two queries select, without their limit
abbrev pub is_asked_post : Filters → ℕ → Stored → Bool
is_asked_post f thread p =
    ltb f.after p.seq
    && (p.thread == thread && leb f.since_ms p.received && leb p.received f.until_ms)

abbrev pub of_post_row : ℕ × Stored → Row
of_post_row (_, p) = record { seq = p.seq; received = some p.received; wire = p.wire }

abbrev pub of_root_row : ℕ × Root → Row
of_root_row (_, r) = record { seq = r.seq; received = none; wire = r.wire }

unfoldable pub rows_of : Threads → Filters → Option ℕ → List Row
rows_of t f (some thread) = map of_post_row (keep (λ x. is_asked_post f thread x.1) t.posts)
rows_of t f none = map of_root_row (keep (λ x. ltb f.after x.1.seq) t.threads)

module _ (node : Node) (requester : ℕ) (f : Filters) where
  -- the root of the thread that is asked for, where the requester may read it
  unfoldable pub page_root : Threads → Option ℕ → Result (Option Post)
  unfolding root_of
  page_root t none = do
    if requester == node.id then ok tt else require node requester reading
    ok none
  page_root t (some thread) = do
    guard (valid_id thread) invalid
    host ← root_of t thread
    access node host.wire.body requester
    if requester == node.id then require_source node authors host.wire.body.origin else ok tt
    ok (some host.wire)

  -- whether a row goes into the page
  unfoldable pub is_shown : Row → Bool
  is_shown row =
      (not (requester == node.id)
        || (allowed node authors row.wire.body.origin && allowed node senders row.wire.body.origin))
      && (not (is_none f.thread)
          || (is_ok (access node row.wire.body requester)
              && leb f.since_ms row.wire.body.created_ms
              && leb row.wire.body.created_ms f.until_ms))

  unfoldable pub entry_of : Row → Entry
  entry_of row = record {
    object = row.wire;
    cursor = row.seq;
    received_ms = row.received;
    reply_offer = if requester == node.id then reply_info node row.wire.id else none;
  }

  -- the loop over the rows: the entries, and the cursor behind the last row that was looked at
  unfoldable pub fill : Sizes → List Row → ℕ → ℕ → List Entry × ℕ
  unfolding is_shown entry_of
  fill sizes [] size cursor = ([], cursor)
  fill sizes (row ∷ rest) size cursor =
      let e = entry_of row in
      let cost = sizes.of_entry e in
      let passed = fill sizes rest size row.seq in
      let onward = fill sizes rest (size + cost) row.seq in
      if not (is_shown row)
      then passed
      else if ltb page_bytes (size + cost)
      then ([], cursor)
      else (e ∷ onward.0, onward.1)

-- `rows[-1]['seq']`
unfoldable pub last_seq : ℕ → List Row → ℕ
last_seq seq [] = seq
last_seq seq (row ∷ rest) = last_seq row.seq rest

unfoldable pub next_cursor : List Row → ℕ → ℕ → Option ℕ
unfolding last_seq
next_cursor [] limit cursor = none
next_cursor (row ∷ rest) limit cursor =
    if ltb limit (length (row ∷ rest)) || ltb cursor (last_seq row.seq rest)
    then some cursor
    else none

-- `page`
unfoldable pub page : Sizes → Node → Threads → ℕ → Filters → Result Page
unfolding valid_filters page_root rows_of fill next_cursor
page sizes node t requester f = do
  capability node Capability.threads
  guard (valid_filters f) invalid
  host ← page_root node requester f t f.thread
  let rows = take (f.limit + 1) (rows_of t f f.thread)
  let filled = fill node requester f sizes (take f.limit rows) (sizes.of_root host) f.after
  ok (record { root = host; items = filled.0; next = next_cursor rows f.limit filled.1 })

module _ (env : Env) (node : Node) (host : ℕ) where
  abbrev pub may_see : List Reader → Bool
  may_see audience = is_public audience || includes audience (named node.id)

  -- the root that another host sends, for the thread that was asked for
  unfoldable pub check_root : ℕ → Post → Result (Unit {0})
  check_root thread obj = do
    guard (obj.id == thread) invalid
    body ← checked env node obj
    guard (body.origin == host) invalid
    elim body.kind [ root audience ↦ guard (may_see audience) denied | reply _ _ ↦ err invalid ]

  unfoldable pub check_answer : Option Post → Option ℕ → Result (Unit {0})
  unfolding check_root
  check_answer host_root none = ok tt
  check_answer none (some thread) = err invalid
  check_answer (some obj) (some thread) = check_root thread obj

  -- the author of a reply, under the root that came with it
  unfoldable pub check_author : PostKind → ℕ → Result (Unit {0})
  check_author (root audience) author =
      guard (is_public audience || includes audience (named author) || author == host) denied
  check_author (reply thread parent) author = err invalid

  -- one entry of the page
  unfoldable pub check_entry : Option Post → PostBody → PostKind → Result (Unit {0})
  unfolding check_author
  check_entry none body (root audience) = guard (body.origin == host && may_see audience) invalid
  check_entry none body (reply thread parent) = err invalid
  check_entry (some obj) body (root audience) = err invalid
  check_entry (some obj) body (reply thread parent) =
      guard (thread == obj.id) invalid >> check_author obj.body.kind body.origin

  unfoldable pub check_entries : Option Post → List Entry → Result (Unit {0})
  unfolding check_entry
  check_entries host_root [] = ok tt
  check_entries host_root (e ∷ rest) =
      let others = check_entries host_root rest in
      do body ← checked env node e.object; check_entry host_root body body.kind; others

  -- `read`; `answer` is that of the network client
  unfoldable pub read : Sizes → Threads → Filters → Result Page → Result Page
  unfolding page check_answer check_entries
  read sizes t f answer = do
    capability node Capability.threads
    let remote : Result Page = do
      p ← answer
      check_answer p.root f.thread
      check_entries p.root p.items
      ok p
    if host == node.id then page sizes node t node.id f else remote
