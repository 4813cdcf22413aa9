-- ===== src/Bootstrap.antt =====
-- agentmesh/bootstrap.py: announcements, and the directory that a seed keeps of them.
--
-- `Outside` holds what the libraries say of certificates and of numeric addresses. A `Directory` is
-- a seed's database with the mailbox of its `Rendezvous`; its lock makes each operation one step,
-- and the defense, which has a database of its own, is passed beside it.
pub mod Dispatch
pub mod Client
pub mod Steps
pub mod Removed
pub mod Suppressed
pub mod Kept
pub mod Once
use intertexum.Prelude.{
  ℕ, ◌+◌, Bool, true, false, not, ◌&&◌, ◌||◌, ◌==◌, leb, ltb, keep, length, List, [], ◌∷◌, map,
  Option, none, some, Table, lookup, has, delete, replace, insert_new, keep_rows, Result, ok, err,
  invalid, denied, guard, ◌>>=◌, ◌>>◌, if◌then◌else◌, String, str_eq,
}
use intertexum.Crypto.{
  Env, Signed, Card, AnnouncementBody, RemovalBody, RemovalReceiptBody, of_announcement,
  of_removal_receipt, sign, verify, certificate, public_id, valid_id,
}
use intertexum.State.{Node}
use intertexum.Work.{between, same_id}
use intertexum.Ticketing.{Challenge, Sealed, Issuer, verify as verify_ticket}
use intertexum.Defense.{Defense, audit, blocked, consume, limit_minute, erase_routine}
use intertexum.Onboarding.{Profile, membership}
use intertexum.Rendezvous.{Mailbox, purge as purge_signals, remove}
use intertexum.Erasure.{validate}

pub record Outside : Type 0 where
  -- whether a certificate is valid at a time
  pub is_current : ℕ → ℕ → Bool
  -- a numeric address that the policy allows; the flag is that of a public seed
  pub is_allowed : Bool → List ℕ → Bool
  pub address : List ℕ → ℕ
  -- whether a range of addresses contains one
  pub contains : ℕ → ℕ → Bool
  -- the authenticator and the hash of the admission work, and that of memberships
  pub mac_of : ℕ → Challenge → ℕ
  pub work_hash : Sealed → ℕ → ℕ
  pub hmac : ℕ → AnnouncementBody → ℕ

abbrev pub Announcement : Type 0
Announcement = Signed AnnouncementBody

-- a row of `announcements`
pub record Announced : Type 0 where
  pub issued : ℕ
  pub expires : ℕ
  pub wire : Announcement

-- a row of `removals`
pub record Removal : Type 0 where
  pub request_id : ℕ
  pub received : ℕ
  pub clear_at : ℕ
  pub suppress_until : ℕ
  pub cleared : Bool

pub record Directory : Type 0 where
  -- the node of the seed, with its clock
  pub node : Node
  pub network : String
  pub public : Bool
  pub issuer : Issuer
  pub announcements : Table Announced
  -- the salts of `spent`, with their expiry
  pub spent : Table ℕ
  pub removals : Table Removal
  pub mailbox : Mailbox

-- the equality of two canonical announcements, field by field
unfoldable pub same_text : List ℕ → List ℕ → Bool
same_text [] [] = true
same_text (x ∷ xs) (y ∷ ys) = x == y && same_text xs ys
same_text _ _ = false

unfoldable pub same_announcement : Announcement → Announcement → Bool
unfolding same_text
same_announcement x y =
    (x.id == y.id && x.sig == y.sig)
    && str_eq x.body.network y.body.network
    && (x.body.card.id == y.body.card.id && x.body.card.certificate == y.body.card.certificate)
    && (same_text x.body.card.host y.body.card.host && x.body.card.port == y.body.card.port)
    && (x.body.issued == y.body.issued && x.body.expires == y.body.expires)
    && same_id x.body.membership y.body.membership

module _ (env : Env) (out : Outside) where
  -- `validate_card`; it returns the key of the certificate
  unfoldable pub validate_card : ℕ → Card → Bool → Result ℕ
  validate_card now card public = do
    key ← certificate env card.certificate
    guard (public_id env key == card.id) invalid
    guard (out.is_current card.certificate now) invalid
    guard (between 1 65535 card.port) invalid
    guard (out.is_allowed public card.host) invalid
    ok key

  -- `announcement`
  unfoldable pub announcement :
      Node → Option Profile → List ℕ → ℕ → String → ℕ → Result Announcement
  announcement node profile host port network ttl = do
    guard (between 1 3600 ttl) invalid
    let body : AnnouncementBody = record {
      network = network;
      card = record { id = node.id; certificate = node.certificate; host = host; port = port };
      issued = node.now;
      expires = node.now + ttl;
      membership = none;
    }
    let proved = record body { membership = membership out.hmac profile body }
    ok (sign env of_announcement node.key proved)

  -- the tests of `check_announcement` on a body
  unfoldable pub valid_times : ℕ → AnnouncementBody → Bool
  valid_times now b =
      (ltb b.issued b.expires && leb b.expires (b.issued + 3600))
      && leb b.issued (now + 30)
      && (ltb now b.expires && leb b.expires (now + 3630))
      && (elim b.membership [ none ↦ true | some proof ↦ valid_id proof ])

  -- `check_announcement`
  unfoldable pub check_announcement : ℕ → String → Bool → Announcement → Result AnnouncementBody
  unfolding validate_card valid_times
  check_announcement now network public obj = do
    guard (leb (env.wire_size (of_announcement obj.body)) 8192) invalid
    guard (str_eq obj.body.network network) invalid
    guard (valid_times now obj.body) invalid
    key ← validate_card now obj.body.card public
    verify env of_announcement obj key

-- `purge`: what is due is cleared, and what is over goes
abbrev pub is_due : ℕ → Removal → Bool
is_due now r = leb r.clear_at now && not r.cleared

abbrev pub cleared_at : ℕ → Removal → Removal
cleared_at now r = if is_due now r then record r { cleared = true } else r

abbrev pub stays : ℕ → Removal → Bool
stays now r = not (leb r.suppress_until now && r.cleared)

unfoldable pub erase_all : Defense → Table Removal → Defense
erase_all d [] = d
erase_all d ((peer, _) ∷ rest) = erase_all (erase_routine d peer) rest

unfoldable pub purge : Directory → Defense → Directory × Defense
unfolding erase_all
purge dir d =
    let now = dir.node.now in
    let due = keep_rows (λ _ r. is_due now r) dir.removals in
    (
      record dir {
        mailbox = purge_signals now dir.mailbox;
        announcements = keep_rows (λ p a. not (has p due) && ltb now a.expires) dir.announcements;
        removals =
            keep_rows (λ _ r. stays now r) (map (λ x. (x.0, cleared_at now x.1)) dir.removals);
        spent = keep_rows (λ _ t. ltb now t) dir.spent;
      },
      erase_all d due,
    )

-- the row that `deregister` finds or makes
unfoldable pub schedule :
    Directory → RemovalBody → ℕ → Option Removal → Result (Directory × Removal)
schedule dir b id (some old) = ok (dir, old)
schedule dir b id none =
    let now = dir.node.now in
    let done : Removal = record {
      request_id = id;
      received = now;
      clear_at = now;
      suppress_until = now;
      cleared = true;
    } in
    let planned : Removal = record {
      request_id = id;
      received = now;
      clear_at = now + 60;
      suppress_until = now + 3630;
      cleared = false;
    } in
    let queued : Result (Directory × Removal) = do
      guard (ltb (length dir.removals) 10000) denied
      ok (record dir { removals = insert_new b.peer planned dir.removals }, planned)
    in if has b.peer dir.announcements then queued else ok (dir, done)

module _ (env : Env) where
  unfoldable pub removal_receipt : Directory → RemovalBody → ℕ → Removal → Signed RemovalReceiptBody
  removal_receipt dir b id old = sign env of_removal_receipt dir.node.key (record {
    seed = dir.node.id;
    network = dir.network;
    peer = b.peer;
    request_id = id;
    original_request_id = old.request_id;
    accepted_at = old.received;
    clear_at = old.clear_at;
    suppression_until = old.suppress_until;
    cleared = old.cleared;
  })

  unfoldable pub settle_removal :
      Directory
      → Defense
      → RemovalBody
      → ℕ
      → Result (Directory × Removal)
      → Directory × Defense × Result (Signed RemovalReceiptBody)
  unfolding removal_receipt
  settle_removal dir d b id (err e) = (dir, d, err e)
  settle_removal dir d b id (ok (dir', old)) = (
    dir',
    (if old.cleared then erase_routine d b.peer else d),
    ok (removal_receipt dir' b id old),
  )

  unfoldable pub deregister_valid :
      Directory
      → Defense
      → ℕ
      → Result RemovalBody
      → Directory × Defense × Result (Signed RemovalReceiptBody)
  unfolding settle_removal schedule purge
  deregister_valid dir d id (err e) = (dir, d, err e)
  deregister_valid dir d id (ok b) =
      let (purged, d') = purge (record dir { mailbox = remove b.peer dir.mailbox }) d in
      settle_removal purged d' b id (schedule purged b id (lookup b.peer purged.removals))

  -- `deregister`
  unfoldable pub deregister :
      Directory
      → Defense
      → Signed RemovalBody
      → Directory × Defense × Result (Signed RemovalReceiptBody)
  unfolding deregister_valid
  deregister dir d obj =
      deregister_valid dir d obj.id (validate env dir.node.id dir.network dir.node.now obj)

-- `forget`
unfoldable pub forget : Directory → Defense → ℕ → Result (Directory × Defense)
forget dir d peer = do
  guard (valid_id peer) invalid
  ok (
    record dir { announcements = delete peer dir.announcements },
    audit d "directory_forget" (some peer),
  )

-- whether an announcement advances the stored one, or finds room where there is none
unfoldable pub may_replace : Table Announced → Announcement → Option Announced → Result (Unit {0})
unfolding same_announcement
may_replace rows obj none = guard (ltb (length rows) 1000) denied
may_replace rows obj (some old) =
    guard
      (not (
        ltb obj.body.issued old.issued
        || (obj.body.issued == old.issued && not (same_announcement obj old.wire))))
      denied

module _ (env : Env) (out : Outside) where
  -- the tests before the transaction of `register`: the salt of the ticket and its expiry
  unfoldable pub check_registration :
      Directory → Defense → Announcement → Sealed → ℕ → Result (ℕ × ℕ)
  check_registration dir d obj ticket nonce = do
    guard (leb (env.wire_size (of_announcement obj.body)) 8192) invalid
    let peer = obj.body.card.id
    spending ←
        verify_ticket out.mac_of out.work_hash dir.issuer ticket nonce peer obj.id dir.node.now
    b ← check_announcement env out dir.node.now dir.network dir.public obj
    guard (not (blocked out.contains d (some (out.address b.card.host)) (some peer))) denied
    ok spending

  -- the tests of the transaction before the limit on the peer
  unfoldable pub may_register : Directory → Announcement → Result (ℕ × ℕ) → Result (ℕ × ℕ)
  may_register dir obj (err e) = err e
  may_register dir obj (ok (salt, expires)) = do
    guard (not (has obj.body.card.id dir.removals)) denied
    guard (not (has salt (keep_rows (λ _ t. ltb dir.node.now t) dir.spent))) denied
    ok (salt, expires)

  -- the writes of the transaction
  unfoldable pub store_announcement : Directory → Announcement → ℕ → ℕ → Bool → Result Directory
  unfolding may_replace
  store_announcement dir obj salt expires allowed = do
    guard allowed denied
    let now = dir.node.now
    let peer = obj.body.card.id
    let rows = keep_rows (λ _ a. ltb now a.expires) dir.announcements
    let spent = keep_rows (λ _ t. ltb now t) dir.spent
    may_replace rows obj (lookup peer rows)
    guard (ltb (length spent) 10000) denied
    let row : Announced = record {
      issued = obj.body.issued;
      expires = obj.body.expires;
      wire = obj;
    }
    ok (record dir { spent = insert_new salt expires spent; announcements = replace peer row rows })

  unfoldable pub note_registration :
      Directory → Defense → Announcement → Result Directory → Directory × Defense × Result ℕ
  note_registration dir d obj (err e) = (dir, d, err e)
  note_registration dir d obj (ok dir') =
      (dir', audit d "registration" (some obj.body.card.id), ok obj.body.expires)

  -- the limit is charged whatever comes behind it
  unfoldable pub register_paid :
      Directory → Defense → Announcement → Result (ℕ × ℕ) → Directory × Defense × Result ℕ
  unfolding store_announcement note_registration
  register_paid dir d obj (err e) = (dir, d, err e)
  register_paid dir d obj (ok (salt, expires)) =
      let (d', allowed) = consume d (limit_minute 20 obj.body.card.id 1 2 ∷ []) in
      note_registration dir d' obj (store_announcement dir obj salt expires allowed)

  -- `register`; it returns the expiry of the announcement
  unfoldable pub register :
      Directory → Defense → Announcement → Sealed → ℕ → Directory × Defense × Result ℕ
  unfolding check_registration may_register register_paid
  register dir d obj ticket nonce =
      register_paid dir d obj (may_register dir obj (check_registration dir d obj ticket nonce))
