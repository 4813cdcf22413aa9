-- ===== src/Bootstrap/Dispatch.antt =====
-- The requests that a seed answers: `Directory.dispatch` of agentmesh/bootstrap.py and
-- `Rendezvous.call` of agentmesh/rendezvous.py.
use intertexum.Prelude.{
  ℕ, Bool, true, false, not, ◌&&◌, ◌==◌, leb, ltb, all, keep, take, length, List, [], ◌∷◌, map,
  Option, none, some, Table, lookup, has, keep_rows, by_key, Result, ok, err, invalid, denied,
  guard, ◌>>◌, if◌then◌else◌, String,
}
use intertexum.Crypto.{
  Env, Signed, Signal, observe, probe, poll, send_offer, send_answer, SignalBody, RemovalBody,
  RemovalReceiptBody, valid_id,
}
use intertexum.State.{one_peer}
use intertexum.Defense.{Defense, blocked, consume, failure, limit, limit_minute}
use intertexum.Ticketing.{Sealed, issue}
use intertexum.Rendezvous.{purge, taken, without, valid_session, post_signal, validate}
use intertexum.Bootstrap.{Outside, Announcement, Announced, Directory, register, deregister}

-- what `discover` answers
pub record Found : Type 0 where
  pub announcements : List Announcement
  pub next : Option ℕ
  pub network : String

abbrev pub is_behind : Option ℕ → ℕ → Bool
is_behind none peer = true
is_behind (some after) peer = ltb after peer

-- the rows of the query of `discover`, without its limit
unfoldable pub listed : Directory → Option ℕ → Table Announced
listed dir after = by_key (
    keep_rows (λ p a. is_behind after p && ltb dir.node.now a.expires && not (has p dir.removals))
      dir.announcements)

abbrev pub last_key {ℓ} : {A : Type ℓ} → Table A → Option ℕ
last_key [] = none
last_key ((k, _) ∷ []) = some k
last_key (_ ∷ x ∷ rest) = last_key (x ∷ rest)

unfoldable pub discover : Outside → Directory → Defense → Option ℕ → Result Found
unfolding listed
discover out dir d after = do
  guard (elim after [ none ↦ true | some id ↦ valid_id id ]) invalid
  let rows = take 51 (listed dir after)
  let shown = take 50 rows
  ok (record {
    announcements =
        keep
          (λ obj. not (
            blocked out.contains d (some (out.address obj.body.card.host)) (some obj.body.card.id)))
          (map (λ x. x.1.wire) shown);
    next = if ltb 50 (length rows) then last_key shown else none;
    network = dir.network;
  })

pub data Answer : Type 0 where
  observed : (source : ℕ) → Answer
  probed : (reachable : Bool) (source port : ℕ) → Answer
  mail : List (Signed SignalBody) → Answer
  queued : Answer

abbrev pub Called : Type 0
Called = Directory × Defense × Result Answer

-- a live registration that is not being removed
unfoldable pub registered : Directory → ℕ → Option Announced → Option Announced
registered dir peer none = none
registered dir peer (some row) =
    if ltb dir.node.now row.expires && not (has peer dir.removals) then some row else none

-- `reaches` is whether a connection to that address and port comes about
module _ (out : Outside) (reaches : ℕ → ℕ → Bool) where
  unfoldable pub probe_allowed : Directory → Defense × Bool → ℕ → ℕ → Called
  probe_allowed dir (d, allowed) source port =
      (dir, d, (if allowed then ok (probed (reaches source port) source port) else err denied))

  unfoldable pub queue_signal : Directory → Defense → Result (Table (Signed SignalBody)) → Called
  queue_signal dir d (err e) = (dir, d, err e)
  queue_signal dir d (ok box) = (record dir { mailbox = box }, d, ok queued)

  -- the actions of a registered peer
  unfoldable pub act : Directory → Defense → Announced → Signed SignalBody → Signal → ℕ → Called
  unfolding probe_allowed queue_signal
  act dir d row obj observe source = (dir, d, err invalid)
  act dir d row obj (probe port) source =
      let spent = consume d (limit 22 0 2 2 ∷ limit_minute 23 obj.body.origin 1 1 ∷ []) in
      if port == row.wire.body.card.port && leb 1024 port
      then probe_allowed dir spent source port
      else (dir, d, err invalid)
  act dir d row obj (poll answers offers) source =
      let found = taken obj.body.origin answers offers dir.mailbox in
      if leb (length answers) 8 && all valid_id answers
      then (record dir { mailbox = without found dir.mailbox }, d, ok (mail (map (λ x. x.1) found)))
      else (dir, d, err invalid)
  act dir d row obj (send_offer to session generation sdp) source =
      queue_signal dir d
        (guard (valid_session to session generation sdp) invalid >> post_signal dir.mailbox obj)
  act dir d row obj (send_answer to session generation sdp) source =
      queue_signal dir d
        (guard (valid_session to session generation sdp) invalid >> post_signal dir.mailbox obj)

  unfoldable pub call_registered :
      Directory → Defense → Option Announced → Signed SignalBody → ℕ → Called
  unfolding act
  call_registered dir d none obj source = (dir, d, err denied)
  call_registered dir d (some row) obj source =
      act (record dir { mailbox = purge dir.node.now dir.mailbox }) d row obj obj.body.signal source

  -- a caller may learn its own address before it registers
  unfoldable pub call_allowed : Directory → Defense → Signed SignalBody → Signal → ℕ → Called
  unfolding call_registered registered
  call_allowed dir d obj observe source = (dir, d, ok (observed source))
  call_allowed dir d obj signal source =
      let origin = obj.body.origin in
      call_registered dir d (registered dir origin (lookup origin dir.announcements)) obj source

  unfoldable pub call_limited : Directory → Defense × Bool → Signed SignalBody → ℕ → Called
  unfolding call_allowed
  call_limited dir (d, false) obj source =
      (dir, failure d (one_peer obj.body.origin) "signaling_rate", err denied)
  call_limited dir (d, true) obj source = call_allowed dir d obj obj.body.signal source

  unfoldable pub call_valid :
      Directory → Defense → Signed SignalBody → Result SignalBody → ℕ → Called
  unfolding call_limited
  call_valid dir d obj (err e) source = (dir, d, err e)
  call_valid dir d obj (ok b) source =
      let spent = consume d (limit 21 b.origin 20 8 ∷ []) in
      if blocked out.contains d (some source) (some b.origin)
      then (dir, d, err denied)
      else call_limited dir spent obj source

  -- `Rendezvous.call`
  unfoldable pub call : Env → Directory → Defense → Signed SignalBody → ℕ → Called
  unfolding call_valid
  call env dir d obj source =
      call_valid dir d obj (validate env dir.node.id dir.network dir.node.now obj) source

-- the requests with their arguments, and the answers to them
pub data Request : Type 0 where
  connectivity : Signed SignalBody → Request
  challenge : (peer payload : ℕ) → Request
  register_with : Announcement → (ticket : Sealed) (nonce : ℕ) → Request
  deregister_with : Signed RemovalBody → Request
  discover_from : Option ℕ → Request

pub data Response : Type 0 where
  signal_answer : Answer → Response
  ticket_of : Sealed → Response
  registered_until : ℕ → Response
  receipt_of : Signed RemovalReceiptBody → Response
  page_of : Found → Response

abbrev pub answer_with {ℓ} : {A : Type ℓ} → (A → Response) → Result A → Result Response
answer_with f (err e) = err e
answer_with f (ok x) = ok (f x)

-- `dispatch`; `salt` is drawn by `secrets`
unfoldable pub dispatch :
    Env
    → Outside
    → (ℕ → ℕ → Bool)
    → Directory
    → Defense
    → Request
    → ℕ
    → ℕ
    → Directory × Defense × Result Response
unfolding call discover
dispatch env out reaches dir d (connectivity obj) source salt =
    let (dir', d', r) = call out reaches env dir d obj source in
    (dir', d', answer_with signal_answer r)
dispatch env out reaches dir d (challenge peer payload) source salt = (
  dir,
  d,
  answer_with ticket_of (issue out.mac_of out.work_hash dir.issuer peer payload dir.node.now salt),
)
dispatch env out reaches dir d (register_with obj ticket nonce) source salt =
    let (dir', d', r) = register env out dir d obj ticket nonce in
    (dir', d', answer_with registered_until r)
dispatch env out reaches dir d (deregister_with obj) source salt =
    let (dir', d', r) = deregister env dir d obj in (dir', d', answer_with receipt_of r)
dispatch env out reaches dir d (discover_from after) source salt =
    (dir, d, answer_with page_of (discover out dir d after))
