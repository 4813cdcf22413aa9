-- ===== src/Bootstrap/Steps.antt =====
-- The steps of a seed's directory, agentmesh/bootstrap.py: requests, purges, the owner and time.
use intertexum.Prelude.{
  ℕ, ◌≤◌, ◌≡◌, ◌∙◌, refl, Bool, true, false, ◌&&◌, ◌==◌, leb, all, length, [], ◌∷◌, Option, none,
  some, Table, Result, ok, err, invalid, guard, if◌then◌else◌, ◌>>◌,
}
use intertexum.Crypto.{
  Env, Signed, Signal, observe, probe, poll, send_offer, send_answer, SignalBody, valid_id,
}
use intertexum.Defense.{Defense, consume, limit, limit_minute, blocked}
use intertexum.Rendezvous.{validate, valid_session, post_signal, purge as purge_signals}
use intertexum.Bootstrap.{Outside, Announced, Directory, purge, forget}
use intertexum.Bootstrap.Dispatch.{
  Called, Request, dispatch, probe_allowed, queue_signal, act, call_registered, call_allowed,
  call_limited, call_valid, call,
}

-- the directory with a later clock
abbrev pub at_time : Directory → ℕ → Directory
at_time dir now = record dir { node = record dir.node { now = now } }

module _ (env : Env) (out : Outside) (reaches : ℕ → ℕ → Bool) where
  -- What a directory comes to: any request with any answer, the purge that runs each minute, the
  -- owner who forgets a peer, and time that passes.
  pub data Follows (dir : Directory) : Directory → Type 0 where
    here : Follows dir dir
    asked :
        {x : Directory} (d : Defense) (request : Request) (source salt : ℕ)
        → Follows dir x
        → Follows dir (dispatch env out reaches x d request source salt).0
    purged : {x : Directory} (d : Defense) → Follows dir x → Follows dir (purge x d).0
    forgot :
        {x y : Directory} (d d' : Defense) (peer : ℕ)
        → Follows dir x
        → forget x d peer ≡ ok (y, d')
        → Follows dir y
    waited :
        {x : Directory} (now : ℕ) → x.node.now ≤ now → Follows dir x → Follows dir (at_time x now)

-- the tables that a request on signals leaves, with the clock
pub record IsSame (a b : Directory) : Type 0 where
  pub removals : a.removals ≡ b.removals
  pub spent : a.spent ≡ b.spent
  pub node : a.node ≡ b.node

abbrev same_self : (dir : Directory) → IsSame dir dir
same_self dir = record { removals = refl; spent = refl; node = refl }

abbrev same_box :
    (dir : Directory) (box : Table (Signed SignalBody)) → IsSame (record dir { mailbox = box }) dir
same_box dir box = record { removals = refl; spent = refl; node = refl }

IsSame-trans : (a b c : Directory) → IsSame a b → IsSame b c → IsSame a c
IsSame-trans a b c x y = record {
  removals = x.removals ∙ y.removals;
  spent = x.spent ∙ y.spent;
  node = x.node ∙ y.node;
}

module _ (out : Outside) (reaches : ℕ → ℕ → Bool) where
  queue_signal-IsSame :
      (dir : Directory) (d : Defense) (o : Result (Table (Signed SignalBody)))
      → IsSame (queue_signal out reaches dir d o).0 dir
  unfolding queue_signal
  queue_signal-IsSame dir d (err e) = same_self dir
  queue_signal-IsSame dir d (ok box) = same_box dir box

  probe_allowed-IsSame :
      (dir : Directory) (spent : Defense × Bool) (source port : ℕ)
      → IsSame (probe_allowed out reaches dir spent source port).0 dir
  unfolding probe_allowed
  probe_allowed-IsSame dir (d, allowed) source port = same_self dir

  -- a test on what a call leaves
  IsSame-if :
      (test : Bool) (dir : Directory) (a b : Called)
      → IsSame a.0 dir
      → IsSame b.0 dir
      → IsSame (if test then a else b).0 dir
  IsSame-if true dir a b x y = x
  IsSame-if false dir a b x y = y

  act-IsSame :
      (dir : Directory) (d : Defense) (row : Announced) (obj : Signed SignalBody) (signal : Signal)
      (source : ℕ)
      → IsSame (act out reaches dir d row obj signal source).0 dir
  unfolding act
  act-IsSame dir d row obj observe source = same_self dir
  act-IsSame dir d row obj (probe port) source =
      IsSame-if (port == row.wire.body.card.port && leb 1024 port) dir _ _
        (probe_allowed-IsSame dir
          (consume d (limit 22 0 2 2 ∷ limit_minute 23 obj.body.origin 1 1 ∷ [])) source port)
        (same_self dir)
  act-IsSame dir d row obj (poll answers offers) source =
      IsSame-if (leb (length answers) 8 && all valid_id answers) dir _ _ (same_box dir _)
        (same_self dir)
  act-IsSame dir d row obj (send_offer to session generation sdp) source =
      queue_signal-IsSame dir d
        (guard (valid_session to session generation sdp) invalid >> post_signal dir.mailbox obj)
  act-IsSame dir d row obj (send_answer to session generation sdp) source =
      queue_signal-IsSame dir d
        (guard (valid_session to session generation sdp) invalid >> post_signal dir.mailbox obj)

  call_registered-IsSame :
      (dir : Directory) (d : Defense) (o : Option Announced) (obj : Signed SignalBody) (source : ℕ)
      → IsSame (call_registered out reaches dir d o obj source).0 dir
  unfolding call_registered
  call_registered-IsSame dir d none obj source = same_self dir
  call_registered-IsSame dir d (some row) obj source =
      let kept = purge_signals dir.node.now dir.mailbox in
      IsSame-trans _ (record dir { mailbox = kept }) dir
        (act-IsSame (record dir { mailbox = kept }) d row obj obj.body.signal source)
        (same_box dir kept)

  call_allowed-IsSame :
      (dir : Directory) (d : Defense) (obj : Signed SignalBody) (signal : Signal) (source : ℕ)
      → IsSame (call_allowed out reaches dir d obj signal source).0 dir
  unfolding call_allowed
  call_allowed-IsSame dir d obj observe source = same_self dir
  call_allowed-IsSame dir d obj (probe _) source = call_registered-IsSame dir d _ obj source
  call_allowed-IsSame dir d obj (poll _ _) source = call_registered-IsSame dir d _ obj source
  call_allowed-IsSame dir d obj (send_offer _ _ _ _) source =
      call_registered-IsSame dir d _ obj source
  call_allowed-IsSame dir d obj (send_answer _ _ _ _) source =
      call_registered-IsSame dir d _ obj source

  call_limited-IsSame :
      (dir : Directory) (spent : Defense × Bool) (obj : Signed SignalBody) (source : ℕ)
      → IsSame (call_limited out reaches dir spent obj source).0 dir
  unfolding call_limited
  call_limited-IsSame dir (d, false) obj source = same_self dir
  call_limited-IsSame dir (d, true) obj source =
      call_allowed-IsSame dir d obj obj.body.signal source

  call_valid-IsSame :
      (dir : Directory) (d : Defense) (obj : Signed SignalBody) (o : Result SignalBody) (source : ℕ)
      → IsSame (call_valid out reaches dir d obj o source).0 dir
  unfolding call_valid
  call_valid-IsSame dir d obj (err e) source = same_self dir
  call_valid-IsSame dir d obj (ok b) source =
      IsSame-if (blocked out.contains d (some source) (some b.origin)) dir _ _ (same_self dir)
        (call_limited-IsSame dir (consume d (limit 21 b.origin 20 8 ∷ [])) obj source)

  -- A signal touches the mailbox only.
  pub call-IsSame :
      (env : Env) (dir : Directory) (d : Defense) (obj : Signed SignalBody) (source : ℕ)
      → IsSame (call out reaches env dir d obj source).0 dir
  unfolding call
  call-IsSame env dir d obj source =
      call_valid-IsSame dir d obj (validate env dir.node.id dir.network dir.node.now obj) source
