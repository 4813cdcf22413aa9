-- ===== src/Rendezvous.antt =====
-- agentmesh/rendezvous.py: signals, and the mailbox that a seed keeps for them in memory.
--
-- An action with its arguments is a `Signal`: the actions that the seed knows, with arguments of
-- the types that it checks.
use intertexum.Prelude.{
  ℕ, ◌+◌, ◌^◌, Bool, true, false, not, ◌&&◌, ◌||◌, ◌==◌, leb, ltb, elem, take, length, List, [],
  ◌∷◌, Table, has, delete, insert_new, keep_rows, Result, ok, invalid, denied, guard, ◌>>=◌, ◌>>◌,
  if◌then◌else◌, String, str_eq,
}
use intertexum.Crypto.{
  Env, Signed, Signal, send_offer, send_answer, SignalBody, of_signal, sign, verify, certificate,
  public_id, valid_id,
}
use intertexum.State.{Node}
use intertexum.Erasure.{is_timely}

-- `messages`, in the order in which they came
abbrev pub Mailbox : Type 0
Mailbox = Table (Signed SignalBody)

-- `purge`
unfoldable pub purge : ℕ → Mailbox → Mailbox
purge now box = keep_rows (λ _ v. ltb now v.body.expires) box

abbrev pub is_to : ℕ → Signal → Bool
is_to peer (send_offer to session generation sdp) = to == peer
is_to peer (send_answer to session generation sdp) = to == peer
is_to peer _ = false

-- `remove`
unfoldable pub remove : ℕ → Mailbox → Mailbox
remove peer box =
    keep_rows (λ _ v. not (v.body.origin == peer) && not (is_to peer v.body.signal)) box

-- the messages that `poll` selects for a peer
unfoldable pub is_polled : ℕ → List ℕ → Bool → Signal → Bool
is_polled peer answers offers (send_offer to session generation sdp) = to == peer && offers
is_polled peer answers offers (send_answer to session generation sdp) =
    to == peer && elem session answers
is_polled peer answers offers _ = false

unfoldable pub taken : ℕ → List ℕ → Bool → Mailbox → Mailbox
unfolding is_polled
taken peer answers offers box =
    take 8 (keep_rows (λ _ v. is_polled peer answers offers v.body.signal) box)

unfoldable pub without : Mailbox → Mailbox → Mailbox
without [] box = box
without ((id, _) ∷ rest) box = without rest (delete id box)

-- `text in sdp`
unfoldable pub starts_with : List ℕ → List ℕ → Bool
starts_with [] text = true
starts_with (x ∷ xs) [] = false
starts_with (x ∷ xs) (y ∷ ys) = x == y && starts_with xs ys

unfoldable pub occurs : List ℕ → List ℕ → Bool
unfolding starts_with
occurs part [] = starts_with part []
occurs part (y ∷ ys) = starts_with part (y ∷ ys) || occurs part ys

-- 'm=application ' and 'a=fingerprint:'
abbrev pub channel_line : List ℕ
channel_line = 109 ∷ 61 ∷ 97 ∷ 112 ∷ 112 ∷ 108 ∷ 105 ∷ 99 ∷ 97 ∷ 116 ∷ 105 ∷ 111 ∷ 110 ∷ 32 ∷ []

abbrev pub fingerprint_line : List ℕ
fingerprint_line =
    97 ∷ 61 ∷ 102 ∷ 105 ∷ 110 ∷ 103 ∷ 101 ∷ 114 ∷ 112 ∷ 114 ∷ 105 ∷ 110 ∷ 116 ∷ 58 ∷ []

unfoldable pub valid_session : ℕ → ℕ → ℕ → List ℕ → Bool
unfolding occurs
valid_session to session generation sdp =
    valid_id to
    && valid_id session
    && (leb 1 generation && ltb generation (2 ^ 53))
    && leb (length sdp) 10000
    && occurs channel_line sdp
    && occurs fingerprint_line sdp

-- a session description is queued once, within the two limits
unfoldable pub post_signal : Mailbox → Signed SignalBody → Result Mailbox
post_signal box obj =
    let fresh : Result Mailbox = do
      guard
          (ltb (length box) 128
            && ltb (length (keep_rows (λ _ v. v.body.origin == obj.body.origin) box)) 8)
          denied
      ok (insert_new obj.id obj box)
    in if has obj.id box then ok box else fresh

module _ (env : Env) where
  -- `envelope`; the nonce is drawn by `secrets`
  unfoldable pub envelope : Node → ℕ → String → Signal → List ℕ → Signed SignalBody
  envelope node seed network signal nonce = sign env of_signal node.key (record {
    origin = node.id;
    certificate = node.certificate;
    seed = seed;
    network = network;
    signal = signal;
    issued = node.now;
    expires = node.now + 90;
    nonce = nonce;
  })

  -- `validate`, of a seed at a time
  unfoldable pub validate : ℕ → String → ℕ → Signed SignalBody → Result SignalBody
  unfolding is_timely
  validate seed network now obj = do
    guard (leb (env.wire_size (of_signal obj.body)) 14000) invalid
    guard (obj.body.seed == seed && str_eq obj.body.network network) invalid
    guard (is_timely now 90 120 obj.body.issued obj.body.expires) invalid
    key ← certificate env obj.body.certificate
    guard (public_id env key == obj.body.origin) invalid
    verify env of_signal obj key
