-- ===== src/Onboarding.antt =====
-- agentmesh/onboarding.py: membership of a private network, and the admission of its members.
--
-- A `Profile` is what the network profile of a node says of admission. The HMAC of a membership
-- under the profile's key is an argument.
use intertexum.Prelude.{
  ℕ, Bool, true, false, not, ◌||◌, ◌==◌, ltb, length, Option, none, some, lookup, has, insert_new,
  update, max, Result, ok, denied, guard, ◌>>◌, if◌then◌else◌, String, str_eq,
}
use intertexum.Crypto.{AnnouncementBody}
use intertexum.State.{Node, Peer, Permissions}
use intertexum.Policy.{is_none}
use intertexum.Work.{is_banned, same_id}

pub record Profile : Type 0 where
  pub is_public : Bool
  pub network : String
  pub key : ℕ
  pub permissions : Permissions

module _ (hmac : ℕ → AnnouncementBody → ℕ) where
  -- `membership`, of a body without its proof
  unfoldable pub membership : Option Profile → AnnouncementBody → Option ℕ
  membership none body = none
  membership (some p) body =
      if p.is_public || not (str_eq p.network body.network)
      then none
      else some (hmac p.key (record body { membership = none }))

  -- the rows of a peer that may be enrolled
  unfoldable pub enrol :
      Node → Permissions → AnnouncementBody → Option Peer → Option ℕ → Result (Node × Bool)
  enrol node permissions body none managed = do
    guard (ltb (length node.peers) 1000) denied
    let peer = body.card.id
    let row : Peer = record { card = body.card; permissions = permissions; blocked = false }
    ok (
      record node {
        peers = insert_new peer row node.peers;
        admissions =
            if has peer node.admissions
            then update peer (λ t. max t body.expires) node.admissions
            else insert_new peer body.expires node.admissions;
      },
      true,
    )
  enrol node permissions body (some old) none = ok (node, false)
  enrol node permissions body (some old) (some expires) =
      if old.blocked
      then ok (node, false)
      else ok (
        record node {
          peers = update body.card.id (λ p. record p { permissions = permissions }) node.peers;
          admissions = update body.card.id (λ t. max t body.expires) node.admissions;
        },
        true,
      )

  -- `admit`: whether the announcement comes from a member, who is then a peer
  unfoldable pub admit : Node → Option Profile → AnnouncementBody → Result (Node × Bool)
  unfolding membership enrol
  admit node none body = ok (node, false)
  admit node (some p) body =
      let expected = membership (some p) body in
      let peer = body.card.id in
      let enrolled =
        enrol node p.permissions body (lookup peer node.peers) (lookup peer node.admissions) in
      if is_none expected || not (same_id expected body.membership)
      then ok (node, false)
      else if peer == node.id || is_banned node peer
      then ok (node, false)
      else enrolled
