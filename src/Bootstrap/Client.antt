-- ===== src/Bootstrap/Client.antt =====
-- agentmesh/bootstrap.py: what `BootstrapClient` makes of a seed's answers.
--
-- A request is its answer, which may be an error; the schema of an answer is its record.
use intertexum.Prelude.{
  ℕ, zero, suc, ◌+◌, Bool, true, false, ◌&&◌, ◌==◌, leb, ltb, length, List, [], ◌∷◌, Option, none,
  some, Table, has, update, insert_new, Result, ok, err, invalid, guard, ◌>>=◌, ◌>>◌, if◌then◌else◌,
  String, str_eq,
}
use intertexum.Crypto.{
  Env, Signed, Card, RemovalReceiptBody, of_removal_receipt, verify, certificate, valid_id,
}
use intertexum.State.{Capability, Node}
use intertexum.Policy.{capability}
use intertexum.Ticketing.{Sealed, solve, max_bits}
use intertexum.Onboarding.{Profile}
use intertexum.Bootstrap.{Outside, Announcement, announcement, check_announcement}
use intertexum.Bootstrap.Dispatch.{Found, is_behind}

module _ (env : Env) (out : Outside) (network : String) (now : ℕ) where
  -- the loop of `discover_page`: the last identifier
  unfoldable pub check_page : Option ℕ → List Announcement → Result (Option ℕ)
  check_page previous [] = ok previous
  check_page previous (obj ∷ rest) =
      let others = check_page (some obj.body.card.id) rest in
      do
        b ← check_announcement env out now network false obj
        guard (is_behind previous b.card.id) invalid
        others

  -- the tests on a cursor
  unfoldable pub valid_cursor : Option ℕ → Option ℕ → Option ℕ → Bool
  valid_cursor after previous none = true
  valid_cursor after previous (some cursor) =
      valid_id cursor
      && is_behind after cursor
      && (elim previous [ none ↦ true | some p ↦ leb p cursor ])

  -- `discover_page`, of the page that the seed answers with
  unfoldable pub discover_page : Option ℕ → Found → Result Found
  unfolding check_page valid_cursor
  discover_page after page = do
    guard (str_eq page.network network && leb (length page.announcements) 50) invalid
    previous ← check_page after page.announcements
    guard (valid_cursor after previous page.next) invalid
    ok page

  unfoldable pub gather : List Announcement → Table Announcement → Table Announcement
  gather [] found = found
  gather (obj ∷ rest) found =
      let id = obj.body.card.id in
      gather rest (if has id found then update id (λ old. obj) found else insert_new id obj found)

  -- the loop of `discover` over pages, of which there are 21 at most; `ask` is the seed
  unfoldable pub discover_all :
      (Option ℕ → Result Found) → ℕ → Option ℕ → Table Announcement → Result (Table Announcement)
  unfolding discover_page gather
  discover_all ask zero after found = err invalid
  discover_all ask (suc pages) after found =
      let onward = λ (p : Found). discover_all ask pages p.next (gather p.announcements found) in
      do
        answer ← ask after
        page ← discover_page after answer
        let all = gather page.announcements found
        elim page.next [ none ↦ ok all | some cursor ↦ onward page ]

  abbrev pub max_pages : ℕ
  max_pages = 21

  -- the tests of `register` on a challenge, and its solution; `late` is the clock of `solve`
  unfoldable pub solve_challenge : Node → ℕ → Announcement → (ℕ → Bool) → ℕ → Sealed → Result ℕ
  solve_challenge node seed obj late nonces ticket = do
    let b = ticket.body
    guard (b.server == seed && str_eq b.network network && str_eq b.action "register") invalid
    guard (b.peer == node.id && b.payload == obj.id) invalid
    guard (ltb now b.expires && leb b.expires (now + 120)) invalid
    solve out.mac_of out.work_hash late nonces max_bits ticket

  -- `register`: `ask` issues the challenge, and `send` answers with the peer and the expiry
  unfoldable pub register_at :
      Node
      → Option Profile
      → Card
      → List ℕ
      → ℕ
      → (Announcement → Result Sealed)
      → (Announcement → Sealed → ℕ → Result (ℕ × ℕ))
      → (ℕ → Bool)
      → ℕ
      → Result Announcement
  unfolding solve_challenge
  register_at node profile seed host port ask send late nonces = do
    capability node Capability.network
    obj ← announcement env out node profile host port network 900
    ticket ← ask obj
    nonce ← solve_challenge node seed.id obj late nonces ticket
    done ← send obj ticket nonce
    guard (done.0 == node.id && done.1 == obj.body.expires) invalid
    ok obj

  -- the tests of `deregister` on a receipt
  unfoldable pub check_receipt :
      Node → Card → ℕ → Signed RemovalReceiptBody → Result RemovalReceiptBody
  check_receipt node seed request receipt = do
    key ← certificate env seed.certificate
    b ← verify env of_removal_receipt receipt key
    guard
        (b.peer == node.id
          && b.seed == seed.id
          && str_eq b.network network
          && b.request_id == request)
        invalid
    ok b
