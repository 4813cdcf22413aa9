-- ===== src/Lifecycle/Inbox.antt =====
-- agentmesh/lifecycle.py: `message_page`, the owner's view of the inbox.
--
-- The rows of the clock stand in the order of their sequence numbers, which rise. The size of the
-- canonical JSON of an entry is an argument.
use intertexum.Prelude.{
  ℕ, ◌+◌, ◌*◌, not, ◌||◌, ltb, take, length, List, [], ◌∷◌, Option, none, some, Table, lookup,
  Result, ok, invalid, denied, guard, ◌>>◌, if◌then◌else◌,
}
use intertexum.Crypto.{Signed, MessageBody}
use intertexum.State.{Node}
use intertexum.Policy.{allowed, senders, is_provider}
use intertexum.Work.{between}
use intertexum.Work.Outbound.{reply_info}
use intertexum.Lifecycle.{clock_messages}

pub record Entry : Type 0 where
  pub message : Signed MessageBody
  pub cursor : ℕ
  pub reply_offer : Option (ℕ × ℕ)

pub record Inbox : Type 0 where
  pub messages : List Entry
  pub next : Option ℕ

abbrev pub page_bytes : ℕ
page_bytes = 512 * 1024

-- `message_clock c JOIN messages m USING(id) WHERE c.seq>?`
unfoldable pub joined : Table (Signed MessageBody) → ℕ → Table ℕ → List (ℕ × Signed MessageBody)
joined messages after [] = []
joined messages after ((id, seq) ∷ rest) =
    let others = joined messages after rest in
    elim (lookup id messages) [
      | none ↦ others
      | some obj ↦ if ltb after seq then (seq, obj) ∷ others else others
    ]

unfoldable pub last_of : ℕ → List (ℕ × Signed MessageBody) → ℕ
last_of seq [] = seq
last_of seq ((s, _) ∷ rest) = last_of s rest

module _ (node : Node) (size_of : Entry → ℕ) where
  -- the loop: the entries, and the cursor behind the last row that was looked at
  unfoldable pub fill : List (ℕ × Signed MessageBody) → ℕ → ℕ → List Entry × ℕ
  fill [] size cursor = ([], cursor)
  fill ((seq, obj) ∷ rest) size cursor =
      let e : Entry = record {
        message = obj;
        cursor = seq;
        reply_offer = reply_info node obj.id;
      } in
      let passed = fill rest size seq in
      let onward = fill rest (size + size_of e) seq in
      if not (allowed node senders obj.body.origin)
      then passed
      else if ltb page_bytes (size + size_of e)
      then ([], cursor)
      else (e ∷ onward.0, onward.1)

  unfoldable pub next_of : List (ℕ × Signed MessageBody) → ℕ → ℕ → Option ℕ
  unfolding last_of
  next_of [] limit cursor = none
  next_of ((seq, obj) ∷ rest) limit cursor =
      if ltb limit (length ((seq, obj) ∷ rest)) || ltb cursor (last_of seq rest)
      then some cursor
      else none

  -- `message_page`; it gives every message its sequence number first
  unfoldable pub message_page : ℕ → ℕ → Result (Node × Inbox)
  unfolding clock_messages joined fill next_of
  message_page after limit = do
    guard (not (is_provider node.source_policy.mode)) denied
    guard (between 1 100 limit) invalid
    let (clock, last) = clock_messages node.messages (node.message_clock, node.last_seq)
    let rows = take (limit + 1) (joined node.messages after clock)
    let filled = fill (take limit rows) 0 after
    let page : Inbox = record { messages = filled.0; next = next_of rows limit filled.1 }
    ok (record node { message_clock = clock; last_seq = last }, page)
