-- ===== src/Ticketing.antt =====
-- agentmesh/pow.py: admission work, which a bootstrap seed asks of a peer that registers.
--
-- A nonce, a clock and the difficulty are numbers; the schema of a ticket is its record. `mac` and
-- `hash` are the authenticator under the issuer's secret and the hash of a ticket with a nonce.
pub mod Honest
use intertexum.Prelude.{
  ℕ, zero, suc, ◌+◌, ◌-◌, ◌%◌, ◌^◌, Bool, true, false, not, ◌&&◌, ◌||◌, ◌==◌, leb, ltb, Result, ok,
  err, invalid, guard, ◌>>=◌, ◌>>◌, if◌then◌else◌, String, str_eq, min,
}
use intertexum.Crypto.{valid_id}

pub record Challenge : Type 0 where
  pub server : ℕ
  pub network : String
  pub action : String
  pub peer : ℕ
  pub payload : ℕ
  pub expires : ℕ
  pub bits : ℕ
  pub salt : ℕ

pub record Sealed : Type 0 where
  pub body : Challenge
  pub mac : ℕ

pub record Issuer : Type 0 where
  pub secret : ℕ
  pub server_id : ℕ
  pub network : String
  pub bits : ℕ

abbrev pub max_bits : ℕ
max_bits = 20

-- `Issuer.__init__`
unfoldable pub issuer : ℕ → ℕ → String → ℕ → Result Issuer
issuer secret server_id network bits = do
  guard (leb bits max_bits) invalid
  ok (record { secret = secret; server_id = server_id; network = network; bits = bits })

module _ (mac_of : ℕ → Challenge → ℕ) (hash : Sealed → ℕ → ℕ) where
  -- `work_valid`
  unfoldable pub work_valid : Sealed → ℕ → Bool
  work_valid ticket nonce =
      ltb nonce (2 ^ 64)
      && leb ticket.body.bits max_bits
      && ltb (hash ticket nonce) (2 ^ (256 - ticket.body.bits))

  -- `issue`
  unfoldable pub issue : Issuer → ℕ → ℕ → ℕ → ℕ → Result Sealed
  issue by peer payload now salt = do
    guard (valid_id peer && valid_id payload) invalid
    let body : Challenge = record {
      server = by.server_id;
      network = by.network;
      action = "register";
      peer = peer;
      payload = payload;
      expires = now + 120;
      bits = by.bits;
      salt = salt;
    }
    ok (record { body = body; mac = mac_of by.secret body })

  -- `verify`: the salt and the expiry, which the caller spends
  unfoldable pub verify : Issuer → Sealed → ℕ → ℕ → ℕ → ℕ → Result (ℕ × ℕ)
  unfolding work_valid
  verify by ticket nonce peer payload now = do
    let body = ticket.body
    guard (mac_of by.secret body == ticket.mac) invalid
    guard (body.server == by.server_id && str_eq body.network by.network) invalid
    guard (str_eq body.action "register" && body.peer == peer && body.payload == payload) invalid
    guard (ltb now body.expires && leb body.expires (now + 120) && body.bits == by.bits) invalid
    guard (work_valid ticket nonce) invalid
    ok (body.salt, body.expires)

  -- The loop of `solve`, over the nonces that are left; `late` is the clock, which is read at every
  -- 1024th nonce.
  unfoldable pub search : (ℕ → Bool) → Sealed → ℕ → ℕ → Result ℕ
  search late ticket zero nonce = err invalid
  search late ticket (suc left) nonce =
      let rest = search late ticket left (nonce + 1) in
      if nonce % 1024 == 0 && late nonce
      then err invalid
      else if ltb (hash ticket nonce) (2 ^ (256 - ticket.body.bits))
      then ok nonce
      else rest

  -- `solve`; `nonces` is 2 ^ 64 in the source
  unfoldable pub solve : (ℕ → Bool) → ℕ → ℕ → Sealed → Result ℕ
  unfolding search
  solve late nonces max_allowed ticket = do
    guard (leb ticket.body.bits (min max_allowed max_bits)) invalid
    search late ticket nonces 0
