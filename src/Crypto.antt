-- ===== src/Crypto.antt =====
-- agentmesh/crypto.py: identifiers, signed objects and what they rest on.
--
-- An identifier is a string of 64 lower-case hexadecimal digits. It is modelled by the number that
-- it spells: such strings are the numbers below 2 ^ 256, in the same order, and every larger number
-- stands for a string of another form, which `valid_id` refuses.
mod Bodies
pub use Bodies.*
use intertexum.Prelude.{
  ℕ, ◌^◌, Bool, List, Option, none, some, ltb, ◌==◌, Result, ok, err, invalid, guard, ◌>>◌, String,
}

-- `ID_RE.fullmatch`
unfoldable pub valid_id : ℕ → Bool
valid_id n = ltb n (2 ^ 256)

-- What a message or a post is admitted for: `op` of agentmesh/message_work.py.
pub data Operation : Type 0 where
  message thread_post : Operation

-- the body of a work challenge; `offer` is the digest of the reply offer, or of `null`
pub record TicketBody : Type 0 where
  pub version : ℕ
  pub server : ℕ
  pub peer : ℕ
  pub network : String
  pub operation : Operation
  pub message : ℕ
  pub thread : Option ℕ
  pub offer : ℕ
  pub bits : ℕ
  pub expires : ℕ
  pub salt : ℕ

pub record Ticket : Type 0 where
  pub body : TicketBody
  pub mac : ℕ

-- The libraries that the code calls: `hashlib`, `cryptography`, `x509` and the character tables.
-- A key is the number of its raw bytes; a certificate and a signature likewise.
pub record Env : Type 0 where
  pub digest : Payload → ℕ
  pub verify_sig : ℕ → ℕ → Payload → Bool
  pub sign_sig : ℕ → Payload → ℕ
  pub digest_key : ℕ → ℕ
  -- `load_pem_x509_certificate`, an Ed25519 key, the issuer and the self-signature
  pub load_certificate : ℕ → Option ℕ
  pub is_space : ℕ → Bool
  -- a float, by its bits: finite and at most 1e10 in absolute value; a vector of norm zero
  pub is_bounded : ℕ → Bool
  pub is_zero_norm : List ℕ → Bool
  -- `hmac.digest(secret, canonical(body), 'sha256')`
  pub authenticator : ℕ → TicketBody → ℕ
  -- `sha256(DOMAIN + canonical(ticket) + nonce)` as a number
  pub work_hash : Ticket → ℕ → ℕ
  -- `digest(canonical(offer))`
  pub offer_digest : Option (Signed OfferBody) → ℕ
  -- the size of the canonical JSON of a signed object
  pub wire_size : Payload → ℕ

module _ (env : Env) where
  unfoldable pub public_id : ℕ → ℕ
  public_id key = env.digest_key key

  -- `certificate(pem).public_key()`
  unfoldable pub certificate : ℕ → Result ℕ
  certificate pem = elim (env.load_certificate pem) [ none ↦ err invalid | some key ↦ ok key ]

  module _ {B : Type 0} (payload : B → Payload) where
    unfoldable pub sign : ℕ → B → Signed B
    sign key body = record {
      body = body;
      id = env.digest (payload body);
      sig = env.sign_sig key (payload body);
    }

    unfoldable pub verify : Signed B → ℕ → Result B
    verify obj key = do
      guard (obj.id == env.digest (payload obj.body)) invalid
      guard (env.verify_sig key obj.sig (payload obj.body)) invalid
      ok obj.body
