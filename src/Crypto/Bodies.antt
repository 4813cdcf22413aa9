-- ===== src/Crypto/Bodies.antt =====
-- The bodies of the objects that the parts of the program sign, with the fields of their schemas.
use intertexum.Prelude.{ℕ, Bool, List, Option, String}

-- A member of an audience: `'*'`, `'@public'`, or any other string, read as an identifier.
pub data Reader : Type 0 where
  everyone anyone : Reader
  named : ℕ → Reader

-- The bodies of signed objects, with the fields that their schemas require.
pub record RecordBody : Type 0 where
  pub version : ℕ
  pub origin : ℕ
  pub model : String
  pub vector : List ℕ
  pub text : List ℕ
  pub parents : List ℕ
  pub audience : List Reader
  pub created_ms : ℕ

pub record RetractBody : Type 0 where
  pub version : ℕ
  pub origin : ℕ
  pub target : ℕ

-- `expires`, `reply_to` and `permit` are there or not, as the version of the message says.
pub record MessageBody : Type 0 where
  pub version : ℕ
  pub origin : ℕ
  pub recipient : ℕ
  pub text : List ℕ
  pub nonce : List ℕ
  pub expires : Option ℕ
  pub reply_to : Option ℕ
  pub permit : Option ℕ

pub record OfferBody : Type 0 where
  pub version : ℕ
  pub issuer : ℕ
  pub responder : ℕ
  pub request : ℕ
  pub expires : ℕ
  pub max_bytes : ℕ
  pub nonce : ℕ
  pub network : String

-- `Node.card`; the host is a text
pub record Card : Type 0 where
  pub id : ℕ
  pub certificate : ℕ
  pub host : List ℕ
  pub port : ℕ

-- the body of a thread post: a root has an audience, a reply its thread and its parent
pub data PostKind : Type 0 where
  root : List Reader → PostKind
  reply : (thread parent : ℕ) → PostKind

pub record PostBody : Type 0 where
  pub version : ℕ
  pub kind : PostKind
  pub origin : ℕ
  pub certificate : ℕ
  pub text : List ℕ
  pub created_ms : ℕ
  pub nonce : List ℕ

-- the bodies of agentmesh/routing.py: an advertisement, a sealed message, a paid hop, a receipt
pub record LsaBody : Type 0 where
  pub version : ℕ
  pub origin : ℕ
  pub seq : ℕ
  pub expires : ℕ
  pub links : List ℕ
  pub forward : Bool
  pub bits : ℕ
  pub key : ℕ

pub record SealedBody : Type 0 where
  pub version : ℕ
  pub origin : ℕ
  pub recipient : ℕ
  pub message : ℕ
  pub expires : ℕ
  pub max_hops : ℕ
  pub ephemeral : ℕ
  pub nonce : List ℕ
  pub ciphertext : List ℕ

pub record HopBody : Type 0 where
  pub envelope : ℕ
  pub payer : ℕ
  pub receiver : ℕ
  pub previous : ℕ
  pub expires : ℕ
  pub bits : ℕ
  pub nonce : ℕ

pub record DeliveryBody : Type 0 where
  pub version : ℕ
  pub envelope : ℕ
  pub message : ℕ
  pub origin : ℕ
  pub recipient : ℕ
  pub expires : ℕ

-- the announcement of agentmesh/bootstrap.py; `membership` is there or not
pub record AnnouncementBody : Type 0 where
  pub network : String
  pub card : Card
  pub issued : ℕ
  pub expires : ℕ
  pub membership : Option ℕ

-- the removal request of agentmesh/erasure.py and the receipt of agentmesh/bootstrap.py for it
pub record RemovalBody : Type 0 where
  pub peer : ℕ
  pub certificate : ℕ
  pub seed : ℕ
  pub network : String
  pub issued : ℕ
  pub expires : ℕ
  pub nonce : List ℕ

pub record RemovalReceiptBody : Type 0 where
  pub seed : ℕ
  pub network : String
  pub peer : ℕ
  pub request_id : ℕ
  pub original_request_id : ℕ
  pub accepted_at : ℕ
  pub clear_at : ℕ
  pub suppression_until : ℕ
  pub cleared : Bool

-- the action and the arguments of a signal of agentmesh/rendezvous.py
pub data Signal : Type 0 where
  observe : Signal
  probe : (port : ℕ) → Signal
  poll : (answers : List ℕ) (offers : Bool) → Signal
  send_offer send_answer : (to session generation : ℕ) (sdp : List ℕ) → Signal

pub record SignalBody : Type 0 where
  pub origin : ℕ
  pub certificate : ℕ
  pub seed : ℕ
  pub network : String
  pub signal : Signal
  pub issued : ℕ
  pub expires : ℕ
  pub nonce : List ℕ

-- What is hashed and signed: the domain, a zero byte and the canonical body. Domains differ, so
-- the payloads of two kinds of object do.
pub data Payload : Type 0 where
  of_record : RecordBody → Payload
  of_retract : RetractBody → Payload
  of_message : MessageBody → Payload
  of_offer : OfferBody → Payload
  of_post : PostBody → Payload
  of_lsa : LsaBody → Payload
  of_sealed : SealedBody → Payload
  of_hop : HopBody → Payload
  of_delivery : DeliveryBody → Payload
  of_announcement : AnnouncementBody → Payload
  of_removal : RemovalBody → Payload
  of_removal_receipt : RemovalReceiptBody → Payload
  of_signal : SignalBody → Payload

pub record Signed (B : Type 0) : Type 0 where
  pub body : B
  pub id : ℕ
  pub sig : ℕ
