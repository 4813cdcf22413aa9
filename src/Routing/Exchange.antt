-- ===== src/Routing/Exchange.antt =====
-- agentmesh/routing.py: the exchange of advertisements and receipts with neighbors. Requests of the
-- network client are answers.
use intertexum.Prelude.{
  ℕ, ◌+◌, false, ◌&&◌, leb, ltb, take, length, List, [], ◌∷◌, map, Option, none, some, Table,
  delete, replace, keep_rows, by_key, Result, ok, err, denied, ◌>>◌, if◌then◌else◌,
}
use intertexum.Crypto.{Env, Signed, LsaBody, DeliveryBody}
use intertexum.State.{Node}
use intertexum.Node.Peers.{peer}
use intertexum.Defense.{Defense, consume, limit}
use intertexum.Routing.{Router, require, neighbors, advertise, ingest_lsa}
use intertexum.Routing.Custody.{ingest_receipt}

-- what `exchange` answers
pub record Exchange : Type 0 where
  pub advertisements : List (Signed LsaBody)
  pub receipts : List (Signed DeliveryBody)

abbrev pub wires {ℓ} : {A : Type ℓ} → Table A → List A
wires = map (λ row. row.1)

-- `exchange`: the state of the defense pays for it
unfoldable pub exchange : Node → Router → Defense → ℕ → Result (Defense × Result Exchange)
exchange node r d requester = do
  require node r false
  peer node requester false
  let (d', allowed) = consume d (limit 19 requester 2 4 ∷ [])
  let answer : Exchange = record {
    advertisements =
        take 32 (wires (by_key (keep_rows (λ _ o. ltb node.now o.body.expires) r.lsas)));
    receipts =
        take 256 (wires (by_key (keep_rows (λ _ o. ltb node.now o.body.expires) r.receipts)));
  }
  ok (d', if allowed then ok answer else err denied)

abbrev pub or_same : Router → Result Router → Router
or_same r (ok r') = r'
or_same r (err e) = r

module _ (env : Env) where
  -- the loops of `refresh` over one answer; what is refused is passed over
  unfoldable pub take_lsas : Node → Router → List (Signed LsaBody) → Router
  take_lsas node r [] = r
  take_lsas node r (obj ∷ rest) = take_lsas node (or_same r (ingest_lsa env node r obj)) rest

  unfoldable pub take_receipts : Node → Router → List (Signed DeliveryBody) → Router
  take_receipts node r [] = r
  take_receipts node r (obj ∷ rest) =
      take_receipts node (or_same r (ingest_receipt env node r obj)) rest

  unfoldable pub link_down : Node → Router → ℕ → Router
  link_down node r p = record r {
    links = delete p r.links;
    failures = replace p (node.now + 30) r.failures;
  }

  unfoldable pub hear : Node → Router → ℕ → Option Exchange → Router
  unfolding take_lsas take_receipts link_down
  hear node r p none = link_down node r p
  hear node r p (some answer) =
      let heard = take_receipts node (take_lsas node r answer.advertisements) answer.receipts in
      if leb (length answer.advertisements) 32 && leb (length answer.receipts) 256
      then record heard {
        links = replace p (node.now + 90) heard.links;
        failures = delete p heard.failures;
      }
      else link_down node r p

  unfoldable pub hear_all : (ℕ → Option Exchange) → Node → Router → List ℕ → Router
  unfolding hear
  hear_all ask node r [] = r
  hear_all ask node r (p ∷ rest) = hear_all ask node (hear node r p (ask p)) rest

  -- `refresh`; the advertisement of the first line stays when the last one raises
  unfoldable pub refresh : (ℕ → Option Exchange) → Node → Router → ℕ → Router × Result (Unit {0})
  unfolding hear_all advertise
  refresh ask node r key = elim (advertise env node r key) [
    | err e ↦ (r, err e)
    | ok (r1, _) ↦
        let r2 = hear_all ask node r1 (neighbors node r1) in
        elim (advertise env node r2 key) [ err e ↦ (r2, err e) | ok (r3, _) ↦ (r3, ok tt) ]
  ]
