-- ===== src/Tests/Carrying.antt =====
-- Runs of the routing of sealed messages, from agentmesh/routing.py.
use intertexum.Prelude.{ℕ, ◌+◌, ◌≤◌, ◌≡◌, refl, true, false, [], ◌∷◌, List, none, some, ok, lookup}
use intertexum.Crypto.{Signed, LsaBody, SealedBody, HopBody}
use intertexum.State.{Node, Peer}
use intertexum.Routing.{
  RouteConfig, Router, Routed, queued, validate_config, config, require, listed_peers, neighbors,
  price, store_new, store_lsa, valid_lsa, ingest_lsa, table,
}
use intertexum.Routing.Gossip.{newest, ingest_lsa-newest}
use intertexum.Routing.Paths.{
  links_of, forwards, cost_of, may_step, extensions, grow, search, before, preferred, insert_route,
  sort_routes, reverse_onto, hops, rounds, width_of, finish_routes, network_of, routes,
}
use intertexum.Routing.Paths.Total.{routes_answer}
use intertexum.Routing.Custody.{
  Seal, valid_envelope, enqueue_new, enqueue, check_envelope, proves, valid_hop, follow, last_hop,
  check_last, check_chain, take_custody, may_carry, accept,
}
use intertexum.Routing.Custody.Chain.{IsChain, accept-IsChain}
use intertexum.Routing.Delivery.{deliver}
use intertexum.Routing.Paying.{Peers}
use intertexum.Routing.Delivery.Outcome.{delivered_at, delivered_at-deliver}
use intertexum.Tests.{program, env, node, friend}

carrying : Unit {0}
unfolding program validate_config config require listed_peers neighbors price store_new store_lsa
    valid_lsa ingest_lsa table links_of forwards cost_of may_step extensions grow search before
    preferred insert_route sort_routes reverse_onto hops rounds width_of finish_routes network_of
    routes valid_envelope enqueue_new enqueue check_envelope proves valid_hop follow last_hop
    check_last check_chain take_custody may_carry accept
carrying = tt

abbrev policy : RouteConfig
policy = record {
  enabled = true;
  forward = true;
  neighbors = [];
  pow_bits = 8;
  max_hops = 4;
  max_solve_bits = 20;
  max_solve_ms = 2000;
  solve_hour_ms = 120000;
  max_pending = 256;
  max_bytes = 8388608;
}

-- the peer 3, whose certificate is the number 8, behind the peer 2
abbrev far : Peer
far = record friend { card = record { id = 3; certificate = 8; host = 97 ∷ []; port = 80 } }

abbrev here : Node
here = record node { peers = (2, friend) ∷ (3, far) ∷ [] }

abbrev lsa : ℕ → ℕ → ℕ → List ℕ → Signed LsaBody
lsa origin key seq links = record {
  body = record {
    version = 1;
    origin = origin;
    seq = seq;
    expires = 7290;
    links = links;
    forward = true;
    bits = 8;
    key = 6;
  };
  id = 7000 + seq;
  sig = key + (7000 + seq);
}

abbrev router : Router
router = record {
  config = policy;
  lsas = (1, lsa 1 5 4 (2 ∷ [])) ∷ (2, lsa 2 7 6 (1 ∷ 3 ∷ [])) ∷ (3, lsa 3 8 2 (2 ∷ [])) ∷ [];
  sequence = 4;
  queue = [];
  receipts = [];
  work = [];
  links = [];
  failures = [];
}

enabled : require here router false ≡ ok policy
unfolding carrying
enabled = refl

hears :
    ingest_lsa env here router (lsa 2 7 9 (3 ∷ []))
    ≡ ok (record router {
      lsas = (1, lsa 1 5 4 (2 ∷ [])) ∷ (3, lsa 3 8 2 (2 ∷ [])) ∷ (2, lsa 2 7 9 (3 ∷ [])) ∷ [];
    })
unfolding carrying
hears = refl

routes_answer_example : (all : List (List ℕ)) × (routes here router 3 [] none ≡ ok all)
routes_answer_example = routes_answer here router 3 [] none policy enabled

abbrev fresher : Router
fresher = record router {
  lsas = (1, lsa 1 5 4 (2 ∷ [])) ∷ (3, lsa 3 8 2 (2 ∷ [])) ∷ (2, lsa 2 7 9 (3 ∷ [])) ∷ [];
}

ingest_lsa-newest_example : newest fresher 2 ≡ 9
unfolding lookup
ingest_lsa-newest_example = ingest_lsa-newest env here router fresher (lsa 2 7 9 (3 ∷ [])) 2 hears

-- an envelope of the peer 3 for 4, which the peer 2 hands on to the node
abbrev envelope : Signed SealedBody
envelope = record {
  body = record {
    version = 1;
    origin = 3;
    recipient = 4;
    message = 3001;
    expires = 8000;
    max_hops = 4;
    ephemeral = 6;
    nonce = 0 ∷ 0 ∷ 0 ∷ 0 ∷ 0 ∷ 0 ∷ 0 ∷ 0 ∷ 0 ∷ 0 ∷ 0 ∷ 0 ∷ [];
    ciphertext = 0 ∷ 0 ∷ 0 ∷ 0 ∷ 0 ∷ 0 ∷ 0 ∷ 0 ∷ 0 ∷ 0 ∷ 0 ∷ 0 ∷ 0 ∷ 0 ∷ 0 ∷ 0 ∷ [];
  };
  id = 11001;
  sig = 11009;
}

abbrev hop : ℕ → ℕ → ℕ → ℕ → Signed HopBody
hop payer key receiver previous = record {
  body = record {
    envelope = 11001;
    payer = payer;
    receiver = receiver;
    previous = previous;
    expires = 8000;
    bits = 20;
    nonce = 5;
  };
  id = 9000 + receiver;
  sig = key + (9000 + receiver);
}

abbrev chain : List (Signed HopBody)
chain = hop 3 8 2 11001 ∷ hop 2 7 1 9002 ∷ []

abbrev seal : Seal
seal = record {
  hop_hash = λ h. h.nonce;
  sealed_chars = λ obj. 100;
  chain_chars = λ hops. 50;
  close = λ key header message. some [];
  open_with = λ key b. none;
}

abbrev queued_row : Routed
queued_row = record {
  message = 3001;
  origin = 3;
  destination = 4;
  wire = some envelope;
  chain = chain;
  state = queued;
  attempts = 0;
  next = 7200;
  expires = 8000;
  next_hop = 0;
}

abbrev holding : Router
holding = record router { queue = (11001, queued_row) ∷ [] }

abbrev carried : Node
carried = record here {
  budgets =
      (15, record { window = 2; n = 1; bytes = 100 })
      ∷ (3, record { window = 2; n = 1; bytes = 100 })
      ∷ [];
}

accepts : accept env seal here router 2 envelope chain ≡ ok (carried, holding)
unfolding carrying
accepts = refl

accept-IsChain_example :
    IsChain env seal here envelope 11001 3 (3 ∷ []) chain 1
    × (2 ≤ 4)
    × (2 ≤ 4)
    × ((h : Signed HopBody) × (last_hop env seal chain ≡ some h)
        × (h.body.payer ≡ 2)
        × (price here router ≤ h.body.bits))
accept-IsChain_example =
    accept-IsChain env seal here router 2 envelope chain carried holding policy enabled accepts

abbrev peers : Peers
peers = record { late = λ n. false; elapsed = 3; fuel = 4; takes = λ p obj chain. true }

delivered_at-deliver_example :
    delivered_at (deliver env seal peers carried holding).0 11001 ≡ delivered_at holding 11001
delivered_at-deliver_example = delivered_at-deliver env seal peers carried holding 11001
