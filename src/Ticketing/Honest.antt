-- ===== src/Ticketing/Honest.antt =====
-- agentmesh/pow.py: what the issuer accepts, and that the work it asks for is what a peer finds.
use intertexum.Prelude.{
  ℕ, zero, suc, ◌+◌, ◌-◌, ◌%◌, ◌^◌, ◌<◌, ◌≤◌, ◌≡◌, sym, guard-eq-ok, Bool, true, ◌&&◌, ◌==◌, leb,
  ltb, arith, ok, invalid, min, Bool-cases, inl, inr, ==_refl,
}
use mathlib.Core.Path.{subst}
use text.Mathlib.TextPositions.{eq_refl}
use intertexum.Crypto.{valid_id}
use intertexum.Ticketing.{
  Issuer, Sealed, Challenge, issue, verify, work_valid, search, solve, max_bits,
}

module _ (mac_of : ℕ → Challenge → ℕ) (hash : Sealed → ℕ → ℕ) where
  search_found :
      (late : ℕ → Bool) (ticket : Sealed) (left nonce found : ℕ)
      → search mac_of hash late ticket left nonce ≡ ok found
      → (hash ticket found < 2 ^ (256 - ticket.body.bits)) × (found < nonce + left)
  unfolding search
  search_found late ticket zero nonce found e = cc
  search_found late ticket (suc left) nonce found e =
      elim (Bool-cases (nonce % 1024 == 0 && late nonce)) [
        | inl l ↦ absurd (cc (rw l at e))
        | inr l ↦ elim (Bool-cases (ltb (hash ticket nonce) (2 ^ (256 - ticket.body.bits)))) [
          | inl h ↦ ground arith
          | inr h ↦
              let later = search_found late ticket left (nonce + 1) found (rw (l, h) at e) in
              (later.0, omega (arith, later.1))
        ]
      ]

  -- the ticket that `issue` makes
  abbrev issued_ticket : Issuer → ℕ → ℕ → ℕ → ℕ → Sealed
  issued_ticket by peer payload now salt =
      let body : Challenge = record {
        server = by.server_id;
        network = by.network;
        action = "register";
        peer = peer;
        payload = payload;
        expires = now + 120;
        bits = by.bits;
        salt = salt;
      } in
      record { body = body; mac = mac_of by.secret body }

  issue_lem :
      (by : Issuer) (peer payload now salt : ℕ) (ticket : Sealed)
      → issue mac_of hash by peer payload now salt ≡ ok ticket
      → issued_ticket by peer payload now salt ≡ ticket
  unfolding issue
  issue_lem by peer payload now salt ticket e =
      let (_, made) = guard-eq-ok (valid_id peer && valid_id payload) invalid _ e in cc made

  solve_lem :
      (late : ℕ → Bool) (nonces max_allowed nonce : ℕ) (ticket : Sealed)
      → nonces ≤ 2 ^ 64
      → solve mac_of hash late nonces max_allowed ticket ≡ ok nonce
      → work_valid mac_of hash ticket nonce ≡ true
  unfolding solve work_valid
  solve_lem late nonces max_allowed nonce ticket few e =
      let (small, searched) =
        guard-eq-ok (leb ticket.body.bits (min max_allowed max_bits)) invalid _ e in
      let (hard, low) = search_found late ticket nonces 0 nonce searched in ground arith

  verify-issued_ticket :
      (by : Issuer) (peer payload salt now later nonce : ℕ)
      → work_valid mac_of hash (issued_ticket by peer payload now salt) nonce ≡ true
      → now ≤ later
      → later < now + 120
      → verify mac_of hash by (issued_ticket by peer payload now salt) nonce peer payload later
        ≡ ok (salt, now + 120)
  unfolding verify
  verify-issued_ticket by peer payload salt now later nonce works a b =
      let body = (issued_ticket by peer payload now salt).body in
      rw
        (
          ==_refl (mac_of by.secret body),
          ==_refl by.server_id,
          eq_refl by.network,
          ==_refl peer,
          ==_refl payload,
          ==_refl by.bits,
        )
        (ground (arith, works))

  -- Within its lifetime a ticket of the issuer is accepted with a nonce that `solve` finds for it,
  -- for the peer and the payload that it was issued for.
  pub verify-solve :
      (by : Issuer) (late : ℕ → Bool) (nonces max_allowed peer payload salt now later nonce : ℕ)
      (ticket : Sealed)
      → issue mac_of hash by peer payload now salt ≡ ok ticket
      → nonces ≤ 2 ^ 64
      → solve mac_of hash late nonces max_allowed ticket ≡ ok nonce
      → now ≤ later
      → later < now + 120
      → verify mac_of hash by ticket nonce peer payload later ≡ ok (salt, now + 120)
  verify-solve by late nonces max_allowed peer payload salt now later nonce ticket issued few solved
        a b =
      let same = issue_lem by peer payload now salt ticket issued in
      let works = solve_lem late nonces max_allowed nonce ticket few solved in
      subst
        (λ (t : Sealed). verify mac_of hash by t nonce peer payload later ≡ ok (salt, now + 120))
        same
        (verify-issued_ticket by peer payload salt now later nonce
          (subst (λ (t : Sealed). work_valid mac_of hash t nonce ≡ true) (sym same) works) a b)

  verify-issued_only :
      (by : Issuer) (peer payload salt now nonce peer' payload' later spent expires : ℕ)
      → verify mac_of hash by (issued_ticket by peer payload now salt) nonce peer' payload' later
        ≡ ok (spent, expires)
      → (peer' ≡ peer)
        × (payload' ≡ payload)
        × (spent ≡ salt)
        × (expires ≡ now + 120)
        × (now ≤ later)
        × (later < now + 120)
        × (hash (issued_ticket by peer payload now salt) nonce < 2 ^ (256 - by.bits))
  unfolding verify work_valid
  verify-issued_only by peer payload salt now nonce peer' payload' later spent expires e = (
    ground arith,
    ground arith,
    ground arith,
    ground arith,
    ground arith,
    ground arith,
    ground arith,
  )

  -- A ticket that was issued is accepted for no other peer, no other payload and at no other time
  -- than the two minutes behind its issue, and only with a nonce that meets the difficulty of its
  -- issuer; what is then to be spent is the salt that it was issued with, until it expires.
  pub verify-issue :
      (by : Issuer) (peer payload salt now nonce peer' payload' later spent expires : ℕ)
      (ticket : Sealed)
      → issue mac_of hash by peer payload now salt ≡ ok ticket
      → verify mac_of hash by ticket nonce peer' payload' later ≡ ok (spent, expires)
      → (peer' ≡ peer)
        × (payload' ≡ payload)
        × (spent ≡ salt)
        × (expires ≡ now + 120)
        × (now ≤ later)
        × (later < now + 120)
        × (hash ticket nonce < 2 ^ (256 - by.bits))
  verify-issue by peer payload salt now nonce peer' payload' later spent expires ticket issued e =
      let same = issue_lem by peer payload now salt ticket issued in
      let only =
        verify-issued_only by peer payload salt now nonce peer' payload' later spent expires (
          subst
            (λ (t : Sealed).
              verify mac_of hash by t nonce peer' payload' later ≡ ok (spent, expires))
            (sym same) e) in
      let (a, b, c, d, f, g, h) = only in
      (a, b, c, d, f, g, subst (λ (t : Sealed). hash t nonce < 2 ^ (256 - by.bits)) same h)
