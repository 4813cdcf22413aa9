-- ===== src/Bootstrap/Kept.antt =====
-- What every step of a seed's directory keeps, agentmesh/bootstrap.py.
use intertexum.Prelude.{
  ℕ, ◌≤◌, ◌≡◌, refl, Bool, false, [], ◌∷◌, Option, lookup, delete, Result, ok, err, is_ok, arith,
}
use mathlib.Core.Path.{subst}
use intertexum.Crypto.{Env, RemovalBody}
use intertexum.Defense.{Defense, consume, limit_minute}
use intertexum.Rendezvous.{remove}
use intertexum.Bootstrap.{
  Outside, Announcement, Removal, Directory, purge, schedule, settle_removal, deregister_valid,
  deregister, forget, store_announcement, note_registration, register_paid, register,
}
use intertexum.Bootstrap.Dispatch.{
  Request, connectivity, challenge, register_with, deregister_with, discover_from, dispatch,
}
use intertexum.Bootstrap.Steps.{
  Follows, here, asked, purged, forgot, waited, at_time, IsSame, call-IsSame,
}

-- A predicate of the clock, the removals and the spent salts that the writes of the code keep.
pub record IsKept (env : Env) (out : Outside) (P : Directory → Type 0) : Type 0 where
  pub same : (a b : Directory) → IsSame b a → P a → P b
  pub sweep : (dir : Directory) (d : Defense) → P dir → P (purge dir d).0
  pub removal :
      (dir dir' : Directory) (b : RemovalBody) (id : ℕ) (o : Option Removal) (old : Removal)
      → schedule dir b id o ≡ ok (dir', old)
      → P dir
      → P dir'
  pub storing :
      (dir dir' : Directory) (obj : Announcement) (salt expires : ℕ) (allowed : Bool)
      → store_announcement env out dir obj salt expires allowed ≡ ok dir'
      → P dir
      → P dir'
  pub later : (dir : Directory) (now : ℕ) → dir.node.now ≤ now → P dir → P (at_time dir now)

module _ (env : Env) (out : Outside) (reaches : ℕ → ℕ → Bool) (P : Directory → Type 0)
    (kept : IsKept env out P) where
  settle_removal-kept :
      (dir : Directory) (d : Defense) (b : RemovalBody) (id : ℕ) (o : Result (Directory × Removal))
      → P dir
      → ((x : Directory) (old : Removal) → o ≡ ok (x, old) → P x)
      → P (settle_removal env dir d b id o).0
  unfolding settle_removal
  settle_removal-kept dir d b id (err e) h k = h
  settle_removal-kept dir d b id (ok (dir', old)) h k = k dir' old refl

  deregister_valid-kept :
      (dir : Directory) (d : Defense) (id : ℕ) (o : Result RemovalBody)
      → P dir
      → P (deregister_valid env dir d id o).0
  unfolding deregister_valid
  deregister_valid-kept dir d id (err e) h = h
  deregister_valid-kept dir d id (ok b) h =
      let emptied = record dir { mailbox = remove b.peer dir.mailbox } in
      let swept = purge emptied d in
      let found = lookup b.peer swept.0.removals in
      let held =
        kept.sweep emptied d
          (kept.same dir emptied (record { removals = refl; spent = refl; node = refl }) h) in
      settle_removal-kept swept.0 swept.1 b id (schedule swept.0 b id found) held
        (λ x old e. kept.removal swept.0 x b id found old e held)

  note_registration-kept :
      (dir : Directory) (d : Defense) (obj : Announcement) (o : Result Directory)
      → P dir
      → ((x : Directory) → o ≡ ok x → P x)
      → P (note_registration env out dir d obj o).0
  unfolding note_registration
  note_registration-kept dir d obj (err e) h k = h
  note_registration-kept dir d obj (ok dir') h k = k dir' refl

  register_paid-kept :
      (dir : Directory) (d : Defense) (obj : Announcement) (o : Result (ℕ × ℕ))
      → P dir
      → P (register_paid env out dir d obj o).0
  unfolding register_paid
  register_paid-kept dir d obj (err e) h = h
  register_paid-kept dir d obj (ok (salt, expires)) h =
      let paid = consume d (limit_minute 20 obj.body.card.id 1 2 ∷ []) in
      note_registration-kept dir paid.0 obj (store_announcement env out dir obj salt expires paid.1)
        h (λ x e. kept.storing dir x obj salt expires paid.1 e h)

  dispatch-kept :
      (dir : Directory) (d : Defense) (request : Request) (source salt : ℕ)
      → P dir
      → P (dispatch env out reaches dir d request source salt).0
  unfolding dispatch register deregister
  dispatch-kept dir d (connectivity obj) source salt h =
      kept.same dir _ (call-IsSame out reaches env dir d obj source) h
  dispatch-kept dir d (challenge _ _) source salt h = h
  dispatch-kept dir d (register_with obj ticket nonce) source salt h =
      register_paid-kept dir d obj _ h
  dispatch-kept dir d (deregister_with obj) source salt h = deregister_valid-kept dir d obj.id _ h
  dispatch-kept dir d (discover_from after) source salt h = h

  -- What the writes keep stands in every directory that follows.
  pub Follows-kept : (a b : Directory) → Follows env out reaches a b → P a → P b
  unfolding forget
  Follows-kept a _ here h = h
  Follows-kept a _ (asked {x} d request source salt f) h =
      dispatch-kept x d request source salt (Follows-kept a x f h)
  Follows-kept a _ (purged {x} d f) h = kept.sweep x d (Follows-kept a x f h)
  Follows-kept a b (forgot {x} d d' p f e) h =
      let gone = record x { announcements = delete p x.announcements } in
      let same : gone ≡ b = ground arith in
      subst P same (
        kept.same x gone (record { removals = refl; spent = refl; node = refl })
          (Follows-kept a x f h))
  Follows-kept a _ (waited {x} now le f) h = kept.later x now le (Follows-kept a x f h)

module _ (env : Env) (out : Outside) where
  -- what is refused before the limit is charged changes nothing
  pub register_paid-refused :
      (dir : Directory) (d : Defense) (obj : Announcement) (o : Result (ℕ × ℕ))
      → is_ok o ≡ false
      → (is_ok (register_paid env out dir d obj o).2 ≡ false)
        × ((register_paid env out dir d obj o).0 ≡ dir)
  unfolding register_paid
  register_paid-refused dir d obj (err e) bad = (refl, refl)
  register_paid-refused dir d obj (ok x) bad = cc
