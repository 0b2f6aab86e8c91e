-- ===== src/Capio/Session.antt =====
-- Who may use the device: the ioctl path as a machine whose only state is the owner.
use solarflare_capio_kernel.Capio.Teardown.{last_error, revoked, revoke_cap_token_lem, release}
use solarflare_capio_kernel.Capio.Act.{unlocked, unlocked_eta, >>=-eq-some, pure}
use solarflare_capio_kernel.Capio.Revoke.{Vm, revoke_cap_token}
use solarflare_capio_kernel.Base.Errno.{einval, eperm}
use solarflare_capio_kernel.Capio.Ioctl.{
  goodbye, Cmd, Reply, driver, dispatch, ioctl_handler, attach,
}
use solarflare_capio_kernel.Capio.Token.{grant_token, set_cap_token, check_cap_token}
use solarflare_capio_kernel.Capio.Types.{Cheri, Softc, CapReq, Ops}
use mathlib.Core.Path.{subst}
use solarflare_capio_kernel.Base.{
  ℕ, ◌≡◌, Bool, Option, some, arith, ◌↔◌, true, false, Option-cases, is_some, none, ◌∙◌, ◌==◌, inl,
  refl, inr, if◌then◌else◌, Bool-cases, ◌⊎◌, map,
}

module _ {Cap : Type 0} (cheri : Cheri Cap) where
  -- The two halves of the token belong together.
  abbrev pub LinkedAt : Option Cap → Option Cap → Option Cap → Type 0
  LinkedAt key none sealed = sealed ≡ none
  LinkedAt key (some c) sealed = sealed ≡ some (cheri.seal c key)

  abbrev pub IsLinked : Softc Cap → Type 0
  IsLinked s = LinkedAt s.sealing_key s.original_cap s.sealed_cap

  -- The request presents a capability that unseals to the owner's.
  abbrev pub Presents : Softc Cap → Option Cap → Cap → Type 0
  Presents s token c =
      (t : Cap) × (token ≡ some t) × (cheri.unseal t s.sealing_key ≡ c) × (s.original_cap ≡ some c)

  module _ (s : Softc Cap) (l : IsLinked s) where
    unsealed :
        (t c : Cap)
        → s.original_cap ≡ some c
        → check_cap_token cheri s (some t) ≡ 0
        → cheri.unseal t s.sealing_key ≡ c
    unfolding check_cap_token
    unsealed t c owned h =
        (cheri.ptr_equal_exact_iff (cheri.unseal t s.sealing_key) c).0 (ground arith)

    passed :
        (token : Option Cap) → check_cap_token cheri s token ≡ 0 → (c : Cap) × Presents s token c
    unfolding check_cap_token
    passed none h = absurd (omega arith)
    passed (some t) h = elim (Option-cases s.original_cap) [
      | inl free ↦ absurd (ground arith)
      | inr (c, owned) ↦ (c, (t, refl, unsealed t c owned h, owned))
    ]

    accepted :
        (token : Option Cap) → ((c : Cap) × Presents s token c) → check_cap_token cheri s token ≡ 0
    unfolding check_cap_token
    accepted token (c, (t, e, u, o)) = rw e (ground (arith, (cheri.ptr_equal_exact_iff c c).1 refl))

  -- In a linked softc a token passes the check exactly when it unseals to the capability that the
  -- owner attached with.
  pub check_cap_token_iff :
      (s : Softc Cap) (token : Option Cap)
      → IsLinked s
      → (check_cap_token cheri s token ≡ 0) ↔ ((c : Cap) × Presents s token c)
  check_cap_token_iff s token l = (passed s l token, accepted s l token)

  -- What `set_cap_token` does from a free lock.
  abbrev pub attached : Bool → CapReq Cap → Option Cap → Softc Cap → (ℕ × CapReq Cap) × Softc Cap
  attached held req none s = ((einval, req), unlocked s)
  attached true req (some c) s = ((einval, req), unlocked s)
  attached false req (some c) s = (
    (0, record req { sealed_cap = some (cheri.seal c s.sealing_key) }),
    record s {
      original_cap = some c;
      sealed_cap = some (cheri.seal c s.sealing_key);
      locked = false;
    },
  )

  grant_token_lem :
      (held : Bool) (req : CapReq Cap) (user : Option Cap) (s : Softc Cap)
      → grant_token cheri held req user (record s { locked = true })
        ≡ some (attached held req user s)
  unfolding grant_token
  grant_token_lem true req none s = refl
  grant_token_lem false req none s = refl
  grant_token_lem true req (some c) s = refl
  grant_token_lem false req (some c) s = refl

  pub set_cap_token_lem :
      (req : CapReq Cap) (s : Softc Cap)
      → s.locked ≡ false
      → set_cap_token cheri req s ≡ some (attached (is_some s.sealed_cap) req req.user_cap s)
  unfolding set_cap_token
  set_cap_token_lem req s free =
      subst
        (λ t. set_cap_token cheri req t ≡ some (attached (is_some t.sealed_cap) req req.user_cap t))
        (unlocked_eta s free) (grant_token_lem (is_some s.sealed_cap) req req.user_cap (unlocked s))

  -- Attaching to a device that nobody owns, with a free lock and a sealing key, makes the caller
  -- the owner and hands out a token that passes the check.
  pub attach_opens :
      (s : Softc Cap) (req : CapReq Cap) (c k : Cap)
      → s.locked ≡ false
      → s.sealed_cap ≡ none
      → s.sealing_key ≡ some k
      → req.user_cap ≡ some c
      → (s' : Softc Cap) × (req' : CapReq Cap) × (set_cap_token cheri req s ≡ some ((0, req'), s'))
        × (s'.original_cap ≡ some c)
        × (check_cap_token cheri s' req'.sealed_cap ≡ 0)
  unfolding check_cap_token
  attach_opens s req c k free fresh key user = (
    (attached false req (some c) s).1,
    (attached false req (some c) s).0.1,
    set_cap_token_lem req s free ∙ rw (fresh, user),
    refl,
    rw (key, cheri.unseal-seal c k, (cheri.ptr_equal_exact_iff c c).1 refl),
  )

  -- A softc between calls.
  pub record IsIdle (s : Softc Cap) : Type 0 where
    pub free : s.locked ≡ false
    pub linked : IsLinked s

-- The owner after a call: attaching takes a device that nobody owns, an authorised goodbye gives
-- it up, and nothing else changes the owner.
abbrev pub next_owner : {Cap : Type 0} → Bool → Cmd → Option Cap → Option Cap → Option Cap
next_owner authorised attach none owner = owner
next_owner authorised attach (some c) none = some c
next_owner authorised attach (some c) (some o) = some o
next_owner true goodbye user owner = none
next_owner false goodbye user owner = owner
next_owner authorised (driver n) user owner = owner

module _ {Cap D : Type 0} (cheri : Cheri Cap) (ops : Ops D) (vm : Vm) where
  -- What holds after a call: it returned, the owner is the abstract machine's, the key is the
  -- same and the softc is idle again.
  pub record Serves (cmd : Cmd) (req : CapReq Cap) (s : Softc Cap)
      (r : Option (Reply Cap D × Softc Cap)) : Type 0 where
    pub reply : Reply Cap D
    pub state : Softc Cap
    pub returns : r ≡ some (reply, state)
    pub owner :
        state.original_cap
        ≡ next_owner (check_cap_token cheri s req.sealed_cap == 0) cmd req.user_cap s.original_cap
    pub key : state.sealing_key ≡ s.sealing_key
    pub idle : IsIdle cheri state
    pub flag : state.mapped ≡ s.mapped
    pub table : (state.regions ≡ s.regions) ⊎ (state.regions ≡ map (release vm) s.regions)

  attached-owner :
      (a : Bool) (req : CapReq Cap) (user : Option Cap) (s : Softc Cap)
      → IsLinked cheri s
      → (attached cheri (is_some s.sealed_cap) req user s).1.original_cap
        ≡ next_owner a attach user s.original_cap
  attached-owner a req none s l = refl
  attached-owner a req (some c) s l = ground arith

  pub attached-IsIdle :
      (req : CapReq Cap) (user : Option Cap) (s : Softc Cap)
      → IsLinked cheri s
      → IsIdle cheri (attached cheri (is_some s.sealed_cap) req user s).1
  attached-IsIdle req none s l = record { free = refl; linked = l }
  attached-IsIdle req (some c) s l = ground arith

  attached-key :
      (held : Bool) (req : CapReq Cap) (user : Option Cap) (s : Softc Cap)
      → (attached cheri held req user s).1.sealing_key ≡ s.sealing_key
  attached-key held req none s = refl
  attached-key true req (some c) s = refl
  attached-key false req (some c) s = refl

  attached-regions :
      (held : Bool) (req : CapReq Cap) (user : Option Cap) (s : Softc Cap)
      → ((attached cheri held req user s).1.mapped ≡ s.mapped)
        × ((attached cheri held req user s).1.regions ≡ s.regions)
  attached-regions held req none s = (refl, refl)
  attached-regions true req (some c) s = (refl, refl)
  attached-regions false req (some c) s = (refl, refl)

  attach-Serves :
      (req : CapReq Cap) (d : D) (s : Softc Cap)
      → IsIdle cheri s
      → Serves attach req s (dispatch cheri ops vm attach req d s)
  unfolding dispatch
  attach-Serves req d s i =
      let a = attached cheri (is_some s.sealed_cap) req req.user_cap s in
      record {
        reply = (a.0.0, a.0.1, d);
        state = a.1;
        returns = >>=-eq-some (set_cap_token cheri req) _ (set_cap_token_lem cheri req s i.free);
        owner =
            attached-owner (check_cap_token cheri s req.sealed_cap == 0) req req.user_cap s
              i.linked;
        key = attached-key (is_some s.sealed_cap) req req.user_cap s;
        idle = attached-IsIdle req req.user_cap s i.linked;
        flag = (attached-regions (is_some s.sealed_cap) req req.user_cap s).0;
        table = inl (attached-regions (is_some s.sealed_cap) req req.user_cap s).1;
      }

  goodbye-Serves :
      (req : CapReq Cap) (d : D) (s : Softc Cap)
      → IsIdle cheri s
      → check_cap_token cheri s req.sealed_cap == 0 ≡ true
      → Serves goodbye req s (dispatch cheri ops vm goodbye req d s)
  unfolding dispatch
  goodbye-Serves req d s i ok = record {
    reply = (last_error vm 0 s.regions, req, d);
    state = revoked vm s;
    returns =
        >>=-eq-some (revoke_cap_token vm) (λ rc. pure (rc, req, d)) {s = s}
          (revoke_cap_token_lem vm s i.free);
    owner = rw ok;
    key = refl;
    idle = record { free = refl; linked = refl };
    flag = refl;
    table = inr refl;
  }

  -- A call that leaves the softc alone.
  same-Serves :
      (cmd : Cmd) (req : CapReq Cap) (reply : Reply Cap D) (s : Softc Cap)
      → IsIdle cheri s
      → s.original_cap
        ≡ next_owner (check_cap_token cheri s req.sealed_cap == 0) cmd req.user_cap s.original_cap
      → Serves cmd req s (some (reply, s))
  same-Serves cmd req reply s i e = record {
    reply = reply;
    state = s;
    returns = refl;
    owner = e;
    key = refl;
    idle = i;
    flag = refl;
    table = inl refl;
  }

  -- Every ioctl on an idle softc, allowed or not, returns, leaves the owner that the abstract
  -- machine says, keeps the sealing key and leaves the softc idle.
  pub ioctl_refines :
      (cmd : Cmd) (req : CapReq Cap) (d : D) (s : Softc Cap)
      → IsIdle cheri s
      → Serves cmd req s (ioctl_handler cheri ops vm cmd req d s)
  unfolding ioctl_handler
  ioctl_refines attach req d s i = attach-Serves req d s i
  ioctl_refines goodbye req d s i =
      elim (Bool-cases (check_cap_token cheri s req.sealed_cap == 0)) [
        | inl ok ↦ rw ok (goodbye-Serves req d s i ok)
        | inr no_token ↦ rw no_token (same-Serves goodbye req _ s i (rw no_token))
      ]
  ioctl_refines (driver n) req d s i =
      elim (Bool-cases (check_cap_token cheri s req.sealed_cap == 0)) [
        | inl ok ↦ rw ok (same-Serves (driver n) req _ s i refl)
        | inr no_token ↦ rw no_token (same-Serves (driver n) req _ s i refl)
      ]

  -- The driver's own commands: they reach the driver exactly when the token passes the check;
  -- otherwise the caller gets EPERM, and neither the softc nor the driver's state changes.
  pub ioctl_driver :
      (n : ℕ) (req : CapReq Cap) (d : D) (s : Softc Cap)
      → ioctl_handler cheri ops vm (driver n) req d s ≡ (
          if check_cap_token cheri s req.sealed_cap == 0
          then some (((ops.ioctl n d).0, req, (ops.ioctl n d).1), s)
          else some ((eperm, req, d), s))
  unfolding ioctl_handler
  ioctl_driver n req d s = elim (Bool-cases (check_cap_token cheri s req.sealed_cap == 0)) [
    | inl ok ↦ rw ok
    | inr no_token ↦ rw no_token
  ]
