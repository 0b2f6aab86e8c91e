-- ===== src/Stack/Leave.antt =====
-- `sfc7120_destroy` of userlib/sfc7120_user.c as the framework sees it: its system calls, replayed
-- on the softc of capio.c.
use Prim.Native.Nat.{suc, zero}
use solarflare_capio_kernel.Base.{
  ℕ, Bool, true, false, Option, none, some, not, ◌||◌, ◌&&◌, ◌+◌, ◌<◌, ◌≡◌, ◌∙◌, ap, refl, arith,
  List, [], ◌∷◌, map, inl, inr, Bool-cases, if◌then◌else◌,
}
use native.Mathlib.Decide.{ℕ_discrete}
use solarflare_capio_kernel.Base.Fault.{◌>>=◌}
use solarflare_capio_kernel.Capio.Types.{Cheri, Softc, Region, CapReq, Ops}
use solarflare_capio_kernel.Capio.Act.{>>=-eq-some, pure}
use solarflare_capio_kernel.Capio.Revoke.{Vm, revoke_cap_token}
use solarflare_capio_kernel.Capio.Ioctl.{goodbye, driver, is_attach, ioctl_handler, dispatch}
use solarflare_capio_kernel.Capio.Token.{check_cap_token}
use solarflare_capio_kernel.Capio.Pager.{pager_dtor, mark, any_mapped}
use solarflare_capio_kernel.Capio.Mapping.{destructed, pager_dtor_lem}
use solarflare_capio_kernel.Capio.Teardown.{revoked, revoke_cap_token_lem}
use solarflare_capio_kernel.Capio.Session.{ioctl_driver}
use solarflare_capio_kernel.Driver.Channel.{EvqSync}
use solarflare_capio_kernel.User.Session.{
  Session, SysCall, munmap, set_evq_rptr, put, unmap_regions, destroy,
}
use solarflare_capio_kernel.User.Session
use solarflare_capio_kernel.User.Balance.{
  Consistent, destroy-Destroyed, last_calls, final_sync, round, unmap_regions-Unmapped,
}
use solarflare_capio_kernel.Capio.Teardown.{release}

-- The session holds every region that the framework counts as mapped.
abbrev pub Backed : (ℕ → Bool) → List Region → Type 0
Backed held [] = Unit {0}
Backed held (r ∷ rs) = (r.kind < 6) × (not r.mapped || held r.kind ≡ true) × Backed held rs

-- No region counts as mapped but those whose munmap failed.
abbrev pub Unmapped : (ℕ → Bool) → List Region → Type 0
Unmapped unmaps [] = Unit {0}
Unmapped unmaps (r ∷ rs) = (not r.mapped || not (unmaps r.kind) ≡ true) × Unmapped unmaps rs

mark-Backed :
    (i : ℕ) (held : ℕ → Bool) (rs : List Region)
    → Backed held rs
    → Backed (put i (held i && false) held) (map (mark i false) rs)
unfolding mark
mark-Backed i held [] b = tt
mark-Backed i held (r ∷ rs) b =
    (ground (arith, b.0), ground (arith, b.1), mark-Backed i held rs b.2)

keep-Backed :
    (i : ℕ) (held : ℕ → Bool) (rs : List Region)
    → Backed held rs
    → Backed (put i (held i && true) held) rs
keep-Backed i held [] b = tt
keep-Backed i held (r ∷ rs) b = (
  b.0,
  elim (ℕ_discrete i r.kind) [
    | yes e ↦ ground (arith, b.1, ap held e, e)
    | no ne ↦ ground (arith, b.1, ne)
  ],
  keep-Backed i held rs b.2,
)

Backed-Unmapped :
    (unmaps held before : ℕ → Bool) (rs : List Region)
    → ((j : ℕ) → j < 6 → held j ≡ (before j && not (unmaps j)))
    → Backed held rs
    → Unmapped unmaps rs
Backed-Unmapped unmaps held before [] kept b = tt
Backed-Unmapped unmaps held before (r ∷ rs) kept b =
    (ground (arith, b.1, kept r.kind b.0), Backed-Unmapped unmaps held before rs kept b.2)

Unmapped-release :
    (unmaps : ℕ → Bool) (vm : Vm) (rs : List Region)
    → Unmapped unmaps rs
    → Unmapped unmaps (map (release vm) rs)
Unmapped-release unmaps vm [] u = tt
Unmapped-release unmaps vm (r ∷ rs) u = (ground (arith, u.0), Unmapped-release unmaps vm rs u.1)

Unmapped-none :
    (unmaps : ℕ → Bool) (rs : List Region)
    → ((j : ℕ) → unmaps j ≡ true)
    → Unmapped unmaps rs
    → any_mapped rs ≡ false
unfolding any_mapped
Unmapped-none unmaps [] works u = refl
Unmapped-none unmaps (r ∷ rs) works u =
    ground (arith, u.0, works r.kind, Unmapped-none unmaps rs works u.1)

module _ {Cap D : Type 0} (cheri : Cheri Cap) (ops : Ops D) (vm : Vm) (n : ℕ) (req : CapReq Cap)
    (d : D) where
  abbrev softc_of : {A : Type 0} → Option (A × Softc Cap) → Option (Softc Cap)
  softc_of none = none
  softc_of (some (r, c)) = some c

  -- What a call of destroy does to the softc: an munmap that works drops the last reference to the
  -- region's pager object. `n` is the number of SFC7120_SET_EVQ_RPTR; destroy makes no other calls.
  unfoldable pub kernel_call : SysCall → Softc Cap → Option (Softc Cap)
  kernel_call (munmap i true) c = softc_of (pager_dtor i c)
  kernel_call (munmap i false) c = some c
  kernel_call (set_evq_rptr sync) c = softc_of (ioctl_handler cheri ops vm (driver n) req d c)
  kernel_call Session.goodbye c = softc_of (ioctl_handler cheri ops vm goodbye req d c)
  kernel_call Session.capio_attach c = none
  kernel_call Session.get_vi_info c = none
  kernel_call Session.get_mac c = none
  kernel_call (Session.map i) c = none

  -- The calls, the last one first.
  unfoldable pub replay : List SysCall → Softc Cap → Option (Softc Cap)
  unfolding kernel_call
  replay [] c = some c
  replay (call ∷ calls) c = do c' ← replay calls c; kernel_call call c'

  record Serving (held : ℕ → Bool) (c : Softc Cap) : Type 0 where
    free : c.locked ≡ false
    token : check_cap_token cheri c req.sealed_cap ≡ 0
    backed : Backed held c.regions

  replay_more :
      (call : SysCall) (calls : List SysCall) (c0 c c' : Softc Cap)
      → replay calls c0 ≡ some c
      → kernel_call call c ≡ some c'
      → replay (call ∷ calls) c0 ≡ some c'
  unfolding replay
  replay_more call calls c0 c c' h k = rw h k

  call_munmap :
      (i : ℕ) (c : Softc Cap)
      → c.locked ≡ false
      → kernel_call (munmap i true) c ≡ some (destructed i c)
  unfolding kernel_call
  call_munmap i c free = ap softc_of (pager_dtor_lem i c free)

  call_sync :
      (sync : EvqSync) (c : Softc Cap)
      → check_cap_token cheri c req.sealed_cap ≡ 0
      → kernel_call (set_evq_rptr sync) c ≡ some c
  unfolding kernel_call
  call_sync sync c ok = ap softc_of (ioctl_driver cheri ops vm n req d c) ∙ rw ok refl

  call_goodbye :
      (c : Softc Cap)
      → c.locked ≡ false
      → check_cap_token cheri c req.sealed_cap ≡ 0
      → kernel_call Session.goodbye c ≡ some (revoked vm c)
  unfolding kernel_call ioctl_handler is_attach dispatch
  call_goodbye c free ok = rw ok (
      ap softc_of (
        >>=-eq-some (revoke_cap_token vm) (λ rc. pure (rc, req, d)) {s = c}
          (revoke_cap_token_lem vm c free)))

  same_token :
      (i : ℕ) (c : Softc Cap) (token : Option Cap)
      → check_cap_token cheri (destructed i c) token ≡ check_cap_token cheri c token
  unfolding check_cap_token
  same_token i c none = refl
  same_token i c (some t) = refl

  -- The session `r` and the softc after its calls.
  record Left (c0 : Softc Cap) (r : Session) : Type 0 where
    softc : Softc Cap
    replayed : replay r.trace c0 ≡ some softc
    serving : Serving r.map_held softc

  munmap-Left :
      (i : ℕ) (works : Bool) (c0 : Softc Cap) (s : Session)
      → Left c0 s
      → Left c0 (record s {
        base = put i false s.base;
        map_held = put i (s.map_held i && not works) s.map_held;
        trace = munmap i works ∷ s.trace;
      })
  unfolding kernel_call
  munmap-Left i true c0 s l = record {
    softc = destructed i l.softc;
    replayed =
        replay_more (munmap i true) s.trace c0 l.softc (destructed i l.softc) l.replayed
          (call_munmap i l.softc l.serving.free);
    serving = record {
      free = refl;
      token = same_token i l.softc req.sealed_cap ∙ l.serving.token;
      backed = mark-Backed i s.map_held l.softc.regions l.serving.backed;
    };
  }
  munmap-Left i false c0 s l = record {
    softc = l.softc;
    replayed = replay_more (munmap i false) s.trace c0 l.softc l.softc l.replayed refl;
    serving = record {
      free = l.serving.free;
      token = l.serving.token;
      backed = keep-Backed i s.map_held l.softc.regions l.serving.backed;
    };
  }

  unmap-Left :
      (unmaps : ℕ → Bool) (m i : ℕ) (c0 : Softc Cap) (s : Session)
      → Left c0 s
      → Left c0 (unmap_regions unmaps m i s)
  unfolding unmap_regions
  unmap-Left unmaps zero i c0 s l = l
  unmap-Left unmaps (suc m) i c0 s l =
      unmap-Left unmaps m (i + 1) c0 (round unmaps i s) (elim (Bool-cases (s.base i)) [
        | inl h ↦ rw h (munmap-Left i (unmaps i) c0 s l)
        | inr h ↦ rw h l
      ])

  replay_last :
      (valid used : Bool) (sync : SysCall) (t : List SysCall) (c0 c : Softc Cap)
      → ((c' : Softc Cap)
          → check_cap_token cheri c' req.sealed_cap ≡ 0
          → kernel_call sync c' ≡ some c')
      → replay t c0 ≡ some c
      → check_cap_token cheri c req.sealed_cap ≡ 0
      → replay (if valid && used then sync ∷ t else t) c0 ≡ some c
  replay_last valid used sync t c0 c quiet h ok = elim (Bool-cases (valid && used)) [
    | inl e ↦ rw e (replay_more sync t c0 c c h (quiet c ok))
    | inr e ↦ rw e h
  ]

  -- What the framework has after the calls of a destroy: no region counts as mapped but those
  -- whose munmap failed, the token is gone, and the mutex is free.
  pub record Vacant (unmaps : ℕ → Bool) (calls : List SysCall) (c : Softc Cap) : Type 0 where
    pub softc : Softc Cap
    pub replayed : replay calls c ≡ some softc
    pub unmapped : Unmapped unmaps softc.regions
    pub none_mapped : ((j : ℕ) → unmaps j ≡ true) → any_mapped softc.regions ≡ false
    pub original : softc.original_cap ≡ none
    pub sealed : softc.sealed_cap ≡ none
    pub free : softc.locked ≡ false

  -- A destroy of an open session whose fields tell what is held, on a framework whose mutex is
  -- free, that knows the session's token, and that counts no region as mapped but those that the
  -- session mapped, returns, and its system calls, counted from the destroy on, leave the framework
  -- vacant, whatever the munmaps answer: no region counts as mapped but those whose munmap failed,
  -- and none at all when every munmap works, so that the next session can map them; the token is
  -- gone, so that it can attach, and the mutex is free.
  pub destroy_vacates :
      (unmaps : ℕ → Bool) (s : Session) (c : Softc Cap)
      → Consistent s
      → s.fd ≡ true
      → s.trace ≡ []
      → c.locked ≡ false
      → check_cap_token cheri c req.sealed_cap ≡ 0
      → Backed s.map_held c.regions
      → (s' : Session) × (destroy unmaps s ≡ some s') × Vacant unmaps s'.trace c
  unfolding replay
  destroy_vacates unmaps s c k opened fresh free ok backed =
      let v = destroy-Destroyed unmaps s k in
      let loop = unmap_regions-Unmapped unmaps 6 0 s (λ j lo. k.maps j) in
      let u = unmap-Left unmaps 6 0 c s record {
        softc = c;
        replayed = ap (λ t. replay t c) fresh;
        serving = record { free = free; token = ok; backed = backed };
      } in
      let rest = Unmapped-release unmaps vm u.softc.regions (
        Backed-Unmapped unmaps (unmap_regions unmaps 6 0 s).map_held s.map_held u.softc.regions
          (λ j lt.
            ap (λ (r : Session). r.map_held j) loop.returns
            ∙ loop.kept j (omega arith) (omega (arith, lt)))
          u.serving.backed) in
      let t = (unmap_regions unmaps 6 0 s).trace in
      let before = if s.vi_info_valid && s.used_poll then final_sync s ∷ t else t in
      let sync : EvqSync = record {
        evq_read_ptr = s.evq_read_ptr;
        tx_head = s.tx_head;
        rx_head = s.rx_head;
      } in
      let calls : last_calls s t ≡ Session.goodbye ∷ before = rw opened refl in
      (
        v.session,
        v.returns,
        record {
          softc = revoked vm u.softc;
          replayed =
              ap (λ (t' : List SysCall). replay t' c) (v.order ∙ calls)
              ∙ replay_more Session.goodbye before c u.softc (revoked vm u.softc)
                  (replay_last s.vi_info_valid s.used_poll (final_sync s) t c u.softc
                    (call_sync sync) u.replayed u.serving.token)
                  (call_goodbye u.softc u.serving.free u.serving.token);
          unmapped = rest;
          none_mapped = λ works. Unmapped-none unmaps (map (release vm) u.softc.regions) works rest;
          original = refl;
          sealed = refl;
          free = refl;
        },
      )
