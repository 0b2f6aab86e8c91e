-- ===== src/User/Balance.antt =====
-- What `sfc7120_destroy` gives back, and in which order.
use Prim.Native.Nat.{suc, zero}
use solarflare_capio_kernel.Base.{
  ℕ, Bool, false, some, ◌&&◌, ◌+◌, ◌<◌, ◌≤◌, ◌≡◌, ◌∙◌, sym, ap, refl, List, ◌∷◌, arith, inl, inr,
  Bool-cases, if◌then◌else◌, true, none, not,
}
use native.Mathlib.Decide.{ℕ_discrete}
use solarflare_capio_kernel.User.Session.{
  Session, SysCall, goodbye, set_evq_rptr, munmap, put, unmap_regions, sync_heads, say_goodbye,
  free_slices, free_token, close_modmap, close_device, destroy,
}

-- The fields tell what is held.
pub record Consistent (s : Session) : Type 0 where
  pub fd : s.fd_held ≡ s.fd
  pub modmap : s.modmap_held ≡ s.modmap_fd
  pub token : s.token_held ≡ s.cap_token
  pub slices : s.slices_held ≡ s.mmio_slices
  pub maps : (i : ℕ) → s.map_held i ≡ s.base i

-- Nothing is held, but for the mappings whose munmap fails.
pub record Clean (unmaps : ℕ → Bool) (s : Session) : Type 0 where
  pub fd : s.fd_held ≡ false
  pub modmap : s.modmap_held ≡ false
  pub token : s.token_held ≡ false
  pub slices : s.slices_held ≡ false
  pub maps : (i : ℕ) → i < 6 → (s.map_held i && unmaps i) ≡ false

-- What the loop leaves: of `n` regions from `i` on, those are held still whose munmap failed, and
-- nothing else changed.
pub record Unmapped (unmaps : ℕ → Bool) (n i : ℕ) (s : Session) : Type 0 where
  pub base : ℕ → Bool
  pub held : ℕ → Bool
  pub trace : List SysCall
  pub returns :
      unmap_regions unmaps n i s ≡ record s { base = base; map_held = held; trace = trace }
  pub kept : (j : ℕ) → i ≤ j → j < i + n → held j ≡ (s.map_held j && not (unmaps j))
  pub before : (j : ℕ) → j < i → held j ≡ s.map_held j

abbrev pub round : (ℕ → Bool) → ℕ → Session → Session
round unmaps i s =
    if s.base i
    then record s {
      base = put i false s.base;
      map_held = put i (s.map_held i && not (unmaps i)) s.map_held;
      trace = munmap i (unmaps i) ∷ s.trace;
    }
    else s

pub unmap_regions-Unmapped :
    (unmaps : ℕ → Bool) (n i : ℕ) (s : Session)
    → ((j : ℕ) → i ≤ j → s.map_held j ≡ s.base j)
    → Unmapped unmaps n i s
unfolding unmap_regions
unmap_regions-Unmapped unmaps zero i s same = record {
  base = s.base;
  held = s.map_held;
  trace = s.trace;
  returns = refl;
  kept = λ j lo hi. absurd (omega arith);
  before = λ j lt. refl;
}
unmap_regions-Unmapped unmaps (suc n) i s same = elim (Bool-cases (s.base i)) [
  | inl here ↦
      let s1 = record s {
        base = put i false s.base;
        map_held = put i (s.map_held i && not (unmaps i)) s.map_held;
        trace = munmap i (unmaps i) ∷ s.trace;
      } in
      let u = unmap_regions-Unmapped unmaps n (i + 1) s1 (λ j lo. ground (arith, same j, lo)) in
      record {
        base = u.base;
        held = u.held;
        trace = u.trace;
        returns = ap (λ b. unmap_regions unmaps n (i + 1) (if b then s1 else s)) here ∙ u.returns;
        kept = λ j lo hi. elim (ℕ_discrete i j) [
          | yes e ↦ u.before j (omega arith) ∙ ground (arith, e, ap s.map_held e, ap unmaps e)
          | no ne ↦ u.kept j (omega (arith, ne)) (omega arith) ∙ ground (arith, ne)
        ];
        before = λ j lt. u.before j (omega arith) ∙ ground (arith, lt);
      }
  | inr none_here ↦
      let u = unmap_regions-Unmapped unmaps n (i + 1) s (λ j lo. same j (omega arith)) in
      record {
        base = u.base;
        held = u.held;
        trace = u.trace;
        returns = ap (unmap_regions unmaps n (i + 1)) (rw none_here refl) ∙ u.returns;
        kept = λ j lo hi. elim (ℕ_discrete i j) [
          | yes e ↦
              let gone = same j lo ∙ ap s.base (sym e) ∙ none_here in
              u.before j (omega arith) ∙ gone ∙ rw gone refl
          | no ne ↦ u.kept j (omega (arith, ne)) (omega arith)
        ];
        before = λ j lt. u.before j (omega arith);
      }
]

free_slices_lem :
    (s : Session)
    → s.slices_held ≡ s.mmio_slices
    → (len : ℕ) × (free_slices s
        ≡ some (record s { mmio_slices = false; mmio_slices_len = len; slices_held = false }))
unfolding free_slices
free_slices_lem s e = ((if s.mmio_slices then 0 else s.mmio_slices_len), ground (arith, e))

free_token_lem :
    (s : Session)
    → s.token_held ≡ s.cap_token
    → free_token s ≡ some (record s { cap_token = false; token_held = false })
unfolding free_token
free_token_lem s e = ground (arith, e)

close_modmap_lem :
    (s : Session)
    → s.modmap_held ≡ s.modmap_fd
    → close_modmap s ≡ some (record s { modmap_held = false })
unfolding close_modmap
close_modmap_lem s e = ground (arith, e)

close_device_lem :
    (s : Session) → s.fd_held ≡ s.fd → close_device s ≡ some (record s { fd_held = false })
unfolding close_device
close_device_lem s e = ground (arith, e)

abbrev pub final_sync : Session → SysCall
final_sync s =
    set_evq_rptr
      (record { evq_read_ptr = s.evq_read_ptr; tx_head = s.tx_head; rx_head = s.rx_head })

-- The calls after the last munmap, for the calls `t` before.
abbrev pub last_calls : Session → List SysCall → List SysCall
last_calls s t =
    if s.fd then goodbye ∷ (if s.vi_info_valid && s.used_poll then final_sync s ∷ t else t) else t

say_goodbye_lem :
    (s : Session) → say_goodbye (sync_heads s) ≡ record s { trace = last_calls s s.trace }
unfolding say_goodbye sync_heads
say_goodbye_lem s = ground arith

-- The result of a destroy.
pub record Destroyed (unmaps : ℕ → Bool) (s : Session) : Type 0 where
  pub session : Session
  pub returns : destroy unmaps s ≡ some session
  pub clean : Clean unmaps session
  pub kept : (i : ℕ) → i < 6 → session.map_held i ≡ (s.map_held i && not (unmaps i))
  pub order : session.trace ≡ last_calls s (unmap_regions unmaps 6 0 s).trace

-- A destroy of a session whose fields tell what is held, whatever the munmaps answer, frees and
-- closes only what is held, and afterwards nothing is held but the mappings whose munmap failed,
-- which are held still. The kernel sees the munmaps first, then the library's heads, if an own
-- poll, receive or transmit moved them and the kernel's were read, and the goodbye last.
pub destroy-Destroyed : (unmaps : ℕ → Bool) (s : Session) → Consistent s → Destroyed unmaps s
unfolding destroy
destroy-Destroyed unmaps s c =
    let u = unmap_regions-Unmapped unmaps 6 0 s (λ j lo. c.maps j) in
    let s1 = record s {
      base = u.base;
      map_held = u.held;
      tx_buffer = false;
      rx_buffer = false;
      tx_desc_ring = false;
      rx_desc_ring = false;
      evq_ring = false;
      trace = u.trace;
    } in
    let s2 = record s1 { trace = last_calls s u.trace } in
    let (len, freed) = free_slices_lem s2 c.slices in
    let s3 = record s2 { mmio_slices = false; mmio_slices_len = len; slices_held = false } in
    let s4 = record s3 { cap_token = false; token_held = false } in
    let s5 = record s4 { modmap_held = false } in
    record {
      session = record s5 { fd_held = false };
      returns =
          rw
            (
              u.returns,
              say_goodbye_lem s1,
              freed,
              free_token_lem s3 c.token,
              close_modmap_lem s4 c.modmap,
              close_device_lem s5 c.fd,
            )
            refl;
      clean = record {
        fd = refl;
        modmap = refl;
        token = refl;
        slices = refl;
        maps = λ i lt. rw (u.kept i (omega arith) (omega arith)) (ground arith);
      };
      kept = λ i lt. u.kept i (omega arith) (omega arith);
      order = ap (λ (r : Session). last_calls s r.trace) (sym u.returns);
    }

free_token_faults : (s : Session) → s.cap_token ≡ true → s.token_held ≡ false → free_token s ≡ none
unfolding free_token
free_token_faults s e h = ground (arith, e, h)

-- A token pointer that is not NULL and not from malloc is freed.
pub destroy_faults :
    (unmaps : ℕ → Bool) (s : Session)
    → ((i : ℕ) → s.map_held i ≡ s.base i)
    → s.slices_held ≡ s.mmio_slices
    → s.cap_token ≡ true
    → s.token_held ≡ false
    → destroy unmaps s ≡ none
unfolding destroy
destroy_faults unmaps s maps slices garbage held =
    let u = unmap_regions-Unmapped unmaps 6 0 s (λ j lo. maps j) in
    let s1 = record s {
      base = u.base;
      map_held = u.held;
      tx_buffer = false;
      rx_buffer = false;
      tx_desc_ring = false;
      rx_desc_ring = false;
      evq_ring = false;
      trace = u.trace;
    } in
    let s2 = record s1 { trace = last_calls s u.trace } in
    let (len, freed) = free_slices_lem s2 slices in
    let s3 = record s2 { mmio_slices = false; mmio_slices_len = len; slices_held = false } in
    rw (u.returns, say_goodbye_lem s1, freed, free_token_faults s3 garbage held) refl
