-- ===== src/Nic/Ready.antt =====
-- `sfc7120_hw_init`: what holds after it, on success and on failure.

use solarflare_capio_kernel.Nic.Link.{set_link, set_mac, get_phy_cfg}
use solarflare_capio_kernel.Nic.Port.{get_mac, alloc_vis, vadaptor_alloc}
use solarflare_capio_kernel.Nic.Kept.{
  progress, wait_link-Kept, set_link-Kept, set_mac-Kept, get_phy_cfg-Kept, vadaptor_alloc_ok,
  alloc_vis_ok, dump_func_info-Kept, get_mac-Kept, entity_reset-Kept, clear_assertions-Kept,
  drv_attach_ok, get_version-Kept,
}
use solarflare_capio_kernel.Nic.Attach.{
  drv_detach, get_version, clear_assertions, drv_attach, entity_reset, dump_func_info,
}
use solarflare_capio_kernel.Mcdi.Wire.{Device}
use solarflare_capio_kernel.Nic.State.{Softc}
use solarflare_capio_kernel.Base.{
  ℕ, ◌≢◌, ◌≡◌, Bool-cases, false, ◌==◌, arith, inl, inr, true, refl, ◌∙◌, ap, Bool,
}
use solarflare_capio_kernel.Nic.Bringup.{
  or_fail, mcdi_fini, fail_mcdi, fail_attach, mcdi_init, Bus, hw_init, wait_link,
}
use Prim.Native.Nat.{ℕ}

-- A step of the bring-up: what holds of the result holds of both ways it can go on.
or_fail-elim :
    {F : Type 0} (P : ℕ × Softc F → Type 0) (r : ℕ × Softc F) (fail : ℕ × Softc F → ℕ × Softc F)
    (next : Softc F → ℕ × Softc F)
    → (r.0 ≢ 0 → P (fail r))
    → (r.0 ≡ 0 → P (next r.1))
    → P (or_fail r fail next)
unfolding or_fail
or_fail-elim P r fail next bad good = elim (Bool-cases (r.0 == 0)) [
  | inl e ↦ rw e (good (ground arith))
  | inr e ↦ rw e (bad (ground arith))
]

-- A failed bring-up leaves the transport down.
abbrev DownOnError : {F : Type 0} → ℕ × Softc F → Type 0
DownOnError r = r.0 ≢ 0 → r.1.mcdi.initialized ≡ false

pub mcdi_fini-initialized : {F : Type 0} (s : Softc F) → (mcdi_fini s).mcdi.initialized ≡ false
unfolding mcdi_fini
mcdi_fini-initialized s = ground arith

fail_mcdi-down : {F : Type 0} (r : ℕ × Softc F) → DownOnError (fail_mcdi r)
unfolding fail_mcdi
fail_mcdi-down r h = mcdi_fini-initialized r.1

fail_attach-down : {F : Type 0} (d : Device F) (r : ℕ × Softc F) → DownOnError (fail_attach d r)
unfolding fail_attach
fail_attach-down d r h = mcdi_fini-initialized (drv_detach d r.1).1

mcdi_init-down :
    {F : Type 0} (d : Device F) (bus : Bus) (s : Softc F)
    → s.mcdi.initialized ≡ false
    → DownOnError (mcdi_init d bus s)
unfolding mcdi_init
mcdi_init-down d bus s down h = ground (arith, down, h)

-- A bring-up that fails, at whatever step, has taken the transport down again.
pub hw_init_down :
    {F : Type 0} (d : Device F) (bus : Bus) (s : Softc F)
    → s.mcdi.initialized ≡ false
    → (hw_init d bus s).0 ≢ 0
    → (hw_init d bus s).1.mcdi.initialized ≡ false
unfolding hw_init
hw_init_down d bus s down =
    or_fail-elim DownOnError _ _ _ (λ _. mcdi_init-down d bus s down)
      λ _.
        or_fail-elim DownOnError _ _ _ (λ _. fail_mcdi-down _)
          λ _.
            or_fail-elim DownOnError _ _ _ (λ _. fail_mcdi-down _)
              λ _.
                or_fail-elim DownOnError _ _ _ (λ _. fail_mcdi-down _)
                  λ _.
                    or_fail-elim DownOnError _ _ _ (λ _. fail_attach-down d _)
                      λ _.
                        or_fail-elim DownOnError _ _ _ (λ _. fail_attach-down d _)
                          λ _.
                            or_fail-elim DownOnError _ _ _ (λ _. fail_attach-down d _)
                              λ _.
                                or_fail-elim DownOnError _ _ _ (λ _. fail_attach-down d _)
                                  λ _.
                                    or_fail-elim DownOnError _ _ _ (λ _. fail_attach-down d _)
                                      λ _.
                                        or_fail-elim DownOnError _ _ _ (λ _. fail_attach-down d _)
                                          λ _.
                                            or_fail-elim DownOnError _ _ _
                                              (λ _. fail_attach-down d _)
                                              λ _.
                                                or_fail-elim DownOnError _ _ _
                                                  (λ _. fail_attach-down d _) λ _ h. absurd (h refl)

-- A bring-up that returns 0 has recorded every step.
abbrev UpOnSuccess : {F : Type 0} → ℕ × Softc F → Type 0
UpOnSuccess r = r.0 ≡ 0 → progress r.1 ≡ (true, true, true, true)

fail_mcdi-up : {F : Type 0} (r : ℕ × Softc F) → r.0 ≢ 0 → UpOnSuccess (fail_mcdi r)
unfolding fail_mcdi
fail_mcdi-up r bad h = absurd (bad h)

fail_attach-up :
    {F : Type 0} (d : Device F) (r : ℕ × Softc F) → r.0 ≢ 0 → UpOnSuccess (fail_attach d r)
unfolding fail_attach
fail_attach-up d r bad h = absurd (bad h)

mcdi_init_ok :
    {F : Type 0} (d : Device F) (bus : Bus) (s : Softc F)
    → (mcdi_init d bus s).0 ≡ 0
    → (mcdi_init d bus s).1.mcdi.initialized ≡ true
unfolding mcdi_init
mcdi_init_ok d bus s h = ground (arith, h)

-- The steps of a bring-up that succeeded, one after the other.
steps_up :
    {F : Type 0} (d : Device F) (bus : Bus) (s : Softc F)
    → let s1 = (mcdi_init d bus s).1 in
      let s2 = (get_version d s1).1 in
      let s4 = (clear_assertions d (drv_attach d s2).1).1 in
      let s6 = (get_mac d (entity_reset d s4).1).1 in
      let s7 = (alloc_vis d 1 32 (dump_func_info d s6).1).1 in
      let s8 = (vadaptor_alloc d s7).1 in
      (mcdi_init d bus s).0 ≡ 0
      → (drv_attach d s2).0 ≡ 0
      → (alloc_vis d 1 32 (dump_func_info d s6).1).0 ≡ 0
      → (vadaptor_alloc d s7).0 ≡ 0
      → progress (wait_link d 30 (set_link d (set_mac d (get_phy_cfg d s8).1).1).1).1
        ≡ (true, true, true, true)
steps_up d bus s e1 e3 e7 e8 =
    let s1 = (mcdi_init d bus s).1 in
    let s2 = (get_version d s1).1 in
    let s3 = (drv_attach d s2).1 in
    let s4 = (clear_assertions d s3).1 in
    let s5 = (entity_reset d s4).1 in
    let s6 = (get_mac d s5).1 in
    let s6' = (dump_func_info d s6).1 in
    let s7 = (alloc_vis d 1 32 s6').1 in
    let s8 = (vadaptor_alloc d s7).1 in
    let s9 = (get_phy_cfg d s8).1 in
    let s10 = (set_mac d s9).1 in
    let s11 = (set_link d s10).1 in
    wait_link-Kept d 30 s11
    ∙ set_link-Kept d s10
    ∙ set_mac-Kept d s9
    ∙ get_phy_cfg-Kept d s8
    ∙ vadaptor_alloc_ok d s7 e8
    ∙ ap (λ (p : Bool × Bool × Bool × Bool). (p.0, p.1, p.2, true)) (alloc_vis_ok d 1 32 s6' e7)
    ∙ ap (λ (p : Bool × Bool × Bool × Bool). (p.0, p.1, true, true))
        (dump_func_info-Kept d s6
          ∙ get_mac-Kept d s5
          ∙ entity_reset-Kept d s4
          ∙ clear_assertions-Kept d s3
          ∙ drv_attach_ok d s2 e3)
    ∙ ap (λ (p : Bool × Bool × Bool × Bool). (p.0, true, true, true)) (get_version-Kept d s1)
    ∙ ap (λ b. (b, true, true, true)) (mcdi_init_ok d bus s e1)

-- A bring-up that succeeds, whatever it started from, has the transport initialised, the driver
-- attached, and the virtual interfaces and the vAdaptor allocated.
pub hw_init_up :
    {F : Type 0} (d : Device F) (bus : Bus) (s : Softc F)
    → (hw_init d bus s).0 ≡ 0
    → progress (hw_init d bus s).1 ≡ (true, true, true, true)
unfolding hw_init
hw_init_up d bus s =
    or_fail-elim UpOnSuccess _ _ _ (λ bad h. absurd (bad h))
      λ e1. or_fail-elim UpOnSuccess _ _ _ (fail_mcdi-up _) λ _.
        or_fail-elim UpOnSuccess _ _ _ (fail_mcdi-up _) λ e3.
          or_fail-elim UpOnSuccess _ _ _ (fail_mcdi-up _) λ _.
            or_fail-elim UpOnSuccess _ _ _ (fail_attach-up d _) λ _.
              or_fail-elim UpOnSuccess _ _ _ (fail_attach-up d _) λ _.
                or_fail-elim UpOnSuccess _ _ _ (fail_attach-up d _) λ e7.
                  or_fail-elim UpOnSuccess _ _ _ (fail_attach-up d _) λ e8.
                    or_fail-elim UpOnSuccess _ _ _ (fail_attach-up d _) λ _.
                      or_fail-elim UpOnSuccess _ _ _ (fail_attach-up d _) λ _.
                        or_fail-elim UpOnSuccess _ _ _ (fail_attach-up d _) λ _.
                          or_fail-elim UpOnSuccess _ _ _ (fail_attach-up d _)
                            λ _ _. steps_up d bus s e1 e3 e7 e8
