-- ===== src/Nic/Leaks.antt =====
-- `sfc7120_hw_init` of sfc7120.c: what its way back leaves with the controller.
use solarflare_capio_kernel.Base.{ℕ, Bool, true, false, ◌==◌, ◌≡◌, ◌≢◌, ◌∙◌, ap, refl, arith}
use solarflare_capio_kernel.Mcdi.Wire.{Device}
use solarflare_capio_kernel.Nic.State.{Softc}
use solarflare_capio_kernel.Nic.Attach.{get_version, drv_attach, clear_assertions}
use solarflare_capio_kernel.Nic.Bringup.{Bus, mcdi_init, mcdi_fini, or_fail, fail_mcdi, hw_init}
use solarflare_capio_kernel.Nic.Kept.{clear_assertions-Kept, drv_attach_ok}
use solarflare_capio_kernel.Nic.Ready.{mcdi_fini-initialized}

or_fail_ok :
    {F : Type 0} (r : ℕ × Softc F) (fail : ℕ × Softc F → ℕ × Softc F) (next : Softc F → ℕ × Softc F)
    → r.0 ≡ 0
    → or_fail r fail next ≡ next r.1
unfolding or_fail
or_fail_ok r fail next ok = rw ok refl

or_fail_bad :
    {F : Type 0} (r : ℕ × Softc F) (fail : ℕ × Softc F → ℕ × Softc F) (next : Softc F → ℕ × Softc F)
    → r.0 ≢ 0
    → or_fail r fail next ≡ fail r
unfolding or_fail
or_fail_bad r fail next bad = let e : (r.0 == 0) ≡ false = ground (arith, bad) in rw e refl

mcdi_fini-attached : {F : Type 0} (s : Softc F) → (mcdi_fini s).drv_attached ≡ s.drv_attached
unfolding mcdi_fini
mcdi_fini-attached s = ground arith

-- When a bring-up has attached the driver and the clearing of assertions fails, it returns that
-- failure with the transport down and the driver still attached: the way back starts behind the
-- detach.
pub hw_init_leaks :
    {F : Type 0} (d : Device F) (bus : Bus) (s : Softc F)
    → let r1 = mcdi_init d bus s in
      let r2 = get_version d r1.1 in
      let r3 = drv_attach d r2.1 in
      let r4 = clear_assertions d r3.1 in
      r1.0 ≡ 0
      → r2.0 ≡ 0
      → r3.0 ≡ 0
      → r4.0 ≢ 0
      → ((hw_init d bus s).0 ≡ r4.0)
        × ((hw_init d bus s).1.mcdi.initialized ≡ false)
        × ((hw_init d bus s).1.drv_attached ≡ true)
unfolding hw_init fail_mcdi
hw_init_leaks d bus s e1 e2 e3 bad =
    let r1 = mcdi_init d bus s in
    let r2 = get_version d r1.1 in
    let r3 = drv_attach d r2.1 in
    let r4 = clear_assertions d r3.1 in
    let ends : hw_init d bus s ≡ fail_mcdi r4 =
      or_fail_ok r1 _ _ e1 ∙ or_fail_ok r2 _ _ e2 ∙ or_fail_ok r3 _ _ e3 ∙ or_fail_bad r4 _ _ bad in
    let attached : r4.1.drv_attached ≡ true =
      ap (λ (p : Bool × Bool × Bool × Bool). p.1)
        (clear_assertions-Kept d r3.1 ∙ drv_attach_ok d r2.1 e3) in
    (
      ap (λ r. r.0) ends,
      ap (λ r. r.1.mcdi.initialized) ends ∙ mcdi_fini-initialized r4.1,
      ap (λ r. r.1.drv_attached) ends ∙ mcdi_fini-attached r4.1 ∙ attached,
    )
