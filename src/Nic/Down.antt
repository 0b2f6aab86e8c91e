-- ===== src/Nic/Down.antt =====
-- `sfc7120_hw_teardown`: what is released, whatever the controller answers.

use solarflare_capio_kernel.Nic.Ready.{mcdi_fini-initialized}
use solarflare_capio_kernel.Base.Errno.{ebusy}
use solarflare_capio_kernel.Mcdi.Wire.{Device}
use solarflare_capio_kernel.Base.{Bool, ◌≡◌, false, ℕ, arith, ◌∙◌, ap, ◌==◌, if◌then◌else◌}
use solarflare_capio_kernel.Nic.Bringup.{mcdi_fini, hw_teardown}
use solarflare_capio_kernel.Nic.Attach.{drv_detach}
use solarflare_capio_kernel.Nic.Port.{vadaptor_free, free_vis}
use solarflare_capio_kernel.Nic.Queue.{fini_txq, fini_rxq, fini_evq, evq_flag}
use solarflare_capio_kernel.Nic.Filter.{filter_remove}
use solarflare_capio_kernel.Nic.State.{Softc}

abbrev active : {F : Type 0} → Softc F → Bool × Bool × Bool × Bool
active s = (s.rx_filter_inserted, s.txq_initialized, s.rxq_initialized, s.vadaptor_allocated)

filter_remove_lem :
    {F : Type 0} (d : Device F) (s : Softc F)
    → active (filter_remove d s).1
      ≡ (false, s.txq_initialized, s.rxq_initialized, s.vadaptor_allocated)
unfolding filter_remove
filter_remove_lem d s = ground arith

fini_txq_lem :
    {F : Type 0} (d : Device F) (s : Softc F)
    → active (fini_txq d 0 s).1
      ≡ (s.rx_filter_inserted, false, s.rxq_initialized, s.vadaptor_allocated)
unfolding fini_txq
fini_txq_lem d s = ground arith

fini_rxq_lem :
    {F : Type 0} (d : Device F) (s : Softc F)
    → active (fini_rxq d 0 s).1
      ≡ (s.rx_filter_inserted, s.txq_initialized, false, s.vadaptor_allocated)
unfolding fini_rxq
fini_rxq_lem d s = ground arith

vadaptor_free_lem :
    {F : Type 0} (d : Device F) (s : Softc F)
    → active (vadaptor_free d s).1
      ≡ (s.rx_filter_inserted, s.txq_initialized, s.rxq_initialized, false)
unfolding vadaptor_free
vadaptor_free_lem d s = ground arith

fini_evq_keeps :
    {F : Type 0} (d : Device F) (instance_no : ℕ) (s : Softc F)
    → active (fini_evq d instance_no s).1 ≡ active s
unfolding fini_evq
fini_evq_keeps d instance_no s = ground arith

free_vis_keeps : {F : Type 0} (d : Device F) (s : Softc F) → active (free_vis d s).1 ≡ active s
unfolding free_vis
free_vis_keeps d s = ground arith

drv_detach_keeps : {F : Type 0} (d : Device F) (s : Softc F) → active (drv_detach d s).1 ≡ active s
unfolding drv_detach
drv_detach_keeps d s = ground arith

mcdi_fini_keeps : {F : Type 0} (s : Softc F) → active (mcdi_fini s) ≡ active s
unfolding mcdi_fini
mcdi_fini_keeps s = ground arith

teardown_active :
    {F : Type 0} (d : Device F) (s : Softc F)
    → active (hw_teardown d s) ≡ (false, false, false, false)
unfolding hw_teardown
teardown_active d s =
    let s1 = (filter_remove d s).1 in
    let s2 = (fini_txq d 0 s1).1 in
    let s3 = (fini_rxq d 0 s2).1 in
    let s4 = (fini_evq d 1 s3).1 in
    let s5 = (fini_evq d 0 s4).1 in
    let s6 = (vadaptor_free d s5).1 in
    let s7 = (free_vis d s6).1 in
    mcdi_fini_keeps (drv_detach d s7).1
    ∙ drv_detach_keeps d s7
    ∙ free_vis_keeps d s6
    ∙ vadaptor_free_lem d s5
    ∙ ap (λ (p : Bool × Bool × Bool × Bool). (p.0, p.1, p.2, false))
        (fini_evq_keeps d 0 s4 ∙ fini_evq_keeps d 1 s3 ∙ fini_rxq_lem d s2)
    ∙ ap (λ (p : Bool × Bool × Bool × Bool). (p.0, p.1, false, false)) (fini_txq_lem d s1)
    ∙ ap (λ (p : Bool × Bool × Bool × Bool). (p.0, false, false, false)) (filter_remove_lem d s)

teardown_initialized :
    {F : Type 0} (d : Device F) (s : Softc F) → (hw_teardown d s).mcdi.initialized ≡ false
unfolding hw_teardown
teardown_initialized d s = mcdi_fini-initialized _

-- After a teardown, whatever state it began in and whatever the controller answered, the
-- transport is down and no filter, transmit queue, receive queue or vAdaptor counts as held.
pub hw_teardown_lem :
    {F : Type 0} (d : Device F) (s : Softc F)
    → let s' = hw_teardown d s in
      (s'.mcdi.initialized ≡ false)
      × (s'.rx_filter_inserted ≡ false)
      × (s'.txq_initialized ≡ false)
      × (s'.rxq_initialized ≡ false)
      × (s'.vadaptor_allocated ≡ false)
hw_teardown_lem d s = (
  teardown_initialized d s,
  ap (λ (p : Bool × Bool × Bool × Bool). p.0) (teardown_active d s),
  ap (λ (p : Bool × Bool × Bool × Bool). p.1) (teardown_active d s),
  ap (λ (p : Bool × Bool × Bool × Bool). p.2) (teardown_active d s),
  ap (λ (p : Bool × Bool × Bool × Bool). p.3) (teardown_active d s),
)

-- The two event queues have a flag each: after a release of one, its flag is set only if the
-- controller said that the queue is busy, and the other's flag is as it was.
pub fini_evq_lem :
    {F : Type 0} (d : Device F) (instance_no : ℕ) (s : Softc F)
    → (evq_flag instance_no (fini_evq d instance_no s).1 ≡ ((fini_evq d instance_no s).0 == ebusy))
      × ((if instance_no == 0
            then (fini_evq d instance_no s).1.data_evq_initialized
            else (fini_evq d instance_no s).1.evq_initialized)
          ≡ (if instance_no == 0 then s.data_evq_initialized else s.evq_initialized))
unfolding fini_evq evq_flag
fini_evq_lem d instance_no s = ground arith
