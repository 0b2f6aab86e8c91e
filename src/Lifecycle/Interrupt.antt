-- ===== src/Lifecycle/Interrupt.antt =====
-- `sfc7120_intr_setup` and `sfc7120_intr_teardown` of sfc7120.c. The log output is not modelled.
use solarflare_capio_kernel.Base.{
  ℕ, Bool, true, false, Option, none, some, not, ◌&&◌, ◌==◌, ltb, if◌then◌else◌,
}
use solarflare_capio_kernel.Base.Errno.{enxio, enomem}
use solarflare_capio_kernel.Base.Fault.{◌>>=◌}

-- The fields of the softc, a pointer by whether it is not NULL, and then what the bus holds: BAR4,
-- vectors, the interrupt resource and the installed handler.
pub record Intr : Type 0 where
  pub msix_bar_resource : Bool
  pub msix_nvec : ℕ
  pub irq_resource : Bool
  pub irq_handle : Bool
  pub intr_initialized : Bool
  pub bar_held : Bool
  pub vectors_held : Bool
  pub irq_held : Bool
  pub handler_held : Bool

-- What the bus answers: pci_msix_count (0 for a negative count), bus_alloc_resource_any of BAR4,
-- the status of pci_alloc_msix and the count that it grants, bus_alloc_resource_any of the
-- interrupt, and the status of bus_setup_intr.
pub record IntrAnswer : Type 0 where
  pub msix_count : ℕ
  pub bar : Bool
  pub alloc_error : ℕ
  pub granted : ℕ
  pub irq : Bool
  pub setup_error : ℕ

-- The calls that give back; `none` is one for what is not held, or what is still in use.
unfoldable pub teardown_intr : Intr → Option Intr
teardown_intr i = if i.handler_held then some (record i { handler_held = false }) else none

unfoldable pub release_irq : Intr → Option Intr
release_irq i =
    if i.irq_held && not i.handler_held then some (record i { irq_held = false }) else none

unfoldable pub release_msi : Intr → Option Intr
release_msi i =
    if i.vectors_held && not i.irq_held then some (record i { vectors_held = false }) else none

unfoldable pub release_bar : Intr → Option Intr
release_bar i =
    if i.bar_held && not i.vectors_held then some (record i { bar_held = false }) else none

-- The labels of the way back.
unfoldable pub intr_fail_bar : ℕ → Intr → Option (ℕ × Intr)
unfolding release_bar
intr_fail_bar error i = do i' ← release_bar i; some (error, record i' { msix_bar_resource = false })

unfoldable pub intr_fail_msi : ℕ → Intr → Option (ℕ × Intr)
unfolding intr_fail_bar release_msi
intr_fail_msi error i = do i' ← release_msi i; intr_fail_bar error (record i' { msix_nvec = 0 })

unfoldable pub intr_fail_irq : ℕ → Intr → Option (ℕ × Intr)
unfolding intr_fail_msi release_irq
intr_fail_irq error i = do
  i' ← release_irq i
  intr_fail_msi error (record i' { irq_resource = false })

unfoldable pub intr_setup : IntrAnswer → Intr → Option (ℕ × Intr)
unfolding intr_fail_bar intr_fail_msi intr_fail_irq
intr_setup a i =
    let i1 = record i { msix_bar_resource = true; bar_held = true } in
    let i2 = record i1 { vectors_held = true } in
    let i3 = record i2 { msix_nvec = 1; irq_resource = true; irq_held = true } in
    if a.msix_count == 0
    then some (enxio, i)
    else if not a.bar
    then some (enomem, record i { msix_bar_resource = false })
    else if not (a.alloc_error == 0)
    then intr_fail_bar a.alloc_error i1
    else if not (a.granted == 1)
    then intr_fail_msi enxio i2
    else if not a.irq
    then intr_fail_msi enomem (record i2 { msix_nvec = 1; irq_resource = false })
    else if not (a.setup_error == 0)
    then intr_fail_irq a.setup_error i3
    else some (0, record i3 { irq_handle = true; handler_held = true; intr_initialized = true })

-- The four steps of the teardown.
unfoldable pub stop_handler : Intr → Option Intr
unfolding teardown_intr
stop_handler i =
    let off = λ (j : Intr). record j { intr_initialized = false } in
    if i.intr_initialized && (i.irq_resource && i.irq_handle)
    then (teardown_intr i >>= λ j. some (off (record j { irq_handle = false })))
    else some (off i)

unfoldable pub stop_irq : Intr → Option Intr
unfolding release_irq
stop_irq i =
    if i.irq_resource
    then (release_irq i >>= λ j. some (record j { irq_resource = false }))
    else some i

unfoldable pub stop_vectors : Intr → Option Intr
unfolding release_msi
stop_vectors i =
    if ltb 0 i.msix_nvec then (release_msi i >>= λ j. some (record j { msix_nvec = 0 })) else some i

unfoldable pub stop_bar : Intr → Option Intr
unfolding release_bar
stop_bar i =
    if i.msix_bar_resource
    then (release_bar i >>= λ j. some (record j { msix_bar_resource = false }))
    else some i

unfoldable pub intr_teardown : Intr → Option Intr
unfolding stop_handler stop_irq stop_vectors stop_bar
intr_teardown i = do i1 ← stop_handler i; i2 ← stop_irq i1; i3 ← stop_vectors i2; stop_bar i3
