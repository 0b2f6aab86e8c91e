-- ===== src/Lifecycle/Device.antt =====
-- `sfc7120_fbsd_attach` and `sfc7120_fbsd_detach` of sfc7120.c. The log output and the addresses
-- that only it prints are not modelled.
use solarflare_capio_kernel.Base.{
  ℕ, Bool, true, false, Option, none, some, not, ◌||◌, ◌==◌, List, if◌then◌else◌,
}
use solarflare_capio_kernel.Base.Errno.{enxio, enomem}
use solarflare_capio_kernel.Base.Fault.{◌>>=◌}
use solarflare_capio_kernel.Capio.Types.{Region}
use solarflare_capio_kernel.Capio.Region.{init_capio_sc}
use solarflare_capio_kernel.Capio.Types
use solarflare_capio_kernel.Mcdi.Wire.{Device}
use solarflare_capio_kernel.Nic.State.{Softc}
use solarflare_capio_kernel.Nic.Bringup.{Bus, hw_init, hw_teardown}
use solarflare_capio_kernel.Nic.Queue.{init_evq, init_rxq, init_txq}
use solarflare_capio_kernel.Nic.Filter.{filter_insert}
use solarflare_capio_kernel.Data.Post.{post_rx_buffers}
use solarflare_capio_kernel.Lifecycle.Dma.{Dma, DmaAnswers, alloc_dma_resources, free_dma_resources}
use solarflare_capio_kernel.Lifecycle.Interrupt.{Intr, IntrAnswer, intr_setup, intr_teardown}
use solarflare_capio_kernel.Lifecycle.Regions.{smem}

-- The softc, a pointer by whether it is not NULL, and what the system holds for it: the two
-- mutexes, BAR2, bus mastering and the device node. `capio` is `none` before `init_capio_sc`.
pub record Sfc (F Cap : Type 0) : Type 0 where
  pub dying : Bool
  pub device_attached : Bool
  pub locks : Bool
  pub mem_resource : Bool
  pub bar_held : Bool
  pub busmaster : Bool
  pub nic : Softc F
  pub dma : Dma
  pub intr : Intr
  pub rx_head : ℕ
  pub doorbells : List (ℕ × ℕ)
  pub cdev : Bool
  pub cdev_held : Bool
  pub capio : Option (Types.Softc Cap)

-- What the system answers at attach. `bar_start` and `bar_size` are those of BAR2; `derive` and
-- `base` are for the sealing key.
pub record Answers (Cap : Type 0) : Type 0 where
  pub bar : Bool
  pub bar_start : ℕ
  pub bar_size : ℕ
  pub bus : Bus
  pub dma : DmaAnswers
  pub intr : IntrAnswer
  pub cdev : Bool
  pub derive : ℕ → Cap
  pub base : ℕ

-- A status and the softc; `none` is a fault.
abbrev pub Outcome : Type 0 → Type 0 → Type 0
Outcome F Cap = Option (ℕ × Sfc F Cap)

module _ {F Cap : Type 0} (card : Device F) where
  -- The calls that give back; `none` is one for what is not held.
  unfoldable pub release_bar2 : Sfc F Cap → Option (Sfc F Cap)
  release_bar2 d = if d.bar_held then some (record d { bar_held = false }) else none

  unfoldable pub destroy_locks : Sfc F Cap → Option (Sfc F Cap)
  destroy_locks d = if d.locks then some (record d { locks = false }) else none

  -- The DMA memory may not go while the handler reads it, or while a queue or a filter is up that
  -- lets the card write to it.
  unfoldable pub free_rings : Sfc F Cap → Option (Sfc F Cap)
  free_rings d =
      if d.intr.handler_held
        || (d.nic.rx_filter_inserted || (d.nic.txq_initialized || d.nic.rxq_initialized))
      then none
      else (free_dma_resources d.dma >>= λ dma. some (record d { dma = dma }))

  unfoldable pub stop_intr : Sfc F Cap → Option (Sfc F Cap)
  stop_intr d = intr_teardown d.intr >>= λ i. some (record d { intr = i })

  unfoldable pub stop_nic : Sfc F Cap → Sfc F Cap
  stop_nic d = record d { nic = hw_teardown card d.nic }

  -- The labels of the way back.
  unfoldable pub fail_lock : ℕ → Sfc F Cap → Outcome F Cap
  unfolding destroy_locks
  fail_lock error d = do d' ← destroy_locks d; some (error, d')

  unfoldable pub fail_bar : ℕ → Sfc F Cap → Outcome F Cap
  unfolding release_bar2 fail_lock
  fail_bar error d = do d' ← release_bar2 (record d { busmaster = false }); fail_lock error d'

  unfoldable pub fail_hw : ℕ → Sfc F Cap → Outcome F Cap
  unfolding fail_bar stop_nic
  fail_hw error d = fail_bar error (stop_nic d)

  unfoldable pub fail_dma : ℕ → Sfc F Cap → Outcome F Cap
  unfolding stop_intr stop_nic free_rings
  fail_dma error d = do d1 ← stop_intr d; d2 ← free_rings (stop_nic d1); fail_bar error d2

  -- `error = …; if (error != 0) goto fail;`
  unfoldable pub or_goto :
      Outcome F Cap → (ℕ → Sfc F Cap → Outcome F Cap) → (Sfc F Cap → Outcome F Cap) → Outcome F Cap
  or_goto r fail next = do (error, d) ← r; if not (error == 0) then fail error d else next d

  unfoldable pub on_nic : (Softc F → ℕ × Softc F) → Sfc F Cap → Outcome F Cap
  on_nic f d = let (error, nic) = f d.nic in some (error, record d { nic = nic })

  -- The same for a call that may panic.
  unfoldable pub on_evq : (Softc F → Option (ℕ × Softc F)) → Sfc F Cap → Outcome F Cap
  on_evq f d = do (error, nic) ← f d.nic; some (error, record d { nic = nic })

  unfoldable pub post_rx : Sfc F Cap → Sfc F Cap
  post_rx d =
      let ring = post_rx_buffers (record {
        rx_desc_ring = d.dma.rx_desc.words;
        rx_buffer_paddr = d.dma.rx_buffer.paddr;
        rx_head = d.rx_head;
        doorbells = d.doorbells;
      }) in
      let rx_desc = record d.dma.rx_desc { words = ring.rx_desc_ring } in
      record d {
        dma = record d.dma { rx_desc = rx_desc };
        rx_head = ring.rx_head;
        doorbells = ring.doorbells;
      }

  -- `sfc7120_fbsd_attach`, from its last step back to the first.
  unfoldable pub attach_cdev : Answers Cap → Sfc F Cap → Outcome F Cap
  unfolding fail_dma
  attach_cdev a d =
      if not a.cdev
      then fail_dma enomem (record d { cdev = false })
      else some (
        0,
        record d {
          cdev = true;
          cdev_held = true;
          capio = some (init_capio_sc a.derive a.base (smem a.bar_start a.bar_size d.dma));
          device_attached = true;
        },
      )

  unfoldable pub attach_filter : Answers Cap → Sfc F Cap → Outcome F Cap
  attach_filter a d = or_goto (on_nic (filter_insert card) d) fail_dma (attach_cdev a)

  unfoldable pub attach_txq : Answers Cap → Sfc F Cap → Outcome F Cap
  attach_txq a d =
      or_goto (on_nic (init_txq card 0 1 d.dma.tx_desc.paddr 512) d) fail_dma (attach_filter a)

  unfoldable pub attach_rxq : Answers Cap → Sfc F Cap → Outcome F Cap
  attach_rxq a d =
      or_goto (on_nic (init_rxq card 0 1 d.dma.rx_desc.paddr 512) d) fail_dma
        (λ d'. attach_txq a (post_rx d'))

  unfoldable pub attach_data_evq : Answers Cap → Sfc F Cap → Outcome F Cap
  attach_data_evq a d =
      or_goto (on_evq (init_evq card 1 d.dma.data_evq.paddr 512) d) fail_dma
        (λ d'. attach_rxq a (record d' { nic = record d'.nic { data_evq_initialized = true } }))

  unfoldable pub attach_evq : Answers Cap → Sfc F Cap → Outcome F Cap
  attach_evq a d =
      or_goto (on_evq (init_evq card 0 d.dma.evq.paddr 512) d) fail_dma
        (λ d'. attach_data_evq a (record d' { nic = record d'.nic { evq_initialized = true } }))

  unfoldable pub attach_intr : Answers Cap → Sfc F Cap → Outcome F Cap
  attach_intr a d =
      or_goto (intr_setup a.intr d.intr >>= λ (e, i). some (e, record d { intr = i })) fail_dma
        (attach_evq a)

  unfoldable pub attach_dma : Answers Cap → Sfc F Cap → Outcome F Cap
  attach_dma a d =
      or_goto (alloc_dma_resources a.dma d.dma >>= λ (e, m). some (e, record d { dma = m })) fail_hw
        (attach_intr a)

  unfoldable pub attach_hw : Answers Cap → Sfc F Cap → Outcome F Cap
  attach_hw a d = or_goto (on_nic (hw_init card a.bus) d) fail_bar (attach_dma a)

  unfoldable pub attach : Answers Cap → Sfc F Cap → Outcome F Cap
  unfolding fail_lock
  attach a d =
      let d0 = record d { dying = false; device_attached = false; locks = true } in
      if not a.bar
      then fail_lock enxio (record d0 { mem_resource = false })
      else attach_hw a (record d0 { mem_resource = true; bar_held = true; busmaster = true })

  -- The steps of `sfc7120_fbsd_detach` that depend on a field; `capio_destroy` wants the mutex
  -- that `init_capio_sc` made.
  unfoldable pub remove_cdev : Sfc F Cap → Option (Sfc F Cap)
  remove_cdev d =
      if not d.cdev
      then some d
      else if d.cdev_held
      then some (record d { cdev = false; cdev_held = false })
      else none

  unfoldable pub remove_bar : Sfc F Cap → Option (Sfc F Cap)
  unfolding release_bar2
  remove_bar d =
      if d.mem_resource
      then (release_bar2 d >>= λ d'. some (record d' { mem_resource = false }))
      else some d

  unfoldable pub destroy_capio : Sfc F Cap → Option (Sfc F Cap)
  destroy_capio d = elim d.capio [ none ↦ none | some c ↦ some (record d { capio = none }) ]

  unfoldable pub detach : Sfc F Cap → Option (Sfc F Cap)
  detach d = do
    d1 ← remove_cdev (record d { device_attached = false; dying = true })
    d2 ← stop_intr d1
    d3 ← free_rings (stop_nic d2)
    d4 ← remove_bar d3
    d5 ← destroy_capio (record d4 { busmaster = false })
    destroy_locks d5
