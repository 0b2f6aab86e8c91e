-- ===== src/Lifecycle/Attached.antt =====
-- `sfc7120_fbsd_attach` and `sfc7120_fbsd_detach`: what is held afterwards.
use solarflare_capio_kernel.Lifecycle.Failing.{
  Armed, Holding, Released, Attached, Armed-nic, fail_dma-Attached, Holding-same, gone,
  Armed-post_rx, fail_hw-Attached, fail_bar-Attached,
}
use solarflare_capio_kernel.Base.{
  ℕ, true, false, some, ◌==◌, ◌≡◌, ◌≢◌, refl, inl, inr, arith, Bool-cases, not_if-elim,
}
use solarflare_capio_kernel.Base.Errno.{enxio, enomem}
use solarflare_capio_kernel.Capio.Region.{init_capio_sc}
use solarflare_capio_kernel.Mcdi.Wire.{Device}
use solarflare_capio_kernel.Nic.State.{Softc}
use solarflare_capio_kernel.Nic.Bringup.{hw_init}
use solarflare_capio_kernel.Nic.Queue.{init_evq, init_rxq, init_txq}
use solarflare_capio_kernel.Nic.Guard.{init_evq_512, init_evq-some}
use solarflare_capio_kernel.Nic.Filter.{filter_insert}
use solarflare_capio_kernel.Nic.Ready.{hw_init_down}
use solarflare_capio_kernel.Lifecycle.Resources.{alloc_dma_resources-AllOrNone}
use solarflare_capio_kernel.Lifecycle.Unwind.{AllEmpty, AllLoaded, AllSane}
use solarflare_capio_kernel.Lifecycle.Vector.{no_intr, intr_setup-SetUp}
use solarflare_capio_kernel.Lifecycle.Regions.{smem}
use solarflare_capio_kernel.Lifecycle.Device.{
  Sfc, Answers, Outcome, on_evq, fail_lock, fail_bar, fail_hw, fail_dma, or_goto, on_nic, post_rx,
  attach_cdev, attach_filter, attach_txq, attach_rxq, attach_data_evq, attach_evq, attach_intr,
  attach_dma, attach_hw, attach,
}

module _ {F Cap : Type 0} (card : Device F) (a : Answers Cap) where
  or_goto-elim :
      (P : Outcome F Cap → Type 0) (r : Outcome F Cap) (error : ℕ) (d : Sfc F Cap)
      (fail : ℕ → Sfc F Cap → Outcome F Cap) (next : Sfc F Cap → Outcome F Cap)
      → r ≡ some (error, d)
      → (error ≢ 0 → P (fail error d))
      → (error ≡ 0 → P (next d))
      → P (or_goto card r fail next)
  unfolding or_goto
  or_goto-elim P r error d fail next e bad good = rw e (elim (Bool-cases (error == 0)) [
    | inl z ↦ rw z (good (ground arith))
    | inr z ↦ rw z (bad (ground arith))
  ])

  -- One call to the controller of an armed device, and what follows it.
  Armed-step :
      (f : Softc F → ℕ × Softc F) (d : Sfc F Cap) (next : Sfc F Cap → Outcome F Cap)
      → Armed d
      → ((d' : Sfc F Cap) → Armed d' → Attached a (next d'))
      → Attached a (or_goto card (on_nic card f d) (fail_dma card) next)
  unfolding on_nic
  Armed-step f d next h rest =
      let d' = record d { nic = (f d.nic).1 } in
      let h' = Armed-nic d (f d.nic).1 h in
      or_goto-elim (Attached a) (some ((f d.nic).0, d')) (f d.nic).0 d' (fail_dma card) next refl
        (λ ne. fail_dma-Attached card a (f d.nic).0 d' ne h'.holding h'.dma (inl h'.intr))
        (λ _. rest d' h')

  -- The same for an event queue of 512 entries.
  Armed-evq :
      (instance_no paddr : ℕ) (d : Sfc F Cap) (next : Sfc F Cap → Outcome F Cap)
      → Armed d
      → ((d' : Sfc F Cap) → Armed d' → Attached a (next d'))
      → Attached a
          (or_goto card (on_evq card (init_evq card instance_no paddr 512) d) (fail_dma card) next)
  unfolding on_evq on_nic
  Armed-evq instance_no paddr d next h rest =
      rw (init_evq-some card instance_no paddr d.nic)
        (Armed-step (init_evq_512 card instance_no paddr) d next h rest)

  attach_cdev-Attached : (d : Sfc F Cap) → Armed d → Attached a (attach_cdev card a d)
  unfolding attach_cdev
  attach_cdev-Attached d h =
      not_if-elim (Attached a) a.cdev _ _
        (λ _.
          fail_dma-Attached card a enomem (record d { cdev = false }) (omega arith)
            (record {
              bar = h.holding.bar;
              resource = h.holding.resource;
              busmaster = h.holding.busmaster;
              locks = h.holding.locks;
              node = h.holding.node;
              token = h.holding.token;
              alive = h.holding.alive;
            })
            h.dma (inl h.intr))
        (λ _. record {
          status = 0;
          device = record d {
            cdev = true;
            cdev_held = true;
            capio = some (init_capio_sc a.derive a.base (smem a.bar_start a.bar_size d.dma));
            device_attached = true;
          };
          returns = refl;
          good = λ _. record {
            dma = h.dma;
            intr = h.intr;
            bar = h.holding.bar;
            resource = h.holding.resource;
            busmaster = h.holding.busmaster;
            locks = h.holding.locks;
            node = refl;
            cdev = refl;
            token = refl;
            attached = refl;
            alive = h.holding.alive;
          };
          bad = λ ne. absurd (ne refl);
        })

  attach_evq-Attached : (d : Sfc F Cap) → Armed d → Attached a (attach_evq card a d)
  unfolding attach_evq attach_data_evq attach_rxq attach_txq attach_filter
  attach_evq-Attached d h = Armed-evq 0 d.dma.evq.paddr d _ h λ d1 h1.
      let e1 = record d1 { nic = record d1.nic { evq_initialized = true } } in
      Armed-evq 1 e1.dma.data_evq.paddr e1 _ (Armed-nic d1 e1.nic h1) λ d2 h2.
        let e2 = record d2 { nic = record d2.nic { data_evq_initialized = true } } in
        Armed-step (init_rxq card 0 1 e2.dma.rx_desc.paddr 512) e2 _ (Armed-nic d2 e2.nic h2)
          λ d3 h3.
            let e3 = post_rx card d3 in
            Armed-step (init_txq card 0 1 e3.dma.tx_desc.paddr 512) e3 _ (Armed-post_rx card d3 h3)
              λ d4 h4. Armed-step (filter_insert card) d4 _ h4 λ d5 h5. attach_cdev-Attached d5 h5

  attach_intr-Attached :
      (d : Sfc F Cap)
      → Holding d
      → AllLoaded d.dma
      → d.intr ≡ no_intr
      → Attached a (attach_intr card a d)
  unfolding attach_intr
  attach_intr-Attached d h loaded quiet =
      let v = intr_setup-SetUp a.intr in
      let d' = record d { intr = v.intr } in
      let h' = Holding-same d d.nic d.dma v.intr h in
      or_goto-elim (Attached a) _ v.status d' (fail_dma card) (attach_evq card a)
        (rw (quiet, v.returns) refl)
        (λ ne. fail_dma-Attached card a v.status d' ne h' loaded (inr (v.bad ne)))
        (λ z. attach_evq-Attached d' (record { holding = h'; dma = loaded; intr = v.good z }))

  attach_dma-Attached :
      (d : Sfc F Cap)
      → AllSane a.dma
      → Holding d
      → AllEmpty d.dma
      → d.intr ≡ no_intr
      → Attached a (attach_dma card a d)
  unfolding attach_dma
  attach_dma-Attached d sane h empty quiet =
      let v = alloc_dma_resources-AllOrNone a.dma d.dma sane empty in
      let d' = record d { dma = v.dma } in
      let h' = Holding-same d d.nic v.dma d.intr h in
      or_goto-elim (Attached a) _ v.status d' (fail_hw card) (attach_intr card a)
        (rw v.returns refl) (λ ne. fail_hw-Attached card a v.status d' ne h' (v.empty ne) quiet)
        (λ z. attach_intr-Attached d' h' (v.loaded z) quiet)

  attach_hw-Attached :
      (d : Sfc F Cap)
      → AllSane a.dma
      → Holding d
      → AllEmpty d.dma
      → d.intr ≡ no_intr
      → d.nic.mcdi.initialized ≡ false
      → Attached a (attach_hw card a d)
  unfolding attach_hw on_nic
  attach_hw-Attached d sane h empty quiet down =
      let r = hw_init card a.bus d.nic in
      let d' = record d { nic = r.1 } in
      let h' = Holding-same d r.1 d.dma d.intr h in
      or_goto-elim (Attached a) (some (r.0, d')) r.0 d' (fail_bar card) (attach_dma card a) refl
        (λ ne.
          fail_bar-Attached card a r.0 d' ne h' empty quiet (hw_init_down card a.bus d.nic down ne))
        (λ _. attach_dma-Attached d' sane h' empty quiet)

  pub attach-Attached : (d : Sfc F Cap) → AllSane a.dma → Released d → Attached a (attach card a d)
  unfolding attach fail_lock
  attach-Attached d sane r =
      not_if-elim (Attached a) a.bar _ _
        (λ _.
          gone card a enxio
            (record d {
              dying = false;
              device_attached = false;
              locks = false;
              mem_resource = false;
            })
            (omega arith)
            (record {
              dma = r.dma;
              intr = r.intr;
              bar = r.bar;
              busmaster = r.busmaster;
              locks = refl;
              node = r.node;
              token = r.token;
              transport = r.transport;
            }))
        (λ _.
          attach_hw-Attached
            (record d {
              dying = false;
              device_attached = false;
              locks = true;
              mem_resource = true;
              bar_held = true;
              busmaster = true;
            })
            sane
            (record {
              bar = refl;
              resource = refl;
              busmaster = refl;
              locks = refl;
              node = r.node;
              token = r.token;
              alive = refl;
            })
            r.dma r.intr r.transport)
