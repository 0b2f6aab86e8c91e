-- ===== src/Lifecycle/Failing.antt =====
-- What an attach holds at each point, and that its labels for a failure give all of it back.
use solarflare_capio_kernel.Base.{ℕ, true, false, none, some, ◌≡◌, ◌≢◌, refl, ◌⊎◌, inl, inr}
use solarflare_capio_kernel.Capio.Region.{init_capio_sc}
use solarflare_capio_kernel.Mcdi.Wire.{Device}
use solarflare_capio_kernel.Nic.State.{Softc}
use solarflare_capio_kernel.Nic.Bringup.{hw_teardown}
use solarflare_capio_kernel.Nic.Down.{hw_teardown_lem}
use solarflare_capio_kernel.Lifecycle.Dma.{Dma}
use solarflare_capio_kernel.Lifecycle.Resources.{free_dma_resources-AllEmpty}
use solarflare_capio_kernel.Lifecycle.Unwind.{AllEmpty, AllLoaded}
use solarflare_capio_kernel.Lifecycle.Interrupt.{Intr}
use solarflare_capio_kernel.Lifecycle.Vector.{no_intr, one_intr, intr_teardown_lem}
use solarflare_capio_kernel.Lifecycle.Regions.{smem}
use solarflare_capio_kernel.Lifecycle.Device.{
  Sfc, Answers, Outcome, free_rings, stop_intr, stop_nic, fail_bar, fail_hw, fail_dma, post_rx,
}

-- The host holds nothing for the device: no DMA memory, no interrupt, no BAR, no bus mastering, no
-- mutex, no device node, no token, and the transport to the controller is down. What the controller
-- holds for the function (the driver's attachment, virtual interfaces, vAdaptor, queues, filter) and
-- the softc's flags for it are no part of this.
pub record Released {F Cap : Type 0} (d : Sfc F Cap) : Type 0 where
  pub dma : AllEmpty d.dma
  pub intr : d.intr ≡ no_intr
  pub bar : d.bar_held ≡ false
  pub busmaster : d.busmaster ≡ false
  pub locks : d.locks ≡ false
  pub node : d.cdev_held ≡ false
  pub token : d.capio ≡ none
  pub transport : d.nic.mcdi.initialized ≡ false

-- No filter, transmit queue, receive queue or vAdaptor counts as held.
pub record Stopped {F : Type 0} (s : Softc F) : Type 0 where
  pub filter : s.rx_filter_inserted ≡ false
  pub txq : s.txq_initialized ≡ false
  pub rxq : s.rxq_initialized ≡ false
  pub vadaptor : s.vadaptor_allocated ≡ false

-- A device that is attached: the host holds everything for it, and the framework has the table of
-- regions. The state of its queues, filter and vAdaptor is left open.
pub record Up {F Cap : Type 0} (a : Answers Cap) (d : Sfc F Cap) : Type 0 where
  pub dma : AllLoaded d.dma
  pub intr : d.intr ≡ one_intr
  pub bar : d.bar_held ≡ true
  pub resource : d.mem_resource ≡ true
  pub busmaster : d.busmaster ≡ true
  pub locks : d.locks ≡ true
  pub node : d.cdev_held ≡ true
  pub cdev : d.cdev ≡ true
  pub token : d.capio ≡ some (init_capio_sc a.derive a.base (smem a.bar_start a.bar_size d.dma))
  pub attached : d.device_attached ≡ true
  pub alive : d.dying ≡ false

pub record Attached {F Cap : Type 0} (a : Answers Cap) (r : Outcome F Cap) : Type 0 where
  pub status : ℕ
  pub device : Sfc F Cap
  pub returns : r ≡ some (status, device)
  pub good : status ≡ 0 → Up a device
  pub bad : status ≢ 0 → Released device

-- What is held between BAR2 and the device node.
pub record Holding {F Cap : Type 0} (d : Sfc F Cap) : Type 0 where
  pub bar : d.bar_held ≡ true
  pub resource : d.mem_resource ≡ true
  pub busmaster : d.busmaster ≡ true
  pub locks : d.locks ≡ true
  pub node : d.cdev_held ≡ false
  pub token : d.capio ≡ none
  pub alive : d.dying ≡ false

-- The same with all the memory and the interrupt.
pub record Armed {F Cap : Type 0} (d : Sfc F Cap) : Type 0 where
  pub holding : Holding d
  pub dma : AllLoaded d.dma
  pub intr : d.intr ≡ one_intr

pub Holding-same :
    {F Cap : Type 0} (d : Sfc F Cap) (nic : Softc F) (dma : Dma) (intr : Intr)
    → Holding d
    → Holding (record d { nic = nic; dma = dma; intr = intr })
Holding-same d nic dma intr h = record {
  bar = h.bar;
  resource = h.resource;
  busmaster = h.busmaster;
  locks = h.locks;
  node = h.node;
  token = h.token;
  alive = h.alive;
}

pub Armed-nic :
    {F Cap : Type 0} (d : Sfc F Cap) (nic : Softc F) → Armed d → Armed (record d { nic = nic })
Armed-nic d nic h = record {
  holding = Holding-same d nic d.dma d.intr h.holding;
  dma = h.dma;
  intr = h.intr;
}

pub Armed-post_rx :
    {F Cap : Type 0} (card : Device F) (d : Sfc F Cap) → Armed d → Armed (post_rx card d)
unfolding post_rx
Armed-post_rx card d h = record {
  holding = record {
    bar = h.holding.bar;
    resource = h.holding.resource;
    busmaster = h.holding.busmaster;
    locks = h.holding.locks;
    node = h.holding.node;
    token = h.holding.token;
    alive = h.holding.alive;
  };
  dma = record {
    evq = h.dma.evq;
    data_evq = h.dma.data_evq;
    tx_desc = h.dma.tx_desc;
    rx_desc = record {
      dtag = h.dma.rx_desc.dtag;
      vaddr = h.dma.rx_desc.vaddr;
      paddr = h.dma.rx_desc.paddr;
      stage = h.dma.rx_desc.stage;
    };
    tx_buffer = h.dma.tx_buffer;
    rx_buffer = h.dma.rx_buffer;
  };
  intr = h.intr;
}

module _ {F Cap : Type 0} (card : Device F) (a : Answers Cap) where
  pub gone : (error : ℕ) (d : Sfc F Cap) → error ≢ 0 → Released d → Attached a (some (error, d))
  gone error d ne r = record {
    status = error;
    device = d;
    returns = refl;
    good = λ z. absurd (ne z);
    bad = λ _. r;
  }

  pub fail_bar-Attached :
      (error : ℕ) (d : Sfc F Cap)
      → error ≢ 0
      → Holding d
      → AllEmpty d.dma
      → d.intr ≡ no_intr
      → d.nic.mcdi.initialized ≡ false
      → Attached a (fail_bar card error d)
  unfolding fail_bar
  fail_bar-Attached error d ne h empty quiet down =
      rw (h.bar, h.locks)
        (gone error (record d { busmaster = false; bar_held = false; locks = false }) ne
          (record {
            dma = empty;
            intr = quiet;
            bar = refl;
            busmaster = refl;
            locks = refl;
            node = h.node;
            token = h.token;
            transport = down;
          }))

  pub fail_hw-Attached :
      (error : ℕ) (d : Sfc F Cap)
      → error ≢ 0
      → Holding d
      → AllEmpty d.dma
      → d.intr ≡ no_intr
      → Attached a (fail_hw card error d)
  unfolding fail_hw
  fail_hw-Attached error d ne h empty quiet =
      let nic = hw_teardown card d.nic in
      fail_bar-Attached error (record d { nic = nic }) ne (Holding-same d nic d.dma d.intr h) empty
        quiet (hw_teardown_lem card d.nic).0

  pub stop_intr_lem :
      (d : Sfc F Cap)
      → (d.intr ≡ one_intr) ⊎ (d.intr ≡ no_intr)
      → stop_intr card d ≡ some (record d { intr = no_intr })
  unfolding stop_intr
  stop_intr_lem d (inl e) = rw (e, intr_teardown_lem.0) refl
  stop_intr_lem d (inr e) = rw (e, intr_teardown_lem.1) refl

  pub free_rings_lem :
      (d : Sfc F Cap)
      → d.intr ≡ no_intr
      → AllLoaded d.dma
      → (dma : Dma) × (free_rings card (stop_nic card d)
          ≡ some (record (stop_nic card d) { dma = dma }))
        × AllEmpty dma
  unfolding free_rings stop_nic
  free_rings_lem d quiet loaded =
      let t = hw_teardown_lem card d.nic in
      let (dma, freed, empty) = free_dma_resources-AllEmpty d.dma loaded in
      (dma, rw (quiet, t.2, t.3, t.1, freed) refl, empty)

  pub fail_dma-Attached :
      (error : ℕ) (d : Sfc F Cap)
      → error ≢ 0
      → Holding d
      → AllLoaded d.dma
      → (d.intr ≡ one_intr) ⊎ (d.intr ≡ no_intr)
      → Attached a (fail_dma card error d)
  unfolding fail_dma
  fail_dma-Attached error d ne h loaded o =
      let quiet = record d { intr = no_intr } in
      let (dma, freed, empty) = free_rings_lem quiet refl loaded in
      rw (stop_intr_lem d o, freed)
        (fail_bar-Attached error
          (record d { nic = hw_teardown card d.nic; dma = dma; intr = no_intr }) ne
          (Holding-same d (hw_teardown card d.nic) dma no_intr h) empty refl
          (hw_teardown_lem card d.nic).0)
