-- ===== src/Lifecycle/Tests.antt =====
-- Examples for attach and detach.
use solarflare_capio_kernel.Base.{ℕ, true, false, none, some, refl, arith, []}
use solarflare_capio_kernel.Capio.Types.{Cheri, Ops}
use solarflare_capio_kernel.Capio.Types
use solarflare_capio_kernel.Capio.Region.{init_capio_sc, vaddr_callback, update_region, find_region}
use solarflare_capio_kernel.Capio.Samples.{numbers}
use solarflare_capio_kernel.Capio.Reach.{here, next, placed, IsSound}
use solarflare_capio_kernel.Mcdi.Responder.{idle_transport}
use solarflare_capio_kernel.Nic.State.{Softc}
use solarflare_capio_kernel.Nic.Samples.{start, bus}
use solarflare_capio_kernel.Lifecycle.Dma.{
  dma_cb, DmaBuf, DmaAnswer, Dma, DmaAnswers, alloc_dma_resources,
}
use solarflare_capio_kernel.Lifecycle.Allocated.{IsEmpty, IsLoaded, IsSane}
use solarflare_capio_kernel.Lifecycle.Unwind.{AllEmpty, AllLoaded, AllSane, AllOrNone}
use solarflare_capio_kernel.Lifecycle.Resources.{alloc_dma_resources-AllOrNone}
use solarflare_capio_kernel.Lifecycle.Interrupt.{IntrAnswer}
use solarflare_capio_kernel.Lifecycle.Vector.{no_intr, one_intr}
use solarflare_capio_kernel.Lifecycle.Regions.{smem}
use solarflare_capio_kernel.Lifecycle.Device.{Sfc, Answers}
use solarflare_capio_kernel.Lifecycle.Failing.{Up, Attached}
use solarflare_capio_kernel.Lifecycle.Shared.{driver_ops, region_table, Up-IsSound}

abbrev empty_buffer : DmaBuf
empty_buffer = record { dtag = false; vaddr = 0; paddr = 0; words = λ x. 0; stage = 0 }

abbrev loaded_buffer : DmaBuf
loaded_buffer = record { dtag = true; vaddr = 4096; paddr = 1048576; words = λ x. 0; stage = 3 }

abbrev all_buffers : DmaBuf → Dma
all_buffers b = record {
  evq = b;
  data_evq = b;
  tx_desc = b;
  rx_desc = b;
  tx_buffer = b;
  rx_buffer = b;
}

empty-AllEmpty : AllEmpty (all_buffers empty_buffer)
empty-AllEmpty =
    let e : IsEmpty empty_buffer = record {
      dtag = refl;
      vaddr = refl;
      paddr = refl;
      stage = refl;
    } in
    record { evq = e; data_evq = e; tx_desc = e; rx_desc = e; tx_buffer = e; rx_buffer = e }

loaded-AllLoaded : AllLoaded (all_buffers loaded_buffer)
loaded-AllLoaded =
    let e : IsLoaded loaded_buffer = record {
      dtag = refl;
      vaddr = omega arith;
      paddr = omega arith;
      stage = refl;
    } in
    record { evq = e; data_evq = e; tx_desc = e; rx_desc = e; tx_buffer = e; rx_buffer = e }

-- The bus answers all, but the load of the last buffer fails.
abbrev buffer_answer : ℕ → DmaAnswer
buffer_answer e = record {
  tag_error = 0;
  alloc_error = 0;
  load_error = e;
  vaddr = 4096;
  nseg = 1;
  ds_addr = 1048576;
}

abbrev dma_answers : ℕ → DmaAnswers
dma_answers e = record {
  evq = buffer_answer 0;
  data_evq = buffer_answer 0;
  tx_desc = buffer_answer 0;
  rx_desc = buffer_answer 0;
  tx_buffer = buffer_answer 0;
  rx_buffer = buffer_answer e;
}

answers-AllSane : (e : ℕ) → AllSane (dma_answers e)
unfolding dma_cb
answers-AllSane e =
    let s : (k : ℕ) → IsSane (buffer_answer k) =
      λ k. record { placed = omega arith; addressed = λ h. ground (arith, h) } in
    record {
      evq = s 0;
      data_evq = s 0;
      tx_desc = s 0;
      rx_desc = s 0;
      tx_buffer = s 0;
      rx_buffer = s e;
    }

abbrev intr_answer : IntrAnswer
intr_answer = record {
  msix_count = 8;
  bar = true;
  alloc_error = 0;
  granted = 1;
  irq = true;
  setup_error = 0;
}

abbrev answers : Answers ℕ
answers = record {
  bar = true;
  bar_start = 16777216;
  bar_size = 8388608;
  bus = bus;
  dma = dma_answers 0;
  intr = intr_answer;
  cdev = true;
  derive = λ n. n;
  base = 65536;
}

abbrev fresh : Sfc (Unit {0}) ℕ
fresh = record {
  dying = false;
  device_attached = false;
  locks = false;
  mem_resource = false;
  bar_held = false;
  busmaster = false;
  nic = start;
  dma = all_buffers empty_buffer;
  intr = no_intr;
  rx_head = 0;
  doorbells = [];
  cdev = false;
  cdev_held = false;
  capio = none;
}

abbrev capio_softc : Types.Softc ℕ
capio_softc = init_capio_sc (λ n. n) 65536 (smem 16777216 8388608 (all_buffers loaded_buffer))

-- The controller serves the function: everything was set up.
abbrev serving : Softc (Unit {0})
serving = record start {
  mcdi = idle_transport;
  drv_attached = true;
  evq_initialized = true;
  data_evq_initialized = true;
  rxq_initialized = true;
  txq_initialized = true;
  vadaptor_allocated = true;
  vis_allocated = true;
  vi_count = 32;
  rx_filter_inserted = true;
}

abbrev up : Sfc (Unit {0}) ℕ
up = record {
  dying = false;
  device_attached = true;
  locks = true;
  mem_resource = true;
  bar_held = true;
  busmaster = true;
  nic = serving;
  dma = all_buffers loaded_buffer;
  intr = one_intr;
  rx_head = 0;
  doorbells = [];
  cdev = true;
  cdev_held = true;
  capio = some capio_softc;
}

up-Up : Up answers up
up-Up = record {
  dma = loaded-AllLoaded;
  intr = refl;
  bar = refl;
  resource = refl;
  busmaster = refl;
  locks = refl;
  node = refl;
  cdev = refl;
  token = refl;
  attached = refl;
  alive = refl;
}

alloc_dma_resources-AllOrNone_example :
    AllOrNone (alloc_dma_resources (dma_answers 12) (all_buffers empty_buffer))
alloc_dma_resources-AllOrNone_example =
    alloc_dma_resources-AllOrNone (dma_answers 12) (all_buffers empty_buffer) (answers-AllSane 12)
      empty-AllEmpty

abbrev ops : Ops (Sfc (Unit {0}) ℕ)
ops = driver_ops 8388608 (λ n d. (0, d))

-- modmap tells where it mapped the receive ring.
abbrev placed_softc : Types.Softc ℕ
placed_softc = record capio_softc {
  regions = update_region 4 (λ r. record r { offset = 8192; len = 4096 }) capio_softc.regions;
}

Up-IsSound_example : IsSound numbers ops region_table placed_softc
unfolding vaddr_callback update_region find_region smem init_capio_sc
Up-IsSound_example =
    Up-IsSound numbers answers up (λ n d. (0, d)) capio_softc placed_softc up-Up refl
      (next here (placed 4 8192 4096 0 refl))
