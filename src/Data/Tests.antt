-- ===== src/Data/Tests.antt =====
-- Examples for the data path.

use solarflare_capio_kernel.Mcdi.Wire.{mc_db_hwrd}
use solarflare_capio_kernel.Event.Interrupt.{evq_rptr_dbl}
use solarflare_capio_kernel.Data.Slices.{slice_write, slice_write_safe}
use solarflare_capio_kernel.Data.Post.{RxRing, post_rx_buffers, post_rx_buffers_slot}
use solarflare_capio_kernel.Data.Packet.{Posted, tx_post-Posted}
use solarflare_capio_kernel.Base.{
  if◌then◌else◌, some, ◌≡◌, ◌==◌, true, ◌+◌, refl, false, ◌*◌, [], arith, ◌/◌, ◌%◌, ◌≢◌,
}
use solarflare_capio_kernel.Data.Path.{DataPath, tx_post, run_tx}
use solarflare_capio_kernel.Base.Buffer.{Buffer}

abbrev memory : Buffer
memory a = if a == 8 then 100 else if a == 9 then 8 else 1

abbrev mapped : DataPath
mapped = record {
  tx_buffer = some memory;
  rx_buffer = some memory;
  tx_desc_ring = some memory;
  rx_desc_ring = some memory;
  has_slices = true;
  mmio_slices_len = 5;
  tx_buffer_paddr = 1048576;
  rx_buffer_paddr = 2097152;
  tx_head = 511;
  rx_head = 0;
  used_poll = false;
  doorbells = [];
}

tx_post-Posted_example :
    (tx_post memory 60 mapped ≡ (true, run_tx memory memory memory 60 mapped))
    × Posted memory memory memory 60 mapped (run_tx memory memory memory 60 mapped)
tx_post-Posted_example =
    tx_post-Posted memory memory memory 60 mapped refl refl refl (omega arith) (omega arith)
      (omega arith) (omega arith)

-- The wrap of the head.
head_test : (run_tx memory memory memory 60 mapped).tx_head ≡ 0
unfolding run_tx
head_test = refl

abbrev rx_ring : RxRing
rx_ring = record { rx_desc_ring = memory; rx_buffer_paddr = 2097152; rx_head = 7; doorbells = [] }

post_rx_buffers_slot_example :
    ((post_rx_buffers rx_ring).rx_desc_ring 511 / 281474976710656 ≡ 2048)
    × ((post_rx_buffers rx_ring).rx_desc_ring 511 % 281474976710656 ≡ 2097152 + 511 * 2048)
post_rx_buffers_slot_example = post_rx_buffers_slot rx_ring 511 (omega arith) (omega arith)

slice_write_safe_example : (0xa18 ≢ evq_rptr_dbl) × (0xa18 ≢ mc_db_hwrd)
unfolding slice_write
slice_write_safe_example = slice_write_safe 3 2 0xa18 refl
