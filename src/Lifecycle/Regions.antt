-- ===== src/Lifecycle/Regions.antt =====
-- The table of regions that `sfc7120_fbsd_attach` fills, and `sfc7120_get_buffer_size` (sfc7120.c).
use solarflare_capio_kernel.Base.{ℕ, true, false, ◌*◌, ◌==◌, List, [], ◌∷◌, if◌then◌else◌}
use solarflare_capio_kernel.Capio.Types.{Region}
use solarflare_capio_kernel.Data.Slices.{reg_slices}
use solarflare_capio_kernel.Lifecycle.Dma.{Dma}

-- An entry for DMA memory at `addr`; the softc is zeroed before.
abbrev dma_region : ℕ → ℕ → ℕ → Region
dma_region kind addr len = record {
  kind = kind;
  is_physical = false;
  addr = addr;
  paddr = 0;
  offset = 0;
  len = len;
  mapped = false;
  is_sliced = false;
  slice_definitions = [];
  slice_def_len = 0;
}

-- `smem`, in the order of `sfc7120_vm_map_type_t`.
unfoldable pub smem : ℕ → ℕ → Dma → List Region
unfolding reg_slices
smem bar_start bar_size d =
    dma_region 0 d.tx_buffer.vaddr (512 * 2048)
    ∷ dma_region 1 d.rx_buffer.vaddr (512 * 2048)
    ∷ record {
      kind = 2;
      is_physical = true;
      addr = 0;
      paddr = bar_start;
      offset = 0;
      len = bar_size;
      mapped = false;
      is_sliced = true;
      slice_definitions = reg_slices;
      slice_def_len = 5;
    }
    ∷ dma_region 3 d.tx_desc.vaddr (512 * 8)
    ∷ dma_region 4 d.rx_desc.vaddr (512 * 8)
    ∷ dma_region 5 d.data_evq.vaddr (512 * 8)
    ∷ []

-- The mutex around the read of the size is not modelled: the call is one step.
unfoldable pub get_buffer_size : ℕ → ℕ → ℕ
get_buffer_size bar_size kind =
    if kind == 0
    then 512 * 2048
    else if kind == 1
    then 512 * 2048
    else if kind == 2
    then bar_size
    else if kind == 3
    then 512 * 8
    else if kind == 4
    then 512 * 8
    else if kind == 5
    then 512 * 8
    else 0
