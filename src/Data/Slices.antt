-- ===== src/Data/Slices.antt =====
-- The register slices that a process gets (sfc7120_tables.c, sfc7120_mmio.h).

use solarflare_capio_kernel.Mcdi.Wire.{mc_db_hwrd, mc_db_lwrd}
use solarflare_capio_kernel.Data.Post.{data_rx_desc_dbl}
use solarflare_capio_kernel.Event.Interrupt.{evq_rptr_dbl}
use solarflare_capio_kernel.Data.Path.{slice_rx_desc_dbl, slice_tx_desc_dbl}
use solarflare_capio_kernel.Base.Buffer.{get_elem?}
use solarflare_capio_kernel.Capio.Types.{SliceDef}
use solarflare_capio_kernel.Base.Bits.{shl}
use Prim.Native.String.{String, []}
use solarflare_capio_kernel.Event.Poll.{slice_data_evq_rptr_dbl}
use solarflare_capio_kernel.Base.{
  ℕ, List, Option, none, ◌≡◌, Bool, false, some, ◌≢◌, ◌∷◌, ◌+◌, true, arith, [], refl,
  if◌then◌else◌, ◌||◌, ltb, ◌*◌,
}
use Prim.Native.Nat.{ℕ, suc, zero}

-- SFC7120_VI_WINDOW
abbrev pub vi_window : ℕ → ℕ
vi_window instance_no = shl instance_no 13

abbrev slice : ℕ → String → Bool → ℕ → SliceDef
slice offset name read_only len = record {
  offset = offset;
  name = name;
  read_only = read_only;
  len = len;
}

unfoldable pub reg_slices : List SliceDef
reg_slices =
    slice 0x0200 "MC_DOORBELL" false 4
    ∷ slice (vi_window 1 + 0x0400) "DATA_EVQ_RPTR_DBL" false 4
    ∷ slice (vi_window 0 + 0x0830) "RX_DESC_DBL" false 4
    ∷ slice (vi_window 0 + 0x0a10) "TX_DESC_DBL" false 12
    ∷ slice 0x0000 "HW_REV_ID" true 4
    ∷ []

-- The register that a write of dword `k` through slice `idx` reaches; `none` is a fault, of a
-- slice that is not there or is read-only, or beyond its bounds.
unfoldable pub slice_write : ℕ → ℕ → Option ℕ
unfolding reg_slices
slice_write idx k = elim (get_elem? reg_slices idx) [
  | none ↦ none
  | some s ↦ if s.read_only || ltb s.len (4 * k + 4) then none else some (s.offset + 4 * k)
]

-- No write through a slice reaches the read pointer of the control queue (0x400), nor the half of
-- the doorbell pair that starts a request of the controller (0x204).
pub slice_write_safe :
    (idx k a : ℕ) → slice_write idx k ≡ some a → (a ≢ evq_rptr_dbl) × (a ≢ mc_db_hwrd)
unfolding slice_write
slice_write_safe zero k a h = ground (arith, h)
slice_write_safe (suc zero) k a h = ground (arith, h)
slice_write_safe (suc (suc zero)) k a h = ground (arith, h)
slice_write_safe (suc (suc (suc zero))) k a h = ground (arith, h)
slice_write_safe (suc (suc (suc (suc zero)))) k a h = ground (arith, h)
slice_write_safe (suc (suc (suc (suc (suc n))))) k a h = ground (arith, h)

-- Through its slices the user library reaches the registers that it means to: the data queue's
-- read pointer (0x2400), the receive producer (0x830) and the transmit write pointer (0xa18). It
-- reaches the low half of the doorbell pair (0x200), too.
pub slice_write_registers :
    (slice_write slice_data_evq_rptr_dbl 0 ≡ some 0x2400)
    × (slice_write slice_rx_desc_dbl 0 ≡ some data_rx_desc_dbl)
    × (slice_write slice_tx_desc_dbl 2 ≡ some 0xa18)
    × (slice_write 0 0 ≡ some mc_db_lwrd)
unfolding slice_write
slice_write_registers = (refl, refl, refl, refl)
