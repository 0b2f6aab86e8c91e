-- ===== src/Nic/Filter.antt =====
-- sfc7120_mcdi.c: the receive filter.

use solarflare_capio_kernel.Base.Errno.{eproto, eio}
use solarflare_capio_kernel.Nic.Queue.{port_id_assigned}
use solarflare_capio_kernel.Base.Bits.{shl, u32, shr}
use solarflare_capio_kernel.Mcdi.Wire.{Device}
use solarflare_capio_kernel.Nic.State.{
  call, put_bytes, put_dword, Softc, query, request, zeros, get_dword, used_bytes,
}
use solarflare_capio_kernel.Base.Buffer.{Buffer}
use solarflare_capio_kernel.Base.{
  ℕ, bit_or, if◌then◌else◌, bit_and, not, ◌==◌, false, ltb, ◌&&◌, true,
}
use Prim.Native.Nat.{ℕ, bit_or, bit_and}

abbrev pub handle_invalid : ℕ
handle_invalid = 0xffffffff

-- `((uint64_t)handle_hi << 32) | handle_lo`
unfoldable pub join_handle : ℕ → ℕ → ℕ
join_handle handle_lo handle_hi = bit_or (shl handle_hi 32) handle_lo

-- Insert: destination MAC equal to this port's, to receive queue 0.
abbrev pub insert_request : Buffer → Buffer
insert_request mac_addr = put_bytes 52 6 mac_addr (
    put_dword 40 0xffffffff (
      put_dword 28 0 (
        put_dword 24 0 (
          put_dword 20 1
            (put_dword 16 (shl 1 4) (put_dword 12 port_id_assigned (put_dword 0 0 zeros)))))))

unfoldable pub filter_insert : {F : Type 0} → Device F → Softc F → ℕ × Softc F
unfolding call
filter_insert d s =
    let (r, s') = query d 0x8a (insert_request s.mac_addr) 108 12 s in
    let handle_lo = get_dword r 4 in
    let handle_hi = get_dword r 8 in
    if s.rx_filter_inserted
    then (0, s)
    else if not (r.rc == 0)
    then (r.rc, s')
    else if ltb (used_bytes r) 12
    then (eproto, s')
    else if handle_lo == handle_invalid && handle_hi == handle_invalid
    then (eio, s')
    else (
      0,
      record s' { rx_filter_handle = join_handle handle_lo handle_hi; rx_filter_inserted = true },
    )

-- Remove: the operation and the two halves of the handle.
unfoldable pub remove_request : ℕ → Buffer
remove_request handle =
    put_dword 8 (u32 (shr handle 32))
      (put_dword 4 (u32 (bit_and handle 0xffffffff)) (put_dword 0 1 zeros))

unfoldable pub filter_remove : {F : Type 0} → Device F → Softc F → ℕ × Softc F
unfolding call remove_request
filter_remove d s =
    let (r, s') = request d 0x8a (remove_request s.rx_filter_handle) 108 s in
    if not s.rx_filter_inserted then (0, s) else (r.rc, record s' { rx_filter_inserted = false })
