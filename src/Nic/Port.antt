-- ===== src/Nic/Port.antt =====
-- sfc7120_mcdi.c: the vAdaptor, the MAC address and the virtual interfaces.

use solarflare_capio_kernel.Base.Errno.{eproto}
use solarflare_capio_kernel.Base.Bits.{shl}
use solarflare_capio_kernel.Nic.Queue.{port_id_assigned}
use solarflare_capio_kernel.Mcdi.Wire.{Device}
use solarflare_capio_kernel.Base.{
  ℕ, if◌then◌else◌, ◌&&◌, not, ◌==◌, false, bit_and, true, ltb, bit_or,
}
use Prim.Native.Nat.{ℕ, bit_and, bit_or}
use solarflare_capio_kernel.Nic.State.{
  Softc, call, put_dword, request, query, zeros, used_bytes, put_bytes, get_dword, response,
}

-- PERMIT_SET_MAC_WHEN_FILTERS_INSTALLED, where the capabilities have bit 11.
unfoldable pub vadaptor_flags : {F : Type 0} → Softc F → ℕ
vadaptor_flags s =
    if s.mcdi_caps_valid && not (bit_and s.mcdi_cap_flags1 (shl 1 11) == 0)
    then bit_or 0 (shl 1 1)
    else 0

unfoldable pub vadaptor_alloc : {F : Type 0} → Device F → Softc F → ℕ × Softc F
unfolding call vadaptor_flags
vadaptor_alloc d s =
    let buf = put_dword 8 (vadaptor_flags s) (put_dword 0 port_id_assigned zeros) in
    let (r, s') = request d 0x98 buf 30 s in
    if s.vadaptor_allocated
    then (0, s)
    else if not (r.rc == 0)
    then (r.rc, s')
    else (0, record s' { vadaptor_allocated = true })

unfoldable pub vadaptor_free : {F : Type 0} → Device F → Softc F → ℕ × Softc F
unfolding call
vadaptor_free d s =
    let (r, s') = request d 0x99 (put_dword 0 port_id_assigned zeros) 4 s in
    if not s.vadaptor_allocated then (0, s) else (r.rc, record s' { vadaptor_allocated = false })

unfoldable pub get_mac : {F : Type 0} → Device F → Softc F → ℕ × Softc F
unfolding call
get_mac d s =
    let (r, s') = query d 0x55 zeros 0 16 s in
    if not (r.rc == 0)
    then (r.rc, s')
    else if ltb (used_bytes r) 6
    then (eproto, s')
    else (0, record s' { mac_addr = put_bytes 0 6 (response r) s.mac_addr })

unfoldable pub alloc_vis : {F : Type 0} → Device F → ℕ → ℕ → Softc F → ℕ × Softc F
unfolding call
alloc_vis d min_count max_count s =
    let (r, s') = query d 0x8b (put_dword 4 max_count (put_dword 0 min_count zeros)) 8 8 s in
    if not (r.rc == 0)
    then (r.rc, s')
    else if ltb (used_bytes r) 8
    then (eproto, s')
    else (0, record s' { vi_count = get_dword r 0; vi_base = get_dword r 4; vis_allocated = true })

unfoldable pub free_vis : {F : Type 0} → Device F → Softc F → ℕ × Softc F
unfolding call
free_vis d s =
    let (r, s') = request d 0x8c zeros 0 s in
    if not s.vis_allocated
    then (0, s)
    else if r.rc == 0
    then (r.rc, record s' { vis_allocated = false; vi_count = 0; vi_base = 0 })
    else (r.rc, s')
