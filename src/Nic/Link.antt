-- ===== src/Nic/Link.antt =====
-- sfc7120_mcdi.c: the PHY, the MAC and the link.

use solarflare_capio_kernel.Base.Errno.{eacces, eproto}
use solarflare_capio_kernel.Base.Bits.{shl}
use solarflare_capio_kernel.Mcdi.Wire.{Device}
use solarflare_capio_kernel.Base.Buffer.{Buffer}
use solarflare_capio_kernel.Nic.State.{
  call, put_dword, Softc, put_bytes, query, zeros, request, get_dword, used_bytes,
}
use solarflare_capio_kernel.Base.{ℕ, if◌then◌else◌, not, bit_and, bit_or, ◌==◌, ltb, true, ◌+◌}
use Prim.Native.Nat.{ℕ, bit_and, bit_or}

-- `if (cap & (1u << lbn)) cap |= 1u << (lbn + 1)`: a FEC mode that is supported is requested.
unfoldable pub request_fec : ℕ → ℕ → ℕ
request_fec lbn cap =
    if not (bit_and cap (shl 1 lbn) == 0) then bit_or cap (shl 1 (lbn + 1)) else cap

unfoldable pub get_phy_cfg : {F : Type 0} → Device F → Softc F → ℕ × Softc F
unfolding call request_fec
get_phy_cfg d s =
    let (r, s') = query d 0x24 zeros 0 72 s in
    if not (r.rc == 0) then (r.rc, s') else if ltb (used_bytes r) (44 + 4) then (eproto, s') else (
      0,
      record s' {
        phy_supported_cap_mask = request_fec 20 (request_fec 18 (request_fec 16 (get_dword r 8)));
        phy_media_type = get_dword r 44;
      },
    )

-- MTU 1544, no drain, the MAC address, no reject, automatic flow control, no flags.
abbrev pub mac_request : Buffer → Buffer
mac_request mac_addr = put_dword 24 0 (
    put_dword 20 3
      (put_dword 16 0 (put_bytes 8 6 mac_addr (put_dword 4 0 (put_dword 0 1544 zeros)))))

unfoldable pub set_mac : {F : Type 0} → Device F → Softc F → ℕ × Softc F
unfolding call
set_mac d s =
    let (r, s') = request d 0x2c (mac_request s.mac_addr) 28 s in
    if r.rc == eacces
    then (0, s')
    else if not (r.rc == 0)
    then (r.rc, s')
    else (0, record s' { mac_configured = true })

unfoldable pub set_link : {F : Type 0} → Device F → Softc F → ℕ × Softc F
unfolding call
set_link d s =
    let cap = bit_or s.phy_supported_cap_mask (shl 1 10) in
    let buf = put_dword 12 0 (put_dword 8 0 (put_dword 4 0 (put_dword 0 cap zeros))) in
    let (r, s') = request d 0x2a buf 16 (record s { phy_adv_cap_mask = cap }) in
    if not (r.rc == 0) then (r.rc, s') else (0, record s' { link_configured = true })

unfoldable pub get_link : {F : Type 0} → Device F → Softc F → ℕ × Softc F
unfolding call
get_link d s =
    let (r, s') = query d 0x29 zeros 0 44 s in
    let link_flags = get_dword r 16 in
    if not (r.rc == 0) then (r.rc, s') else if ltb (used_bytes r) 28 then (eproto, s') else (
      0,
      record s' {
        link_up = not (bit_and link_flags (shl 1 0) == 0);
        full_duplex = not (bit_and link_flags (shl 1 1) == 0);
        link_speed_mbps = get_dword r 8;
        link_fcntl = get_dword r 20;
      },
    )
