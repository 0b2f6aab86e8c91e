-- ===== src/Nic/State.antt =====
-- The driver state that the controller commands read and write, and one call of
-- `sfc7120_mcdi_exec` on it.

use solarflare_capio_kernel.Base.Bits.{u32}
use solarflare_capio_kernel.Base.Bytes.{store_bytes, load_bytes}
use solarflare_capio_kernel.Mcdi.Exec.{Reply, exec}
use solarflare_capio_kernel.Base.{
  ℕ, Bool, if◌then◌else◌, Option, none, some, leb, ◌&&◌, ltb, ◌+◌, ◌-◌,
}
use solarflare_capio_kernel.Base.Buffer.{Buffer}
use solarflare_capio_kernel.Mcdi.Wire.{Transport, Device}
use Prim.Native.Nat.{ℕ}

-- The fields of `sfc7120_softc_t` that sfc7120_mcdi.c uses; `mcdi` holds those of the transport.
pub record Softc (F : Type 0) : Type 0 where
  pub mcdi : Transport F
  pub mcdi_prev_reboot_status : ℕ
  pub fw_version_lo : ℕ
  pub fw_version_hi : ℕ
  pub mcdi_func_flags : ℕ
  pub drv_attached : Bool
  pub mcdi_cap_flags1 : ℕ
  pub mcdi_caps_valid : Bool
  pub evq_read_ptr : ℕ
  pub evq_initialized : Bool
  pub data_evq_initialized : Bool
  pub rxq_initialized : Bool
  pub txq_initialized : Bool
  pub vadaptor_allocated : Bool
  pub vis_allocated : Bool
  pub vi_count : ℕ
  pub vi_base : ℕ
  pub mac_addr : Buffer
  pub mac_configured : Bool
  pub phy_supported_cap_mask : ℕ
  pub phy_media_type : ℕ
  pub phy_adv_cap_mask : ℕ
  pub link_configured : Bool
  pub link_up : Bool
  pub full_duplex : Bool
  pub link_speed_mbps : ℕ
  pub link_fcntl : ℕ
  pub rx_filter_handle : ℕ
  pub rx_filter_inserted : Bool

-- A buffer of zeros, and a dword stored into one.
abbrev pub zeros : Buffer
zeros _ = 0

abbrev pub put_dword : ℕ → ℕ → Buffer → Buffer
put_dword offset v m = store_bytes 4 m offset (u32 v)

-- `memcpy` of `n` bytes from the start of `src`.
abbrev pub put_bytes : ℕ → ℕ → Buffer → Buffer → Buffer
put_bytes offset n src m j = if leb offset j && ltb j (offset + n) then src (j - offset) else m j

unfoldable pub call :
    {F : Type 0}
    → Device F
    → ℕ
    → Buffer
    → ℕ
    → Option Buffer
    → ℕ
    → Option ℕ
    → Softc F
    → Reply × Softc F
call d cmd in_buf in_len out out_len used s =
    let (r, t) = exec d cmd in_buf in_len out out_len used s.mcdi in (r, record s { mcdi = t })

-- The caller's response buffer and count after a call.
abbrev pub response : Reply → Buffer
response r = elim r.out [ none ↦ zeros | some b ↦ b ]

abbrev pub used_bytes : Reply → ℕ
used_bytes r = elim r.used [ none ↦ 0 | some n ↦ n ]

abbrev pub get_dword : Reply → ℕ → ℕ
get_dword r offset = load_bytes 4 (response r) offset

-- A call with a request and no response buffer; a call with a response buffer of zeros.
abbrev pub request : {F : Type 0} → Device F → ℕ → Buffer → ℕ → Softc F → Reply × Softc F
request d cmd in_buf in_len s = call d cmd in_buf in_len none 0 none s

abbrev pub query : {F : Type 0} → Device F → ℕ → Buffer → ℕ → ℕ → Softc F → Reply × Softc F
query d cmd in_buf in_len out_len s = call d cmd in_buf in_len (some zeros) out_len (some 0) s
