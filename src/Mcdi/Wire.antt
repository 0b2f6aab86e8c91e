-- ===== src/Mcdi/Wire.antt =====
-- The request framing of sfc7120_mcdi.c: the header words and `sfc7120_mcdi_send_locked`.

use solarflare_capio_kernel.Base.Bits.{u32, shr, shl}
use solarflare_capio_kernel.Mcdi.Mailbox.{
  write_dword, write_payload, mcdi_v2_header_len, mcdi_header_len, mcdi_payload_len_max_v1,
}
use solarflare_capio_kernel.Base.Buffer.{Buffer}
use solarflare_capio_kernel.Base.{ℕ, Bool, if◌then◌else◌, bit_or, leb, ltb, bit_and, not, ◌||◌}
use Prim.Native.Nat.{ℕ, bit_or, bit_and}

-- The device behind the mailbox and the registers, with state `F`: a register write (which sees
-- the mailbox, for the doorbell), a register read, what it has done to the mailbox by a
-- `bus_dmamap_sync(POSTREAD)`.
pub record Device (F : Type 0) : Type 0 where
  pub write_reg : ℕ → ℕ → Buffer → F → F
  pub read_reg : ℕ → F → ℕ
  pub sync : Buffer → F → Buffer × F

-- The `mcdi_` fields of the softc that the transport uses.
pub record Transport (F : Type 0) : Type 0 where
  pub buf : Buffer
  pub buf_paddr : ℕ
  pub seq : ℕ
  pub new_epoch : Bool
  pub initialized : Bool
  pub device : F

abbrev pub mc_cmd_v2_extn : ℕ
mc_cmd_v2_extn = 0x7f

abbrev pub mc_db_lwrd : ℕ
mc_db_lwrd = 0x200

abbrev pub mc_db_hwrd : ℕ
mc_db_hwrd = 0x204

-- The v1 header: code, data length, sequence number and, unless the epoch is new, NOT_EPOCH.
unfoldable pub v1_header : ℕ → ℕ → ℕ → Bool → ℕ
v1_header code datalen seq new_epoch =
    let hdr = shl (bit_and code 0x7f) 0 in
    let hdr2 = bit_or hdr (shl (bit_and datalen 0xff) 8) in
    let hdr3 = bit_or hdr2 (shl (bit_and seq 0xf) 16) in
    if not new_epoch then bit_or hdr3 (shl 1 21) else hdr3

-- The extension header of v2: the command and the length.
unfoldable pub v2_header : ℕ → ℕ → ℕ
v2_header cmd in_len = bit_or (shl (bit_and cmd 0x7fff) 0) (shl (bit_and in_len 0x3ff) 16)

unfoldable pub use_v2 : ℕ → ℕ → Bool
use_v2 cmd in_len = leb mc_cmd_v2_extn cmd || ltb mcdi_payload_len_max_v1 in_len

-- The headers in the mailbox, and where the payload starts.
unfoldable pub write_headers : ℕ → ℕ → ℕ → Bool → Buffer → ℕ × Buffer
unfolding v1_header v2_header use_v2 write_dword
write_headers cmd in_len seq new_epoch m =
    if use_v2 cmd in_len
    then (
      mcdi_v2_header_len,
      write_dword (write_dword m 0 (v1_header mc_cmd_v2_extn 0 seq new_epoch)) mcdi_header_len
          (v2_header cmd in_len),
    )
    else (mcdi_header_len, write_dword m 0 (v1_header cmd in_len seq new_epoch))

-- The doorbell: the high half of the address to LWRD, then the low half to HWRD.
unfoldable pub ring_doorbell : {F : Type 0} → Device F → Transport F → Transport F
ring_doorbell d t =
    let dev = d.write_reg mc_db_lwrd (u32 (shr t.buf_paddr 32)) t.buf t.device in
    record t { device = d.write_reg mc_db_hwrd (u32 (bit_and t.buf_paddr 0xffffffff)) t.buf dev }

unfoldable pub send_locked :
    {F : Type 0} → Device F → ℕ → Buffer → ℕ → ℕ → Transport F → ℕ × Transport F
unfolding write_headers ring_doorbell write_payload
send_locked d cmd in_buf in_len seq t =
    let (payload_off, m) = write_headers cmd in_len seq t.new_epoch t.buf in
    let m' = if ltb 0 in_len then write_payload m payload_off in_buf in_len else m in
    (payload_off, ring_doorbell d (record t { buf = m' }))
