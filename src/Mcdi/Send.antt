-- ===== src/Mcdi/Send.antt =====
-- `sfc7120_mcdi_send_locked`: what it puts in the mailbox, and the doorbell.
use solarflare_capio_kernel.Base.Bits.{u32, bit_and_mask, shr}
use solarflare_capio_kernel.Mcdi.Framing.{
  decode, decode_v1, not_epoch_bit, v1_header_sum, decode_v2, v2_header_sum,
}
use solarflare_capio_kernel.Mcdi.Mailbox.{
  write_dword, write_payload, mcdi_payload_len_max_v1, mailbox_len,
}
use solarflare_capio_kernel.Mcdi.Copy.{Payload, write_payload-Payload, padded}
use solarflare_capio_kernel.Base.Bytes.{
  IsBytes, store_bytes, load_bytes-cong, load-store_bytes, store_bytes_frame,
}
use solarflare_capio_kernel.Mcdi.Wire.{
  send_locked, ring_doorbell, write_headers, Transport, Device, v1_header, v2_header, use_v2,
  mc_cmd_v2_extn, mc_db_hwrd, mc_db_lwrd,
}
use solarflare_capio_kernel.Base.Buffer.{Buffer}
use solarflare_capio_kernel.Base.{
  false, true, ℕ, Bool, if◌then◌else◌, ltb, ◌<◌, ◌≡◌, arith, ◌+◌, ◌*◌, ◌≤◌, refl, inl, ◌∙◌, inr,
  Bool-cases, ◌⊎◌, ap, bit_and,
}

-- The copy of a payload that may be empty.
abbrev with_payload : Buffer → ℕ → Buffer → ℕ → Buffer
with_payload m offset src len = if ltb 0 len then write_payload m offset src len else m

with_payload-Payload :
    (m : Buffer) (offset : ℕ) (src : Buffer) (len : ℕ)
    → IsBytes src
    → Payload m offset src len (with_payload m offset src len)
with_payload-Payload m offset src len h = elim (Bool-cases (ltb 0 len)) [
  | inl e ↦ rw e (write_payload-Payload m offset src len h)
  | inr e ↦ rw e record {
    bytes = λ j lt. absurd (ground (arith, e));
    pad = λ j lo hi. absurd (ground (arith, e));
    frame = λ x o. refl;
  }
]

-- The mailbox with the headers of v1 and of v2.
abbrev headers_v1 : ℕ → ℕ → ℕ → Bool → Buffer → Buffer
headers_v1 cmd in_len seq new_epoch m = store_bytes 4 m 0 (v1_header cmd in_len seq new_epoch)

abbrev headers_v2 : ℕ → ℕ → ℕ → Bool → Buffer → Buffer
headers_v2 cmd in_len seq new_epoch m =
    store_bytes 4 (store_bytes 4 m 0 (v1_header 0x7f 0 seq new_epoch)) 4 (v2_header cmd in_len)

send_locked_v1 :
    {F : Type 0} (d : Device F) (cmd : ℕ) (in_buf : Buffer) (in_len seq : ℕ) (t : Transport F)
    → use_v2 cmd in_len ≡ false
    → send_locked d cmd in_buf in_len seq t ≡ (
      4,
      ring_doorbell d (record t {
        buf = with_payload (headers_v1 cmd in_len seq t.new_epoch t.buf) 4 in_buf in_len;
      }),
    )
unfolding send_locked write_headers write_dword
send_locked_v1 d cmd in_buf in_len seq t h = rw h refl

send_locked_v2 :
    {F : Type 0} (d : Device F) (cmd : ℕ) (in_buf : Buffer) (in_len seq : ℕ) (t : Transport F)
    → use_v2 cmd in_len ≡ true
    → send_locked d cmd in_buf in_len seq t ≡ (
      8,
      ring_doorbell d (record t {
        buf = with_payload (headers_v2 cmd in_len seq t.new_epoch t.buf) 8 in_buf in_len;
      }),
    )
unfolding send_locked write_headers write_dword
send_locked_v2 d cmd in_buf in_len seq t h = rw h refl

-- What the controller finds after a request was sent.
pub record Framed {F : Type 0} (cmd : ℕ) (in_buf : Buffer) (in_len seq : ℕ) (t : Transport F)
    (r : ℕ × Transport F) : Type 0 where
  pub request : decode r.1.buf ≡ record {
    cmd = cmd;
    len = in_len;
    seq = seq;
    not_epoch = not_epoch_bit t.new_epoch;
    response_bits = 0;
    payload_off = r.0;
  }
  pub payload : (j : ℕ) → j < in_len → r.1.buf (r.0 + j) ≡ in_buf j
  pub pad : (j : ℕ) → in_len ≤ j → j < padded in_len → r.1.buf (r.0 + j) ≡ 0
  pub frame : (x : ℕ) → r.0 + padded in_len ≤ x → r.1.buf x ≡ t.buf x

not_epoch_bit-lt : (b : Bool) → not_epoch_bit b < 2
not_epoch_bit-lt true = omega arith
not_epoch_bit-lt false = omega arith

not_epoch_bit_sum : (b : Bool) → (if b then 0 else 2097152) ≡ not_epoch_bit b * 2097152
not_epoch_bit_sum true = refl
not_epoch_bit_sum false = refl

v1-Framed :
    {F : Type 0} (d : Device F) (cmd : ℕ) (in_buf : Buffer) (in_len seq : ℕ) (t : Transport F)
    → IsBytes in_buf
    → cmd < 127
    → in_len < 256
    → seq < 16
    → Framed cmd in_buf in_len seq t (
      4,
      ring_doorbell d (record t {
        buf = with_payload (headers_v1 cmd in_len seq t.new_epoch t.buf) 4 in_buf in_len;
      }),
    )
unfolding ring_doorbell
v1-Framed d cmd in_buf in_len seq t h lc ll ls =
    let m = headers_v1 cmd in_len seq t.new_epoch t.buf in
    let p = with_payload-Payload m 4 in_buf in_len h in
    record {
      request =
          decode_v1 (with_payload m 4 in_buf in_len) cmd in_len seq (not_epoch_bit t.new_epoch)
            (load_bytes-cong 4 (with_payload m 4 in_buf in_len) m 0
                (λ x lo hi. p.frame x (inl (omega arith)))
              ∙ load-store_bytes 4 t.buf 0 (v1_header cmd in_len seq t.new_epoch) (
                  omega (
                    arith,
                    v1_header_sum cmd in_len seq t.new_epoch,
                    not_epoch_bit_sum t.new_epoch,
                    not_epoch_bit-lt t.new_epoch,
                  ))
              ∙ omega
                  (arith, v1_header_sum cmd in_len seq t.new_epoch, not_epoch_bit_sum t.new_epoch))
            lc ll ls (not_epoch_bit-lt t.new_epoch);
      payload = p.bytes;
      pad = p.pad;
      frame = λ x o.
          p.frame x (inr o)
          ∙ store_bytes_frame 4 t.buf 0 (v1_header cmd in_len seq t.new_epoch) x
              (inr (omega arith));
    }

v2-Framed :
    {F : Type 0} (d : Device F) (cmd : ℕ) (in_buf : Buffer) (in_len seq : ℕ) (t : Transport F)
    → IsBytes in_buf
    → cmd < 32768
    → in_len < 256
    → seq < 16
    → Framed cmd in_buf in_len seq t (
      8,
      ring_doorbell d (record t {
        buf = with_payload (headers_v2 cmd in_len seq t.new_epoch t.buf) 8 in_buf in_len;
      }),
    )
unfolding ring_doorbell
v2-Framed d cmd in_buf in_len seq t h lc ll ls =
    let m0 = store_bytes 4 t.buf 0 (v1_header 0x7f 0 seq t.new_epoch) in
    let m = headers_v2 cmd in_len seq t.new_epoch t.buf in
    let p = with_payload-Payload m 8 in_buf in_len h in
    record {
      request =
          decode_v2 (with_payload m 8 in_buf in_len) cmd in_len seq (not_epoch_bit t.new_epoch)
            (load_bytes-cong 4 (with_payload m 8 in_buf in_len) m0 0 (λ x lo hi.
                p.frame x (inl (omega arith))
                ∙ store_bytes_frame 4 m0 4 (v2_header cmd in_len) x (inl (omega arith)))
              ∙ load-store_bytes 4 t.buf 0 (v1_header 0x7f 0 seq t.new_epoch) (
                  omega (
                    arith,
                    v1_header_sum 0x7f 0 seq t.new_epoch,
                    not_epoch_bit_sum t.new_epoch,
                    not_epoch_bit-lt t.new_epoch,
                  ))
              ∙ omega (arith, v1_header_sum 0x7f 0 seq t.new_epoch, not_epoch_bit_sum t.new_epoch))
            (load_bytes-cong 4 (with_payload m 8 in_buf in_len) m 4
                (λ x lo hi. p.frame x (inl (omega arith)))
              ∙ load-store_bytes 4 m0 4 (v2_header cmd in_len)
                  (omega (arith, v2_header_sum cmd in_len))
              ∙ omega (arith, v2_header_sum cmd in_len))
            lc (omega arith) ls (not_epoch_bit-lt t.new_epoch);
      payload = p.bytes;
      pad = p.pad;
      frame = λ x o.
          p.frame x (inr o)
          ∙ store_bytes_frame 4 m0 4 (v2_header cmd in_len) x (inr (omega arith))
          ∙ store_bytes_frame 4 t.buf 0 (v1_header 0x7f 0 seq t.new_epoch) x (inr (omega arith));
    }

use_v2-v1 : (cmd in_len : ℕ) → use_v2 cmd in_len ≡ false → cmd < 127
unfolding use_v2
use_v2-v1 cmd in_len h = ground (arith, h)

-- A request is framed so that the controller reads it back: the command, the length, the sequence
-- number and the epoch bit of the headers, the error and response bits clear, the payload byte by
-- byte where the returned offset says, zeros to the end of its last dword, and the rest of the
-- mailbox as it was. This holds for every command below 2^15 and payload of at most 252 bytes.
pub send_locked-Framed :
    {F : Type 0} (d : Device F) (cmd : ℕ) (in_buf : Buffer) (in_len seq : ℕ) (t : Transport F)
    → IsBytes in_buf
    → cmd < 32768
    → in_len ≤ mcdi_payload_len_max_v1
    → seq < 16
    → Framed cmd in_buf in_len seq t (send_locked d cmd in_buf in_len seq t)
send_locked-Framed d cmd in_buf in_len seq t h lc ll ls = elim (Bool-cases (use_v2 cmd in_len)) [
  | inl e ↦
      rw (send_locked_v2 d cmd in_buf in_len seq t e)
        (v2-Framed d cmd in_buf in_len seq t h lc (omega arith) ls)
  | inr e ↦
      rw (send_locked_v1 d cmd in_buf in_len seq t e)
        (v1-Framed d cmd in_buf in_len seq t h (use_v2-v1 cmd in_len e) (omega arith) ls)
]

pub send_locked_offset :
    {F : Type 0} (d : Device F) (cmd : ℕ) (in_buf : Buffer) (in_len seq : ℕ) (t : Transport F)
    → (send_locked d cmd in_buf in_len seq t).0 ≡ (if use_v2 cmd in_len then 8 else 4)
send_locked_offset d cmd in_buf in_len seq t = elim (Bool-cases (use_v2 cmd in_len)) [
  | inl e ↦ rw (send_locked_v2 d cmd in_buf in_len seq t e, e) refl
  | inr e ↦ rw (send_locked_v1 d cmd in_buf in_len seq t e, e) refl
]

-- A request stays within the 256 bytes of the mailbox, if its command is below 0x7f or its payload
-- is at most 248 bytes long.
pub send_locked_within :
    {F : Type 0} (d : Device F) (cmd : ℕ) (in_buf : Buffer) (in_len seq : ℕ) (t : Transport F)
    → IsBytes in_buf
    → cmd < 32768
    → in_len ≤ mcdi_payload_len_max_v1
    → seq < 16
    → (cmd < mc_cmd_v2_extn) ⊎ (in_len ≤ 248)
    → (x : ℕ) → mailbox_len ≤ x
    → (send_locked d cmd in_buf in_len seq t).1.buf x ≡ t.buf x
unfolding use_v2
send_locked_within d cmd in_buf in_len seq t h lc ll ls small x past =
    (send_locked-Framed d cmd in_buf in_len seq t h lc ll ls).frame x
      (ground (arith, send_locked_offset d cmd in_buf in_len seq t))

-- With a command from 0x7f on and a payload of 249 to 252 bytes, which `sfc7120_mcdi_exec` lets
-- through, the payload's bytes from 248 on are written past the end of the mailbox.
pub send_locked_overrun :
    {F : Type 0} (d : Device F) (cmd : ℕ) (in_buf : Buffer) (in_len seq : ℕ) (t : Transport F)
    → IsBytes in_buf
    → mc_cmd_v2_extn ≤ cmd
    → cmd < 32768
    → in_len ≤ mcdi_payload_len_max_v1
    → seq < 16
    → (j : ℕ) → 248 + j < in_len
    → (send_locked d cmd in_buf in_len seq t).1.buf (mailbox_len + j) ≡ in_buf (248 + j)
unfolding use_v2
send_locked_overrun d cmd in_buf in_len seq t h v2 lc ll ls j lt =
    ap (send_locked d cmd in_buf in_len seq t).1.buf (omega (arith, offset))
    ∙ (send_locked-Framed d cmd in_buf in_len seq t h lc ll ls).payload (248 + j) lt
  where
    offset : (send_locked d cmd in_buf in_len seq t).0 ≡ 8
    offset = send_locked_offset d cmd in_buf in_len seq t ∙ ground arith

-- The doorbell is the last thing that a request does: the high half of the mailbox address goes
-- to MC_DB_LWRD and then the low half to MC_DB_HWRD, both after the mailbox is complete.
pub send_locked_rings :
    {F : Type 0} (d : Device F) (cmd : ℕ) (in_buf : Buffer) (in_len seq : ℕ) (t : Transport F)
    (hi lo : ℕ)
    → hi < 4294967296
    → lo < 4294967296
    → t.buf_paddr ≡ hi * 4294967296 + lo
    → let m = (send_locked d cmd in_buf in_len seq t).1.buf in
      (send_locked d cmd in_buf in_len seq t).1.device
      ≡ d.write_reg mc_db_hwrd lo m (d.write_reg mc_db_lwrd hi m t.device)
unfolding send_locked ring_doorbell
send_locked_rings d cmd in_buf in_len seq t hi lo lh ll e = rw (low, high) refl
  where
    low : u32 (bit_and t.buf_paddr 0xffffffff) ≡ lo
    low = rw (bit_and_mask 32 t.buf_paddr) (omega arith)

    high : u32 (shr t.buf_paddr 32) ≡ hi
    high = omega arith
