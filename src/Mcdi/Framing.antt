-- ===== src/Mcdi/Framing.antt =====
-- What the management controller reads in the mailbox after `sfc7120_mcdi_send_locked`.

use solarflare_capio_kernel.Base.Bits.{bit_or_shl, bit_and_mask}
use solarflare_capio_kernel.Base.Bytes.{load_bytes}
use solarflare_capio_kernel.Base.Buffer.{Buffer}
use solarflare_capio_kernel.Mcdi.Wire.{v1_header, v2_header}
use solarflare_capio_kernel.Base.{
  false, ℕ, Bool, ◌≡◌, ◌/◌, ◌<◌, ◌==◌, ◌^◌, bit_or, ◌%◌, if◌then◌else◌, ◌*◌, ◌+◌, arith, ◌∙◌, true,
}
use Prim.Native.Nat.{ℕ, bit_or}

-- The bits from `shift` on, `width` of them, of a header word.
abbrev pub field : ℕ → ℕ → ℕ → ℕ
field shift width h = h / 2 ^ shift % 2 ^ width

join_v1 :
    (a b c : ℕ)
    → a < 128
    → b < 256
    → bit_or (bit_or (a * 1) (b * 256)) (c * 65536) ≡ a + b * 256 + c * 65536
join_v1 a b c la lb =
    rw (bit_or_shl 8 (a * 1) b (omega arith))
      (bit_or_shl 16 (a * 1 + b * 256) c (omega arith) ∙ omega arith)

pub v1_header_sum :
    (code datalen seq : ℕ) (new_epoch : Bool)
    → v1_header code datalen seq new_epoch
      ≡ code % 128 + datalen % 256 * 256 + seq % 16 * 65536 + (if new_epoch then 0 else 2097152)
unfolding v1_header
v1_header_sum code datalen seq true =
    rw (bit_and_mask 7 code, bit_and_mask 8 datalen, bit_and_mask 4 seq)
      (omega (arith, join_v1 (code % 128) (datalen % 256) (seq % 16) (omega arith) (omega arith)))
v1_header_sum code datalen seq false =
    rw
      (
        bit_and_mask 7 code,
        bit_and_mask 8 datalen,
        bit_and_mask 4 seq,
        join_v1 (code % 128) (datalen % 256) (seq % 16) (omega arith) (omega arith),
      )
      (bit_or_shl 21 (code % 128 + datalen % 256 * 256 + seq % 16 * 65536) 1 (omega arith)
        ∙ omega arith)

pub v2_header_sum : (cmd in_len : ℕ) → v2_header cmd in_len ≡ cmd % 32768 + in_len % 1024 * 65536
unfolding v2_header
v2_header_sum cmd in_len =
    rw (bit_and_mask 15 cmd, bit_and_mask 10 in_len)
      (bit_or_shl 16 (cmd % 32768 * 1) (in_len % 1024) (omega arith) ∙ omega arith)

-- A request as the controller takes it from the mailbox: with the escape code, the command and
-- the length are in the second word and the payload follows it.
pub record Request : Type 0 where
  pub cmd : ℕ
  pub len : ℕ
  pub seq : ℕ
  pub not_epoch : ℕ
  pub response_bits : ℕ
  pub payload_off : ℕ

unfoldable pub decode : Buffer → Request
decode m =
    let h = load_bytes 4 m 0 in
    let x = load_bytes 4 m 4 in
    let v2 = field 0 7 h == 0x7f in
    record {
      cmd = if v2 then field 0 15 x else field 0 7 h;
      len = if v2 then field 16 10 x else field 8 8 h;
      seq = field 16 4 h;
      not_epoch = field 21 1 h;
      response_bits = field 22 2 h;
      payload_off = if v2 then 8 else 4;
    }

abbrev pub not_epoch_bit : Bool → ℕ
not_epoch_bit true = 0
not_epoch_bit false = 1

Request-eq :
    {r s : Request}
    → r.cmd ≡ s.cmd
    → r.len ≡ s.len
    → r.seq ≡ s.seq
    → r.not_epoch ≡ s.not_epoch
    → r.response_bits ≡ s.response_bits
    → r.payload_off ≡ s.payload_off
    → r ≡ s
Request-eq a b c e f g = λ i. record {
  cmd = a i;
  len = b i;
  seq = c i;
  not_epoch = e i;
  response_bits = f i;
  payload_off = g i;
}

pub decode_v1 :
    (m : Buffer) (code len seq ne : ℕ)
    → load_bytes 4 m 0 ≡ code + len * 256 + seq * 65536 + ne * 2097152
    → code < 127
    → len < 256
    → seq < 16
    → ne < 2
    → decode m ≡ record {
      cmd = code;
      len = len;
      seq = seq;
      not_epoch = ne;
      response_bits = 0;
      payload_off = 4;
    }
unfolding decode
decode_v1 m code len seq ne h lc ll ls ln =
    Request-eq (ground arith) (ground arith) (omega arith) (omega arith) (omega arith)
      (ground arith)

pub decode_v2 :
    (m : Buffer) (cmd len seq ne : ℕ)
    → load_bytes 4 m 0 ≡ 127 + seq * 65536 + ne * 2097152
    → load_bytes 4 m 4 ≡ cmd + len * 65536
    → cmd < 32768
    → len < 1024
    → seq < 16
    → ne < 2
    → decode m ≡ record {
      cmd = cmd;
      len = len;
      seq = seq;
      not_epoch = ne;
      response_bits = 0;
      payload_off = 8;
    }
unfolding decode
decode_v2 m cmd len seq ne h x lc ll ls ln =
    Request-eq (ground arith) (ground arith) (omega arith) (omega arith) (omega arith)
      (ground arith)
