-- ===== src/Data/Descriptor.antt =====
-- The 8-byte descriptor: the byte count in bits 61:48, the address in bits 47:0.

use solarflare_capio_kernel.Base.Bits.{shl, shr, bit_and_mask, bit_or_comm, bit_or_shl}
use solarflare_capio_kernel.Base.{ℕ, bit_or, ◌<◌, ◌*◌, ◌/◌, ◌≡◌, bit_and, ◌+◌, ◌%◌, arith, ◌∙◌, ap}
use Prim.Native.Nat.{ℕ, bit_or, bit_and}

abbrev pub buffer_size : ℕ
buffer_size = 2048

unfoldable pub descriptor : ℕ → ℕ → ℕ
descriptor len pa =
    bit_or (bit_or (shl (bit_and len 0x3fff) 48) (shl (bit_and (shr pa 32) 0xffff) 32))
      (bit_and pa 0xffffffff)

join_fields :
    (a b c : ℕ)
    → b < 65536
    → c < 4294967296
    → bit_or (bit_or (a * 281474976710656) (b * 4294967296)) c ≡ c + (b + a * 65536) * 4294967296
join_fields a b c lb lc =
    bit_or_comm (bit_or (a * 281474976710656) (b * 4294967296)) c
    ∙ ap (bit_or c) (
        bit_or_comm (a * 281474976710656) (b * 4294967296)
        ∙ bit_or_shl 48 (b * 4294967296) a (omega arith)
        ∙ regroup)
    ∙ bit_or_shl 32 c (b + a * 65536) lc
  where
    regroup : b * 4294967296 + a * 281474976710656 ≡ (b + a * 65536) * 4294967296
    regroup = omega arith

-- A descriptor carries its length and its address, up to 16383 bytes and 48 bits.
pub descriptor_fields :
    (len pa : ℕ)
    → len < 16384
    → pa < 281474976710656
    → (descriptor len pa / 281474976710656 ≡ len) × (descriptor len pa % 281474976710656 ≡ pa)
unfolding descriptor
descriptor_fields len pa ll lp =
    rw (bit_and_mask 14 len, bit_and_mask 16 (pa / 4294967296), bit_and_mask 32 pa)
      (rw
        (join_fields (len % 16384) (pa / 4294967296 % 65536) (pa % 4294967296) (omega arith)
          (omega arith))
        (omega arith, omega arith))
