-- ===== src/Mcdi/Mailbox.antt =====
-- The mailbox accessors of sfc7120_mcdi.c: dword reads and writes, and the payload copies. The
-- mailbox is the bytes at the addresses from 0 on; `mailbox_len` of them are allocated.
use solarflare_capio_kernel.Base.Bytes.{store_bytes, load_bytes}
use solarflare_capio_kernel.Base.Buffer.{Buffer}
use solarflare_capio_kernel.Base.{ℕ, zero, suc, ◌+◌, if◌then◌else◌, leb, ltb, ◌-◌}

abbrev pub mcdi_header_len : ℕ
mcdi_header_len = 4

abbrev pub mcdi_v2_header_len : ℕ
mcdi_v2_header_len = 8

abbrev pub mcdi_payload_len_max_v1 : ℕ
mcdi_payload_len_max_v1 = 0xfc

-- The length that `sfc7120_mcdi_alloc_buf` asks for.
abbrev pub mailbox_len : ℕ
mailbox_len = mcdi_header_len + mcdi_payload_len_max_v1

unfoldable pub write_dword : Buffer → ℕ → ℕ → Buffer
write_dword m offset v = store_bytes 4 m offset v

unfoldable pub read_dword : Buffer → ℕ → ℕ
read_dword m offset = load_bytes 4 m offset

-- `for (; i + 4 <= len; i += 4)`: the memory and `i` at the end.
unfoldable pub write_words : ℕ → Buffer → ℕ → Buffer → ℕ → ℕ → Buffer × ℕ
unfolding write_dword
write_words zero m offset src len i = (m, i)
write_words (suc fuel) m offset src len i =
    let rest =
      write_words fuel (write_dword m (offset + i) (load_bytes 4 src i)) offset src len (i + 4) in
    if leb (i + 4) len then rest else (m, i)

-- The partial dword at the end, padded with zeros.
unfoldable pub write_tail : Buffer → ℕ → Buffer → ℕ → ℕ → Buffer
unfolding write_dword
write_tail m offset src len i =
    if ltb i len then write_dword m (offset + i) (load_bytes (len - i) src i) else m

-- `len` rounds are more than the loop makes.
unfoldable pub write_payload : Buffer → ℕ → Buffer → ℕ → Buffer
unfolding write_words write_tail
write_payload m offset src len =
    let (m', i) = write_words len m offset src len 0 in write_tail m' offset src len i

unfoldable pub read_words : ℕ → Buffer → ℕ → Buffer → ℕ → ℕ → Buffer × ℕ
unfolding read_dword
read_words zero m offset dst len i = (dst, i)
read_words (suc fuel) m offset dst len i =
    let rest =
      read_words fuel m offset (store_bytes 4 dst i (read_dword m (offset + i))) len (i + 4) in
    if leb (i + 4) len then rest else (dst, i)

unfoldable pub read_tail : Buffer → ℕ → Buffer → ℕ → ℕ → Buffer
unfolding read_dword
read_tail m offset dst len i =
    if ltb i len then store_bytes (len - i) dst i (read_dword m (offset + i)) else dst

unfoldable pub read_payload : Buffer → ℕ → Buffer → ℕ → Buffer
unfolding read_words read_tail
read_payload m offset dst len =
    let (dst', i) = read_words len m offset dst len 0 in read_tail m offset dst' len i
