-- ===== src/Data/Path.antt =====
-- `sfc7120_tx_post` and `sfc7120_rx_recv` of userlib/sfc7120_user.c.

use solarflare_capio_kernel.Base.Bits.{shl, u64, u16}
use solarflare_capio_kernel.Data.Descriptor.{descriptor, buffer_size}
use solarflare_capio_kernel.Base.Buffer.{Buffer, update}
use solarflare_capio_kernel.Base.{
  Option, ℕ, Bool, if◌then◌else◌, some, bit_and, ◌*◌, bit_or, List, leb, false, not, ◌+◌, ◌&&◌,
  true, ◌||◌, ◌-◌, ltb, ◌==◌, none, ◌∷◌,
}
use Prim.Native.Nat.{ℕ, bit_and, bit_or}

-- The fields of `sfc7120_if_t` that the two functions use; `none` is a buffer or a ring that is
-- not mapped. `doorbells` are the dword writes through the slices: the slice, the dword index and
-- the value, the last one first.
pub record DataPath : Type 0 where
  pub tx_buffer : Option Buffer
  pub rx_buffer : Option Buffer
  pub tx_desc_ring : Option Buffer
  pub rx_desc_ring : Option Buffer
  pub has_slices : Bool
  pub mmio_slices_len : ℕ
  pub tx_buffer_paddr : ℕ
  pub rx_buffer_paddr : ℕ
  pub tx_head : ℕ
  pub rx_head : ℕ
  pub used_poll : Bool
  pub doorbells : List (ℕ × (ℕ × ℕ))

abbrev pub slice_rx_desc_dbl : ℕ
slice_rx_desc_dbl = 2

abbrev pub slice_tx_desc_dbl : ℕ
slice_tx_desc_dbl = 3

-- `(head + 1) & (512 - 1)`
abbrev pub next_head : ℕ → ℕ
next_head head = bit_and (head + 1) (512 - 1)

-- `memcpy(dst + at, src, len)`
abbrev pub copy_to : Buffer → ℕ → Buffer → ℕ → Buffer
copy_to dst at src len j = if leb at j && ltb j (at + len) then src (j - at) else dst j

unfoldable pub run_tx : Buffer → Buffer → Buffer → ℕ → DataPath → DataPath
run_tx txbuf tx_ring buf len sfc =
    let slot = sfc.tx_head * buffer_size in
    record sfc {
      used_poll = true;
      tx_buffer = some (copy_to txbuf slot buf len);
      tx_desc_ring =
          some (update tx_ring sfc.tx_head (descriptor len (u64 (sfc.tx_buffer_paddr + slot))));
      doorbells = (slice_tx_desc_dbl, (2, next_head sfc.tx_head)) ∷ sfc.doorbells;
      tx_head = next_head sfc.tx_head;
    }

unfoldable pub enter_tx : Option Buffer → Option Buffer → Buffer → ℕ → DataPath → Bool × DataPath
enter_tx none ring buf len sfc = (false, sfc)
enter_tx (some txbuf) none buf len sfc = (false, sfc)
enter_tx (some txbuf) (some tx_ring) buf len sfc =
    if not sfc.has_slices || leb sfc.mmio_slices_len slice_tx_desc_dbl
    then (false, sfc)
    else if len == 0 || ltb buffer_size len
    then (false, sfc)
    else (true, run_tx txbuf tx_ring buf len sfc)

-- With an interface and a packet that are not NULL; `false` is the result -1.
unfoldable pub tx_post : Buffer → ℕ → DataPath → Bool × DataPath
unfolding enter_tx
tx_post buf len sfc = enter_tx sfc.tx_buffer sfc.tx_desc_ring buf len sfc

-- The frame length: from the prefix, or from the event where the prefix has none.
unfoldable pub frame_len : Buffer → ℕ → ℕ → ℕ
frame_len rxbuf slot rx_bytes =
    let plen = bit_or (rxbuf (slot + 8)) (shl (rxbuf (slot + 9)) 8) in
    if plen == 0 then (if ltb 14 rx_bytes then u16 (rx_bytes - 14) else 0) else plen

-- The length, the caller's buffer and the interface afterwards.
unfoldable pub run_rx : Buffer → Buffer → Buffer → ℕ → DataPath → ℕ × (Buffer × DataPath)
run_rx rxbuf rx_ring buf rx_bytes sfc =
    let slot = sfc.rx_head * buffer_size in
    let plen = frame_len rxbuf slot rx_bytes in
    (
      plen,
      (
        copy_to buf 0 (λ j. rxbuf (slot + 14 + j)) plen,
        record sfc {
          used_poll = true;
          rx_desc_ring = some (
              update rx_ring sfc.rx_head
                (descriptor buffer_size (u64 (sfc.rx_buffer_paddr + slot))));
          doorbells = (slice_rx_desc_dbl, (0, sfc.rx_head)) ∷ sfc.doorbells;
          rx_head = next_head sfc.rx_head;
        },
      ),
    )

unfoldable pub enter_rx :
    Option Buffer → Option Buffer → Buffer → ℕ → DataPath → Option (ℕ × (Buffer × DataPath))
enter_rx none ring buf rx_bytes sfc = none
enter_rx (some rxbuf) none buf rx_bytes sfc = none
enter_rx (some rxbuf) (some rx_ring) buf rx_bytes sfc =
    if not sfc.has_slices || leb sfc.mmio_slices_len slice_rx_desc_dbl
    then none
    else some (run_rx rxbuf rx_ring buf rx_bytes sfc)

-- `none` is the result -1, which changes nothing.
unfoldable pub rx_recv : Buffer → ℕ → DataPath → Option (ℕ × (Buffer × DataPath))
unfolding enter_rx
rx_recv buf rx_bytes sfc = enter_rx sfc.rx_buffer sfc.rx_desc_ring buf rx_bytes sfc
