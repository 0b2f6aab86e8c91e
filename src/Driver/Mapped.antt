-- ===== src/Driver/Mapped.antt =====
-- The memory that the user library of userlib/sfc7120_user.c and the ioctls of sfc7120.c share, and
-- what a packet posted or taken does to both sides of it.
use mathlib.Core.Option
use solarflare_capio_kernel.Base.{
  ℕ, true, Option, some, ◌+◌, ◌*◌, ◌<◌, ◌≡◌, ◌∙◌, sym, ap, refl, arith, ◌∷◌, map,
}
use solarflare_capio_kernel.Base.Buffer.{Buffer, update}
use solarflare_capio_kernel.Base.Bits.{u32, u64}
use solarflare_capio_kernel.Data.Path.{
  DataPath, copy_to, next_head, run_tx, run_rx, slice_tx_desc_dbl, slice_rx_desc_dbl,
}
use solarflare_capio_kernel.Data.Descriptor.{descriptor}
use solarflare_capio_kernel.Data.Slices.{slice_write}
use solarflare_capio_kernel.Driver.Channel.{Channel, World, TxReq, unlocked}
use solarflare_capio_kernel.Driver.Ioctl.{
  ack, copy_packet, post_packet, advance_tx, repost, data_tx_wptr_dbl,
}
use solarflare_capio_kernel.Driver.Wait.{Cursor}
use solarflare_capio_kernel.Driver.Complete.{sent, queue_bells, queue_bells-ack}

-- The register write that a dword write through a slice is.
abbrev pub reach : ℕ × (ℕ × ℕ) → Option (ℕ × ℕ)
reach (idx, (k, v)) = Option.map (λ reg. (reg, v)) (slice_write idx k)

-- The interface has the kernel's rings and buffers mapped, with the same addresses and heads, and
-- the register writes so far are the same, but for the kernel's of the event queue's read pointer.
pub record Mapped (sfc : DataPath) (s : Channel) : Type 0 where
  pub tx_buffer : sfc.tx_buffer ≡ some s.tx_buffer
  pub rx_buffer : sfc.rx_buffer ≡ some s.rx_buffer
  pub tx_ring : sfc.tx_desc_ring ≡ some s.tx_desc_ring
  pub rx_ring : sfc.rx_desc_ring ≡ some s.rx_desc_ring
  pub tx_paddr : sfc.tx_buffer_paddr ≡ s.tx_buffer_paddr
  pub rx_paddr : sfc.rx_buffer_paddr ≡ s.rx_buffer_paddr
  pub tx_head : sfc.tx_head ≡ s.tx_head
  pub rx_head : sfc.rx_head ≡ s.rx_head
  pub slices : sfc.has_slices ≡ true
  pub count : sfc.mmio_slices_len ≡ 5
  pub bells : map reach sfc.doorbells ≡ map some (queue_bells s.doorbells)

-- A kernel that sees no fault and reads the same memory.
abbrev pub quiet : World
quiet = record { events = λ k ring. ring; packets = λ m. m; copy_error = 0; copied = 0 }

-- A transmit request for a packet that the user may read.
abbrev pub request : Buffer → ℕ → TxReq
request buf len = record {
  has_tag = true;
  may_load = true;
  cap_len = len;
  packet = buf;
  length = len;
  status = 0;
}

-- The softc with the packets that the card has written meanwhile.
abbrev pub landed : World → Channel → Channel
landed w s = record s { rx_buffer = w.packets s.rx_buffer }

pub Mapped-ack : (sfc : DataPath) (s : Channel) (c : Cursor) → Mapped sfc s → Mapped sfc (ack c s)
unfolding ack
Mapped-ack sfc s c m = record {
  tx_buffer = m.tx_buffer;
  rx_buffer = m.rx_buffer;
  tx_ring = m.tx_ring;
  rx_ring = m.rx_ring;
  tx_paddr = m.tx_paddr;
  rx_paddr = m.rx_paddr;
  tx_head = m.tx_head;
  rx_head = m.rx_head;
  slices = m.slices;
  count = m.count;
  bells = m.bells ∙ sym (ap (map some) (queue_bells-ack c s));
}

pub Mapped-unlocked : (sfc : DataPath) (s : Channel) → Mapped sfc s → Mapped sfc (unlocked s)
Mapped-unlocked sfc s m = record {
  tx_buffer = m.tx_buffer;
  rx_buffer = m.rx_buffer;
  tx_ring = m.tx_ring;
  rx_ring = m.rx_ring;
  tx_paddr = m.tx_paddr;
  rx_paddr = m.rx_paddr;
  tx_head = m.tx_head;
  rx_head = m.rx_head;
  slices = m.slices;
  count = m.count;
  bells = m.bells;
}

tx_bell : (v : ℕ) → reach (slice_tx_desc_dbl, (2, v)) ≡ some (data_tx_wptr_dbl, v)
unfolding slice_write
tx_bell v = refl

pub run_tx-Mapped :
    (buf : Buffer) (len : ℕ) (sfc : DataPath) (s : Channel)
    → Mapped sfc s
    → Mapped
        (run_tx s.tx_buffer s.tx_desc_ring buf len sfc)
        (advance_tx (sent quiet (request buf len) s))
unfolding run_tx sent copy_packet post_packet advance_tx queue_bells
run_tx-Mapped buf len sfc s m = record {
  tx_buffer = ap (λ h. some (copy_to s.tx_buffer (h * 2048) buf len)) m.tx_head;
  rx_buffer = m.rx_buffer;
  tx_ring =
      ap (λ (p : ℕ × ℕ). some (update s.tx_desc_ring p.0 (descriptor len (u64 (p.1 + p.0 * 2048)))))
        (λ i. (m.tx_head i, m.tx_paddr i));
  rx_ring = m.rx_ring;
  tx_paddr = m.tx_paddr;
  rx_paddr = m.rx_paddr;
  tx_head = ap next_head m.tx_head;
  rx_head = m.rx_head;
  slices = m.slices;
  count = m.count;
  bells = ap (λ o. o ∷ map reach sfc.doorbells) (tx_bell (next_head sfc.tx_head)) ∙ λ i.
      some (data_tx_wptr_dbl, next_head (m.tx_head i)) ∷ m.bells i;
}

rx_bell : (v : ℕ) → reach (slice_rx_desc_dbl, (0, v)) ≡ some (0x0830, v)
unfolding slice_write
rx_bell v = refl

pub run_rx-Mapped :
    (buf : Buffer) (rx_bytes : ℕ) (sfc : DataPath) (s : Channel)
    → Mapped sfc s
    → s.rx_head < 512
    → Mapped (run_rx s.rx_buffer s.rx_desc_ring buf rx_bytes sfc).1.1 (repost s)
unfolding run_rx repost queue_bells
run_rx-Mapped buf rx_bytes sfc s m lt =
    let small : sfc.rx_head ≡ u32 s.rx_head = omega (arith, m.rx_head) in
    record {
      tx_buffer = m.tx_buffer;
      rx_buffer = m.rx_buffer;
      tx_ring = m.tx_ring;
      rx_ring =
          ap
            (λ (p : ℕ × ℕ).
              some (update s.rx_desc_ring p.0 (descriptor 2048 (u64 (p.1 + p.0 * 2048)))))
            (λ i. (m.rx_head i, m.rx_paddr i));
      tx_paddr = m.tx_paddr;
      rx_paddr = m.rx_paddr;
      tx_head = m.tx_head;
      rx_head = ap next_head m.rx_head;
      slices = m.slices;
      count = m.count;
      bells = ap (λ o. o ∷ map reach sfc.doorbells) (rx_bell sfc.rx_head) ∙ λ i.
          some (0x0830, small i) ∷ m.bells i;
    }
