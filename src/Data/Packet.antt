-- ===== src/Data/Packet.antt =====
-- What `sfc7120_tx_post` and `sfc7120_rx_recv` do with one packet.

use mathlib.Core.Path.{subst, sym}
use solarflare_capio_kernel.Data.Descriptor.{buffer_size, descriptor_fields, descriptor}
use solarflare_capio_kernel.Base.Bits.{bit_and_mask, u64}
use solarflare_capio_kernel.Data.Path.{
  run_tx, next_head, DataPath, slice_tx_desc_dbl, copy_to, enter_tx, tx_post, slice_rx_desc_dbl,
  run_rx, enter_rx, rx_recv, frame_len,
}
use solarflare_capio_kernel.Base.Buffer.{Buffer, update, update_ne, update_self}
use solarflare_capio_kernel.Base.{
  ℕ, ◌≡◌, ◌≤◌, some, ◌+◌, ◌%◌, ◌<◌, ◌*◌, ◌⊎◌, ◌/◌, ◌≢◌, arith, ◌∷◌, true, refl, ◌-◌, ap, ◌∙◌,
  Option, inr, sym,
}
use Prim.Native.Nat.{ℕ}

next_head_lem : (head : ℕ) → next_head head ≡ (head + 1) % 512
next_head_lem head = bit_and_mask 9 (head + 1)

copy_inside :
    (dst : Buffer) (start : ℕ) (src : Buffer) (len j : ℕ)
    → j < len
    → copy_to dst start src len (start + j) ≡ src j
copy_inside dst start src len j lt = ground (arith, ap src (cancel start j))
  where
    cancel : (a b : ℕ) → a + b - a ≡ b
    cancel a b = omega arith

copy_outside :
    (dst : Buffer) (start : ℕ) (src : Buffer) (len a : ℕ)
    → (a < start) ⊎ (start + len ≤ a)
    → copy_to dst start src len a ≡ dst a
copy_outside dst start src len a o = ground (arith, o)

-- A packet that was posted.
pub record Posted (txbuf tx_ring buf : Buffer) (len : ℕ) (sfc sfc' : DataPath) : Type 0 where
  pub memory : Buffer
  pub ring : Buffer
  pub same_buffer : sfc'.tx_buffer ≡ some memory
  pub same_ring : sfc'.tx_desc_ring ≡ some ring
  pub packet : (j : ℕ) → j < len → memory (sfc.tx_head * 2048 + j) ≡ buf j
  pub elsewhere :
      (a : ℕ) → (a < sfc.tx_head * 2048) ⊎ (sfc.tx_head * 2048 + len ≤ a) → memory a ≡ txbuf a
  pub length : ring sfc.tx_head / 281474976710656 ≡ len
  pub address : ring sfc.tx_head % 281474976710656 ≡ sfc.tx_buffer_paddr + sfc.tx_head * 2048
  pub other_slots : (i : ℕ) → sfc.tx_head ≢ i → ring i ≡ tx_ring i
  pub head : sfc'.tx_head ≡ (sfc.tx_head + 1) % 512
  pub bell : sfc'.doorbells ≡ (slice_tx_desc_dbl, (2, sfc'.tx_head)) ∷ sfc.doorbells
  pub owner : sfc'.used_poll ≡ true

run_tx-Posted :
    (txbuf tx_ring buf : Buffer) (len : ℕ) (sfc : DataPath)
    → len ≤ 2048
    → sfc.tx_buffer_paddr + sfc.tx_head * 2048 < 281474976710656
    → Posted txbuf tx_ring buf len sfc (run_tx txbuf tx_ring buf len sfc)
unfolding run_tx
run_tx-Posted txbuf tx_ring buf len sfc le small =
    let slot = sfc.tx_head * buffer_size in
    let e : u64 (sfc.tx_buffer_paddr + slot) ≡ sfc.tx_buffer_paddr + slot = omega arith in
    let d = descriptor len (u64 (sfc.tx_buffer_paddr + slot)) in
    let word : update tx_ring sfc.tx_head d sfc.tx_head
        ≡ descriptor len (sfc.tx_buffer_paddr + slot) =
      update_self tx_ring sfc.tx_head d ∙ ap (descriptor len) e in
    let f = descriptor_fields len (sfc.tx_buffer_paddr + slot) (omega arith) small in
    record {
      memory = copy_to txbuf slot buf len;
      ring = update tx_ring sfc.tx_head (descriptor len (u64 (sfc.tx_buffer_paddr + slot)));
      same_buffer = refl;
      same_ring = refl;
      packet = λ j lt. copy_inside txbuf slot buf len j lt;
      elsewhere = λ a o. copy_outside txbuf slot buf len a o;
      length = ap (λ w. w / 281474976710656) word ∙ f.0;
      address = ap (λ w. w % 281474976710656) word ∙ f.1;
      other_slots = λ i ne. update_ne tx_ring sfc.tx_head d i ne;
      head = next_head_lem sfc.tx_head;
      bell = refl;
      owner = refl;
    }

pub enter_tx_ok :
    (o r : Option Buffer) (txbuf tx_ring buf : Buffer) (len : ℕ) (sfc : DataPath)
    → o ≡ some txbuf
    → r ≡ some tx_ring
    → sfc.has_slices ≡ true
    → slice_tx_desc_dbl < sfc.mmio_slices_len
    → 0 < len
    → len ≤ 2048
    → enter_tx o r buf len sfc ≡ (true, run_tx txbuf tx_ring buf len sfc)
unfolding enter_tx
enter_tx_ok o r txbuf tx_ring buf len sfc eo er slices many pos le =
    subst (λ o. enter_tx o r buf len sfc ≡ (true, run_tx txbuf tx_ring buf len sfc)) (sym eo)
      (subst (λ r. enter_tx (some txbuf) r buf len sfc ≡ (true, run_tx txbuf tx_ring buf len sfc))
        (sym er) (ground (arith, slices, many, pos, le)))

-- Posting a packet of 1 to 2048 bytes, with the buffers, the ring and the doorbell slice mapped,
-- succeeds: the packet is in the slot of the old head and no other byte of the buffer changed, the
-- descriptor of that slot carries the length and the slot's bus address, the other descriptors are
-- as they were, the head is the next one modulo 512, and the doorbell gets the new head. The bus
-- address of the slot has to fit 48 bits.
pub tx_post-Posted :
    (txbuf tx_ring buf : Buffer) (len : ℕ) (sfc : DataPath)
    → sfc.tx_buffer ≡ some txbuf
    → sfc.tx_desc_ring ≡ some tx_ring
    → sfc.has_slices ≡ true
    → slice_tx_desc_dbl < sfc.mmio_slices_len
    → 0 < len
    → len ≤ 2048
    → sfc.tx_buffer_paddr + sfc.tx_head * 2048 < 281474976710656
    → (tx_post buf len sfc ≡ (true, run_tx txbuf tx_ring buf len sfc))
      × Posted txbuf tx_ring buf len sfc (run_tx txbuf tx_ring buf len sfc)
unfolding tx_post
tx_post-Posted txbuf tx_ring buf len sfc eo er slices many pos le small = (
  enter_tx_ok sfc.tx_buffer sfc.tx_desc_ring txbuf tx_ring buf len sfc eo er slices many pos le,
  run_tx-Posted txbuf tx_ring buf len sfc le small,
)

-- A packet that was taken.
pub record Taken (rxbuf rx_ring buf : Buffer) (rx_bytes : ℕ) (sfc : DataPath)
    (r : ℕ × (Buffer × DataPath)) : Type 0 where
  pub size : r.0 ≡ frame_len rxbuf (sfc.rx_head * 2048) rx_bytes
  pub ring : Buffer
  pub same_ring : r.1.1.rx_desc_ring ≡ some ring
  pub packet : (j : ℕ) → j < r.0 → r.1.0 (0 + j) ≡ rxbuf (sfc.rx_head * 2048 + 14 + j)
  pub rest : (a : ℕ) → r.0 ≤ a → r.1.0 a ≡ buf a
  pub length : ring sfc.rx_head / 281474976710656 ≡ 2048
  pub address : ring sfc.rx_head % 281474976710656 ≡ sfc.rx_buffer_paddr + sfc.rx_head * 2048
  pub other_slots : (i : ℕ) → sfc.rx_head ≢ i → ring i ≡ rx_ring i
  pub head : r.1.1.rx_head ≡ (sfc.rx_head + 1) % 512
  pub bell : r.1.1.doorbells ≡ (slice_rx_desc_dbl, (0, sfc.rx_head)) ∷ sfc.doorbells

run_rx-Taken :
    (rxbuf rx_ring buf : Buffer) (rx_bytes : ℕ) (sfc : DataPath)
    → sfc.rx_buffer_paddr + sfc.rx_head * 2048 < 281474976710656
    → Taken rxbuf rx_ring buf rx_bytes sfc (run_rx rxbuf rx_ring buf rx_bytes sfc)
unfolding run_rx
run_rx-Taken rxbuf rx_ring buf rx_bytes sfc small =
    let slot = sfc.rx_head * buffer_size in
    let plen = frame_len rxbuf slot rx_bytes in
    let e : u64 (sfc.rx_buffer_paddr + slot) ≡ sfc.rx_buffer_paddr + slot = omega arith in
    let d = descriptor 2048 (u64 (sfc.rx_buffer_paddr + slot)) in
    let word : update rx_ring sfc.rx_head d sfc.rx_head
        ≡ descriptor 2048 (sfc.rx_buffer_paddr + slot) =
      update_self rx_ring sfc.rx_head d ∙ ap (descriptor 2048) e in
    let f = descriptor_fields 2048 (sfc.rx_buffer_paddr + slot) (omega arith) small in
    record {
      size = refl;
      ring = update rx_ring sfc.rx_head d;
      same_ring = refl;
      packet = λ j lt. copy_inside buf 0 (λ k. rxbuf (slot + 14 + k)) plen j lt;
      rest = λ a ge. copy_outside buf 0 (λ k. rxbuf (slot + 14 + k)) plen a (inr (omega arith));
      length = ap (λ w. w / 281474976710656) word ∙ f.0;
      address = ap (λ w. w % 281474976710656) word ∙ f.1;
      other_slots = λ i ne. update_ne rx_ring sfc.rx_head d i ne;
      head = next_head_lem sfc.rx_head;
      bell = refl;
    }

pub enter_rx_ok :
    (o r : Option Buffer) (rxbuf rx_ring buf : Buffer) (rx_bytes : ℕ) (sfc : DataPath)
    → o ≡ some rxbuf
    → r ≡ some rx_ring
    → sfc.has_slices ≡ true
    → slice_rx_desc_dbl < sfc.mmio_slices_len
    → enter_rx o r buf rx_bytes sfc ≡ some (run_rx rxbuf rx_ring buf rx_bytes sfc)
unfolding enter_rx
enter_rx_ok o r rxbuf rx_ring buf rx_bytes sfc eo er slices many =
    subst (λ o. enter_rx o r buf rx_bytes sfc ≡ some (run_rx rxbuf rx_ring buf rx_bytes sfc))
      (sym eo)
      (subst
        (λ r.
          enter_rx (some rxbuf) r buf rx_bytes sfc ≡ some (run_rx rxbuf rx_ring buf rx_bytes sfc))
        (sym er) (ground (arith, slices, many)))

-- Taking a packet, with the buffer, the ring and the doorbell slice mapped, succeeds: the caller
-- gets as many bytes as the frame has from behind the prefix in the slot of the old head, the
-- slot's descriptor offers its 2048 bytes at its bus address again, the other descriptors are as
-- they were, the doorbell gets the old head and the head is the next one modulo 512. The bus
-- address of the slot has to fit 48 bits.
pub rx_recv-Taken :
    (rxbuf rx_ring buf : Buffer) (rx_bytes : ℕ) (sfc : DataPath)
    → sfc.rx_buffer ≡ some rxbuf
    → sfc.rx_desc_ring ≡ some rx_ring
    → sfc.has_slices ≡ true
    → slice_rx_desc_dbl < sfc.mmio_slices_len
    → sfc.rx_buffer_paddr + sfc.rx_head * 2048 < 281474976710656
    → (rx_recv buf rx_bytes sfc ≡ some (run_rx rxbuf rx_ring buf rx_bytes sfc))
      × Taken rxbuf rx_ring buf rx_bytes sfc (run_rx rxbuf rx_ring buf rx_bytes sfc)
unfolding rx_recv
rx_recv-Taken rxbuf rx_ring buf rx_bytes sfc eo er slices many small = (
  enter_rx_ok sfc.rx_buffer sfc.rx_desc_ring rxbuf rx_ring buf rx_bytes sfc eo er slices many,
  run_rx-Taken rxbuf rx_ring buf rx_bytes sfc small,
)
