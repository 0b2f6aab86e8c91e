-- ===== src/Data/Post.antt =====
-- `sfc7120_post_rx_buffers` of sfc7120.c: the receive ring at attach.

use mathlib.Core.Path.{subst}
use native.Mathlib.Decide.{ℕ_discrete}
use solarflare_capio_kernel.Base.Bits.{u64}
use solarflare_capio_kernel.Data.Descriptor.{descriptor, buffer_size, descriptor_fields}
use solarflare_capio_kernel.Base.{
  ℕ, ◌-◌, List, ◌∷◌, ◌<◌, ◌≤◌, ◌⊎◌, ◌+◌, ◌≡◌, ◌/◌, ◌%◌, ◌*◌, arith, ◌∙◌, inl, ap, refl,
}
use solarflare_capio_kernel.Base.Buffer.{Buffer, update, update_ne, update_self}
use Prim.Native.Nat.{ℕ, suc, zero}

-- The fields of the softc that it uses. `doorbells` are the register writes, the last one first.
pub record RxRing : Type 0 where
  pub rx_desc_ring : Buffer
  pub rx_buffer_paddr : ℕ
  pub rx_head : ℕ
  pub doorbells : List (ℕ × ℕ)

-- SFC7120_REG_DATA_RX_DESC_DBL
abbrev pub data_rx_desc_dbl : ℕ
data_rx_desc_dbl = 0x0830

-- The loop, from `i` on, with `n` entries to go.
unfoldable pub fill_ring : ℕ → ℕ → ℕ → Buffer → Buffer
fill_ring zero i paddr ring = ring
fill_ring (suc n) i paddr ring =
    fill_ring n (i + 1) paddr
      (update ring i (descriptor buffer_size (u64 (paddr + i * buffer_size))))

unfoldable pub post_rx_buffers : RxRing → RxRing
post_rx_buffers sc = record sc {
  rx_desc_ring = fill_ring 512 0 sc.rx_buffer_paddr sc.rx_desc_ring;
  doorbells = (data_rx_desc_dbl, 512 - 1) ∷ sc.doorbells;
  rx_head = 0;
}

fill_ring_kept :
    (n i paddr : ℕ) (ring : Buffer) (x : ℕ)
    → (x < i) ⊎ (i + n ≤ x)
    → fill_ring n i paddr ring x ≡ ring x
unfolding fill_ring
fill_ring_kept zero i paddr ring x o = refl
fill_ring_kept (suc n) i paddr ring x o =
    fill_ring_kept n (i + 1) paddr
      (update ring i (descriptor buffer_size (u64 (paddr + i * buffer_size)))) x (ground (arith, o))
    ∙ update_ne ring i (descriptor buffer_size (u64 (paddr + i * buffer_size))) x
        (λ e. absurd (ground (arith, o, e)))

fill_ring_slot :
    (n i paddr : ℕ) (ring : Buffer) (x : ℕ)
    → i ≤ x
    → x < i + n
    → fill_ring n i paddr ring x ≡ descriptor buffer_size (u64 (paddr + x * buffer_size))
unfolding fill_ring
fill_ring_slot zero i paddr ring x lo hi = absurd (omega arith)
fill_ring_slot (suc n) i paddr ring x lo hi =
    let d = descriptor buffer_size (u64 (paddr + i * buffer_size)) in
    elim (ℕ_discrete i x) [
      | yes here ↦
          fill_ring_kept n (i + 1) paddr (update ring i d) x (inl (omega (arith, here)))
          ∙ subst (λ y. update ring i d y ≡ descriptor buffer_size (u64 (paddr + y * buffer_size)))
              here (update_self ring i d)
      | no later ↦
          fill_ring_slot n (i + 1) paddr (update ring i d) x (omega (arith, later)) (omega arith)
    ]

-- After the receive buffers are posted, the descriptor of each of the 512 slots offers 2048 bytes
-- at the slot's bus address, where the addresses fit 48 bits.
pub post_rx_buffers_slot :
    (sc : RxRing) (slot : ℕ)
    → slot < 512
    → sc.rx_buffer_paddr + 1048576 ≤ 281474976710656
    → let d = (post_rx_buffers sc).rx_desc_ring slot in
      (d / 281474976710656 ≡ 2048) × (d % 281474976710656 ≡ sc.rx_buffer_paddr + slot * 2048)
unfolding post_rx_buffers
post_rx_buffers_slot sc slot lt small =
    let e =
      fill_ring_slot 512 0 sc.rx_buffer_paddr sc.rx_desc_ring slot (omega arith) (omega arith) in
    let w : u64 (sc.rx_buffer_paddr + slot * 2048) ≡ sc.rx_buffer_paddr + slot * 2048 =
      omega arith in
    let f = descriptor_fields 2048 (sc.rx_buffer_paddr + slot * 2048) (omega arith) (omega arith) in
    (
      ap (λ x. x / 281474976710656) (e ∙ ap (descriptor 2048) w) ∙ f.0,
      ap (λ x. x % 281474976710656) (e ∙ ap (descriptor 2048) w) ∙ f.1,
    )
