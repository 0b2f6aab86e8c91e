-- ===== src/Nic/Handle.antt =====
-- The handle of the receive filter: what the controller gave is what the removal sends back.

use solarflare_capio_kernel.Base.Bytes.{
  load_bytes, store_bytes, load_bytes-cong, IsBytes, store_bytes_frame, load-store_bytes,
  load_bytes-lt,
}
use solarflare_capio_kernel.Base.Bits.{bit_or_comm, bit_or_shl, u32, shr, bit_and_mask}
use solarflare_capio_kernel.Nic.State.{Softc, query, zeros, response, get_dword}
use solarflare_capio_kernel.Base.{ℕ, ◌<◌, ◌+◌, ◌≡◌, ◌≤◌, ◌*◌, ◌∙◌, false, inl, true, bit_and, arith}
use Prim.Native.Nat.{ℕ, bit_and}
use solarflare_capio_kernel.Mcdi.Wire.{Device}
use solarflare_capio_kernel.Base.Buffer.{Buffer}
use solarflare_capio_kernel.Nic.Filter.{join_handle, remove_request, insert_request, filter_insert}

join_handle_sum : (lo hi : ℕ) → lo < 4294967296 → join_handle lo hi ≡ lo + hi * 4294967296
unfolding join_handle
join_handle_sum lo hi h = bit_or_comm (hi * 4294967296) lo ∙ bit_or_shl 32 lo hi h

word_before :
    (m : Buffer) (a b v w : ℕ)
    → a + 4 ≤ b
    → w < 4294967296
    → load_bytes 4 m a ≡ w
    → load_bytes 4 (store_bytes 4 m b v) a ≡ w
word_before m a b v w far small h =
    load_bytes-cong 4 (store_bytes 4 m b v) m a
      (λ x lo hi. store_bytes_frame 4 m b v x (inl (omega arith)))
    ∙ h

-- The removal of a handle names the operation and both halves of the handle.
remove_request_words :
    (lo hi : ℕ)
    → lo < 4294967296
    → hi < 4294967296
    → let m = remove_request (lo + hi * 4294967296) in
      (load_bytes 4 m 0 ≡ 1) × (load_bytes 4 m 4 ≡ lo) × (load_bytes 4 m 8 ≡ hi)
unfolding remove_request
remove_request_words lo hi llo lhi = (
  word_before m1 0 8 (u32 (u32 (shr h 32))) 1 (omega arith) (omega arith) (
      word_before m0 0 4 (u32 (u32 (bit_and h 0xffffffff))) 1 (omega arith) (omega arith)
        (load-store_bytes 4 zeros 0 1 (omega arith))),
  word_before m1 4 8 (u32 (u32 (shr h 32))) lo (omega arith) llo (
      load-store_bytes 4 m0 4 (u32 (u32 (bit_and h 0xffffffff))) (omega arith)
      ∙ omega (arith, bit_and_mask 32 h)),
  load-store_bytes 4 m1 8 (u32 (u32 (shr h 32))) (omega arith) ∙ omega arith,
)
  where
    h : ℕ
    h = lo + hi * 4294967296

    m0 : Buffer
    m0 = store_bytes 4 zeros 0 1

    m1 : Buffer
    m1 = store_bytes 4 m0 4 (u32 (u32 (bit_and h 0xffffffff)))

filter_insert_ok :
    {F : Type 0} (d : Device F) (s : Softc F)
    → let q = query d 0x8a (insert_request s.mac_addr) 108 12 s in
      s.rx_filter_inserted ≡ false
      → (filter_insert d s).0 ≡ 0
      → ((filter_insert d s).1.rx_filter_inserted ≡ true)
        × ((filter_insert d s).1.rx_filter_handle ≡ join_handle (get_dword q.0 4) (get_dword q.0 8))
unfolding filter_insert
filter_insert_ok d s free rc0 = ground (arith, free, rc0)

-- A filter that was inserted by a call that returned 0 counts as inserted, and its removal names
-- the two halves of the handle that the controller put in the response. The response has to be
-- made of bytes.
pub insert-remove :
    {F : Type 0} (d : Device F) (s : Softc F)
    → let q = query d 0x8a (insert_request s.mac_addr) 108 12 s in
      let s' = (filter_insert d s).1 in
      s.rx_filter_inserted ≡ false
      → (filter_insert d s).0 ≡ 0
      → IsBytes (response q.0)
      → (s'.rx_filter_inserted ≡ true)
        × (load_bytes 4 (remove_request s'.rx_filter_handle) 0 ≡ 1)
        × (load_bytes 4 (remove_request s'.rx_filter_handle) 4 ≡ get_dword q.0 4)
        × (load_bytes 4 (remove_request s'.rx_filter_handle) 8 ≡ get_dword q.0 8)
insert-remove d s free rc0 bytes =
    let r = (query d 0x8a (insert_request s.mac_addr) 108 12 s).0 in
    let ok = filter_insert_ok d s free rc0 in
    let lo = load_bytes-lt 4 (response r) 4 bytes in
    let w =
      remove_request_words (get_dword r 4) (get_dword r 8) lo
        (load_bytes-lt 4 (response r) 8 bytes) in
    let e = ok.1 ∙ join_handle_sum (get_dword r 4) (get_dword r 8) lo in
    (ok.0, rw e w.0, rw e w.1, rw e w.2)
