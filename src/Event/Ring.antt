-- ===== src/Event/Ring.antt =====
-- A ring of 512 event words, and what both consumers take from it.

use solarflare_capio_kernel.Base.Bits.{u32, shr}
use solarflare_capio_kernel.Base.Buffer.{Buffer, update}
use solarflare_capio_kernel.Base.{
  ℕ, Bool, bit_and, ◌==◌, List, ◌+◌, ◌||◌, [], ◌-◌, if◌then◌else◌, ◌∷◌,
}
use Prim.Native.Nat.{ℕ, bit_and, suc, zero}

abbrev pub num_evq_entry : ℕ
num_evq_entry = 512

-- "No event present": all ones or all zeros.
abbrev pub is_empty : ℕ → Bool
is_empty ev = ev == 0xffffffffffffffff || ev == 0

-- The event code, bits 63:60.
abbrev pub event_code : ℕ → ℕ
event_code ev = bit_and (u32 (shr ev 60)) 0xf

-- `(ptr + 1) & (SFC7120_NUM_EVQ_ENTRY - 1)`
abbrev pub next_ptr : ℕ → ℕ
next_ptr ptr = bit_and (ptr + 1) (num_evq_entry - 1)

-- The reference: at most `n` events from `ptr` on are taken, zeroed and listed in ring order.
unfoldable pub drain : ℕ → Buffer → ℕ → List ℕ × (Buffer × ℕ)
drain zero ring ptr = ([], (ring, ptr))
drain (suc n) ring ptr =
    let rest = drain n (update ring ptr 0) (next_ptr ptr) in
    if is_empty (ring ptr) then ([], (ring, ptr)) else (ring ptr ∷ rest.0, rest.1)
