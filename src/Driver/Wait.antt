-- ===== src/Driver/Wait.antt =====
-- The wait for an event in `sfc7120_ioctl` (sfc7120.c), for a transmit completion and for a
-- received packet. The counters that only the log prints are not modelled.
use Prim.Native.Nat.{bit_and, suc, zero}
use solarflare_capio_kernel.Base.{
  ℕ, Bool, Option, none, some, not, ◌&&◌, ◌==◌, ◌+◌, ◌-◌, if◌then◌else◌,
}
use solarflare_capio_kernel.Base.Buffer.{Buffer, update}
use solarflare_capio_kernel.Base.Bits.{u32}
use solarflare_capio_kernel.Event.Ring.{is_empty, event_code, next_ptr}

-- The ring, the read pointer and the number of events consumed.
pub record Cursor : Type 0 where
  pub ring : Buffer
  pub ptr : ℕ
  pub consumed : ℕ

-- `evq[data_evq_read_ptr] = 0`, and the pointer and the counter one on.
unfoldable pub consume : Cursor → Cursor
consume c = record c {
  ring = update c.ring c.ptr 0;
  ptr = next_ptr c.ptr;
  consumed = c.consumed + 1;
}

-- At most `left` tries, the next one with number `i`: an event that meets the test ends the wait.
unfoldable pub wait_event : (ℕ → Buffer → Buffer) → (ℕ → Bool) → ℕ → ℕ → Cursor → Option ℕ × Cursor
unfolding consume
wait_event events wanted i zero c = (none, c)
wait_event events wanted i (suc left) c =
    let seen = record c { ring = events i c.ring } in
    let ev = seen.ring seen.ptr in
    let c' = if is_empty ev then seen else consume seen in
    let rest = wait_event events wanted (i + 1) left c' in
    if not (is_empty ev) && wanted ev then (some ev, c') else rest

-- TX_EV for the descriptor that was posted: the index is masked to the ring.
unfoldable pub is_completion : ℕ → ℕ → Bool
is_completion posted_idx ev =
    event_code ev == 2 && bit_and (u32 (bit_and ev 0xffff)) (512 - 1) == posted_idx

-- RX_EV
unfoldable pub is_arrival : ℕ → Bool
is_arrival ev = event_code ev == 0

unfoldable pub tx_wait : (ℕ → Buffer → Buffer) → ℕ → Cursor → Option ℕ × Cursor
tx_wait events posted_idx c = wait_event events (is_completion posted_idx) 0 10000 c

unfoldable pub rx_wait : (ℕ → Buffer → Buffer) → Cursor → Option ℕ × Cursor
rx_wait events c = wait_event events is_arrival 0 100000 c
