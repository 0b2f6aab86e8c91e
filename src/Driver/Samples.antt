-- ===== src/Driver/Samples.antt =====
-- A channel and a card that answers at once, for the examples.
use Prim.Native.Nat.{suc, zero}
use solarflare_capio_kernel.Base.{
  ℕ, true, false, some, ◌==◌, ◌+◌, ◌<◌, ◌%◌, ◌≡◌, refl, arith, [], ◌∷◌, if◌then◌else◌,
}
use solarflare_capio_kernel.Base.Buffer.{Buffer, update, get_elem?}
use solarflare_capio_kernel.Driver.Channel.{Channel, World, TxReq, RxReq}
use solarflare_capio_kernel.Driver.Wait.{is_completion, is_arrival}
use solarflare_capio_kernel.Driver.Await.{Delivers}
use solarflare_capio_kernel.Driver.Within.{InRange}
use solarflare_capio_kernel.Driver.Complete.{Arrives}

-- Slot 7 has a packet of 60 bytes, by the length in its prefix.
abbrev pub memory : Buffer
memory a = if a == 14344 then 60 else if a == 14345 then 0 else 1

abbrev pub empty_ring : Buffer
empty_ring a = 0xffffffffffffffff

abbrev pub channel : Channel
channel = record {
  locked = false;
  mac_addr = memory;
  vi_base = 0;
  tx_buffer = memory;
  tx_buffer_paddr = 1048576;
  tx_desc_ring = memory;
  tx_head = 7;
  rx_buffer = memory;
  rx_buffer_paddr = 2097152;
  rx_desc_ring = memory;
  rx_head = 7;
  data_evq_ring = empty_ring;
  data_evq_read_ptr = 511;
  doorbells = [];
}

pub channel-InRange : InRange channel
channel-InRange = record { tx = omega arith; rx = omega arith; evq = omega arith }

-- Two events at the first try, in the slots 511 and 0.
abbrev pub card : ℕ → ℕ → ℕ → Buffer → Buffer
card ev1 ev2 k ring = if k == 0 then update (update ring 511 ev1) 0 ev2 else ring

card-Delivers : (ev1 ev2 : ℕ) → Delivers (card ev1 ev2) 511 0 (ev1 ∷ ev2 ∷ [])
card-Delivers ev1 ev2 = record {
  quiet = λ k ring h. absurd (omega arith);
  shown = seen;
  left_alone = kept;
}
  where
    seen :
        (ring : Buffer) (j : ℕ)
        → j < 2
        → get_elem? (ev1 ∷ ev2 ∷ []) j ≡ some (card ev1 ev2 0 ring ((511 + j) % 512))
    seen ring zero h = refl
    seen ring (suc zero) h = refl
    seen ring (suc (suc j)) h = absurd (omega arith)

    kept :
        (k : ℕ) (ring : Buffer) (j : ℕ)
        → 0 < k
        → j < 2
        → card ev1 ev2 k ring ((511 + j) % 512) ≡ ring ((511 + j) % 512)
    kept k ring j h l = ground (arith, h)

-- An RX event of 74 bytes, and the completion of descriptor 7.
abbrev pub arrival : ℕ
arrival = 74

abbrev pub done : ℕ
done = 0x2000000000000007

abbrev pub answering : ℕ → ℕ → ℕ → World
answering ev1 ev2 e = record { events = card ev1 ev2; packets = λ m. m; copy_error = e; copied = 0 }

abbrev pub packet : TxReq
packet = record {
  has_tag = true;
  may_load = true;
  cap_len = 60;
  packet = memory;
  length = 60;
  status = 0;
}

abbrev pub frame : RxReq
frame = record { raw_buffer = empty_ring; length_received = 0; status = 0 }

pub completion-Arrives :
    Arrives (answering arrival done 0) (is_completion 7) 10000 channel (arrival ∷ []) done 0
unfolding is_completion
completion-Arrives = record {
  delivers = card-Delivers arrival done;
  passed = (refl, refl, tt);
  present = refl;
  soon = omega arith;
  few = omega arith;
}

pub arrival-Arrives :
    (e : ℕ) → Arrives (answering done arrival e) is_arrival 100000 channel (done ∷ []) arrival 0
unfolding is_arrival
arrival-Arrives e = record {
  delivers = card-Delivers done arrival;
  passed = (refl, refl, tt);
  present = refl;
  soon = omega arith;
  few = omega arith;
}
