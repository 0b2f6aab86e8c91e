-- ===== src/Driver/Tests.antt =====
-- Examples for the driver's ioctls, with a card that answers at once.
use Prim.Native.Nat.{suc, zero}
use solarflare_capio_kernel.Base.{
  ℕ, true, false, some, not, ◌&&◌, ◌==◌, ◌+◌, ◌%◌, ◌<◌, ◌≡◌, refl, arith, List, [], ◌∷◌, map,
  if◌then◌else◌,
}
use solarflare_capio_kernel.Base.Errno.{etimedout}
use solarflare_capio_kernel.Base.Buffer.{Buffer, update, get_elem?}
use solarflare_capio_kernel.Data.Path.{DataPath, rx_recv}
use solarflare_capio_kernel.Driver.Channel.{Channel, World, RxReq, tx, rx, set_evq_rptr}
use solarflare_capio_kernel.Driver.Wait.{Cursor, is_completion, is_arrival}
use solarflare_capio_kernel.Driver.Ioctl.{dispatch, take_packet, check_tx, data_tx_wptr_dbl, cursor}
use solarflare_capio_kernel.Driver.Complete.{Arrives, queue_bells, tx_times_out, await_packet-Acked}
use solarflare_capio_kernel.Driver.Receive.{rx_faults, received, Consumed}
use solarflare_capio_kernel.Driver.Await.{shown, passing}
use solarflare_capio_kernel.Event.Ring.{is_empty}
use solarflare_capio_kernel.Data.Descriptor.{descriptor}
use solarflare_capio_kernel.Base.Bits.{u64}
use solarflare_capio_kernel.Driver.Mapped.{Mapped, reach}
use solarflare_capio_kernel.Driver.Direct.{rx_recv-kernel}
use solarflare_capio_kernel.Driver.Handoff.{
  Call, post, take, direct_run, kernel_run, shared, final_sync, Agrees, handoff,
}
use solarflare_capio_kernel.Driver.Samples.{
  memory, channel, channel-InRange, arrival, done, answering, packet, frame, arrival-Arrives,
  empty_ring,
}

-- A card whose next event, of the packet behind the lost one, comes in slot 1 at the first try.
abbrev following : World
following = record {
  events = λ k ring. if k == 0 then update ring 1 arrival else ring;
  packets = λ m. m;
  copy_error = 0;
  copied = 0;
}

following-Arrives :
    Arrives following is_arrival 100000 (record channel { data_evq_read_ptr = 1 }) [] arrival 0
unfolding is_arrival
following-Arrives = record {
  delivers = record {
    quiet = λ k ring h. absurd (omega arith);
    shown = seen;
    left_alone = λ k ring j h l. ground (arith, h);
  };
  passed = tt;
  present = refl;
  soon = omega arith;
  few = omega arith;
}
  where
    seen :
        (ring : Buffer) (j : ℕ)
        → j < 1
        → get_elem? (arrival ∷ []) j ≡ some (following.events 0 ring ((1 + j) % 512))
    seen ring zero h = refl
    seen ring (suc j) h = absurd (omega arith)

rx_faults_example :
    (req' : RxReq) × (s' : Channel) × (s'' : Channel) × (dispatch
        (answering done arrival 14)
        (rx frame)
        channel
      ≡ some ((14, rx req'), s'))
    × (s'.data_evq_read_ptr ≡ 1)
    × (s'.rx_head ≡ 7)
    × (s'.rx_desc_ring ≡ memory)
    × (dispatch following (rx frame) s'
        ≡ some ((0, rx (received following frame arrival channel)), s''))
    × Consumed 0 s' s''
rx_faults_example =
    rx_faults (answering done arrival 14) frame channel (done ∷ []) arrival 0 following frame []
      arrival 0 refl channel-InRange (omega arith) (omega arith) refl (arrival-Arrives 14) refl refl
      following-Arrives

-- A card that never answers.
abbrev dead : World
dead = record { events = λ k ring x. 0; packets = λ m. m; copy_error = 0; copied = 0 }

dead-shown : (k i : ℕ) (c : Cursor) → shown dead.events i k c ≡ 0
unfolding shown passing
dead-shown zero i c = refl
dead-shown (suc k) i c = dead-shown k (i + 1) (passing dead.events i c)

dead_missed : (ev : ℕ) → ev ≡ 0 → (not (is_empty ev) && is_completion 7 ev) ≡ false
unfolding is_completion
dead_missed ev zero_ev = rw zero_ev refl

tx_times_out_example :
    (s' : Channel) × (dispatch dead (tx packet) channel
      ≡ some ((etimedout, tx (record packet { status = etimedout })), s'))
    × (s'.tx_head ≡ 8)
    × (s'.tx_desc_ring ≡ update memory 7 (descriptor 60 (u64 1062912)))
    × (queue_bells s'.doorbells ≡ (data_tx_wptr_dbl, s'.tx_head) ∷ queue_bells [])
    × (s'.rx_head ≡ 7)
    × (s'.rx_desc_ring ≡ memory)
unfolding check_tx
tx_times_out_example =
    tx_times_out dead packet channel refl refl refl (λ k lt.
      dead_missed (shown dead.events 0 k (cursor channel)) (dead-shown k 0 (cursor channel)))

abbrev mapped : DataPath
mapped = record {
  tx_buffer = some memory;
  rx_buffer = some memory;
  tx_desc_ring = some memory;
  rx_desc_ring = some memory;
  has_slices = true;
  mmio_slices_len = 5;
  tx_buffer_paddr = 1048576;
  rx_buffer_paddr = 2097152;
  tx_head = 7;
  rx_head = 7;
  used_poll = false;
  doorbells = [];
}

mapped-Mapped : Mapped mapped channel
unfolding queue_bells
mapped-Mapped = record {
  tx_buffer = refl;
  rx_buffer = refl;
  tx_ring = refl;
  rx_ring = refl;
  tx_paddr = refl;
  rx_paddr = refl;
  tx_head = refl;
  rx_head = refl;
  slices = refl;
  count = refl;
  bells = refl;
}

rx_recv-kernel_example :
    (r : ℕ × (Buffer × DataPath)) × (s' : Channel) × (rx_recv empty_ring 74 mapped ≡ some r)
    × (take_packet (answering done arrival 0) frame (some 74) (record channel { locked = true })
        ≡ some ((0, rx (record { raw_buffer = r.1.0; length_received = r.0; status = 0 })), s'))
    × Mapped r.1.1 s'
rx_recv-kernel_example =
    rx_recv-kernel (answering done arrival 0) frame 74 mapped channel refl mapped-Mapped
      (omega arith)

-- A packet of 74 bytes taken, a packet posted, and one that is too long refused.
abbrev calls : List Call
calls =
    take (answering done arrival 0) memory 74
    ∷ post (answering arrival done 0) memory 60
    ∷ post dead memory 3000
    ∷ []

handoff_example :
    (s' : Channel) × (dispatch dead
        (set_evq_rptr (final_sync 1 (direct_run calls mapped)))
        (shared channel (direct_run calls mapped))
      ≡ some ((0, set_evq_rptr (final_sync 1 (direct_run calls mapped))), s'))
    × (s'.data_evq_read_ptr ≡ 1)
    × Agrees s' (kernel_run calls channel)
    × (map reach (direct_run calls mapped).doorbells
        ≡ map some (queue_bells (kernel_run calls channel).doorbells))
handoff_example =
    handoff dead calls mapped channel 1 (record { free = refl; tx = omega arith; rx = omega arith })
      mapped-Mapped
      (
        refl,
        (await_packet-Acked (answering done arrival 0) channel (done ∷ []) arrival 0 (omega arith)
            refl (arrival-Arrives 0)).0,
        (refl, (refl, tt)),
      )
      (omega arith)
