-- ===== src/Driver/Within.antt =====
-- What the parts of the ioctls write, and that the heads and the read pointer stay in their rings.
use solarflare_capio_kernel.Base.{
  ℕ, Bool, false, Option, ◌||◌, ◌==◌, ◌+◌, ◌*◌, ◌<◌, ◌≤◌, leb, ◌≡◌, ◌∙◌, refl, arith, if◌then◌else◌,
}
use solarflare_capio_kernel.Base.Buffer.{Buffer, update, update_ne}
use solarflare_capio_kernel.Base.Bits.{bit_and_mask, u64}
use solarflare_capio_kernel.Data.Path.{next_head, copy_to}
use solarflare_capio_kernel.Data.Descriptor.{descriptor, buffer_size}
use solarflare_capio_kernel.Driver.Channel.{
  Channel, World, TxReq, RxReq, EvqSync, Command, get_mac, get_vi_info, set_evq_rptr, tx, rx, other,
}
use solarflare_capio_kernel.Driver.Wait.{
  wait_event, Cursor, is_completion, is_arrival, tx_wait, rx_wait,
}
use solarflare_capio_kernel.Driver.Await.{Waited, wait_event-Waited, wait_event-outside, InRing}
use solarflare_capio_kernel.Driver.Ioctl.{
  sync_evq, ack, check_tx, copy_packet, post_packet, await_completion, advance_tx, cursor,
  await_packet, copy_frame, repost,
}

-- The heads and the read pointer are slots of their rings.
pub record InRange (s : Channel) : Type 0 where
  pub tx : s.tx_head < 512
  pub rx : s.rx_head < 512
  pub evq : s.data_evq_read_ptr < 512

-- From `s` to `s'` no word behind a ring of 512 entries and no byte behind a buffer of 1 MB
-- changed, and the addresses are the same.
pub record Within (s s' : Channel) : Type 0 where
  pub tx_buffer : (x : ℕ) → 1048576 ≤ x → s'.tx_buffer x ≡ s.tx_buffer x
  pub rx_buffer : (x : ℕ) → 1048576 ≤ x → s'.rx_buffer x ≡ s.rx_buffer x
  pub tx_ring : (x : ℕ) → 512 ≤ x → s'.tx_desc_ring x ≡ s.tx_desc_ring x
  pub rx_ring : (x : ℕ) → 512 ≤ x → s'.rx_desc_ring x ≡ s.rx_desc_ring x
  pub evq_ring : (x : ℕ) → 512 ≤ x → s'.data_evq_ring x ≡ s.data_evq_ring x
  pub tx_paddr : s'.tx_buffer_paddr ≡ s.tx_buffer_paddr
  pub rx_paddr : s'.rx_buffer_paddr ≡ s.rx_buffer_paddr

pub Within-trans : (s t u : Channel) → Within s t → Within t u → Within s u
Within-trans s t u a b = record {
  tx_buffer = λ x h. b.tx_buffer x h ∙ a.tx_buffer x h;
  rx_buffer = λ x h. b.rx_buffer x h ∙ a.rx_buffer x h;
  tx_ring = λ x h. b.tx_ring x h ∙ a.tx_ring x h;
  rx_ring = λ x h. b.rx_ring x h ∙ a.rx_ring x h;
  evq_ring = λ x h. b.evq_ring x h ∙ a.evq_ring x h;
  tx_paddr = b.tx_paddr ∙ a.tx_paddr;
  rx_paddr = b.rx_paddr ∙ a.rx_paddr;
}

pub Within-refl : (s : Channel) → Within s s
Within-refl s = record {
  tx_buffer = λ x h. refl;
  rx_buffer = λ x h. refl;
  tx_ring = λ x h. refl;
  rx_ring = λ x h. refl;
  evq_ring = λ x h. refl;
  tx_paddr = refl;
  rx_paddr = refl;
}

-- A copy that fails has moved no more than it was asked for.
abbrev pub IsPartial : World → Command → Type 0
IsPartial w (tx req) = w.copied ≤ req.length
IsPartial w (rx req) = Unit {0}
IsPartial w (get_mac out) = Unit {0}
IsPartial w (get_vi_info req) = Unit {0}
IsPartial w (set_evq_rptr req) = Unit {0}
IsPartial w (other cmd) = Unit {0}

-- The card writes events only to the ring and packets only to the receive buffer.
pub record Behaves (w : World) (cmd : Command) : Type 0 where
  pub events_in : InRing w.events
  pub packets_in : (buffer : Buffer) (x : ℕ) → 1048576 ≤ x → w.packets buffer x ≡ buffer x
  pub partial : IsPartial w cmd

pub head_in : (head : ℕ) → next_head head < 512
head_in head = omega (arith, bit_and_mask 9 (head + 1))

pub copy_outside :
    (dst : Buffer) (start : ℕ) (src : Buffer) (len x : ℕ)
    → start + len ≤ x
    → copy_to dst start src len x ≡ dst x
copy_outside dst start src len x out = ground (arith, out)

pub ring_outside :
    (ring : Buffer) (head v x : ℕ) → head < 512 → 512 ≤ x → update ring head v x ≡ ring x
ring_outside ring head v x lt out = update_ne ring head v x (λ e. absurd (omega (arith, e)))

-- What holds after an ioctl.
pub record Safe (s s' : Channel) : Type 0 where
  pub free : s'.locked ≡ false
  pub range : InRange s'
  pub within : Within s s'

pub Safe-trans : (s t u : Channel) → Safe s t → Safe t u → Safe s u
Safe-trans s t u a b = record {
  free = b.free;
  range = b.range;
  within = Within-trans s t u a.within b.within;
}

pub Safe-refl : (s : Channel) → s.locked ≡ false → InRange s → Safe s s
Safe-refl s free r = record { free = free; range = r; within = Within-refl s }

pub sync_evq-Safe :
    (req : EvqSync) (s : Channel)
    → s.locked ≡ false
    → (leb 512 req.evq_read_ptr || (leb 512 req.tx_head || leb 512 req.rx_head)) ≡ false
    → Safe s (sync_evq req s)
unfolding sync_evq
sync_evq-Safe req s free ok = record {
  free = free;
  range = record { tx = ground (arith, ok); rx = ground (arith, ok); evq = ground (arith, ok) };
  within = record {
    tx_buffer = λ x h. refl;
    rx_buffer = λ x h. refl;
    tx_ring = λ x h. refl;
    rx_ring = λ x h. refl;
    evq_ring = λ x h. refl;
    tx_paddr = refl;
    rx_paddr = refl;
  };
}

pub ack-Safe :
    (wanted : ℕ → Bool) (left : ℕ) (s : Channel) (r : Option ℕ × Cursor)
    → s.locked ≡ false
    → InRange s
    → Waited wanted left (cursor s) r
    → ((x : ℕ) → 512 ≤ x → r.1.ring x ≡ s.data_evq_ring x)
    → Safe s (ack r.1 s)
unfolding ack
ack-Safe wanted left s r free i v out = record {
  free = free;
  range = record { tx = i.tx; rx = i.rx; evq = omega (arith, v.pointer) };
  within = record {
    tx_buffer = λ x h. refl;
    rx_buffer = λ x h. refl;
    tx_ring = λ x h. refl;
    rx_ring = λ x h. refl;
    evq_ring = out;
    tx_paddr = refl;
    rx_paddr = refl;
  };
}

pub copy_packet-Safe :
    (w : World) (req : TxReq) (s : Channel)
    → s.locked ≡ false
    → InRange s
    → w.copied ≤ req.length
    → check_tx req ≡ 0
    → Safe s (copy_packet w req s).1
unfolding copy_packet check_tx
copy_packet-Safe w req s free i most ok = record {
  free = free;
  range = record { tx = i.tx; rx = i.rx; evq = i.evq };
  within = record {
    tx_buffer = λ x h.
        copy_outside s.tx_buffer (s.tx_head * 2048) req.packet
          (if w.copy_error == 0 then req.length else w.copied) x
          (ground (arith, i.tx, most, ok, h));
    rx_buffer = λ x h. refl;
    tx_ring = λ x h. refl;
    rx_ring = λ x h. refl;
    evq_ring = λ x h. refl;
    tx_paddr = refl;
    rx_paddr = refl;
  };
}

pub post_packet-Safe :
    (req : TxReq) (s : Channel) → s.locked ≡ false → InRange s → Safe s (post_packet req s)
unfolding post_packet
post_packet-Safe req s free i = record {
  free = free;
  range = record { tx = i.tx; rx = i.rx; evq = i.evq };
  within = record {
    tx_buffer = λ x h. refl;
    rx_buffer = λ x h. refl;
    tx_ring = λ x h.
        ring_outside s.tx_desc_ring s.tx_head
          (descriptor req.length (u64 (s.tx_buffer_paddr + s.tx_head * buffer_size))) x i.tx h;
    rx_ring = λ x h. refl;
    evq_ring = λ x h. refl;
    tx_paddr = refl;
    rx_paddr = refl;
  };
}

pub advance_tx-Safe : (s : Channel) → s.locked ≡ false → InRange s → Safe s (advance_tx s)
unfolding advance_tx
advance_tx-Safe s free i = record {
  free = free;
  range = record { tx = head_in s.tx_head; rx = i.rx; evq = i.evq };
  within = record {
    tx_buffer = λ x h. refl;
    rx_buffer = λ x h. refl;
    tx_ring = λ x h. refl;
    rx_ring = λ x h. refl;
    evq_ring = λ x h. refl;
    tx_paddr = refl;
    rx_paddr = refl;
  };
}

pub repost-Safe : (s : Channel) → s.locked ≡ false → InRange s → Safe s (repost s)
unfolding repost
repost-Safe s free i = record {
  free = free;
  range = record { tx = i.tx; rx = head_in s.rx_head; evq = i.evq };
  within = record {
    tx_buffer = λ x h. refl;
    rx_buffer = λ x h. refl;
    tx_ring = λ x h. refl;
    rx_ring = λ x h.
        ring_outside s.rx_desc_ring s.rx_head
          (descriptor buffer_size (u64 (s.rx_buffer_paddr + s.rx_head * buffer_size))) x i.rx h;
    evq_ring = λ x h. refl;
    tx_paddr = refl;
    rx_paddr = refl;
  };
}

pub copy_frame-Safe :
    (w : World) (req : RxReq) (rx_bytes : ℕ) (s : Channel)
    → s.locked ≡ false
    → InRange s
    → ((buffer : Buffer) (x : ℕ) → 1048576 ≤ x → w.packets buffer x ≡ buffer x)
    → Safe s (copy_frame w req rx_bytes s).1
unfolding copy_frame
copy_frame-Safe w req rx_bytes s free i packets = record {
  free = free;
  range = record { tx = i.tx; rx = i.rx; evq = i.evq };
  within = record {
    tx_buffer = λ x h. refl;
    rx_buffer = packets s.rx_buffer;
    tx_ring = λ x h. refl;
    rx_ring = λ x h. refl;
    evq_ring = λ x h. refl;
    tx_paddr = refl;
    rx_paddr = refl;
  };
}

pub await_completion-Safe :
    (w : World) (s : Channel)
    → s.locked ≡ false
    → InRange s
    → InRing w.events
    → Safe s (await_completion w s).1
unfolding await_completion tx_wait
await_completion-Safe w s free i inside =
    let wanted = is_completion s.tx_head in
    ack-Safe wanted 10000 s (wait_event w.events wanted 0 10000 (cursor s)) free i
      (wait_event-Waited w.events wanted 10000 0 (cursor s) i.evq)
      (λ x h. wait_event-outside w.events wanted inside 10000 0 (cursor s) x i.evq h)

pub await_packet-Safe :
    (w : World) (s : Channel)
    → s.locked ≡ false
    → InRange s
    → InRing w.events
    → Safe s (await_packet w s).1
unfolding await_packet rx_wait
await_packet-Safe w s free i inside =
    ack-Safe is_arrival 100000 s (wait_event w.events is_arrival 0 100000 (cursor s)) free i
      (wait_event-Waited w.events is_arrival 100000 0 (cursor s) i.evq)
      (λ x h. wait_event-outside w.events is_arrival inside 100000 0 (cursor s) x i.evq h)
