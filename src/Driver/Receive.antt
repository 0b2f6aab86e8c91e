-- ===== src/Driver/Receive.antt =====
-- The kernel's receive ioctl with a card that reports a packet: the frame that goes out, and what
-- is lost when it cannot be copied.
use Prim.Native.Nat.{bit_and}
use solarflare_capio_kernel.Base.{
  ℕ, false, some, ◌==◌, ◌+◌, ◌*◌, ◌%◌, ◌/◌, ◌≤◌, ◌≡◌, ◌≢◌, ◌∙◌, ap, refl, arith, List, [], ◌∷◌,
  ◌++◌, length, sym,
}
use mathlib.Core.Path.{subst}
use solarflare_capio_kernel.Driver.Await.{Delivers}
use solarflare_capio_kernel.Base.Buffer.{update, update_self}
use solarflare_capio_kernel.Base.Bits.{u32, u64}
use solarflare_capio_kernel.Event.Ring.{event_code}
use solarflare_capio_kernel.Data.Path.{copy_to, frame_len}
use solarflare_capio_kernel.Data.Post.{data_rx_desc_dbl}
use solarflare_capio_kernel.Data.Descriptor.{descriptor, descriptor_fields}
use solarflare_capio_kernel.Driver.Channel.{Channel, World, RxReq, rx}
use solarflare_capio_kernel.Driver.Wait.{is_arrival}
use solarflare_capio_kernel.Driver.Complete.{Acked, Arrives, await_packet-Acked, next_head_lem}
use solarflare_capio_kernel.Driver.Ioctl.{
  ack, await_packet, copy_frame, repost, dispatch, data_evq_rptr_dbl,
}
use solarflare_capio_kernel.Driver.Answer.{answer, answer_taken, dispatch-answer}
use solarflare_capio_kernel.Driver.Within.{InRange}

-- The length of the frame in the slot at the head, and the request with it.
abbrev pub received_len : World → ℕ → Channel → ℕ
received_len w ev s = frame_len (w.packets s.rx_buffer) (s.rx_head * 2048) (bit_and ev 0x3fff)

abbrev pub received : World → RxReq → ℕ → Channel → RxReq
received w req ev s = record {
  raw_buffer =
      copy_to req.raw_buffer 0 (λ j. w.packets s.rx_buffer (s.rx_head * 2048 + 14 + j))
        (received_len w ev s);
  length_received = received_len w ev s;
  status = 0;
}

-- A packet taken after `n` other events.
pub record Consumed (n : ℕ) (s s' : Channel) : Type 0 where
  pub head : s'.rx_head ≡ (s.rx_head + 1) % 512
  pub pointer : s'.data_evq_read_ptr ≡ (s.data_evq_read_ptr + n + 1) % 512
  pub offered : s'.rx_desc_ring s.rx_head / 281474976710656 ≡ 2048
  pub address : s'.rx_desc_ring s.rx_head % 281474976710656 ≡ s.rx_buffer_paddr + s.rx_head * 2048
  pub bells :
      s'.doorbells
      ≡ (data_rx_desc_dbl, s.rx_head) ∷ (data_evq_rptr_dbl, s'.data_evq_read_ptr) ∷ s.doorbells
  pub tx_head : s'.tx_head ≡ s.tx_head

reposted : World → RxReq → ℕ → Channel → Channel
reposted w req ev s = repost (copy_frame w req (bit_and ev 0x3fff) (await_packet w s).1).1

reposted-Consumed :
    (w : World) (req : RxReq) (ev n : ℕ) (s : Channel)
    → InRange s
    → s.rx_buffer_paddr + 1048576 ≤ 281474976710656
    → Acked n s (await_packet w s).1
    → Consumed n s (reposted w req ev s)
unfolding reposted repost copy_frame await_packet ack
reposted-Consumed w req ev n s i small a =
    let at = s.rx_buffer_paddr + s.rx_head * 2048 in
    let fits : u64 at ≡ at = omega (arith, i.rx, small) in
    let d = descriptor 2048 (u64 at) in
    let word : update s.rx_desc_ring s.rx_head d s.rx_head ≡ descriptor 2048 at =
      update_self s.rx_desc_ring s.rx_head d ∙ ap (descriptor 2048) fits in
    let f = descriptor_fields 2048 at (omega arith) (omega (arith, i.rx, small)) in
    let bell : u32 s.rx_head ≡ s.rx_head = omega (arith, i.rx) in
    record {
      head = next_head_lem s.rx_head;
      pointer = a.0;
      offered = ap (λ v. v / 281474976710656) word ∙ f.0;
      address = ap (λ v. v % 281474976710656) word ∙ f.1;
      bells = ground (arith, bell, a.1);
      tx_head = refl;
    }

answer_rx_taken :
    (w : World) (req : RxReq) (ev : ℕ) (s : Channel)
    → w.copy_error ≡ 0
    → answer_taken w req (some (bit_and ev 0x3fff)) (await_packet w s).1
      ≡ ((0, rx (received w req ev s)), reposted w req ev s)
unfolding answer_taken reposted copy_frame await_packet ack
answer_rx_taken w req ev s moved = rw moved refl

-- A receive request on a free mutex, with a copyout that works, delivers a packet when the card
-- reports one: if events arrive from the read pointer on, first others and then a receive event,
-- after `t` tries that saw nothing and fewer than 100000 tries in all, then the result and the
-- status are 0, the user has the bytes behind the prefix in the slot at the head and their number,
-- the slot is offered again with its 2048 bytes, the head is one on, the read pointer is behind
-- the event, and the card was told both. The addresses of the receive buffer have to fit 48 bits.
pub rx_delivers :
    (w : World) (req : RxReq) (s : Channel) (pre : List ℕ) (ev t : ℕ)
    → s.locked ≡ false
    → InRange s
    → w.copy_error ≡ 0
    → s.rx_buffer_paddr + 1048576 ≤ 281474976710656
    → event_code ev ≡ 0
    → Arrives w is_arrival 100000 s pre ev t
    → (s' : Channel) × (dispatch w (rx req) s ≡ some ((0, rx (received w req ev s)), s'))
      × Consumed (length pre) s s'
unfolding answer
rx_delivers w req s pre ev t free i moved small code a =
    let (found, acked) = await_packet-Acked w s pre ev t i.evq code a in
    (
      reposted w req ev s,
      dispatch-answer w (rx req) s free
          ∙ ap some (
              ap (λ o. answer_taken w req o (await_packet w s).1) found
              ∙ answer_rx_taken w req ev s moved),
      reposted-Consumed w req ev (length pre) s i small acked,
    )

-- A receive request on a free mutex, with the heads and the read pointer in their rings and a card
-- that reports a packet in fewer than 100000 tries, has lost the packet's event when its copyout
-- fails: the result is the error, the read pointer is behind the event, but the head and the
-- descriptors are as they were. When the card then reports the next packet, behind that event and
-- again in fewer than 100000 tries, the next receive request, with a copyout that works, takes its
-- event for the slot of the lost one: it succeeds with the bytes of that slot, offers that slot
-- again, and the head is then one on, though two packets were reported. The addresses of the
-- receive buffer have to fit 48 bits.
pub rx_faults :
    (w : World) (req : RxReq) (s : Channel) (pre : List ℕ) (ev t : ℕ) (w2 : World) (req2 : RxReq)
    (pre2 : List ℕ) (ev2 t2 : ℕ)
    → s.locked ≡ false
    → InRange s
    → s.rx_buffer_paddr + 1048576 ≤ 281474976710656
    → w.copy_error ≢ 0
    → event_code ev ≡ 0
    → Arrives w is_arrival 100000 s pre ev t
    → w2.copy_error ≡ 0
    → event_code ev2 ≡ 0
    → Arrives w2 is_arrival 100000
        (record s { data_evq_read_ptr = (s.data_evq_read_ptr + length pre + 1) % 512 })
        pre2
        ev2
        t2
    → (req' : RxReq) × (s' : Channel) × (s'' : Channel) × (dispatch w (rx req) s
        ≡ some ((w.copy_error, rx req'), s'))
      × (s'.data_evq_read_ptr ≡ (s.data_evq_read_ptr + length pre + 1) % 512)
      × (s'.rx_head ≡ s.rx_head)
      × (s'.rx_desc_ring ≡ s.rx_desc_ring)
      × (dispatch w2 (rx req2) s'
          ≡ some (
            (0, rx (received w2 req2 ev2 (record s { rx_buffer = w.packets s.rx_buffer }))),
            s'',
          ))
      × Consumed (length pre2) s' s''
unfolding answer answer_taken copy_frame await_packet ack
rx_faults w req s pre ev t w2 req2 pre2 ev2 t2 free i small fault code a moved code2 a2 =
    let (found, acked) = await_packet-Acked w s pre ev t i.evq code a in
    let c = copy_frame w req (bit_and ev 0x3fff) (await_packet w s).1 in
    let bad : (w.copy_error == 0) ≡ false = ground (arith, fault) in
    let (s'', returns, consumed) =
      rx_delivers w2 req2 c.1 pre2 ev2 t2 free
        (record { tx = i.tx; rx = i.rx; evq = omega (arith, acked.0) }) moved small code2
        (record {
          delivers =
              subst (λ p. Delivers w2.events p t2 (pre2 ++ ev2 ∷ [])) (sym acked.0) a2.delivers;
          passed = a2.passed;
          present = a2.present;
          soon = a2.soon;
          few = a2.few;
        }) in
    (
      c.0.1,
      c.1,
      s'',
      dispatch-answer w (rx req) s free
          ∙ ap some (ap (λ o. answer_taken w req o (await_packet w s).1) found ∙ rw bad refl),
      acked.0,
      refl,
      refl,
      returns,
      consumed,
    )
