-- ===== src/Driver/Complete.antt =====
-- The kernel's transmit and receive ioctls together with a card that answers, or does not.
use Prim.Native.Nat.{bit_and}
use solarflare_capio_kernel.Base.{
  ℕ, Bool, true, false, Option, none, some, ◌+◌, ◌*◌, ◌%◌, ◌<◌, ◌≡◌, ◌∙◌, ap, refl, arith, List, [],
  ◌∷◌, ◌++◌, length, ◌==◌, ◌&&◌, not, ltb, if◌then◌else◌, Bool-cases, inl, inr,
}
use solarflare_capio_kernel.Base.Errno.{etimedout}
use solarflare_capio_kernel.Base.Buffer.{update}
use solarflare_capio_kernel.Base.Bits.{bit_and_mask, u32, u64}
use solarflare_capio_kernel.Event.Ring.{is_empty, event_code}
use solarflare_capio_kernel.Data.Path.{next_head}
use solarflare_capio_kernel.Driver.Channel.{Channel, World, TxReq, tx}
use solarflare_capio_kernel.Driver.Wait.{
  Cursor, is_completion, is_arrival, tx_wait, rx_wait, wait_event,
}
use solarflare_capio_kernel.Driver.Await.{
  Delivers, Passed, Found, wait_event-Found, wait_event-none, shown,
}
use solarflare_capio_kernel.Driver.Ioctl.{
  ack, check_tx, copy_packet, post_packet, await_completion, advance_tx, cursor, await_packet,
  tx_status, dispatch, data_evq_rptr_dbl, data_tx_wptr_dbl,
}
use solarflare_capio_kernel.Driver.Answer.{answer, answer_tx, dispatch-answer}
use solarflare_capio_kernel.Driver.Within.{InRange}
use solarflare_capio_kernel.Data.Descriptor.{descriptor}

pub next_head_lem : (head : ℕ) → next_head head ≡ (head + 1) % 512
next_head_lem head = bit_and_mask 9 (head + 1)

-- The completion of descriptor `idx`: event code 2, and the index in the low bits.
pub completion : (idx ev : ℕ) → event_code ev ≡ 2 → ev % 512 ≡ idx → is_completion idx ev ≡ true
unfolding is_completion
completion idx ev code low =
    let index : bit_and (u32 (bit_and ev 0xffff)) 511 ≡ idx =
      bit_and_mask 9 (u32 (bit_and ev 0xffff)) ∙ omega (arith, bit_and_mask 16 ev, low) in
    rw (code, index) (ground arith)

-- The state after an acknowledged wait that found `ev` behind `n` others.
abbrev pub Acked : ℕ → Channel → Channel → Type 0
Acked n s s' =
    (s'.data_evq_read_ptr ≡ (s.data_evq_read_ptr + n + 1) % 512)
    × (s'.doorbells ≡ (data_evq_rptr_dbl, s'.data_evq_read_ptr) ∷ s.doorbells)

ack-Acked :
    (ev n : ℕ) (s : Channel) (r : Option ℕ × Cursor)
    → Found ev n (cursor s) r
    → Acked n s (ack r.1 s)
unfolding ack
ack-Acked ev n s r f =
    let mask : bit_and (u32 r.1.ptr) 0x7fff ≡ r.1.ptr =
      bit_and_mask 15 (u32 r.1.ptr) ∙ omega (arith, f.pointer) in
    (f.pointer, ground (arith, f.consumed, ap (λ p. (data_evq_rptr_dbl, p) ∷ s.doorbells) mask))

unfoldable pub sent : World → TxReq → Channel → Channel
sent w req s = post_packet req (copy_packet w req s).1

-- A card that answers: `pre` and then `ev` arrive at try `t`, in slots from the read pointer on.
pub record Arrives (w : World) (wanted : ℕ → Bool) (tries : ℕ) (s : Channel) (pre : List ℕ)
    (ev t : ℕ) : Type 0 where
  pub delivers : Delivers w.events s.data_evq_read_ptr t (pre ++ ev ∷ [])
  pub passed : Passed wanted pre
  pub present : is_empty ev ≡ false
  pub soon : t + length pre < tries
  pub few : length pre < 512

await_completion-Acked :
    (w : World) (s : Channel) (pre : List ℕ) (ev t : ℕ)
    → s.data_evq_read_ptr < 512
    → is_completion s.tx_head ev ≡ true
    → Arrives w (is_completion s.tx_head) 10000 s pre ev t
    → ((await_completion w s).0 ≡ some ev) × Acked (length pre) s (await_completion w s).1
unfolding await_completion tx_wait
await_completion-Acked w s pre ev t lt good a =
    let f =
      wait_event-Found w.events (is_completion s.tx_head) t pre ev t 0 10000 (cursor s)
        (omega arith) lt a.soon a.few a.passed a.present good a.delivers in
    (
      f.event,
      ack-Acked ev (length pre) s (wait_event w.events (is_completion s.tx_head) 0 10000 (cursor s))
          f,
    )

pub await_packet-Acked :
    (w : World) (s : Channel) (pre : List ℕ) (ev t : ℕ)
    → s.data_evq_read_ptr < 512
    → event_code ev ≡ 0
    → Arrives w is_arrival 100000 s pre ev t
    → ((await_packet w s).0 ≡ some (bit_and ev 0x3fff)) × Acked (length pre) s (await_packet w s).1
unfolding await_packet rx_wait is_arrival
await_packet-Acked w s pre ev t lt code a =
    let f =
      wait_event-Found w.events is_arrival t pre ev t 0 100000 (cursor s) (omega arith) lt a.soon
        a.few a.passed a.present (rw code (ground arith)) a.delivers in
    (
      ground (arith, f.event),
      ack-Acked ev (length pre) s (wait_event w.events is_arrival 0 100000 (cursor s)) f,
    )

pub answer_tx-sent :
    (w : World) (req : TxReq) (s : Channel)
    → check_tx req ≡ 0
    → w.copy_error ≡ 0
    → let r = await_completion w (sent w req s) in
      answer_tx w req s
      ≡ ((tx_status r.0, tx (record req { status = tx_status r.0 })), advance_tx r.1)
unfolding answer_tx sent copy_packet
answer_tx-sent w req s ok moved = rw (ok, moved) refl

-- A transmission after which `n + 1` events were consumed.
pub record Transmitted (n : ℕ) (s s' : Channel) : Type 0 where
  pub head : s'.tx_head ≡ (s.tx_head + 1) % 512
  pub pointer : s'.data_evq_read_ptr ≡ (s.data_evq_read_ptr + n + 1) % 512
  pub bells :
      s'.doorbells
      ≡ (data_evq_rptr_dbl, s'.data_evq_read_ptr) ∷ (data_tx_wptr_dbl, s'.tx_head) ∷ s.doorbells
  pub rx_head : s'.rx_head ≡ s.rx_head
  pub rx_ring : s'.rx_desc_ring ≡ s.rx_desc_ring

sent-Transmitted :
    (w : World) (req : TxReq) (s : Channel) (n : ℕ)
    → Acked n (sent w req s) (await_completion w (sent w req s)).1
    → Transmitted n s (advance_tx (await_completion w (sent w req s)).1)
unfolding sent copy_packet post_packet await_completion ack advance_tx
sent-Transmitted w req s n a = record {
  head = next_head_lem s.tx_head;
  pointer = a.0;
  bells = a.1;
  rx_head = refl;
  rx_ring = refl;
}

sent-Arrives :
    (w : World) (req : TxReq) (s : Channel) (pre : List ℕ) (ev t : ℕ)
    → InRange s
    → is_completion s.tx_head ev ≡ true
    → Arrives w (is_completion s.tx_head) 10000 s pre ev t
    → ((await_completion w (sent w req s)).0 ≡ some ev)
      × Acked (length pre) (sent w req s) (await_completion w (sent w req s)).1
unfolding sent copy_packet post_packet
sent-Arrives w req s pre ev t i good a =
    await_completion-Acked w (sent w req s) pre ev t i.evq good record {
      delivers = a.delivers;
      passed = a.passed;
      present = a.present;
      soon = a.soon;
      few = a.few;
    }

-- A valid transmit request on a free mutex, with the packet copied, succeeds when the card
-- answers: if events arrive from the read pointer on, first others and then the completion of the
-- descriptor at the head, after `t` tries that saw nothing and fewer than 10000 tries in all, then
-- the result and the request's status are 0, the head is one on, the read pointer is behind the
-- completion, the card was told both, and the receive side is as it was, whatever the events
-- before the completion were.
pub tx_completes :
    (w : World) (req : TxReq) (s : Channel) (pre : List ℕ) (ev t : ℕ)
    → s.locked ≡ false
    → InRange s
    → check_tx req ≡ 0
    → w.copy_error ≡ 0
    → event_code ev ≡ 2
    → ev % 512 ≡ s.tx_head
    → Arrives w (is_completion s.tx_head) 10000 s pre ev t
    → (s' : Channel) × (dispatch w (tx req) s ≡ some ((0, tx (record req { status = 0 })), s'))
      × Transmitted (length pre) s s'
unfolding answer
tx_completes w req s pre ev t free i ok moved code index a =
    let (found, acked) = sent-Arrives w req s pre ev t i (completion s.tx_head ev code index) a in
    (
      advance_tx (await_completion w (sent w req s)).1,
      dispatch-answer w (tx req) s free
          ∙ ap some (
              answer_tx-sent w req s ok moved
              ∙ ap
                  (λ o. (
                    (tx_status o, tx (record req { status = tx_status o })),
                    advance_tx (await_completion w (sent w req s)).1,
                  ))
                  found),
      sent-Transmitted w req s (length pre) acked,
    )

-- The register writes but those of the event queue's read pointer, the last one first.
unfoldable pub queue_bells : List (ℕ × ℕ) → List (ℕ × ℕ)
queue_bells [] = []
queue_bells (b ∷ bs) =
    let rest = queue_bells bs in if b.0 == data_evq_rptr_dbl then rest else b ∷ rest

pub queue_bells-ack :
    (c : Cursor) (s : Channel) → queue_bells (ack c s).doorbells ≡ queue_bells s.doorbells
unfolding ack queue_bells
queue_bells-ack c s = elim (Bool-cases (ltb 0 c.consumed)) [
  | inl some_consumed ↦ rw some_consumed refl
  | inr none_consumed ↦ rw none_consumed refl
]

-- A valid transmit request on a free mutex, with the packet copied, fails with ETIMEDOUT, in the
-- result and in the request, when none of the 10000 tries sees the completion in the slot that it
-- looks at. The descriptor stays posted, with the packet's length and the slot's address, the
-- transmit doorbell was rung once with the new head, which is one on, and no other was but that of
-- the event queue's read pointer; the receive side is as it was.
pub tx_times_out :
    (w : World) (req : TxReq) (s : Channel)
    → s.locked ≡ false
    → check_tx req ≡ 0
    → w.copy_error ≡ 0
    → ((k : ℕ)
        → k < 10000
        → let ev = shown w.events 0 k (cursor s) in
          (not (is_empty ev) && is_completion s.tx_head ev) ≡ false)
    → (s' : Channel) × (dispatch w (tx req) s
        ≡ some ((etimedout, tx (record req { status = etimedout })), s'))
      × (s'.tx_head ≡ (s.tx_head + 1) % 512)
      × (s'.tx_desc_ring
          ≡ update s.tx_desc_ring s.tx_head
              (descriptor req.length (u64 (s.tx_buffer_paddr + s.tx_head * 2048))))
      × (queue_bells s'.doorbells ≡ (data_tx_wptr_dbl, s'.tx_head) ∷ queue_bells s.doorbells)
      × (s'.rx_head ≡ s.rx_head)
      × (s'.rx_desc_ring ≡ s.rx_desc_ring)
unfolding answer await_completion tx_wait sent copy_packet post_packet ack advance_tx queue_bells
tx_times_out w req s free ok moved never =
    let found : (await_completion w (sent w req s)).0 ≡ none =
      wait_event-none w.events (is_completion s.tx_head) 10000 0 (cursor s) never in
    (
      advance_tx (await_completion w (sent w req s)).1,
      dispatch-answer w (tx req) s free
          ∙ ap some (
              answer_tx-sent w req s ok moved
              ∙ ap
                  (λ o. (
                    (tx_status o, tx (record req { status = tx_status o })),
                    advance_tx (await_completion w (sent w req s)).1,
                  ))
                  found),
      next_head_lem s.tx_head,
      refl,
      queue_bells-ack (tx_wait w.events s.tx_head (cursor s)).1 (sent w req s),
      refl,
      refl,
    )
