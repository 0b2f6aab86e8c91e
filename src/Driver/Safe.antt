-- ===== src/Driver/Safe.antt =====
-- Every ioctl keeps the heads and the read pointer in their rings, and writes only to the rings
-- and buffers of the device.
use solarflare_capio_kernel.Driver.Within.{
  InRange, Behaves, Safe, copy_packet-Safe, Safe-refl, post_packet-Safe, copy_frame-Safe,
  sync_evq-Safe, await_completion-Safe, Safe-trans, await_packet-Safe, advance_tx-Safe, repost-Safe,
}
use solarflare_capio_kernel.Base.{
  ℕ, false, Option, none, some, ◌||◌, ◌==◌, leb, ◌≡◌, arith, Bool-cases, inl, inr,
}
use solarflare_capio_kernel.Driver.Channel.{
  Channel, World, TxReq, RxReq, Command, get_mac, get_vi_info, set_evq_rptr, tx, rx, other,
}
use solarflare_capio_kernel.Driver.Ioctl.{
  check_tx, copy_packet, post_packet, await_completion, advance_tx, await_packet, copy_frame,
  repost, dispatch,
}
use solarflare_capio_kernel.Driver.Answer.{answer, answer_tx, answer_taken, dispatch-answer}

sent-Safe :
    (w : World) (req : TxReq) (s : Channel)
    → s.locked ≡ false
    → InRange s
    → Behaves w (tx req)
    → check_tx req ≡ 0
    → Safe s (advance_tx (await_completion w (post_packet req (copy_packet w req s).1)).1)
sent-Safe w req s free i b ok =
    let s1 = (copy_packet w req s).1 in
    let s2 = post_packet req s1 in
    let s3 = (await_completion w s2).1 in
    let a = copy_packet-Safe w req s free i b.partial ok in
    let p = post_packet-Safe req s1 a.free a.range in
    let v = await_completion-Safe w s2 p.free p.range b.events_in in
    Safe-trans s s1 (advance_tx s3) a (
      Safe-trans s1 s2 (advance_tx s3) p
        (Safe-trans s2 s3 (advance_tx s3) v (advance_tx-Safe s3 v.free v.range)))

answer_tx-Safe :
    (w : World) (req : TxReq) (s : Channel)
    → s.locked ≡ false
    → InRange s
    → Behaves w (tx req)
    → Safe s (answer_tx w req s).1
unfolding answer_tx
answer_tx-Safe w req s free i b = elim (Bool-cases (check_tx req == 0)) [
  | inr bad ↦ rw bad (Safe-refl s free i)
  | inl ok ↦ elim (Bool-cases ((copy_packet w req s).0 == 0)) [
    | inr fault ↦ rw (ok, fault) (copy_packet-Safe w req s free i b.partial (ground (arith, ok)))
    | inl moved ↦ rw (ok, moved) (sent-Safe w req s free i b (ground (arith, ok)))
  ]
]

answer_taken-Safe :
    (w : World) (req : RxReq) (found : Option ℕ) (s : Channel)
    → s.locked ≡ false
    → InRange s
    → Behaves w (rx req)
    → Safe s (answer_taken w req found s).1
unfolding answer_taken
answer_taken-Safe w req none s free i b = Safe-refl s free i
answer_taken-Safe w req (some n) s free i b =
    let s' = (copy_frame w req n s).1 in
    let a = copy_frame-Safe w req n s free i b.packets_in in
    elim (Bool-cases ((copy_frame w req n s).0.0 == 0)) [
      | inr fault ↦ rw fault a
      | inl moved ↦ rw moved (Safe-trans s s' (repost s') a (repost-Safe s' a.free a.range))
    ]

answer-Safe :
    (w : World) (cmd : Command) (s : Channel)
    → s.locked ≡ false
    → InRange s
    → Behaves w cmd
    → Safe s (answer w cmd s).1
unfolding answer
answer-Safe w (get_mac out) s free i b = Safe-refl s free i
answer-Safe w (get_vi_info req) s free i b = Safe-refl s free i
answer-Safe w (set_evq_rptr req) s free i b =
    elim (Bool-cases (leb 512 req.evq_read_ptr || (leb 512 req.tx_head || leb 512 req.rx_head))) [
      | inl bad ↦ rw bad (Safe-refl s free i)
      | inr ok ↦ rw ok (sync_evq-Safe req s free ok)
    ]
answer-Safe w (tx req) s free i b = answer_tx-Safe w req s free i b
answer-Safe w (rx req) s free i b =
    let s' = (await_packet w s).1 in
    let v = await_packet-Safe w s free i b.events_in in
    Safe-trans s s' (answer_taken w req (await_packet w s).0 s').1 v
      (answer_taken-Safe w req (await_packet w s).0 s' v.free v.range b)
answer-Safe w (other cmd) s free i b = Safe-refl s free i

-- An ioctl on a free mutex, with the two heads and the read pointer inside their rings of 512,
-- returns, on every path with the mutex free again and the heads and the pointer inside their
-- rings, and no word behind a ring and no byte behind a packet buffer was written. The card has to
-- write inside the event ring and the receive buffer, and a copyin that fails has to have moved no
-- more than it was asked for.
pub dispatch-Safe :
    (w : World) (cmd : Command) (s : Channel)
    → s.locked ≡ false
    → InRange s
    → Behaves w cmd
    → (r : ℕ × Command) × (s' : Channel) × (dispatch w cmd s ≡ some (r, s')) × Safe s s'
dispatch-Safe w cmd s free i b = (
  (answer w cmd s).0,
  (answer w cmd s).1,
  dispatch-answer w cmd s free,
  answer-Safe w cmd s free i b,
)
