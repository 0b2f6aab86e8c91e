-- ===== src/Driver/Answer.antt =====
-- What each ioctl answers on a free mutex, as a function: the mutex is free again on every path.
use solarflare_capio_kernel.Base.{
  ℕ, true, false, Option, none, some, not, ◌||◌, ◌==◌, leb, ◌≡◌, ◌∙◌, sym, ap, refl, if◌then◌else◌,
  Bool-cases, inl, inr,
}
use solarflare_capio_kernel.Base.Errno.{einval, enotty, etimedout}
use solarflare_capio_kernel.Driver.Channel.{
  Channel, World, TxReq, RxReq, Command, get_mac, get_vi_info, set_evq_rptr, tx, rx, other,
  unlocked, unlocked_eta,
}
use solarflare_capio_kernel.Driver.Ioctl.{
  read_mac, read_vi_info, sync_evq, ack, check_tx, copy_packet, post_packet, await_completion,
  advance_tx, tx_status, ioctl_tx, await_packet, copy_frame, repost, take_packet, ioctl_rx,
  dispatch,
}

unfoldable pub answer_tx : World → TxReq → Channel → (ℕ × Command) × Channel
answer_tx w req s =
    let (e, s1) = copy_packet w req s in
    let (done, s2) = await_completion w (post_packet req s1) in
    if not (check_tx req == 0)
    then ((check_tx req, tx req), s)
    else if not (e == 0)
    then ((e, tx req), s1)
    else ((tx_status done, tx (record req { status = tx_status done })), advance_tx s2)

unfoldable pub answer_taken : World → RxReq → Option ℕ → Channel → (ℕ × Command) × Channel
answer_taken w req none s = ((etimedout, rx req), s)
answer_taken w req (some rx_bytes) s =
    let ((e, req'), s') = copy_frame w req rx_bytes s in
    if not (e == 0) then ((e, rx req'), s') else ((0, rx (record req' { status = 0 })), repost s')

unfoldable pub answer : World → Command → Channel → (ℕ × Command) × Channel
unfolding answer_tx answer_taken
answer w (get_mac out) s = ((0, get_mac (read_mac s out)), s)
answer w (get_vi_info req) s = ((0, get_vi_info (read_vi_info s)), s)
answer w (set_evq_rptr req) s =
    if leb 512 req.evq_read_ptr || (leb 512 req.tx_head || leb 512 req.rx_head)
    then ((einval, set_evq_rptr req), s)
    else ((0, set_evq_rptr req), sync_evq req s)
answer w (tx req) s = answer_tx w req s
answer w (rx req) s = let (found, s') = await_packet w s in answer_taken w req found s'
answer w (other cmd) s = ((enotty, other cmd), s)

ioctl_tx-answer :
    (w : World) (req : TxReq) (s : Channel)
    → ioctl_tx w req (unlocked s) ≡ some (answer_tx w req (unlocked s))
unfolding ioctl_tx answer_tx copy_packet post_packet await_completion ack advance_tx
ioctl_tx-answer w req s = elim (Bool-cases (check_tx req == 0)) [
  | inr bad ↦ rw bad refl
  | inl ok ↦ elim (Bool-cases (w.copy_error == 0)) [
    | inr fault ↦ rw (ok, fault) refl
    | inl moved ↦ rw (ok, moved) refl
  ]
]

pub take_packet-answer :
    (w : World) (req : RxReq) (found : Option ℕ) (s : Channel)
    → take_packet w req found (record s { locked = true })
      ≡ some (answer_taken w req found (unlocked s))
unfolding take_packet answer_taken copy_frame repost
take_packet-answer w req none s = refl
take_packet-answer w req (some rx_bytes) s = elim (Bool-cases (w.copy_error == 0)) [
  | inr fault ↦ rw fault refl
  | inl moved ↦ rw moved refl
]

dispatch-unlocked :
    (w : World) (cmd : Command) (s : Channel)
    → dispatch w cmd (unlocked s) ≡ some (answer w cmd (unlocked s))
unfolding dispatch answer read_mac read_vi_info sync_evq ioctl_rx await_packet ack
dispatch-unlocked w (get_mac out) s = refl
dispatch-unlocked w (get_vi_info req) s = refl
dispatch-unlocked w (set_evq_rptr req) s =
    elim (Bool-cases (leb 512 req.evq_read_ptr || (leb 512 req.tx_head || leb 512 req.rx_head))) [
      | inl bad ↦ rw bad refl
      | inr ok ↦ rw ok refl
    ]
dispatch-unlocked w (tx req) s = ioctl_tx-answer w req s
dispatch-unlocked w (rx req) s =
    take_packet-answer w req (await_packet w (unlocked s)).0 (await_packet w (unlocked s)).1
dispatch-unlocked w (other cmd) s = refl

-- On a free mutex no ioctl faults.
pub dispatch-answer :
    (w : World) (cmd : Command) (s : Channel)
    → s.locked ≡ false
    → dispatch w cmd s ≡ some (answer w cmd s)
dispatch-answer w cmd s free =
    ap (dispatch w cmd) (sym (unlocked_eta s free))
    ∙ dispatch-unlocked w cmd s
    ∙ ap (λ t. some (answer w cmd t)) (unlocked_eta s free)
