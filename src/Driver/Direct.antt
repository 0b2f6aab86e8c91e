-- ===== src/Driver/Direct.antt =====
-- The direct path of userlib/sfc7120_user.c against the ioctls of sfc7120.c: both work on the same
-- memory, the one through register slices, the other with the registers.
use solarflare_capio_kernel.Base.{
  ℕ, true, false, Option, none, some, ◌==◌, ◌||◌, ltb, ◌+◌, ◌*◌, ◌<◌, ◌≡◌, ◌∙◌, sym, ap, refl,
  arith, Bool-cases, inl, inr,
}
use solarflare_capio_kernel.Base.Buffer.{Buffer}
use solarflare_capio_kernel.Data.Path.{
  DataPath, copy_to, tx_post, rx_recv, run_tx, run_rx, enter_tx, frame_len,
}
use solarflare_capio_kernel.Data.Descriptor.{buffer_size}
use solarflare_capio_kernel.Data.Packet.{enter_tx_ok, enter_rx_ok}
use solarflare_capio_kernel.Driver.Channel.{
  Channel, World, TxReq, RxReq, tx, rx, unlocked, unlocked_eta,
}
use solarflare_capio_kernel.Driver.Ioctl.{
  ack, cursor, check_tx, copy_packet, await_completion, advance_tx, copy_frame, repost, take_packet,
  await_packet, ioctl_rx, dispatch,
}
use solarflare_capio_kernel.Driver.Wait.{tx_wait, rx_wait}
use solarflare_capio_kernel.Driver.Answer.{answer_tx, answer_taken, take_packet-answer}
use solarflare_capio_kernel.Base.Errno.{einval}
use solarflare_capio_kernel.Driver.Complete.{sent, answer_tx-sent}
use solarflare_capio_kernel.Driver.Mapped.{
  Mapped, landed, quiet, request, Mapped-ack, Mapped-unlocked, run_tx-Mapped, run_rx-Mapped,
}

ltb_self : (n : ℕ) → ltb n n ≡ false
ltb_self n = ground arith

enter_tx_refused :
    (o r : Option Buffer) (buf : Buffer) (len : ℕ) (sfc : DataPath)
    → (len == 0 || ltb buffer_size len) ≡ true
    → enter_tx o r buf len sfc ≡ (false, sfc)
unfolding enter_tx
enter_tx_refused none r buf len sfc bad = refl
enter_tx_refused (some b) none buf len sfc bad = refl
enter_tx_refused (some b) (some t) buf len sfc bad = ground (arith, bad)

sent-quiet :
    (w : World) (req : TxReq) (s : Channel) → w.copy_error ≡ 0 → sent w req s ≡ sent quiet req s
unfolding sent copy_packet
sent-quiet w req s moved = rw moved refl

check_request :
    (buf : Buffer) (len : ℕ)
    → (len == 0 || ltb buffer_size len) ≡ false
    → check_tx (request buf len) ≡ 0
unfolding check_tx
check_request buf len good = rw (good, ltb_self len) refl

answer_tx_refused :
    (w : World) (buf : Buffer) (len : ℕ) (s : Channel)
    → (len == 0 || ltb buffer_size len) ≡ true
    → answer_tx w (request buf len) s ≡ ((einval, tx (request buf len)), s)
unfolding answer_tx check_tx
answer_tx_refused w buf len s bad = rw bad refl

-- The wait for the completion changes nothing that the interface shares.
waited-Mapped :
    (w : World) (sfc : DataPath) (s : Channel)
    → Mapped sfc (advance_tx s)
    → Mapped sfc (advance_tx (await_completion w s).1)
unfolding await_completion ack advance_tx
waited-Mapped w sfc s m = Mapped-ack sfc (advance_tx s) (tx_wait w.events s.tx_head (cursor s)).1 m

-- On a mapping that agrees with the kernel's state, posting a packet directly, through the slices,
-- and the transmit ioctl with a copyin that works do the same to the shared memory, to the head and
-- to the registers, whatever the card answers in the ioctl's wait, a refused length included.
pub tx_post-kernel :
    (w : World) (buf : Buffer) (len : ℕ) (sfc : DataPath) (s : Channel)
    → w.copy_error ≡ 0
    → Mapped sfc s
    → Mapped (tx_post buf len sfc).1 (answer_tx w (request buf len) s).1
unfolding tx_post
tx_post-kernel w buf len sfc s moved m = elim (Bool-cases (len == 0 || ltb buffer_size len)) [
  | inl bad ↦
      rw
        (
          enter_tx_refused sfc.tx_buffer sfc.tx_desc_ring buf len sfc bad,
          answer_tx_refused w buf len s bad,
        )
        m
  | inr good ↦
      let req = request buf len in
      rw
        (
          enter_tx_ok sfc.tx_buffer sfc.tx_desc_ring s.tx_buffer s.tx_desc_ring buf len sfc
              m.tx_buffer m.tx_ring m.slices (omega (arith, m.count)) (ground (arith, good))
              (ground (arith, good)),
          answer_tx-sent w req s (check_request buf len good) moved,
          sent-quiet w req s moved,
        )
        (waited-Mapped w (run_tx s.tx_buffer s.tx_desc_ring buf len sfc) (sent quiet req s)
          (run_tx-Mapped buf len sfc s m))
]

-- On a mapping that agrees with the kernel's state and with the packets that the card has written,
-- with the receive head in its ring, taking a packet directly and what the receive ioctl does after
-- its wait, with a copyout that works, give the user the same bytes and the same length, and do the
-- same to the shared memory, the head and the registers.
pub rx_recv-kernel :
    (w : World) (req : RxReq) (rx_bytes : ℕ) (sfc : DataPath) (s : Channel)
    → w.copy_error ≡ 0
    → Mapped sfc (landed w s)
    → s.rx_head < 512
    → (r : ℕ × (Buffer × DataPath)) × (s' : Channel) × (rx_recv req.raw_buffer rx_bytes sfc
        ≡ some r)
      × (take_packet w req (some rx_bytes) (record s { locked = true })
          ≡ some ((0, rx (record { raw_buffer = r.1.0; length_received = r.0; status = 0 })), s'))
      × Mapped r.1.1 s'
unfolding rx_recv answer_taken copy_frame run_rx repost
rx_recv-kernel w req rx_bytes sfc s moved m lt =
    let u = landed w (unlocked s) in
    let m' = Mapped-unlocked sfc (landed w s) m in
    let run = run_rx u.rx_buffer u.rx_desc_ring req.raw_buffer rx_bytes sfc in
    (
      run,
      repost u,
      enter_rx_ok sfc.rx_buffer sfc.rx_desc_ring u.rx_buffer u.rx_desc_ring req.raw_buffer rx_bytes
          sfc m.rx_buffer m.rx_ring m.slices (omega (arith, m.count)),
      take_packet-answer w req (some rx_bytes) s
          ∙ ap some (
              rw moved (
                ap
                  (λ h. (
                    (
                      0,
                      rx (record {
                        raw_buffer =
                            copy_to req.raw_buffer 0 (λ j. u.rx_buffer (h * 2048 + 14 + j))
                              (frame_len u.rx_buffer (h * 2048) rx_bytes);
                        length_received = frame_len u.rx_buffer (h * 2048) rx_bytes;
                        status = 0;
                      }),
                    ),
                    repost u,
                  ))
                  (sym m.rx_head))),
      run_rx-Mapped req.raw_buffer rx_bytes sfc u m' lt,
    )

dispatch-take :
    (w : World) (req : RxReq) (s : Channel)
    → let r = await_packet w (unlocked s) in
      dispatch w (rx req) (unlocked s) ≡ take_packet w req r.0 (record r.1 { locked = true })
unfolding dispatch ioctl_rx await_packet ack
dispatch-take w req s = refl

await_packet-Mapped :
    (w : World) (sfc : DataPath) (s : Channel)
    → Mapped sfc (landed w s)
    → Mapped sfc (landed w (await_packet w (unlocked s)).1)
unfolding await_packet ack
await_packet-Mapped w sfc s m =
    Mapped-ack sfc (unlocked (landed w s)) (rx_wait w.events (cursor (unlocked s))).1
      (Mapped-unlocked sfc (landed w s) m)

rx_head-await : (w : World) (s : Channel) → (await_packet w s).1.rx_head ≡ s.rx_head
unfolding await_packet ack
rx_head-await w s = refl

-- The same for the whole receive ioctl, on a free mutex, when its wait finds an event with that
-- many bytes.
pub rx_recv-ioctl :
    (w : World) (req : RxReq) (rx_bytes : ℕ) (sfc : DataPath) (s : Channel)
    → s.locked ≡ false
    → w.copy_error ≡ 0
    → (await_packet w s).0 ≡ some rx_bytes
    → Mapped sfc (landed w s)
    → s.rx_head < 512
    → (r : ℕ × (Buffer × DataPath)) × (s' : Channel) × (rx_recv req.raw_buffer rx_bytes sfc
        ≡ some r)
      × (dispatch w (rx req) s
          ≡ some ((0, rx (record { raw_buffer = r.1.0; length_received = r.0; status = 0 })), s'))
      × Mapped r.1.1 s'
rx_recv-ioctl w req rx_bytes sfc s free moved found m lt =
    let e = unlocked_eta s free in
    let t = (await_packet w (unlocked s)).1 in
    let (r, s', taken, answered, m') =
      rx_recv-kernel w req rx_bytes sfc t moved (await_packet-Mapped w sfc s m)
        (omega (arith, rx_head-await w (unlocked s), lt)) in
    (
      r,
      s',
      taken,
      ap (dispatch w (rx req)) (sym e)
          ∙ dispatch-take w req s
          ∙ ap (λ o. take_packet w req o (record t { locked = true }))
              (ap (λ u. (await_packet w u).0) e ∙ found)
          ∙ answered,
      m',
    )
