-- ===== src/Driver/Ioctl.antt =====
-- `sfc7120_ioctl` of sfc7120.c. The log output is not modelled.
use Prim.Native.Nat.{bit_and}
use solarflare_capio_kernel.Base.{
  ℕ, Option, none, some, not, ◌||◌, ◌==◌, ◌+◌, ◌*◌, ltb, leb, ◌∷◌, if◌then◌else◌,
}
use solarflare_capio_kernel.Base.Errno.{einval, eperm, enotty, etimedout}
use solarflare_capio_kernel.Base.Buffer.{Buffer, update}
use solarflare_capio_kernel.Base.Bits.{u32, u64}
use solarflare_capio_kernel.Data.Descriptor.{descriptor, buffer_size}
use solarflare_capio_kernel.Data.Path.{next_head, copy_to, frame_len}
use solarflare_capio_kernel.Data.Post.{data_rx_desc_dbl}
use solarflare_capio_kernel.Driver.Channel.{
  Channel, World, TxReq, RxReq, ViInfo, EvqSync, Command, get_mac, get_vi_info, set_evq_rptr, tx,
  rx, other, Act, ◌>>=◌, ◌>>◌, pure, run, modify, lock, unlock, unlock_return,
}
use solarflare_capio_kernel.Driver.Wait.{Cursor, tx_wait, rx_wait}

-- SFC7120_REG_DATA_EVQ_RPTR_DBL and SFC7120_REG_DATA_TX_WPTR_DBL
abbrev pub data_evq_rptr_dbl : ℕ
data_evq_rptr_dbl = 0x2400

abbrev pub data_tx_wptr_dbl : ℕ
data_tx_wptr_dbl = 0x0a18

-- `memcpy(req->mac_addr, sc->mac_addr, 6)`
unfoldable pub read_mac : Channel → Buffer → Buffer
read_mac s out = copy_to out 0 s.mac_addr 6

unfoldable pub read_vi_info : Channel → ViInfo
read_vi_info s = record {
  tx_buffer_paddr = s.tx_buffer_paddr;
  rx_buffer_paddr = s.rx_buffer_paddr;
  vi_base = s.vi_base;
  evq_instance = 1;
  rxq_instance = 0;
  txq_instance = 0;
  num_tx_desc = 512;
  num_rx_desc = 512;
  num_evq_entry = 512;
  tx_head = u32 s.tx_head;
  rx_head = u32 s.rx_head;
  evq_read_ptr = u32 s.data_evq_read_ptr;
}

unfoldable pub sync_evq : EvqSync → Channel → Channel
sync_evq req s = record s {
  data_evq_read_ptr = req.evq_read_ptr;
  tx_head = req.tx_head;
  rx_head = req.rx_head;
}

-- The acknowledgement after a wait.
unfoldable pub ack : Cursor → Channel → Channel
ack c s = record s {
  data_evq_ring = c.ring;
  data_evq_read_ptr = c.ptr;
  doorbells =
      if ltb 0 c.consumed
      then (data_evq_rptr_dbl, bit_and (u32 c.ptr) 0x7fff) ∷ s.doorbells
      else s.doorbells;
}

abbrev pub cursor : Channel → Cursor
cursor s = record { ring = s.data_evq_ring; ptr = s.data_evq_read_ptr; consumed = 0 }

-- The tests of the transmit request, before the lock is taken; 0 when it passes them.
unfoldable pub check_tx : TxReq → ℕ
check_tx req =
    if not req.has_tag
    then einval
    else if not req.may_load
    then eperm
    else if req.length == 0 || ltb buffer_size req.length
    then einval
    else if ltb req.cap_len req.length
    then einval
    else 0

-- copyin into the slot of the head.
unfoldable pub copy_packet : World → TxReq → Channel → ℕ × Channel
copy_packet w req s =
    let len = if w.copy_error == 0 then req.length else w.copied in
    (
      w.copy_error,
      record s { tx_buffer = copy_to s.tx_buffer (s.tx_head * buffer_size) req.packet len },
    )

-- The descriptor and the doorbell.
unfoldable pub post_packet : TxReq → Channel → Channel
post_packet req s = record s {
  tx_desc_ring =
      update s.tx_desc_ring s.tx_head
        (descriptor req.length (u64 (s.tx_buffer_paddr + s.tx_head * buffer_size)));
  doorbells = (data_tx_wptr_dbl, next_head s.tx_head) ∷ s.doorbells;
}

-- The wait for the completion of the descriptor at the head.
unfoldable pub await_completion : World → Channel → Option ℕ × Channel
unfolding ack
await_completion w s = let (ev, c) = tx_wait w.events s.tx_head (cursor s) in (ev, ack c s)

unfoldable pub advance_tx : Channel → Channel
advance_tx s = record s { tx_head = next_head s.tx_head }

abbrev pub tx_status : Option ℕ → ℕ
tx_status none = etimedout
tx_status (some _) = 0

-- The case SFC7120_TX: the result, and the request as it goes back.
unfoldable pub ioctl_tx : World → TxReq → Act (ℕ × Command)
unfolding copy_packet post_packet await_completion advance_tx check_tx
ioctl_tx w req = if not (check_tx req == 0) then pure (check_tx req, tx req) else do
  lock
  copy_err ← run (copy_packet w req)
  if not (copy_err == 0) then unlock_return (copy_err, tx req) else do
    modify (post_packet req)
    done ← run (await_completion w)
    modify advance_tx
    unlock
    pure (tx_status done, tx (record req { status = tx_status done }))

-- The wait for a received packet: the byte count of its event.
unfoldable pub await_packet : World → Channel → Option ℕ × Channel
unfolding ack
await_packet w s =
    let (ev, c) = rx_wait w.events (cursor s) in
    (elim ev [ none ↦ none | some e ↦ some (bit_and e 0x3fff) ], ack c s)

-- The card's writes to the receive buffer are seen, and copyout moves the frame behind the prefix.
unfoldable pub copy_frame : World → RxReq → ℕ → Channel → (ℕ × RxReq) × Channel
copy_frame w req rx_bytes s =
    let slot = s.rx_head * buffer_size in
    let rxbuf = w.packets s.rx_buffer in
    let plen = frame_len rxbuf slot rx_bytes in
    let len = if w.copy_error == 0 then plen else w.copied in
    (
      (
        w.copy_error,
        record req {
          raw_buffer = copy_to req.raw_buffer 0 (λ j. rxbuf (slot + 14 + j)) len;
          length_received = if w.copy_error == 0 then plen else req.length_received;
        },
      ),
      record s { rx_buffer = rxbuf },
    )

-- The descriptor of the slot again, the doorbell, and the head one on.
unfoldable pub repost : Channel → Channel
repost s = record s {
  rx_desc_ring =
      update s.rx_desc_ring s.rx_head
        (descriptor buffer_size (u64 (s.rx_buffer_paddr + s.rx_head * buffer_size)));
  doorbells = (data_rx_desc_dbl, u32 s.rx_head) ∷ s.doorbells;
  rx_head = next_head s.rx_head;
}

-- What follows the wait of the case SFC7120_RX.
unfoldable pub take_packet : World → RxReq → Option ℕ → Act (ℕ × Command)
unfolding copy_frame repost
take_packet w req none = unlock_return (etimedout, rx req)
take_packet w req (some rx_bytes) = do
  (copy_err, req') ← run (copy_frame w req rx_bytes)
  if not (copy_err == 0)
      then unlock_return (copy_err, rx req')
      else modify repost >> unlock_return (0, rx (record req' { status = 0 }))

unfoldable pub ioctl_rx : World → RxReq → Act (ℕ × Command)
unfolding take_packet await_packet
ioctl_rx w req = do lock; found ← run (await_packet w); take_packet w req found

-- The switch, for a device whose softc is there.
unfoldable pub dispatch : World → Command → Act (ℕ × Command)
unfolding ioctl_tx ioctl_rx read_mac read_vi_info sync_evq
dispatch w (get_mac out) = do
  lock
  out' ← run (λ s. (read_mac s out, s))
  unlock
  pure (0, get_mac out')
dispatch w (get_vi_info req) = do
  lock
  info ← run (λ s. (read_vi_info s, s))
  unlock
  pure (0, get_vi_info info)
dispatch w (set_evq_rptr req) =
    if leb 512 req.evq_read_ptr || (leb 512 req.tx_head || leb 512 req.rx_head)
    then pure (einval, set_evq_rptr req)
    else do lock; modify (sync_evq req); unlock; pure (0, set_evq_rptr req)
dispatch w (tx req) = ioctl_tx w req
dispatch w (rx req) = ioctl_rx w req
dispatch w (other cmd) = pure (enotty, other cmd)

-- `sfc7120_ioctl`; `none` for the softc is NULL in `si_drv1`, `none` as the result a fault.
unfoldable pub ioctl : World → Command → Option Channel → Option ((ℕ × Command) × Option Channel)
unfolding dispatch
ioctl w cmd none = some ((einval, cmd), none)
ioctl w cmd (some s) = elim (dispatch w cmd s) [ none ↦ none | some (r, s') ↦ some (r, some s') ]
