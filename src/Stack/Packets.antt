-- ===== src/Stack/Packets.antt =====
-- `sfc7120_tx` and `sfc7120_rx` down to the card and back.
use solarflare_capio_kernel.Base.{
  ℕ, Bool, true, false, Option, none, some, ◌==◌, ◌+◌, ◌%◌, ◌<◌, ◌≤◌, ◌≡◌, ◌≢◌, refl, arith, List,
  length, if◌then◌else◌,
}
use solarflare_capio_kernel.Base.Buffer.{Buffer}
use solarflare_capio_kernel.Event.Ring.{event_code}
use solarflare_capio_kernel.Capio.Types.{Cheri, CapReq}
use solarflare_capio_kernel.Capio.Revoke.{Vm}
use solarflare_capio_kernel.Capio.Ioctl.{driver, is_attach}
use solarflare_capio_kernel.Capio.Token.{check_cap_token}
use solarflare_capio_kernel.Driver.Channel.{World, Command, tx, rx}
use solarflare_capio_kernel.Driver.Wait.{is_completion, is_arrival}
use solarflare_capio_kernel.Driver.Ioctl.{check_tx}
use solarflare_capio_kernel.Driver.Within.{InRange}
use solarflare_capio_kernel.Driver.Complete.{Arrives, Transmitted, tx_completes}
use solarflare_capio_kernel.Driver.Receive.{Consumed, received, received_len, rx_delivers}
use solarflare_capio_kernel.Stack.System.{
  System, Flight, Pointer, tx_request, rx_request, device_ioctl, user_tx, user_rx, memory_of,
  length_of,
}
use solarflare_capio_kernel.Stack.Serve.{device_ioctl_passed, device_ioctl_refused}

module _ {Cap : Type 0} (cheri : Cheri Cap) (is_dying : Option Flight → Bool)
    (get_buffer_size : Option Flight → ℕ → ℕ) (vm : Vm) (w : World) where
  user_tx_lem :
      (n : ℕ) (req : CapReq Cap) (buf : Pointer) (len : ℕ) (sys : System Cap) (e : ℕ)
      (req' : CapReq Cap) (arg : Command) (sys' : System Cap)
      → device_ioctl cheri is_dying get_buffer_size vm w
          (driver n)
          req
          (tx (tx_request buf len))
          sys
        ≡ some ((e, req', arg), sys')
      → user_tx cheri is_dying get_buffer_size vm w n req buf len sys ≡ some (e == 0, sys')
  unfolding user_tx
  user_tx_lem n req buf len sys e req' arg sys' h = rw (h, user_tx) refl

  user_rx_lem :
      (n : ℕ) (req : CapReq Cap) (buf : Buffer) (sys : System Cap) (e : ℕ) (req' : CapReq Cap)
      (arg : Command) (sys' : System Cap)
      → device_ioctl cheri is_dying get_buffer_size vm w (driver n) req (rx (rx_request buf)) sys
        ≡ some ((e, req', arg), sys')
      → user_rx cheri is_dying get_buffer_size vm w n req buf sys
        ≡ some ((e == 0, memory_of buf arg, if e == 0 then some (length_of arg) else none), sys')
  unfolding user_rx
  user_rx_lem n req buf sys e req' arg sys' h = rw (h, user_rx) refl

  valid :
      (buf : Pointer) (len : ℕ)
      → buf.has_tag ≡ true
      → buf.may_load ≡ true
      → 0 < len
      → len ≤ 2048
      → len ≤ buf.cap_len
      → check_tx (tx_request buf len) ≡ 0
  unfolding check_tx
  valid buf len tag load pos small covered = ground (arith, tag, load, pos, small, covered)

  -- A process that presents the token and calls sfc7120_tx with a readable packet of 1 to 2048
  -- bytes gets 0 when the card answers: if, with the driver's mutex free, the heads and the read
  -- pointer in their rings and the packet copied, events arrive from the read pointer on, first
  -- others and then the completion of the descriptor at the head, in fewer than 10000 tries. The
  -- transmit head is one on, the read pointer is behind the completion, the card was told both, and
  -- the framework's state and the receive side are as they were, whatever the events before the
  -- completion were.
  pub user_tx_sends :
      (n : ℕ) (req : CapReq Cap) (buf : Pointer) (len : ℕ) (sys : System Cap) (pre : List ℕ)
      (ev t : ℕ)
      → check_cap_token cheri sys.capio req.sealed_cap ≡ 0
      → sys.channel.locked ≡ false
      → InRange sys.channel
      → buf.has_tag ≡ true
      → buf.may_load ≡ true
      → 0 < len
      → len ≤ 2048
      → len ≤ buf.cap_len
      → w.copy_error ≡ 0
      → event_code ev ≡ 2
      → ev % 512 ≡ sys.channel.tx_head
      → Arrives w (is_completion sys.channel.tx_head) 10000 sys.channel pre ev t
      → (sys' : System Cap) × (user_tx cheri is_dying get_buffer_size vm w n req buf len sys
          ≡ some (true, sys'))
        × (sys'.capio ≡ sys.capio)
        × Transmitted (length pre) sys.channel sys'.channel
  user_tx_sends n req buf len sys pre ev t ok free i tag load pos small covered moved code index a =
      let r = tx_request buf len in
      let (c, ran, sent) =
        tx_completes w r sys.channel pre ev t free i (valid buf len tag load pos small covered)
          moved code index a in
      let sys' : System Cap = record sys { channel = c } in
      (
        sys',
        user_tx_lem n req buf len sys 0 req (tx (record r { status = 0 })) sys' (
            device_ioctl_passed cheri is_dying get_buffer_size vm w n req (tx r) sys 0
              (tx (record r { status = 0 })) c ok ran),
        refl,
        sent,
      )

  -- A process that presents the token and calls sfc7120_rx gets 0 when the card reports a packet,
  -- the frame behind the prefix of the slot at the head in its buffer, and its length: if, with the
  -- copy working, events arrive from the read pointer on, first others and then a receive event, in
  -- fewer than 100000 tries; the driver's mutex has to be free, and the heads and the read pointer
  -- in their rings. The slot is offered again, and the framework's state is as it was. The
  -- addresses of the receive buffer have to fit 48 bits.
  pub user_rx_delivers :
      (n : ℕ) (req : CapReq Cap) (buf : Buffer) (sys : System Cap) (pre : List ℕ) (ev t : ℕ)
      → check_cap_token cheri sys.capio req.sealed_cap ≡ 0
      → sys.channel.locked ≡ false
      → InRange sys.channel
      → w.copy_error ≡ 0
      → sys.channel.rx_buffer_paddr + 1048576 ≤ 281474976710656
      → event_code ev ≡ 0
      → Arrives w is_arrival 100000 sys.channel pre ev t
      → (sys' : System Cap) × (user_rx cheri is_dying get_buffer_size vm w n req buf sys
          ≡ some (
            (
              true,
              (received w (rx_request buf) ev sys.channel).raw_buffer,
              some (received_len w ev sys.channel),
            ),
            sys',
          ))
        × (sys'.capio ≡ sys.capio)
        × Consumed (length pre) sys.channel sys'.channel
  unfolding memory_of length_of
  user_rx_delivers n req buf sys pre ev t ok free i moved fits code a =
      let (c, ran, taken) =
        rx_delivers w (rx_request buf) sys.channel pre ev t free i moved fits code a in
      let sys' : System Cap = record sys { channel = c } in
      let reply = rx (received w (rx_request buf) ev sys.channel) in
      (
        sys',
        user_rx_lem n req buf sys 0 req reply sys' (
            device_ioctl_passed cheri is_dying get_buffer_size vm w n req (rx (rx_request buf)) sys
              0 reply c ok ran),
        refl,
        taken,
      )

  -- A process that does not present the token gets -1 from sfc7120_tx and sfc7120_rx; its memory,
  -- the framework and the driver are as they were.
  pub user_refused :
      (n m : ℕ) (req : CapReq Cap) (buf : Pointer) (len : ℕ) (dst : Buffer) (sys : System Cap)
      → check_cap_token cheri sys.capio req.sealed_cap ≢ 0
      → (user_tx cheri is_dying get_buffer_size vm w n req buf len sys ≡ some (false, sys))
        × (user_rx cheri is_dying get_buffer_size vm w m req dst sys
            ≡ some ((false, dst, none), sys))
  unfolding is_attach memory_of
  user_refused n m req buf len dst sys bad = (
    user_tx_lem n req buf len sys 1 req (tx (tx_request buf len)) sys (
        device_ioctl_refused cheri is_dying get_buffer_size vm w (driver n) req
          (tx (tx_request buf len)) sys bad refl),
    user_rx_lem m req dst sys 1 req (rx (rx_request dst)) sys (
        device_ioctl_refused cheri is_dying get_buffer_size vm w (driver m) req
          (rx (rx_request dst)) sys bad refl),
  )
