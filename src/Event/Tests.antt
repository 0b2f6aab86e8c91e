-- ===== src/Event/Tests.antt =====
-- Examples for the event queues.

use solarflare_capio_kernel.Base.{
  if◌then◌else◌, some, ◌≡◌, ◌==◌, false, true, refl, ◌*◌, [], arith, ◌^◌, ◌+◌,
}
use solarflare_capio_kernel.Event.Poll.{
  Interface, poll_events, run_poll, poll_loop, Polled, poll-Polled,
}
use solarflare_capio_kernel.Event.Interrupt.{
  Control, interrupt_handler, run_handler, process, Handled, interrupt-Handled,
}
use solarflare_capio_kernel.Base.Buffer.{Buffer}

-- Two events at 511 and 0: a link change (up, full duplex, 10000 Mbps) and one of the driver.
abbrev ring : Buffer
ring a =
    if a == 511
    then 12 * 2 ^ 60 + 4 * 2 ^ 44 + 3 * 2 ^ 24 + 3 * 2 ^ 16
    else if a == 0
    then 5 * 2 ^ 60 + 1
    else 0

abbrev control : Control
control = record {
  evq_ring = some ring;
  dying = false;
  evq_initialized = true;
  evq_read_ptr = 511;
  link = record { link_up = false; full_duplex = false; link_speed_mbps = 0; link_fcntl = 0 };
  doorbells = [];
}

interrupt_example :
    (interrupt_handler (some control) ≡ some (run_handler ring control))
    × Handled ring control (run_handler ring control)
interrupt_example = interrupt-Handled ring control refl refl refl (omega arith)

abbrev interface : Interface
interface = record {
  evq_ring = some ring;
  has_slices = true;
  mmio_slices_len = 5;
  evq_read_ptr = 511;
  used_poll = false;
  doorbells = [];
}

poll_example :
    (poll_events 16 interface
      ≡ (some (run_poll 16 ring interface).0, (run_poll 16 ring interface).1))
    × Polled 16 ring interface (run_poll 16 ring interface)
poll_example =
    poll-Polled 16 ring interface refl (omega arith) (omega arith) refl (omega arith) (omega arith)

-- The run itself: the link is up, both slots are free, and the pointer is 1.
link_test : (run_handler ring control).link.link_speed_mbps ≡ 10000
unfolding run_handler process
link_test = refl

pointer_test : (run_poll 16 ring interface).1.evq_read_ptr ≡ 1
unfolding run_poll poll_loop
pointer_test = refl
