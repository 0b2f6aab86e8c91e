-- ===== src/Stack/Tests.antt =====
-- Examples for the whole path and the device node.
use solarflare_capio_kernel.Base.{
  ℕ, Bool, true, false, Option, none, some, ◌≡◌, refl, arith, [], ◌∷◌, List, ◌≤◌, not, ◌==◌,
}
use solarflare_capio_kernel.Base.Buffer.{Buffer}
use solarflare_capio_kernel.Capio.Types.{Softc, CapReq}
use solarflare_capio_kernel.Capio.Token.{check_cap_token, set_cap_token, is_original}
use solarflare_capio_kernel.Capio.Ioctl.{attach, goodbye, driver}
use solarflare_capio_kernel.Capio.Samples.{
  numbers, driver_ops, region_of, owned, token_req, vm, owned-IsIdle,
}
use solarflare_capio_kernel.Driver.Channel.{tx, rx, get_mac}
use solarflare_capio_kernel.Driver.Within.{Within}
use solarflare_capio_kernel.Driver.Complete.{Transmitted}
use solarflare_capio_kernel.Driver.Receive.{Consumed, received, received_len}
use solarflare_capio_kernel.Driver.Samples.{
  memory, empty_ring, channel, channel-InRange, arrival, done, answering, packet, frame,
  completion-Arrives, arrival-Arrives,
}
use solarflare_capio_kernel.Stack.System.{System, Flight, Pointer, user_tx, user_rx, rx_request}
use solarflare_capio_kernel.Stack.Run.{Request, run, Steady, run-Steady, run_intruders}
use solarflare_capio_kernel.Stack.Packets.{user_tx_sends, user_rx_delivers}
use solarflare_capio_kernel.Stack.Node.{Poller, probe, fbsd_devs, node_close}
use solarflare_capio_kernel.User.Session.{Session, destroy}
use solarflare_capio_kernel.User.Samples.{opened}
use solarflare_capio_kernel.Stack.Leave.{Vacant, destroy_vacates}
use solarflare_capio_kernel.Stack.Close.{close_reopens}

abbrev system : System ℕ
system = record { capio = owned; channel = channel }

abbrev is_dying : Option Flight → Bool
is_dying d = false

abbrev size : Option Flight → ℕ → ℕ
size d kind = 4096

abbrev pointer : Pointer
pointer = record { has_tag = true; may_load = true; cap_len = 60; bytes = memory }

user_tx_sends_example :
    (sys' : System ℕ) × (user_tx numbers is_dying size vm
        (answering arrival done 0)
        2
        token_req
        pointer
        60
        system
      ≡ some (true, sys'))
    × (sys'.capio ≡ owned)
    × Transmitted 1 channel sys'.channel
unfolding check_cap_token is_original
user_tx_sends_example =
    user_tx_sends numbers is_dying size vm (answering arrival done 0) 2 token_req pointer 60 system
      (arrival ∷ []) done 0 refl refl channel-InRange refl refl (omega arith) (omega arith)
      (omega arith) refl refl refl completion-Arrives

user_rx_delivers_example :
    (sys' : System ℕ) × (user_rx numbers is_dying size vm
        (answering done arrival 0)
        1
        token_req
        empty_ring
        system
      ≡ some (
        (
          true,
          (received (answering done arrival 0) (rx_request empty_ring) arrival channel).raw_buffer,
          some (received_len (answering done arrival 0) arrival channel),
        ),
        sys',
      ))
    × (sys'.capio ≡ owned)
    × Consumed 1 channel sys'.channel
unfolding check_cap_token is_original
user_rx_delivers_example =
    user_rx_delivers numbers is_dying size vm (answering done arrival 0) 1 token_req empty_ring
      system (done ∷ []) arrival 0 refl refl channel-InRange refl (omega arith) refl
      (arrival-Arrives 0)

-- The owner sends, and gives the device up; another process attaches.
abbrev session : List (Request ℕ)
session =
    record {
      vm = vm;
      world = answering arrival done 0;
      cmd = driver 2;
      req = token_req;
      arg = tx packet;
    }
    ∷ record {
      vm = vm;
      world = answering arrival done 0;
      cmd = goodbye;
      req = token_req;
      arg = get_mac memory;
    }
    ∷ record {
      vm = vm;
      world = answering arrival done 0;
      cmd = attach;
      req = record { user_cap = some 9; sealed_cap = none };
      arg = get_mac memory;
    }
    ∷ []

system-Steady : Steady numbers is_dying size system
system-Steady = record { idle = owned-IsIdle; free = refl; range = channel-InRange }

run-Steady_example :
    (sys' : System ℕ) × (run numbers is_dying size session system ≡ some sys')
    × Steady numbers is_dying size sys'
    × Within channel sys'.channel
run-Steady_example =
    let card_in : (k : ℕ) (ring : Buffer) (x : ℕ)
        → 512 ≤ x
        → (answering arrival done 0).events k ring x ≡ ring x =
      λ k ring x h. ground (arith, h) in
    run-Steady numbers is_dying size session system
      (
        record { events_in = card_in; packets_in = λ b x h. refl; partial = omega arith },
        (
          record { events_in = card_in; packets_in = λ b x h. refl; partial = tt },
          (record { events_in = card_in; packets_in = λ b x h. refl; partial = tt }, tt),
        ),
      )
      system-Steady

-- Others try to attach, to take a packet, and to end the session.
abbrev strangers : List (Request ℕ)
strangers =
    record {
      vm = vm;
      world = answering done arrival 0;
      cmd = attach;
      req = record { user_cap = some 9; sealed_cap = none };
      arg = get_mac memory;
    }
    ∷ record {
      vm = vm;
      world = answering done arrival 0;
      cmd = driver 1;
      req = record { user_cap = some 9; sealed_cap = some 9 };
      arg = rx frame;
    }
    ∷ record {
      vm = vm;
      world = answering done arrival 0;
      cmd = goodbye;
      req = record { user_cap = some 9; sealed_cap = some 9 };
      arg = get_mac memory;
    }
    ∷ []

run_intruders_example : run numbers is_dying size strangers system ≡ some system
unfolding check_cap_token is_original
run_intruders_example =
    run_intruders numbers is_dying size strangers system 5 refl refl
      (omega arith, (omega arith, (omega arith, tt)))

abbrev poller : Poller
poller = record { rx_locked = false; rx_received = false; waiting = []; woken = [] }

close_reopens_example :
    (s1 : Softc ℕ) × (s2 : Softc ℕ) × (req' : CapReq ℕ) × (node_close vm (some owned)
      ≡ some (0, some s1))
    × (set_cap_token numbers (record { user_cap = some 9; sealed_cap = none }) s1
        ≡ some ((0, req'), s2))
    × (s2.original_cap ≡ some 9)
    × (check_cap_token numbers s2 req'.sealed_cap ≡ 0)
close_reopens_example =
    close_reopens numbers vm owned (record { user_cap = some 9; sealed_cap = none }) 9 7 refl refl
      refl

-- The framework under an open session, with the receive buffer and the
-- transmit ring mapped.
abbrev in_use : Softc ℕ
in_use = record owned {
  mapped = true;
  regions =
      record (region_of 1 4096) { mapped = true }
      ∷ record (region_of 3 4096) { mapped = true }
      ∷ [];
}

-- The munmap of the transmit ring fails, that of the receive buffer works.
abbrev ring_stays : ℕ → Bool
ring_stays i = not (i == 3)

destroy_vacates_example :
    (s' : Session) × (destroy ring_stays opened ≡ some s')
    × Vacant numbers driver_ops vm 5 token_req false ring_stays s'.trace in_use
unfolding check_cap_token is_original
destroy_vacates_example =
    destroy_vacates numbers driver_ops vm 5 token_req false ring_stays opened in_use
      (record { fd = refl; modmap = refl; token = refl; slices = refl; maps = λ i. refl }) refl refl
      refl refl (omega arith, refl, (omega arith, refl, tt))

-- The second entry of the table is the first again: a virtual function is not recognised.
probe_test : probe fbsd_devs 0x1924 0x0903 ≡ true
unfolding probe
probe_test = refl

probe_vf_test : probe fbsd_devs 0x1924 0x1903 ≡ false
unfolding probe
probe_vf_test = refl
