-- ===== src/Stack/Wake.antt =====
-- Pollers of the device node, to whom nothing ever reports.
use solarflare_capio_kernel.Base.{
  ℕ, Bool, true, false, Option, some, ◌≡◌, refl, List, [], ◌∷◌, ◌++◌, if◌then◌else◌,
}
use solarflare_capio_kernel.Base.Fault.{◌>>=◌}
use solarflare_capio_kernel.Stack.Node.{Poller, poll, rx_lock, rx_unlock, rx_task_handler}

-- What happens at the node: a poll of some thread for some events, or a run of the task.
pub data Event : Type 0 where
  polled : ℕ → ℕ → Event
  reported : Event

pub event : Event → Poller → Option Poller
event (polled events td) s = do (revents, s') ← poll events td s; some s'
event reported s = rx_task_handler s

pub history : List Event → Poller → Option Poller
history [] s = some s
history (e ∷ es) s = do s' ← event e s; history es s'

-- A report is among the events.
abbrev pub has_report : List Event → Bool
has_report [] = false
has_report (polled events td ∷ es) = has_report es
has_report (reported ∷ es) = true

-- What a poll does from a free lock.
abbrev polled_state : ℕ → Poller → Poller
polled_state td s = if s.rx_received then s else record s { waiting = td ∷ s.waiting }

abbrev reported_state : Poller → Poller
reported_state s = record s { rx_received = true; waiting = []; woken = s.waiting ++ s.woken }

event_reported : (s : Poller) → s.rx_locked ≡ false → event reported s ≡ some (reported_state s)
unfolding event rx_task_handler rx_lock rx_unlock
event_reported s free = rw free refl
