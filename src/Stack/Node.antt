-- ===== src/Stack/Node.antt =====
-- The device node of sfc7120.c beside its ioctl: `sfc7120_fbsd_probe`, `sfc7120_open`,
-- `sfc7120_close`, `sfc7120_poll`, and `sfc7120_rx_task_handler`, which would report to the pollers.
use Prim.Native.Nat.{bit_and, bit_or}
use solarflare_capio_kernel.Base.{
  ℕ, Bool, true, false, Option, none, some, ◌==◌, ◌&&◌, List, [], ◌∷◌, ◌++◌, if◌then◌else◌,
}
use solarflare_capio_kernel.Base.Fault.{◌>>=◌}
use solarflare_capio_kernel.Capio.Types.{Softc}
use solarflare_capio_kernel.Capio.Revoke.{Vm, revoke_access}

-- An entry of `sfc7120_fbsd_devs`, without its description.
pub record DeviceId : Type 0 where
  pub vendor : ℕ
  pub device : ℕ

abbrev pub fbsd_devs : List DeviceId
fbsd_devs =
    record { vendor = 0x1924; device = 0x0903 } ∷ record { vendor = 0x1924; device = 0x0903 } ∷ []

-- `true` is BUS_PROBE_DEFAULT, `false` ENXIO.
unfoldable pub probe : List DeviceId → ℕ → ℕ → Bool
probe [] vendor device = false
probe (d ∷ ds) vendor device =
    if (vendor == d.vendor) && (device == d.device) then true else probe ds vendor device

abbrev pub node_open : ℕ
node_open = 0

-- `sfc7120_close`: the status of `revoke_access` is dropped. `none` is NULL in `si_drv1`.
unfoldable pub node_close :
    {Cap : Type 0} → Vm → Option (Softc Cap) → Option (ℕ × Option (Softc Cap))
unfolding revoke_access
node_close vm none = some (0, none)
node_close vm (some s) = do (rc, s') ← revoke_access vm false s; some (0, some s')

-- The fields of the softc for the pollers: `rx_mtx`, `rx_received`, the threads that `selinfo`
-- records, and those that were woken.
pub record Poller : Type 0 where
  pub rx_locked : Bool
  pub rx_received : Bool
  pub waiting : List ℕ
  pub woken : List ℕ

-- SFC7120_RX_LOCK and SFC7120_RX_UNLOCK
unfoldable pub rx_lock : Poller → Option Poller
rx_lock s = if s.rx_locked then none else some (record s { rx_locked = true })

unfoldable pub rx_unlock : Poller → Option Poller
rx_unlock s = if s.rx_locked then some (record s { rx_locked = false }) else none

-- POLLIN | POLLRDNORM, and POLLERR
abbrev pub poll_readable : ℕ
poll_readable = bit_or 0x1 0x40

abbrev pub pollerr : ℕ
pollerr = 0x8

-- What happens under the lock.
abbrev look : ℕ → ℕ → Poller → ℕ × Poller
look events td s =
    if s.rx_received
    then (bit_and events poll_readable, s)
    else (0, record s { waiting = td ∷ s.waiting })

-- `sfc7120_poll` by the thread `td`.
unfoldable pub poll : ℕ → ℕ → Poller → Option (ℕ × Poller)
unfolding rx_lock rx_unlock
poll events td s = do
  s1 ← rx_lock s
  s2 ← rx_unlock (look events td s1).1
  some ((look events td s1).0, s2)

unfoldable pub node_poll : ℕ → ℕ → Option Poller → Option (ℕ × Option Poller)
unfolding poll
node_poll events td none = some (pollerr, none)
node_poll events td (some s) = do (revents, s') ← poll events td s; some (revents, some s')

-- The function of the task `rx_task`, which nothing initialises or enqueues. `selwakeuppri` wakes
-- every recorded thread.
unfoldable pub rx_task_handler : Poller → Option Poller
unfolding rx_lock rx_unlock
rx_task_handler s = do
  s1 ← rx_lock s
  rx_unlock (record s1 { rx_received = true; waiting = []; woken = s1.waiting ++ s1.woken })
