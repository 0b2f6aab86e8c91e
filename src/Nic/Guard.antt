-- ===== src/Nic/Guard.antt =====
-- The queue and filter commands: what they demand before they reach the controller, and what
-- they record.

use solarflare_capio_kernel.Base.Errno.{einval}
use solarflare_capio_kernel.Nic.State.{Softc}
use solarflare_capio_kernel.Mcdi.Wire.{Device}
use solarflare_capio_kernel.Nic.Queue.{
  init_evq, request_evq, init_rxq, bad_size, bad_queue, init_txq,
}
use solarflare_capio_kernel.Base.{
  ℕ, ◌≡◌, false, ◌≤◌, true, ◌*◌, ◌%◌, arith, ◌<◌, some, leb, if◌then◌else◌, Bool-cases, inl, inr,
  refl,
}
use Prim.Native.Nat.{ℕ}

-- A ring size that the size test lets through.
bad_size_lem : (most n : ℕ) → bad_size most n ≡ false → (512 ≤ n) × (n ≤ most) × (n * 8 % 4096 ≡ 0)
bad_size_lem most n h = ground (arith, h)

-- With the 512 entries that the driver asks for the assertion holds.
abbrev pub init_evq_512 : {F : Type 0} → Device F → ℕ → ℕ → Softc F → ℕ × Softc F
init_evq_512 d instance_no paddr s =
    if leb s.vi_count instance_no then (einval, s) else request_evq d instance_no paddr 512 s

pub init_evq-some :
    {F : Type 0} (d : Device F) (instance_no paddr : ℕ) (s : Softc F)
    → init_evq d instance_no paddr 512 s ≡ some (init_evq_512 d instance_no paddr s)
unfolding init_evq
init_evq-some d instance_no paddr s = elim (Bool-cases (leb s.vi_count instance_no)) [
  | inl bad ↦ rw bad refl
  | inr ok ↦ rw ok refl
]

bad_queue_lem :
    {F : Type 0} (instance_no target_evq ndescs : ℕ) (s : Softc F)
    → bad_queue instance_no target_evq ndescs s ≡ false
    → (s.vadaptor_allocated ≡ true)
      × (512 ≤ ndescs)
      × (ndescs ≤ 4096)
      × (ndescs * 8 % 4096 ≡ 0)
      × (instance_no < s.vi_count)
      × (target_evq < s.vi_count)
unfolding bad_queue
bad_queue_lem instance_no target_evq ndescs s h = ground (arith, h, bad_size_lem 4096 ndescs)

-- A request for a queue that breaks a guard is refused before it reaches the controller, for
-- receive and for transmit queues.
pub init_queue_refused :
    {F : Type 0} (d : Device F) (instance_no target_evq ring_paddr ndescs : ℕ) (s : Softc F)
    → bad_queue instance_no target_evq ndescs s ≡ true
    → (init_rxq d instance_no target_evq ring_paddr ndescs s ≡ (einval, s))
      × (init_txq d instance_no target_evq ring_paddr ndescs s ≡ (einval, s))
unfolding init_rxq init_txq
init_queue_refused d instance_no target_evq ring_paddr ndescs s bad = ground (arith, bad)

-- A receive queue that was initialised has a vAdaptor, a ring of 512 to 4096 entries that fills
-- whole pages, and two queue indices below the number of virtual interfaces.
pub init_rxq_ok :
    {F : Type 0} (d : Device F) (instance_no target_evq ring_paddr ndescs : ℕ) (s : Softc F)
    → (init_rxq d instance_no target_evq ring_paddr ndescs s).0 ≡ 0
    → (s.vadaptor_allocated ≡ true)
      × (512 ≤ ndescs)
      × (ndescs ≤ 4096)
      × (ndescs * 8 % 4096 ≡ 0)
      × (instance_no < s.vi_count)
      × (target_evq < s.vi_count)
      × ((init_rxq d instance_no target_evq ring_paddr ndescs s).1.rxq_initialized ≡ true)
unfolding init_rxq
init_rxq_ok d instance_no target_evq ring_paddr ndescs s h =
    ground (arith, h, bad_queue_lem instance_no target_evq ndescs s)
