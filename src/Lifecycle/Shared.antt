-- ===== src/Lifecycle/Shared.antt =====
-- The regions of an attached device, as the framework uses them.
use solarflare_capio_kernel.Base.{ℕ, Bool, true, false, some, ◌<◌, ◌≡◌, refl, arith, List, [], ◌∷◌}
use solarflare_capio_kernel.Capio.Types.{Cheri, Ops, Region}
use solarflare_capio_kernel.Capio.Types
use solarflare_capio_kernel.Capio.Pager.{any_mapped}
use solarflare_capio_kernel.Capio.Region.{find_region, sizes_of, init_capio_sc}
use solarflare_capio_kernel.Capio.Reach.{
  Reach, IsSound, Reach-IsSound, init_capio_sc-IsSound, kinds, contains,
}
use mathlib.Core.Path.{subst}
use solarflare_capio_kernel.Mcdi.Wire.{Device}
use solarflare_capio_kernel.Lifecycle.Unwind.{AllSane}
use solarflare_capio_kernel.Lifecycle.Dma.{Dma}
use solarflare_capio_kernel.Lifecycle.Device.{Sfc, Answers, attach}
use solarflare_capio_kernel.Lifecycle.Attached.{attach-Attached}
use solarflare_capio_kernel.Lifecycle.Failing.{Up, Released}
use solarflare_capio_kernel.Lifecycle.Regions.{smem, get_buffer_size}

-- For every type, in or out of the table, the size that the driver tells the framework is the
-- length that a process is told for the region, 0 for a type that is not there.
pub get_buffer_size-sizes_of :
    (bar_start bar_size : ℕ) (d : Dma) (kind : ℕ)
    → get_buffer_size bar_size kind
      ≡ (sizes_of (find_region kind (smem bar_start bar_size d))).region_length
unfolding get_buffer_size sizes_of find_region smem
get_buffer_size-sizes_of bar_start bar_size d kind = ground arith

-- `sfc7120_is_dying`. The mutex around the read is not modelled: the call is one step.
abbrev pub is_dying : {F Cap : Type 0} → Sfc F Cap → Bool
is_dying d = d.dying

-- What the framework asks of the driver; the ioctl is any function.
abbrev pub driver_ops : {F Cap : Type 0} → ℕ → (ℕ → Sfc F Cap → ℕ × Sfc F Cap) → Ops (Sfc F Cap)
driver_ops bar_size ioctl = record {
  is_dying = is_dying;
  get_buffer_size = λ d kind. get_buffer_size bar_size kind;
  ioctl = ioctl;
}

abbrev pub region_table : List ℕ
region_table = 0 ∷ 1 ∷ 2 ∷ 3 ∷ 4 ∷ 5 ∷ []

driver-covers :
    (bar_size kind : ℕ) → 0 < get_buffer_size bar_size kind → contains kind region_table ≡ true
unfolding get_buffer_size
driver-covers bar_size kind pos = ground (arith, pos)

kinds-smem : (bar_start bar_size : ℕ) (d : Dma) → kinds (smem bar_start bar_size d) ≡ region_table
unfolding smem
kinds-smem bar_start bar_size d = refl

smem_unmapped : (bar_start bar_size : ℕ) (d : Dma) → any_mapped (smem bar_start bar_size d) ≡ false
unfolding smem any_mapped
smem_unmapped bar_start bar_size d = refl

-- Every sequence of entries into the framework of an attached device, with this driver below it,
-- ioctls, mappings, unmappings, reports of addresses and closes, leaves the framework's softc
-- sound: its mutex is free, the two halves of the token belong together, its flag tells whether
-- some region is mapped, and the table has the six types in their order.
pub Up-IsSound :
    {F Cap : Type 0} (cheri : Cheri Cap) (a : Answers Cap) (d : Sfc F Cap)
    (ioctl : ℕ → Sfc F Cap → ℕ × Sfc F Cap) (s t : Types.Softc Cap)
    → Up a d
    → d.capio ≡ some s
    → Reach cheri (driver_ops a.bar_size ioctl) region_table s t
    → IsSound cheri (driver_ops a.bar_size ioctl) region_table t
Up-IsSound cheri a d ioctl s t u e r =
    let ops = driver_ops a.bar_size ioctl in
    let made = init_capio_sc a.derive a.base (smem a.bar_start a.bar_size d.dma) in
    let same : made ≡ s = cc (u.token, e) in
    let first : IsSound cheri ops region_table made =
      subst (λ table. IsSound cheri ops table made) (kinds-smem a.bar_start a.bar_size d.dma)
        (init_capio_sc-IsSound cheri ops a.derive a.base (smem a.bar_start a.bar_size d.dma)
          (smem_unmapped a.bar_start a.bar_size d.dma)) in
    Reach-IsSound cheri ops region_table (λ _ kind. driver-covers a.bar_size kind)
      (subst (IsSound cheri ops region_table) same first) r

-- The same for a device whose attach returned 0.
pub attach-IsSound :
    {F Cap : Type 0} (card : Device F) (cheri : Cheri Cap) (a : Answers Cap) (d d' : Sfc F Cap)
    (ioctl : ℕ → Sfc F Cap → ℕ × Sfc F Cap) (s t : Types.Softc Cap)
    → AllSane a.dma
    → Released d
    → attach card a d ≡ some (0, d')
    → d'.capio ≡ some s
    → Reach cheri (driver_ops a.bar_size ioctl) region_table s t
    → IsSound cheri (driver_ops a.bar_size ioctl) region_table t
attach-IsSound card cheri a d d' ioctl s t sane fresh ran e r =
    let v = attach-Attached card a d sane fresh in
    let zero_status : v.status ≡ 0 = ground (arith, v.returns, ran) in
    let same : v.device ≡ d' = cc (v.returns, ran) in
    Up-IsSound cheri a d' ioctl s t (subst (Up a) same (v.good zero_status)) e r
