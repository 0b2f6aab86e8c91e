-- ===== src/Capio/Region.antt =====
-- The table of shared regions: the two callbacks that modmap calls, `init_capio_sc`, and the
-- search by type that the loops of capio.c make.
use solarflare_capio_kernel.Base.{
  ℕ, false, Option, none, some, List, [], ◌∷◌, ◌==◌, if◌then◌else◌, is_some,
}
use solarflare_capio_kernel.Base.Errno.{einval}
use solarflare_capio_kernel.Capio.Types.{Region, Softc}
use solarflare_capio_kernel.Capio.Act.{Act, ◌>>=◌, ◌>>◌, pure, gets, modify, cap_lock, cap_unlock}
use solarflare_capio_kernel.Capio.Token.{create_sealing_key}

-- `for (i …) if (regs[i].type == type) { …; break; }`: the entry that the loop stops at.
unfoldable pub find_region : ℕ → List Region → Option Region
find_region kind [] = none
find_region kind (r ∷ rs) = if r.kind == kind then some r else find_region kind rs

-- The same loop with a write to that entry.
unfoldable pub update_region : ℕ → (Region → Region) → List Region → List Region
update_region kind f [] = []
update_region kind f (r ∷ rs) = if r.kind == kind then f r ∷ rs else r ∷ update_region kind f rs

-- `capio_vaddr_callback`: modmap reports where it mapped the region.
unfoldable pub vaddr_callback : {Cap : Type 0} → ℕ → ℕ → ℕ → Act Cap ℕ
unfolding find_region update_region
vaddr_callback kind vaddr size = do
  cap_lock
  region_found ← gets (λ s. is_some (find_region kind s.regions))
  modify λ s. record s {
    regions = update_region kind (λ r. record r { offset = vaddr; len = size }) s.regions;
  }
  cap_unlock
  pure (if region_found then 0 else einval)

-- `region_sizes_t`
pub record RegionSizes : Type 0 where
  pub region_length : ℕ
  pub slice_def_length : ℕ

unfoldable pub sizes_of : Option Region → RegionSizes
sizes_of none = record { region_length = 0; slice_def_length = 0 }
sizes_of (some r) = record { region_length = r.len; slice_def_length = r.slice_def_len }

-- `capio_slice_length_callback`
unfoldable pub slice_length_callback : {Cap : Type 0} → ℕ → Act Cap RegionSizes
unfolding find_region sizes_of
slice_length_callback kind = do
  cap_lock
  smem ← gets (λ s. find_region kind s.regions)
  cap_unlock
  pure (sizes_of smem)

-- `init_capio_sc` on a zeroed softc.
unfoldable pub init_capio_sc : {Cap : Type 0} → (ℕ → Cap) → ℕ → List Region → Softc Cap
unfolding create_sealing_key
init_capio_sc derive base smem = record {
  sealing_key = create_sealing_key derive base 0x1234;
  original_cap = none;
  sealed_cap = none;
  locked = false;
  mapped = false;
  regions = smem;
}
