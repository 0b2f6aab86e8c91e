-- ===== src/Capio/Pager.antt =====
-- The device pager: constructor, destructor and page fault.
use solarflare_capio_kernel.Base.{
  ℕ, ◌+◌, Bool, true, false, ◌||◌, Option, none, some, List, [], ◌∷◌, map, ◌==◌, if◌then◌else◌,
}
use solarflare_capio_kernel.Capio.Types.{Region, Softc}
use solarflare_capio_kernel.Capio.Act.{Act, ◌>>◌, pure, modify, cap_lock, cap_unlock}
use solarflare_capio_kernel.Capio.Region.{find_region}

-- The two loops have no `break`: they set every entry of the type.
unfoldable pub mark : ℕ → Bool → Region → Region
mark kind b r = if r.kind == kind then record r { mapped = b } else r

unfoldable pub any_mapped : List Region → Bool
any_mapped [] = false
any_mapped (r ∷ rs) = r.mapped || any_mapped rs

unfoldable pub pager_ctor : {Cap : Type 0} → ℕ → Act Cap ℕ
unfolding mark
pager_ctor kind = do
  cap_lock
  modify λ s. record s { mapped = true; regions = map (mark kind true) s.regions }
  cap_unlock
  pure 0

unfoldable pub pager_dtor : {Cap : Type 0} → ℕ → Act Cap (Unit {0})
unfolding mark any_mapped
pager_dtor kind = do
  cap_lock
  modify λ s. record s { regions = map (mark kind false) s.regions }
  modify λ s. record s { mapped = if any_mapped s.regions then s.mapped else false }
  cap_unlock

-- The page that a fault installs; `none` is VM_PAGER_BAD. `fictitious` says whether the page that
-- came in was updated in place or replaced.
pub record Page : Type 0 where
  pub pa : ℕ
  pub device : Bool
  pub valid : Bool
  pub replaced : Bool

-- `kextract` is `pmap_kextract`.
unfoldable pub fault_page : (ℕ → ℕ) → ℕ → Bool → Option Region → Option Page
fault_page kextract offset fictitious none = none
fault_page kextract offset fictitious (some r) = some (record {
  pa = if r.is_physical then r.paddr + offset else kextract (r.addr + offset);
  device = r.is_physical;
  valid = true;
  replaced = if fictitious then false else true;
})

unfoldable pub pager_fault : {Cap : Type 0} → (ℕ → ℕ) → ℕ → ℕ → Bool → Softc Cap → Option Page
unfolding fault_page find_region
pager_fault kextract kind offset fictitious s =
    fault_page kextract offset fictitious (find_region kind s.regions)
