-- ===== src/Capio/Exclusive.antt =====
-- A region of the table is mapped by one object at a time, and where its pages lie.
use solarflare_capio_kernel.Base.Errno.{enxio}
use solarflare_capio_kernel.Capio.Mapping.{IsAllowed, constructed, mmap_allowed, mmap_Maps}
use solarflare_capio_kernel.Capio.Mmap.{is_mapped, MapReq, Call, Grant, mmap_single_extra}
use solarflare_capio_kernel.Capio.Pager.{pager_fault, mark, Page}
use solarflare_capio_kernel.Capio.Types.{Cheri, Ops, Softc, Region}
use solarflare_capio_kernel.Capio.Region.{find_region}
use solarflare_capio_kernel.Base.{
  ℕ, ◌≡◌, refl, Bool, List, is_some, Option, false, some, true, ◌<◌, map, ◌+◌, arith, ◌≢◌, ◌∷◌,
  none, if◌then◌else◌, ◌∙◌, ◌≤◌, [],
}

is_mapped-mark :
    (kind : ℕ) (b : Bool) (rs : List Region)
    → is_some (find_region kind rs) ≡ true
    → is_mapped (find_region kind (map (mark kind b) rs)) ≡ b
unfolding find_region mark is_mapped
is_mapped-mark kind b [] h = absurd (ground arith)
is_mapped-mark kind b (r ∷ rs) h = ground (arith, is_mapped-mark kind b rs)

module _ {Cap D : Type 0} (cheri : Cheri Cap) (ops : Ops D) where
  -- While a region of the table is marked mapped, every `mmap` of it is refused.
  pub mmap_refused :
      (kind : ℕ) (s : Softc Cap) (req : MapReq Cap) (c : Call D) {rc : ℕ} {g : Option Grant}
      {s' : Softc Cap}
      → s.locked ≡ false
      → is_mapped (find_region kind s.regions) ≡ true
      → req.map_type ≡ kind
      → mmap_single_extra cheri ops (some req) c s ≡ some ((rc, g), s')
      → (rc ≢ 0) × (g ≡ none)
  mmap_refused kind s req c free m e h = ground (arith, mmap_Maps cheri ops req c s free)

  marked :
      (req : MapReq Cap) (c : Call D) (s : Softc Cap) {g : Option Grant} {s' : Softc Cap}
      → s.locked ≡ false
      → mmap_single_extra cheri ops (some req) c s ≡ some ((0, g), s')
      → s' ≡ constructed req.map_type s
  marked req c s free h = ground (arith, mmap_Maps cheri ops req c s free)

  -- After a successful `mmap` of a region of the table, every further `mmap` of it is refused.
  pub mmap_once :
      (req req' : MapReq Cap) (c c' : Call D) (s : Softc Cap) {g g' : Option Grant} {rc : ℕ}
      {s' s'' : Softc Cap}
      → s.locked ≡ false
      → is_some (find_region req.map_type s.regions) ≡ true
      → req'.map_type ≡ req.map_type
      → mmap_single_extra cheri ops (some req) c s ≡ some ((0, g), s')
      → mmap_single_extra cheri ops (some req') c' s' ≡ some ((rc, g'), s'')
      → rc ≢ 0
  mmap_once req req' c c' s free known same first second =
      let made = marked req c s free first in
      (mmap_refused req.map_type (constructed req.map_type s) req' c' refl
        (is_mapped-mark req.map_type true s.regions known) same (rw made at second)).0

  -- Where the driver begins to die while the object is made, an allowed `mmap` returns ENXIO and
  -- hands out no object, but the region of the table stays marked: nobody owns the object whose
  -- destructor would clear the mark.
  pub mmap_dying :
      (req : MapReq Cap) (c : Call D) (s : Softc Cap)
      → s.locked ≡ false
      → IsAllowed cheri ops req c s
      → is_some (find_region req.map_type s.regions) ≡ true
      → ops.is_dying c.after ≡ true
      → (mmap_single_extra cheri ops (some req) c s
          ≡ some ((enxio, none), constructed req.map_type s))
        × (is_mapped (find_region req.map_type (constructed req.map_type s).regions) ≡ true)
  mmap_dying req c s free a known dying = (
    mmap_allowed cheri ops req c s free a ∙ rw dying,
    is_mapped-mark req.map_type true s.regions known,
  )

-- A fault in a region of the table, at an offset below its length, gives a valid page inside the
-- region, with device attributes for physical regions only. (Of the kernel's own addresses it is
-- supposed that the region's are contiguous.)
pub pager_fault_within :
    {Cap : Type 0} (kextract : ℕ → ℕ) (kind offset : ℕ) (fictitious : Bool) (s : Softc Cap)
    (r : Region)
    → find_region kind s.regions ≡ some r
    → offset < r.len
    → kextract (r.addr + offset) ≡ kextract r.addr + offset
    → let base = if r.is_physical then r.paddr else kextract r.addr in
      (p : Page) × (pager_fault kextract kind offset fictitious s ≡ some p)
      × (p.valid ≡ true)
      × (p.device ≡ r.is_physical)
      × (base ≤ p.pa)
      × (p.pa < base + r.len)
unfolding pager_fault
pager_fault_within kextract kind offset fictitious s r e within linear = (
  record {
    pa = if r.is_physical then r.paddr + offset else kextract (r.addr + offset);
    device = r.is_physical;
    valid = true;
    replaced = if fictitious then false else true;
  },
  rw e,
  refl,
  refl,
  ground arith,
  ground arith,
)
