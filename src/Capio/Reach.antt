-- ===== src/Capio/Reach.antt =====
-- Every sequence of entries into the framework: ioctls, mappings, unmappings, modmap's report of
-- an address and the close of the device, by any process in any order.
use native.Mathlib.Decide.{ℕ_discrete}
use solarflare_capio_kernel.Capio.Pager.{pager_dtor}
use solarflare_capio_kernel.Capio.Act.{unlocked_eta, unlocked}
use solarflare_capio_kernel.Capio.Mmap.{MapReq, Call, Grant, mmap_single_extra}
use mathlib.Core.Path.{subst, sym}
use solarflare_capio_kernel.Base.Errno.{einval}
use solarflare_capio_kernel.Capio.Mapping.{
  IsTracked, destructed, pager_dtor_lem, pager-IsTracked, IsAllowed, mmap_Maps, constructed,
}
use solarflare_capio_kernel.Capio.Session.{IsIdle, ioctl_refines}
use solarflare_capio_kernel.Capio.Ioctl.{Cmd, Reply, ioctl_handler}
use solarflare_capio_kernel.Capio.Teardown.{release, revoked, revoke_cap_token_lem}
use solarflare_capio_kernel.Capio.Types.{Region, Cheri, Softc, Ops, CapReq}
use solarflare_capio_kernel.Capio.Revoke.{Vm, revoke_access}
use solarflare_capio_kernel.Capio.Pager.{mark, any_mapped, pager_dtor}
use solarflare_capio_kernel.Capio.Region.{find_region, update_region, vaddr_callback, init_capio_sc}
use solarflare_capio_kernel.Base.{
  ℕ, ◌≡◌, refl, [], ◌∷◌, ◌||◌, List, map, Bool, is_some, arith, false, ◌<◌, ◌==◌, some, true,
  if◌then◌else◌, Option, ◌∙◌, sym, inl, inr,
}

abbrev pub kinds : List Region → List ℕ
kinds = map (λ r. r.kind)

abbrev pub contains : ℕ → List ℕ → Bool
contains k [] = false
contains k (x ∷ xs) = x == k || contains k xs

is_some-find_region :
    (kind : ℕ) (rs : List Region) → is_some (find_region kind rs) ≡ contains kind (kinds rs)
unfolding find_region
is_some-find_region kind [] = refl
is_some-find_region kind (r ∷ rs) = ground (arith, is_some-find_region kind rs)

kinds-mark : (kind : ℕ) (b : Bool) (rs : List Region) → kinds (map (mark kind b) rs) ≡ kinds rs
unfolding mark
kinds-mark kind b [] = refl
kinds-mark kind b (r ∷ rs) = ground (arith, kinds-mark kind b rs)

kinds-release : (vm : Vm) (rs : List Region) → kinds (map (release vm) rs) ≡ kinds rs
kinds-release vm [] = refl
kinds-release vm (r ∷ rs) = ground (arith, kinds-release vm rs)

pub any_mapped-release :
    (vm : Vm) (rs : List Region) → any_mapped (map (release vm) rs) ≡ any_mapped rs
unfolding any_mapped
any_mapped-release vm [] = refl
any_mapped-release vm (r ∷ rs) = ground (arith, any_mapped-release vm rs)

abbrev place : ℕ → ℕ → Region → Region
place vaddr size r = record r { offset = vaddr; len = size }

update_region-place :
    (kind vaddr size : ℕ) (rs : List Region)
    → (kinds (update_region kind (place vaddr size) rs) ≡ kinds rs)
      × (any_mapped (update_region kind (place vaddr size) rs) ≡ any_mapped rs)
unfolding update_region any_mapped
update_region-place kind vaddr size [] = (refl, refl)
update_region-place kind vaddr size (r ∷ rs) =
    ground (arith, update_region-place kind vaddr size rs)

vaddr_callback_lem :
    {Cap : Type 0} (kind vaddr size : ℕ) (s : Softc Cap)
    → s.locked ≡ false
    → vaddr_callback kind vaddr size s
      ≡ some (
        (if is_some (find_region kind s.regions) then 0 else einval),
        record s { locked = false; regions = update_region kind (place vaddr size) s.regions },
      )
unfolding vaddr_callback
vaddr_callback_lem kind vaddr size s free =
    subst
      (λ t.
        vaddr_callback kind vaddr size t
        ≡ some (
          (if is_some (find_region kind t.regions) then 0 else einval),
          record t { locked = false; regions = update_region kind (place vaddr size) t.regions },
        ))
      (unlocked_eta s free) refl

module _ {Cap D : Type 0} (cheri : Cheri Cap) (ops : Ops D) (table : List ℕ) where
  -- One entry. A close revokes the token; the kernel refuses a mapping of length 0 before it calls
  -- the device; what an entry returns is in `Session` and `Mapping`.
  pub data Step (s : Softc Cap) (s' : Softc Cap) : Type 0 where
    ioctl :
        (vm : Vm) (cmd : Cmd) (req : CapReq Cap) (d : D) (r : Reply Cap D)
        → ioctl_handler cheri ops vm cmd req d s ≡ some (r, s')
        → Step s s'
    mmap :
        (req : MapReq Cap) (c : Call D) (r : ℕ × Option Grant)
        → 0 < c.size
        → mmap_single_extra cheri ops (some req) c s ≡ some (r, s')
        → Step s s'
    munmap : (kind : ℕ) → pager_dtor kind s ≡ some (tt, s') → Step s s'
    placed : (kind vaddr size rc : ℕ) → vaddr_callback kind vaddr size s ≡ some (rc, s') → Step s s'
    close : (vm : Vm) (rc : ℕ) → revoke_access vm false s ≡ some (rc, s') → Step s s'

  pub data Reach (s : Softc Cap) : Softc Cap → Type 0 where
    here : Reach s s
    next : {t u : Softc Cap} → Reach s t → Step t u → Reach s u

  -- The lock is free, the token is whole, the flag tells whether a region is mapped, and the
  -- table has the types that it was set up with.
  pub record IsSound (s : Softc Cap) : Type 0 where
    pub idle : IsIdle cheri s
    pub tracked : IsTracked s
    pub table_kept : kinds s.regions ≡ table

  -- What the driver promises: a type with a size is in the table.
  abbrev pub Covers : Type 0
  Covers = (d : D) (kind : ℕ) → 0 < ops.get_buffer_size d kind → contains kind table ≡ true

  has_region :
      (kind : ℕ) (s : Softc Cap)
      → kinds s.regions ≡ table
      → contains kind table ≡ true
      → is_some (find_region kind s.regions) ≡ true
  has_region kind s e h = is_some-find_region kind s.regions ∙ rw e h

  ioctl-IsSound :
      (vm : Vm) (cmd : Cmd) (req : CapReq Cap) (d : D) (r : Reply Cap D) (s s' : Softc Cap)
      → ioctl_handler cheri ops vm cmd req d s ≡ some (r, s')
      → IsSound s
      → IsSound s'
  ioctl-IsSound vm cmd req d r s s' h i =
      let v = ioctl_refines cheri ops vm cmd req d s i.idle in
      let e : v.state ≡ s' = ground (arith, h, v.returns) in
      subst IsSound e (record {
        idle = v.idle;
        tracked = ground (arith, i.tracked, v.flag, v.table, any_mapped-release vm s.regions);
        table_kept = ground (arith, i.table_kept, v.table, kinds-release vm s.regions);
      })

  constructed-IsSound :
      Covers
      → (req : MapReq Cap) (c : Call D) (s : Softc Cap) → 0 < c.size
      → IsAllowed cheri ops req c s
      → IsSound s
      → IsSound (constructed req.map_type s)
  constructed-IsSound covers req c s pos a i = record {
    idle = record { free = refl; linked = i.idle.linked };
    tracked =
        (pager-IsTracked req.map_type s i.tracked).0 (
          has_region req.map_type s i.table_kept
            (covers c.before req.map_type (rw a.whole at pos)));
    table_kept = kinds-mark req.map_type true s.regions ∙ i.table_kept;
  }

  mmap-IsSound :
      Covers
      → (req : MapReq Cap) (c : Call D) (r : ℕ × Option Grant) (s s' : Softc Cap) → 0 < c.size
      → mmap_single_extra cheri ops (some req) c s ≡ some (r, s')
      → IsSound s
      → IsSound s'
  mmap-IsSound covers req c r s s' pos h i =
      let v = mmap_Maps cheri ops req c s i.idle.free in
      let e : v.state ≡ s' = ground (arith, h, v.returns) in
      let same : IsSound (unlocked s) = rw (unlocked_eta s i.idle.free) i in
      subst IsSound e (elim (ℕ_discrete v.status 0) [
        | yes ok ↦ rw (v.marks ok) (constructed-IsSound covers req c s pos (v.granted ok).0 i)
        | no failed ↦ elim (v.kept failed) [
          | inl kept ↦ rw kept same
          | inr (dying, made, a) ↦ rw made (constructed-IsSound covers req c s pos a i)
        ]
      ])

  munmap-IsSound :
      (kind : ℕ) (s s' : Softc Cap) → pager_dtor kind s ≡ some (tt, s') → IsSound s → IsSound s'
  munmap-IsSound kind s s' h i =
      let e : destructed kind s ≡ s' = ground (arith, h, pager_dtor_lem kind s i.idle.free) in
      subst IsSound e (record {
        idle = record { free = refl; linked = i.idle.linked };
        tracked = (pager-IsTracked kind s i.tracked).1;
        table_kept = kinds-mark kind false s.regions ∙ i.table_kept;
      })

  placed-IsSound :
      (kind vaddr size rc : ℕ) (s s' : Softc Cap)
      → vaddr_callback kind vaddr size s ≡ some (rc, s')
      → IsSound s
      → IsSound s'
  placed-IsSound kind vaddr size rc s s' h i =
      let e : record s { locked = false; regions = update_region kind (place vaddr size) s.regions }
          ≡ s' =
        ground (arith, h, vaddr_callback_lem kind vaddr size s i.idle.free) in
      subst IsSound e (record {
        idle = record { free = refl; linked = i.idle.linked };
        tracked = i.tracked ∙ sym (update_region-place kind vaddr size s.regions).1;
        table_kept = (update_region-place kind vaddr size s.regions).0 ∙ i.table_kept;
      })

  close-IsSound :
      (vm : Vm) (rc : ℕ) (s s' : Softc Cap)
      → revoke_access vm false s ≡ some (rc, s')
      → IsSound s
      → IsSound s'
  unfolding revoke_access
  close-IsSound vm rc s s' h i =
      let e : revoked vm s ≡ s' = ground (arith, h, revoke_cap_token_lem vm s i.idle.free) in
      subst IsSound e (record {
        idle = record { free = refl; linked = refl };
        tracked = i.tracked ∙ sym (any_mapped-release vm s.regions);
        table_kept = kinds-release vm s.regions ∙ i.table_kept;
      })

  Step-IsSound : Covers → {s s' : Softc Cap} → Step s s' → IsSound s → IsSound s'
  Step-IsSound covers {s} {s'} (ioctl vm cmd req d r h) i = ioctl-IsSound vm cmd req d r s s' h i
  Step-IsSound covers {s} {s'} (mmap req c r pos h) i = mmap-IsSound covers req c r s s' pos h i
  Step-IsSound covers {s} {s'} (munmap kind h) i = munmap-IsSound kind s s' h i
  Step-IsSound covers {s} {s'} (placed kind vaddr size rc h) i =
      placed-IsSound kind vaddr size rc s s' h i
  Step-IsSound covers {s} {s'} (close vm rc h) i = close-IsSound vm rc s s' h i

  -- If the driver's table covers every type with a size, each sequence of entries from a sound
  -- softc ends in a sound one: the lock is free, the two halves of the token belong together, the
  -- softc's flag tells whether some region is mapped, and no region was added or lost.
  pub Reach-IsSound : Covers → {s t : Softc Cap} → IsSound s → Reach s t → IsSound t
  Reach-IsSound covers i here = i
  Reach-IsSound covers i (next r step) = Step-IsSound covers step (Reach-IsSound covers i r)

-- `init_capio_sc` on a table with nothing mapped makes a sound softc.
pub init_capio_sc-IsSound :
    {Cap D : Type 0} (cheri : Cheri Cap) (ops : Ops D) (derive : ℕ → Cap) (base : ℕ)
    (smem : List Region)
    → any_mapped smem ≡ false
    → IsSound cheri ops (kinds smem) (init_capio_sc derive base smem)
unfolding init_capio_sc
init_capio_sc-IsSound cheri ops derive base smem h = record {
  idle = record { free = refl; linked = refl };
  tracked = sym h;
  table_kept = refl;
}
