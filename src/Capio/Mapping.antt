-- ===== src/Capio/Mapping.antt =====
-- Mapping a region: who gets one, that a region is mapped once at a time, and where a fault lands.
use native.Mathlib.Decide.{ℕ_discrete}
use mathlib.Core.Option
use mathlib.Core.Path.{subst}
use solarflare_capio_kernel.Base.Errno.{enxio, einval, enomem}
use solarflare_capio_kernel.Capio.Token.{check_cap_token}
use solarflare_capio_kernel.Capio.Act.{unlocked_eta, unlocked}
use mathlib.Core.Path.{subst}
use solarflare_capio_kernel.Capio.Mmap.{
  MapReq, mmap_single_extra, Call, has_tag, is_mapped, grant_of, Grant,
}
use solarflare_capio_kernel.Capio.Region.{find_region}
use solarflare_capio_kernel.Capio.Pager.{pager_ctor, pager_dtor, any_mapped, mark}
use solarflare_capio_kernel.Capio.Types.{Softc, Cheri, Ops, Region}
use solarflare_capio_kernel.Base.{
  [], ℕ, ◌≡◌, refl, false, is_some, true, if◌then◌else◌, some, List, Bool, map, sym, arith, ◌∷◌,
  Option, none, ==_iff, ◌≢◌, ◌⊎◌, not, ◌==◌, inl, inr,
}

-- The flag of the softc says whether some region is mapped.
abbrev pub IsTracked : {Cap : Type 0} → Softc Cap → Type 0
IsTracked s = s.mapped ≡ any_mapped s.regions

abbrev pub constructed : {Cap : Type 0} → ℕ → Softc Cap → Softc Cap
constructed kind s = record s {
  locked = false;
  mapped = true;
  regions = map (mark kind true) s.regions;
}

abbrev pub destructed : {Cap : Type 0} → ℕ → Softc Cap → Softc Cap
destructed kind s = record s {
  locked = false;
  mapped = if any_mapped (map (mark kind false) s.regions) then s.mapped else false;
  regions = map (mark kind false) s.regions;
}

pub pager_ctor_lem :
    {Cap : Type 0} (kind : ℕ) (s : Softc Cap)
    → s.locked ≡ false
    → pager_ctor kind s ≡ some (0, constructed kind s)
unfolding pager_ctor
pager_ctor_lem kind s free =
    subst (λ t. pager_ctor kind t ≡ some (0, constructed kind t)) (unlocked_eta s free) refl

pub pager_dtor_lem :
    {Cap : Type 0} (kind : ℕ) (s : Softc Cap)
    → s.locked ≡ false
    → pager_dtor kind s ≡ some (tt, destructed kind s)
unfolding pager_dtor
pager_dtor_lem kind s free =
    subst (λ t. pager_dtor kind t ≡ some (tt, destructed kind t)) (unlocked_eta s free) refl

any_mapped-mark-true :
    (kind : ℕ) (rs : List Region)
    → is_some (find_region kind rs) ≡ true
    → any_mapped (map (mark kind true) rs) ≡ true
unfolding any_mapped find_region mark
any_mapped-mark-true kind [] h = h
any_mapped-mark-true kind (r ∷ rs) h = ground (arith, any_mapped-mark-true kind rs)

any_mapped-mark-false :
    (kind : ℕ) (rs : List Region)
    → any_mapped (map (mark kind false) rs) ≡ true
    → any_mapped rs ≡ true
unfolding any_mapped mark
any_mapped-mark-false kind [] h = h
any_mapped-mark-false kind (r ∷ rs) h = ground (arith, any_mapped-mark-false kind rs)

pub find_region-mark :
    (kind : ℕ) (b : Bool) (rs : List Region)
    → find_region kind (map (mark kind b) rs)
      ≡ Option.map (λ (r : Region). record r { mapped = b }) (find_region kind rs)
unfolding find_region mark
find_region-mark kind b [] = refl
find_region-mark kind b (r ∷ rs) = ground (arith, find_region-mark kind b rs)

-- Constructing the pager of a region of the table, and destroying any pager, keep the flag in
-- step with the regions.
pub pager-IsTracked :
    {Cap : Type 0} (kind : ℕ) (s : Softc Cap)
    → IsTracked s
    → (is_some (find_region kind s.regions) ≡ true → IsTracked (constructed kind s))
      × IsTracked (destructed kind s)
pager-IsTracked kind s t = (
  λ h. sym (any_mapped-mark-true kind s.regions h),
  ground (arith, any_mapped-mark-false kind s.regions),
)

module _ {Cap D : Type 0} (cheri : Cheri Cap) (ops : Ops D) where
  -- Everything that a mapping needs.
  pub record IsAllowed (req : MapReq Cap) (c : Call D) (s : Softc Cap) : Type 0 where
    pub token : check_cap_token cheri s req.sealed_cap ≡ 0
    pub no_caps : c.prot_cap ≡ false
    pub at_start : c.offset ≡ 0
    pub alive : ops.is_dying c.before ≡ false
    pub tagged : has_tag cheri req.user_cap ≡ true
    pub whole : c.size ≡ ops.get_buffer_size c.before req.map_type
    pub unmapped : is_mapped (find_region req.map_type s.regions) ≡ false
    pub malloc_ok : c.malloc_ok ≡ true
    pub pager_ok : c.pager_ok ≡ true

  -- An allowed request on a driver that is still alive afterwards.
  pub mmap_allowed :
      (req : MapReq Cap) (c : Call D) (s : Softc Cap)
      → s.locked ≡ false
      → IsAllowed req c s
      → mmap_single_extra cheri ops (some req) c s
        ≡ some (
          (if ops.is_dying c.after
              then (enxio, none)
              else (0, some (grant_of req.map_type c.size (find_region req.map_type s.regions)))),
          constructed req.map_type s,
        )
  unfolding mmap_single_extra
  mmap_allowed req c s free a =
      subst
        (λ t.
          mmap_single_extra cheri ops (some req) c t
          ≡ some (
            (if ops.is_dying c.after
                then (enxio, none)
                else (0, some (grant_of req.map_type c.size (find_region req.map_type s.regions)))),
            constructed req.map_type s,
          ))
        (unlocked_eta s free)
        (rw (
          a.token,
          a.no_caps,
          a.at_start,
          a.alive,
          a.tagged,
          (==_iff _ _).1 a.whole,
          a.unmapped,
          a.malloc_ok,
          a.pager_ok,
        ))

  -- What a call of `mmap` has done.
  pub record Maps (req : MapReq Cap) (c : Call D) (s : Softc Cap)
      (r : Option ((ℕ × Option Grant) × Softc Cap)) : Type 0 where
    pub status : ℕ
    pub grant : Option Grant
    pub state : Softc Cap
    pub returns : r ≡ some ((status, grant), state)
    pub granted : status ≡ 0 → IsAllowed req c s × (ops.is_dying c.after ≡ false)
    pub entry :
        status ≡ 0
        → grant ≡ some (grant_of req.map_type c.size (find_region req.map_type s.regions))
    pub marks : status ≡ 0 → state ≡ constructed req.map_type s
    pub denied : status ≢ 0 → grant ≡ none
    pub kept :
        status ≢ 0
        → (state ≡ unlocked s)
          ⊎ ((ops.is_dying c.after ≡ true)
              × (state ≡ constructed req.map_type s)
              × IsAllowed req c s)

  -- The result of each early return, and of the path to the end.
  abbrev outcome : MapReq Cap → Call D → Softc Cap → (ℕ × Option Grant) × Softc Cap
  outcome req c s =
      if not (check_cap_token cheri s req.sealed_cap == 0)
      then ((check_cap_token cheri s req.sealed_cap, none), unlocked s)
      else if c.prot_cap
      then ((einval, none), unlocked s)
      else if not (c.offset == 0)
      then ((einval, none), unlocked s)
      else if ops.is_dying c.before
      then ((enxio, none), unlocked s)
      else if not (has_tag cheri req.user_cap)
      then ((einval, none), unlocked s)
      else if not (c.size == ops.get_buffer_size c.before req.map_type)
      then ((einval, none), unlocked s)
      else if is_mapped (find_region req.map_type s.regions)
      then ((einval, none), unlocked s)
      else if not c.malloc_ok
      then ((enomem, none), unlocked s)
      else if not c.pager_ok
      then ((enxio, none), unlocked s)
      else if ops.is_dying c.after
      then ((enxio, none), constructed req.map_type s)
      else (
        (0, some (grant_of req.map_type c.size (find_region req.map_type s.regions))),
        constructed req.map_type s,
      )

  mmap-outcome :
      (req : MapReq Cap) (c : Call D) (s : Softc Cap)
      → mmap_single_extra cheri ops (some req) c (unlocked s) ≡ some (outcome req c s)
  unfolding mmap_single_extra
  mmap-outcome req c s = ground arith

  outcome_kept :
      (req : MapReq Cap) (c : Call D) (s : Softc Cap)
      → (outcome req c s).0.0 ≢ 0
      → ((outcome req c s).1 ≡ unlocked s)
        ⊎ ((ops.is_dying c.after ≡ true)
            × ((outcome req c s).1 ≡ constructed req.map_type s)
            × IsAllowed req c s)
  outcome_kept req c s h = ground arith

  -- From a free lock `mmap` always returns. It returns 0 only when the request is allowed and
  -- the driver is still alive after the object was made; then it hands out the table's entry and
  -- marks the region mapped. Otherwise it hands out nothing, and leaves the softc as it was unless
  -- the driver began to die meanwhile.
  pub mmap_Maps :
      (req : MapReq Cap) (c : Call D) (s : Softc Cap)
      → s.locked ≡ false
      → Maps req c s (mmap_single_extra cheri ops (some req) c s)
  mmap_Maps req c s free = record {
    status = (outcome req c s).0.0;
    grant = (outcome req c s).0.1;
    state = (outcome req c s).1;
    returns =
        subst (λ t. mmap_single_extra cheri ops (some req) c t ≡ some (outcome req c s))
          (unlocked_eta s free) (mmap-outcome req c s);
    granted = λ h. ground arith;
    entry = λ h. ground arith;
    marks = λ h. ground arith;
    denied = λ h. ground arith;
    kept = outcome_kept req c s;
  }

  -- The two ways that a call can end.
  pub record Outcome (req : MapReq Cap) (c : Call D) (s : Softc Cap)
      (r : Option ((ℕ × Option Grant) × Softc Cap)) : Type 0 where
    pub status : ℕ
    pub grant : Option Grant
    pub state : Softc Cap
    pub returns : r ≡ some ((status, grant), state)
    pub result :
        ((status ≡ 0)
          × IsAllowed req c s
          × (ops.is_dying c.after ≡ false)
          × (grant ≡ some (grant_of req.map_type c.size (find_region req.map_type s.regions)))
          × (state ≡ constructed req.map_type s))
        ⊎ ((status ≢ 0)
            × (grant ≡ none)
            × ((state ≡ unlocked s)
                ⊎ ((ops.is_dying c.after ≡ true)
                    × (state ≡ constructed req.map_type s)
                    × IsAllowed req c s)))

  -- From a free lock `mmap` always returns. Either it returns 0: then the request was allowed, the
  -- driver was still alive after the object was made, the caller gets the table's entry and the
  -- region is marked mapped. Or it returns an error and hands out nothing: then the softc is as it
  -- was, unless the driver began to die while the object of an allowed request was made.
  pub mmap-Outcome :
      (req : MapReq Cap) (c : Call D) (s : Softc Cap)
      → s.locked ≡ false
      → Outcome req c s (mmap_single_extra cheri ops (some req) c s)
  mmap-Outcome req c s free =
      let m = mmap_Maps req c s free in
      record {
        status = m.status;
        grant = m.grant;
        state = m.state;
        returns = m.returns;
        result = elim (ℕ_discrete m.status 0) [
          | yes z ↦ inl (z, (m.granted z).0, (m.granted z).1, m.entry z, m.marks z)
          | no nz ↦ inr (nz, m.denied nz, m.kept nz)
        ];
      }
