-- ===== src/Capio/Tests.antt =====
-- Examples for the CAPIO framework: capabilities are numbers, sealing adds the key.

use solarflare_capio_kernel.Capio.Exclusive.{mmap_once, mmap_dying}
use solarflare_capio_kernel.Base.Errno.{einval, enxio}
use solarflare_capio_kernel.Capio.Teardown.{
  revoked, revoke_cap_token_lem, release, revoke_hides_error,
}
use solarflare_capio_kernel.Capio.Reach.{IsSound, contains, Reach-IsSound, next, here, mmap}
use solarflare_capio_kernel.Capio.Pager.{any_mapped, mark}
use solarflare_capio_kernel.Capio.Region.{find_region}
use solarflare_capio_kernel.Capio.Mapping.{
  Outcome, mmap-Outcome, IsAllowed, constructed, mmap_allowed,
}
use solarflare_capio_kernel.Capio.Mmap.{
  MapReq, mmap_single_extra, Call, has_tag, is_mapped, grant_of,
}
use solarflare_capio_kernel.Capio.Ioctl.{ioctl_handler, goodbye}
use solarflare_capio_kernel.Capio.Token.{check_cap_token}
use solarflare_capio_kernel.Capio.Session.{Serves, Presents, ioctl_refines, check_cap_token_iff}
use solarflare_capio_kernel.Capio.Revoke.{revoke_cap_token, delete_mapping_from_user}
use solarflare_capio_kernel.Capio.Types.{Softc}
use solarflare_capio_kernel.Base.{
  ℕ, Bool, some, ◌==◌, if◌then◌else◌, true, ◌≡◌, ◌∷◌, refl, ◌<◌, false, none, ◌↔◌, [], map, ◌≢◌,
  arith,
}
use Prim.Native.Nat.{ℕ}
use solarflare_capio_kernel.Capio.Samples.{
  numbers, driver_ops, region_of, owned, token_req, vm, owned-IsIdle,
}

check_cap_token_iff_example :
    (check_cap_token numbers owned (some 5) ≡ 0) ↔ ((c : ℕ) × Presents numbers owned (some 5) c)
check_cap_token_iff_example = check_cap_token_iff numbers owned (some 5) refl

ioctl_refines_example :
    Serves numbers driver_ops vm goodbye token_req owned
      (ioctl_handler numbers driver_ops vm goodbye token_req false owned)
ioctl_refines_example =
    ioctl_refines numbers driver_ops vm goodbye token_req false owned owned-IsIdle

revoke_cap_token_example : revoke_cap_token vm owned ≡ some (0, revoked vm owned)
revoke_cap_token_example = revoke_cap_token_lem vm owned refl

abbrev two_mapped : Softc ℕ
two_mapped = record owned { regions = region_of 1 100 ∷ region_of 2 8192 ∷ [] }

revoke_hides_error_example :
    (revoke_cap_token vm two_mapped ≡ some (0, revoked vm two_mapped))
    × ((revoked vm two_mapped).regions ≡ region_of 1 100 ∷ map (release vm) (region_of 2 8192 ∷ []))
unfolding delete_mapping_from_user
revoke_hides_error_example =
    revoke_hides_error vm two_mapped (region_of 1 100) [] (region_of 2 8192) refl refl
      (λ e. absurd (omega (arith, e))) (λ e. absurd (omega (arith, e)))
      (λ e. absurd (omega (arith, e))) refl

abbrev map_req : MapReq ℕ
map_req = record { user_cap = some 5; sealed_cap = some 5; map_type = 1 }

abbrev map_call : Bool → Call Bool
map_call dying = record {
  offset = 0;
  size = 4096;
  prot_cap = false;
  malloc_ok = true;
  pager_ok = true;
  before = false;
  after = dying;
}

allowed : (dying : Bool) → IsAllowed numbers driver_ops map_req (map_call dying) owned
unfolding check_cap_token has_tag is_mapped find_region
allowed dying = record {
  token = refl;
  no_caps = refl;
  at_start = refl;
  alive = refl;
  tagged = refl;
  whole = refl;
  unmapped = refl;
  malloc_ok = refl;
  pager_ok = refl;
}

mmap-Outcome_example :
    Outcome numbers driver_ops map_req
      (map_call true)
      owned
      (mmap_single_extra numbers driver_ops (some map_req) (map_call true) owned)
mmap-Outcome_example = mmap-Outcome numbers driver_ops map_req (map_call true) owned refl

mmap_once_example : einval ≢ 0
unfolding find_region mmap_single_extra mark
mmap_once_example =
    mmap_once numbers driver_ops map_req map_req (map_call false) (map_call false) owned refl refl
      refl (mmap_allowed numbers driver_ops map_req (map_call false) owned refl (allowed false))
      refl

mmap_dying_example :
    (mmap_single_extra numbers driver_ops (some map_req) (map_call true) owned
      ≡ some ((enxio, none), constructed 1 owned))
    × (is_mapped (find_region 1 (constructed 1 owned).regions) ≡ true)
unfolding find_region
mmap_dying_example =
    mmap_dying numbers driver_ops map_req (map_call true) owned refl (allowed true) refl refl

covers : (d : Bool) (kind : ℕ) → 0 < (if kind == 1 then 4096 else 0) → contains kind (1 ∷ []) ≡ true
covers d kind h = ground (arith, h)

owned-IsSound : IsSound numbers driver_ops (1 ∷ []) owned
unfolding any_mapped
owned-IsSound = record { idle = owned-IsIdle; tracked = refl; table_kept = refl }

Reach-IsSound_example : IsSound numbers driver_ops (1 ∷ []) (constructed 1 owned)
Reach-IsSound_example = Reach-IsSound numbers driver_ops (1 ∷ []) covers owned-IsSound (
    next here (
      mmap map_req (map_call false) (0, some (grant_of 1 4096 (find_region 1 owned.regions)))
        (omega arith)
        (mmap_allowed numbers driver_ops map_req (map_call false) owned refl (allowed false))))
