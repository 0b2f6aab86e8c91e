-- ===== src/Capio/Mmap.antt =====
-- `capio_mmap_single_extra`, with the pager constructor that `cdev_pager_allocate` calls.
use solarflare_capio_kernel.Base.{
  ℕ, Bool, false, not, Option, none, some, List, [], ◌==◌, if◌then◌else◌,
}
use solarflare_capio_kernel.Base.Errno.{einval, enxio, enomem}
use solarflare_capio_kernel.Capio.Types.{Cheri, Region, SliceDef, Ops}
use solarflare_capio_kernel.Capio.Act.{Act, ◌>>=◌, ◌>>◌, pure, gets, cap_lock, cap_unlock}
use solarflare_capio_kernel.Capio.Token.{check_cap_token}
use solarflare_capio_kernel.Capio.Region.{find_region}
use solarflare_capio_kernel.Capio.Pager.{pager_ctor}

-- `map_req_t`, its input half.
pub record MapReq (Cap : Type 0) : Type 0 where
  pub user_cap : Option Cap
  pub sealed_cap : Option Cap
  pub map_type : ℕ

-- What a successful call hands back: the object (its type and size) and the output half of the
-- request. `device` says that the object has device memory attributes.
pub record Grant : Type 0 where
  pub map_type : ℕ
  pub object_size : ℕ
  pub device : Bool
  pub is_sliced : Bool
  pub slice_definitions : List SliceDef
  pub slice_def_length : ℕ

-- The rest of a call: `offset`, `size`, whether `nprot` asks for capability permissions, whether
-- `malloc` and `cdev_pager_allocate` succeed, and the driver's state before and after the latter.
pub record Call (D : Type 0) : Type 0 where
  pub offset : ℕ
  pub size : ℕ
  pub prot_cap : Bool
  pub malloc_ok : Bool
  pub pager_ok : Bool
  pub before : D
  pub after : D

-- `cheri_gettag(req->user_cap)`; NULL has no tag.
unfoldable pub has_tag : {Cap : Type 0} → Cheri Cap → Option Cap → Bool
has_tag cheri none = false
has_tag cheri (some c) = cheri.get_tag c

-- The grant for the table's entry; no entry leaves the defaults of the local variables.
unfoldable pub grant_of : ℕ → ℕ → Option Region → Grant
grant_of kind size none = record {
  map_type = kind;
  object_size = size;
  device = false;
  is_sliced = false;
  slice_definitions = [];
  slice_def_length = 0;
}
grant_of kind size (some r) = record {
  map_type = kind;
  object_size = size;
  device = r.is_physical;
  is_sliced = r.is_sliced;
  slice_definitions = r.slice_definitions;
  slice_def_length = r.slice_def_len;
}

unfoldable pub is_mapped : Option Region → Bool
is_mapped none = false
is_mapped (some r) = r.mapped

module _ {Cap D : Type 0} (cheri : Cheri Cap) (ops : Ops D) where
  -- From `malloc` on.
  unfoldable pub allocate : MapReq Cap → Call D → Option Region → Act Cap (ℕ × Option Grant)
  unfolding grant_of pager_ctor
  allocate req c smem =
      if not c.malloc_ok
      then pure (enomem, none)
      else if not c.pager_ok
      then pure (enxio, none)
      else do
        pager_ctor req.map_type
        pure (
            if ops.is_dying c.after
            then (enxio, none)
            else (0, some (grant_of req.map_type c.size smem)))

  -- From the search of the table on.
  unfoldable pub map_region : MapReq Cap → Call D → Act Cap (ℕ × Option Grant)
  unfolding allocate is_mapped find_region
  map_region req c = do
    cap_lock
    smem ← gets (λ s. find_region req.map_type s.regions)
    cap_unlock
    if is_mapped smem then pure (einval, none) else allocate req c smem

  -- From the check of `offset` on, which is made under the lock.
  unfoldable pub check_request : MapReq Cap → Call D → Act Cap (ℕ × Option Grant)
  unfolding map_region has_tag
  check_request req c = do
    cap_lock
    cap_unlock
    if not (c.offset == 0)
        then pure (einval, none)
        else if ops.is_dying c.before
        then pure (enxio, none)
        else if not (has_tag cheri req.user_cap)
        then pure (einval, none)
        else if not (c.size == ops.get_buffer_size c.before req.map_type)
        then pure (einval, none)
        else map_region req c

  -- `extra` is the request, which may be NULL.
  unfoldable pub mmap_single_extra : Option (MapReq Cap) → Call D → Act Cap (ℕ × Option Grant)
  unfolding check_request check_cap_token
  mmap_single_extra none c = pure (einval, none)
  mmap_single_extra (some req) c = do
    error ← gets (λ s. check_cap_token cheri s req.sealed_cap)
    if not (error == 0)
        then pure (error, none)
        else if c.prot_cap
        then pure (einval, none)
        else check_request req c
