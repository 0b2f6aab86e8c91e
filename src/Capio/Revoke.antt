-- ===== src/Capio/Revoke.antt =====
-- Revoking the token: `delete_mapping_from_user`, `revoke_cap_token` and `revoke_access`.
use solarflare_capio_kernel.Base.{
  ℕ, zero, suc, ◌+◌, Bool, Option, none, some, List, [], ◌∷◌, ◌==◌, length, if◌then◌else◌, not,
}
use solarflare_capio_kernel.Base.Errno.{einval, eio}
use solarflare_capio_kernel.Base.Buffer.{get_elem?}
use solarflare_capio_kernel.Capio.Types.{Region}
use solarflare_capio_kernel.Capio.Act.{Act, ◌>>=◌, ◌>>◌, pure, gets, modify, cap_lock, cap_unlock}

abbrev pub kern_success : ℕ
kern_success = 0

abbrev pub kern_invalid_address : ℕ
kern_invalid_address = 1

-- The calling process's address space, by the return codes of the kernel's VM calls: whether the
-- process still has one, `vm_map_lookup` at an address and `vm_map_remove` of a range.
pub record Vm : Type 0 where
  pub has_vmspace : Bool
  pub lookup : ℕ → ℕ
  pub remove : ℕ → ℕ → ℕ

unfoldable pub delete_mapping_from_user : Vm → ℕ → ℕ → ℕ
delete_mapping_from_user vm offset len =
    if not vm.has_vmspace
    then 0
    else if not (vm.lookup offset == kern_success)
    then 0
    else if vm.remove offset (offset + len) == kern_success
    then 0
    else if vm.remove offset (offset + len) == kern_invalid_address
    then 0
    else eio

-- `sc->shared_mem_regs[i].offset = 0`
unfoldable pub clear_offset : ℕ → List Region → List Region
clear_offset i [] = []
clear_offset zero (r ∷ rs) = record r { offset = 0 } ∷ rs
clear_offset (suc i) (r ∷ rs) = r ∷ clear_offset i rs

module _ {Cap : Type 0} (vm : Vm) where
  -- After the deletion of region `i`'s mapping returned `rc`.
  unfoldable pub finish_region : ℕ → ℕ → Act Cap ℕ
  unfolding clear_offset
  finish_region i rc =
      if rc == 0
      then (do
        cap_lock
        modify λ s. record s { regions = clear_offset i s.regions }
        cap_unlock
        pure rc)
      else pure rc

  -- The body of the loop for the copied entry `smem` at index `i`; the result is `error`.
  unfoldable pub revoke_region : ℕ → ℕ → Option Region → Act Cap ℕ
  unfolding finish_region delete_mapping_from_user
  revoke_region i error none = pure error
  revoke_region i error (some smem) =
      if smem.offset == 0
      then pure error
      else finish_region i (delete_mapping_from_user vm smem.offset smem.len)

  unfoldable pub revoke_loop : ℕ → ℕ → ℕ → Act Cap ℕ
  unfolding revoke_region
  revoke_loop zero i error = pure error
  revoke_loop (suc n) i error = do
    cap_lock
    smem ← gets (λ s. get_elem? s.regions i)
    cap_unlock
    error' ← revoke_region i error smem
    revoke_loop n (i + 1) error'

  unfoldable pub revoke_cap_token : Act Cap ℕ
  unfolding revoke_loop
  revoke_cap_token = do
    cap_lock
    modify λ s. record s { original_cap = none; sealed_cap = none }
    cap_unlock
    n ← gets (λ s. length s.regions)
    revoke_loop n 0 0

-- `revoke_access`; `sc` may be NULL.
unfoldable pub revoke_access : {Cap : Type 0} → Vm → Bool → Act Cap ℕ
unfolding revoke_cap_token
revoke_access vm is_null = if is_null then pure einval else revoke_cap_token vm
