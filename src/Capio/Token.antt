-- ===== src/Capio/Token.antt =====
-- The token: `create_sealing_key`, `check_cap_token`, `set_cap_token` and `grant_access`.
use solarflare_capio_kernel.Base.{
  ℕ, Bool, true, false, not, Option, none, some, leb, is_some, if◌then◌else◌,
}
use solarflare_capio_kernel.Base.Errno.{eperm, einval}
use solarflare_capio_kernel.Capio.Types.{Cheri, Softc, CapReq}
use solarflare_capio_kernel.Capio.Act.{Act, ◌>>=◌, ◌>>◌, pure, gets, modify, cap_lock, cap_unlock}

-- `base` is `cheri_getbase(kernel_root_sealcap)`, and `derive n` is the root's capability with
-- its address set `n` past the base and its bounds to one byte.
unfoldable pub create_sealing_key : {Cap : Type 0} → (ℕ → Cap) → ℕ → ℕ → Option Cap
create_sealing_key derive base id = if leb base id then none else some (derive id)

module _ {Cap : Type 0} (cheri : Cheri Cap) where
  -- Whether the unsealed token is the capability that the owner attached with.
  unfoldable pub is_original : Option Cap → Cap → Bool
  is_original none c = false
  is_original (some o) c = cheri.ptr_equal_exact c o

  unfoldable pub check_cap_token : Softc Cap → Option Cap → ℕ
  unfolding is_original
  check_cap_token s none = einval
  check_cap_token s (some token) =
      if not (is_some s.sealed_cap)
      then einval
      else if not (is_original s.original_cap (cheri.unseal token s.sealing_key))
      then eperm
      else 0

  -- `set_cap_token` once the lock is held; the Boolean says that a token is already out.
  unfoldable pub grant_token : Bool → CapReq Cap → Option Cap → Act Cap (ℕ × CapReq Cap)
  grant_token held req none = do cap_unlock; pure (einval, req)
  grant_token true req (some c) = do cap_unlock; pure (einval, req)
  grant_token false req (some c) = do
    modify λ s. record s { original_cap = some c; sealed_cap = some (cheri.seal c s.sealing_key) }
    sealed ← gets (λ s. s.sealed_cap)
    cap_unlock
    pure (0, record req { sealed_cap = sealed })

  -- The status, and the request as the caller sees it afterwards.
  unfoldable pub set_cap_token : CapReq Cap → Act Cap (ℕ × CapReq Cap)
  unfolding grant_token
  set_cap_token req = do
    cap_lock
    held ← gets (λ s. is_some s.sealed_cap)
    grant_token held req req.user_cap

  -- The status of `set_cap_token` is dropped. `sc` is not NULL here.
  unfoldable pub grant_access : CapReq Cap → Act Cap (ℕ × CapReq Cap)
  unfolding set_cap_token
  grant_access req = do (rc, req') ← set_cap_token req; pure (0, req')
