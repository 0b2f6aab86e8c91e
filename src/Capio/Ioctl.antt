-- ===== src/Capio/Ioctl.antt =====
-- `capio_ioctl_handler`: the framework's own commands, and everything else handed to the driver.
use solarflare_capio_kernel.Base.{ℕ, Bool, true, false, not, ◌==◌, if◌then◌else◌}
use solarflare_capio_kernel.Base.Errno.{eperm}
use solarflare_capio_kernel.Capio.Types.{Cheri, CapReq, Ops}
use solarflare_capio_kernel.Capio.Act.{Act, ◌>>=◌, pure, gets}
use solarflare_capio_kernel.Capio.Token.{check_cap_token, set_cap_token}
use solarflare_capio_kernel.Capio.Revoke.{Vm, revoke_cap_token}

-- CAPIO_ATTACH, CAPIO_GOODBYE, and any other command number.
pub data Cmd : Type 0 where
  attach goodbye : Cmd
  driver : ℕ → Cmd

unfoldable pub is_attach : Cmd → Bool
is_attach attach = true
is_attach goodbye = false
is_attach (driver n) = false

-- What comes back to user space: the status, the request and the driver's state.
abbrev pub Reply : Type 0 → Type 0 → Type 0
Reply Cap D = ℕ × CapReq Cap × D

module _ {Cap D : Type 0} (cheri : Cheri Cap) (ops : Ops D) (vm : Vm) where
  unfoldable pub dispatch : Cmd → CapReq Cap → D → Act Cap (Reply Cap D)
  unfolding set_cap_token revoke_cap_token
  dispatch attach req d = do (rc, req') ← set_cap_token cheri req; pure (rc, req', d)
  dispatch goodbye req d = do rc ← revoke_cap_token vm; pure (rc, req, d)
  dispatch (driver n) req d = let (rc, d') = ops.ioctl n d in pure (rc, req, d')

  unfoldable pub ioctl_handler : Cmd → CapReq Cap → D → Act Cap (Reply Cap D)
  unfolding dispatch check_cap_token is_attach
  ioctl_handler cmd req d = do
    error ← gets (λ s. check_cap_token cheri s req.sealed_cap)
    if is_attach cmd
        then dispatch cmd req d
        else if not (error == 0)
        then pure (eperm, req, d)
        else dispatch cmd req d
