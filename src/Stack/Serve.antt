-- ===== src/Stack/Serve.antt =====
-- One ioctl on the device node: with the token, without it, and on a device that is owned.
use solarflare_capio_kernel.Base.{
  ℕ, Bool, false, Option, some, ◌==◌, ◌≡◌, ◌≢◌, ◌∙◌, ap, refl, arith, is_some,
}
use solarflare_capio_kernel.Base.Errno.{eperm}
use solarflare_capio_kernel.Capio.Types.{Cheri, CapReq}
use solarflare_capio_kernel.Capio.Act.{>>=-eq-some, pure}
use solarflare_capio_kernel.Capio.Revoke.{Vm, revoke_cap_token}
use solarflare_capio_kernel.Capio.Ioctl.{
  Cmd, attach, goodbye, driver, is_attach, ioctl_handler, dispatch,
}
use solarflare_capio_kernel.Capio.Token.{check_cap_token, set_cap_token}
use solarflare_capio_kernel.Capio.Teardown.{last_error, revoked, revoke_cap_token_lem}
use solarflare_capio_kernel.Capio.Session.{ioctl_driver, set_cap_token_lem, attached}
use solarflare_capio_kernel.Driver.Channel.{Channel, World, Command}
use solarflare_capio_kernel.Driver.Ioctl
use solarflare_capio_kernel.Stack.System.{System, Flight, below, finish, driver_ioctl, device_ioctl}

module _ {Cap : Type 0} (cheri : Cheri Cap) (is_dying : Option Flight → Bool)
    (get_buffer_size : Option Flight → ℕ → ℕ) (vm : Vm) (w : World) where
  driver_ran :
      (arg : Command) (s : Channel) (e : ℕ) (arg' : Command) (c : Channel)
      → Ioctl.dispatch w arg s ≡ some ((e, arg'), c)
      → driver_ioctl w (some (record { request = arg; channel = s }))
        ≡ (e, some (record { request = arg'; channel = c }))
  unfolding driver_ioctl
  driver_ran arg s e arg' c ran = rw (ran, driver_ioctl) refl

  -- What the driver answers goes back to a caller with the token.
  pub device_ioctl_passed :
      (n : ℕ) (req : CapReq Cap) (arg : Command) (sys : System Cap) (e : ℕ) (arg' : Command)
      (c : Channel)
      → check_cap_token cheri sys.capio req.sealed_cap ≡ 0
      → Ioctl.dispatch w arg sys.channel ≡ some ((e, arg'), c)
      → device_ioctl cheri is_dying get_buffer_size vm w (driver n) req arg sys
        ≡ some ((e, req, arg'), record sys { channel = c })
  unfolding device_ioctl driver_ioctl
  device_ioctl_passed n req arg sys e arg' c ok ran =
      ap finish (
        ioctl_driver cheri (below is_dying get_buffer_size w) vm n req
          (some (record { request = arg; channel = sys.channel })) sys.capio)
      ∙ rw ok (
          ap (λ (r : ℕ × Option Flight). finish (some ((r.0, req, r.1), sys.capio)))
            (driver_ran arg sys.channel e arg' c ran))

  -- Anything but an attach is refused without the token, and changes nothing.
  pub device_ioctl_refused :
      (cmd : Cmd) (req : CapReq Cap) (arg : Command) (sys : System Cap)
      → check_cap_token cheri sys.capio req.sealed_cap ≢ 0
      → is_attach cmd ≡ false
      → device_ioctl cheri is_dying get_buffer_size vm w cmd req arg sys
        ≡ some ((eperm, req, arg), sys)
  unfolding device_ioctl ioctl_handler
  device_ioctl_refused cmd req arg sys no_token other =
      let bad : (check_cap_token cheri sys.capio req.sealed_cap == 0) ≡ false =
        ground (arith, no_token) in
      rw (other, bad) refl

  pub device_ioctl_attach :
      (req : CapReq Cap) (arg : Command) (sys : System Cap)
      → sys.capio.locked ≡ false
      → device_ioctl cheri is_dying get_buffer_size vm w attach req arg sys ≡ (
          let a = attached cheri (is_some sys.capio.sealed_cap) req req.user_cap sys.capio in
          some ((a.0.0, a.0.1, arg), record sys { capio = a.1 }))
  unfolding device_ioctl ioctl_handler is_attach dispatch
  device_ioctl_attach req arg sys free = ap finish (
      >>=-eq-some (set_cap_token cheri req)
        (λ r. pure (r.0, r.1, some (record { request = arg; channel = sys.channel })))
        {s = sys.capio} (set_cap_token_lem cheri req sys.capio free))

  pub device_ioctl_goodbye :
      (req : CapReq Cap) (arg : Command) (sys : System Cap)
      → sys.capio.locked ≡ false
      → check_cap_token cheri sys.capio req.sealed_cap ≡ 0
      → device_ioctl cheri is_dying get_buffer_size vm w goodbye req arg sys
        ≡ some (
          (last_error vm 0 sys.capio.regions, req, arg),
          record sys { capio = revoked vm sys.capio },
        )
  unfolding device_ioctl ioctl_handler is_attach dispatch
  device_ioctl_goodbye req arg sys free ok = rw ok (
      ap finish (
        >>=-eq-some (revoke_cap_token vm)
          (λ rc. pure (rc, req, some (record { request = arg; channel = sys.channel })))
          {s = sys.capio} (revoke_cap_token_lem vm sys.capio free)))
