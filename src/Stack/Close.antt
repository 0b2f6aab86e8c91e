-- ===== src/Stack/Close.antt =====
-- The last close of the device node gives up the token.
use solarflare_capio_kernel.Base.{some, ◌≡◌, refl, false}
use solarflare_capio_kernel.Capio.Types.{Cheri, Softc, CapReq}
use solarflare_capio_kernel.Capio.Revoke.{Vm, revoke_access}
use solarflare_capio_kernel.Capio.Token.{set_cap_token, check_cap_token}
use solarflare_capio_kernel.Capio.Teardown.{revoked, revoke_cap_token_lem}
use solarflare_capio_kernel.Capio.Session.{attach_opens}
use solarflare_capio_kernel.Stack.Node.{node_close}

node_close_lem :
    {Cap : Type 0} (vm : Vm) (s : Softc Cap)
    → s.locked ≡ false
    → node_close vm (some s) ≡ some (0, some (revoked vm s))
unfolding node_close revoke_access
node_close_lem vm s free = rw (revoke_cap_token_lem vm s free) refl

-- A close of the device node with a free mutex returns 0, whatever the address space answers, and
-- the device is free for the next owner: on a device with a sealing key, an attach by any process
-- afterwards succeeds and hands out a token that passes the check, whoever owned it before.
pub close_reopens :
    {Cap : Type 0} (cheri : Cheri Cap) (vm : Vm) (s : Softc Cap) (req : CapReq Cap) (c k : Cap)
    → s.locked ≡ false
    → s.sealing_key ≡ some k
    → req.user_cap ≡ some c
    → (s1 : Softc Cap) × (s2 : Softc Cap) × (req' : CapReq Cap) × (node_close vm (some s)
        ≡ some (0, some s1))
      × (set_cap_token cheri req s1 ≡ some ((0, req'), s2))
      × (s2.original_cap ≡ some c)
      × (check_cap_token cheri s2 req'.sealed_cap ≡ 0)
close_reopens cheri vm s req c k free key user =
    let (s2, req', ran, owner, passes) =
      attach_opens cheri (revoked vm s) req c k refl refl key user in
    (revoked vm s, s2, req', node_close_lem vm s free, ran, owner, passes)
