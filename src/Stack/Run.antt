-- ===== src/Stack/Run.antt =====
-- Sequences of ioctls from any processes: no fault, and no disturbance of an owner.
use solarflare_capio_kernel.Base.{
  ℕ, Bool, true, false, Option, none, some, ◌==◌, ◌≡◌, ◌≢◌, ◌∙◌, ap, refl, arith, is_some,
  Bool-cases, inl, inr, List, [], ◌∷◌,
}
use solarflare_capio_kernel.Base.Errno.{eperm}
use solarflare_capio_kernel.Capio.Types.{Cheri, Softc, CapReq}
use solarflare_capio_kernel.Capio.Act.{unlocked_eta}
use solarflare_capio_kernel.Capio.Revoke.{Vm}
use solarflare_capio_kernel.Capio.Ioctl.{Cmd, attach, goodbye, driver, is_attach}
use solarflare_capio_kernel.Capio.Token.{check_cap_token}
use solarflare_capio_kernel.Capio.Teardown.{last_error, revoked}
use solarflare_capio_kernel.Capio.Session.{IsIdle, attached, attached-IsIdle}
use solarflare_capio_kernel.Driver.Channel.{World, Command}
use solarflare_capio_kernel.Driver.Within.{InRange, Within, Within-refl, Within-trans, Behaves}
use solarflare_capio_kernel.Driver.Safe.{dispatch-Safe}
use solarflare_capio_kernel.Stack.System.{System, Flight, below, device_ioctl}
use solarflare_capio_kernel.Stack.Serve.{
  device_ioctl_passed, device_ioctl_refused, device_ioctl_attach, device_ioctl_goodbye,
}

-- One ioctl of some process: its address space, what the card and the copies do meanwhile, the
-- command, the token and the data.
pub record Request (Cap : Type 0) : Type 0 where
  pub vm : Vm
  pub world : World
  pub cmd : Cmd
  pub req : CapReq Cap
  pub arg : Command

module _ {Cap : Type 0} (cheri : Cheri Cap) (is_dying : Option Flight → Bool)
    (get_buffer_size : Option Flight → ℕ → ℕ) where
  abbrev pub step : Request Cap → System Cap → Option ((ℕ × CapReq Cap × Command) × System Cap)
  step q sys = device_ioctl cheri is_dying get_buffer_size q.vm q.world q.cmd q.req q.arg sys

  -- The replies are dropped.
  unfoldable pub run : List (Request Cap) → System Cap → Option (System Cap)
  run [] sys = some sys
  run (q ∷ qs) sys = elim (step q sys) [ none ↦ none | some (r, sys') ↦ run qs sys' ]

  run-step :
      (q : Request Cap) (qs : List (Request Cap)) (sys : System Cap)
      (reply : ℕ × CapReq Cap × Command) (sys' : System Cap)
      → step q sys ≡ some (reply, sys')
      → run (q ∷ qs) sys ≡ run qs sys'
  unfolding run
  run-step q qs sys reply sys' e = rw (e, run) refl

  -- Both mutexes are free, the token is whole, and the heads and the pointer are in their rings.
  pub record Steady (sys : System Cap) : Type 0 where
    pub idle : IsIdle cheri sys.capio
    pub free : sys.channel.locked ≡ false
    pub range : InRange sys.channel

  -- A reply, with the state that it leaves.
  pub record Served (sys : System Cap) (r : Option ((ℕ × CapReq Cap × Command) × System Cap))
      : Type 0 where
    pub reply : ℕ × CapReq Cap × Command
    pub system : System Cap
    pub returns : r ≡ some (reply, system)
    pub steady : Steady system
    pub within : Within sys.channel system.channel

  same :
      (sys : System Cap) (reply : ℕ × CapReq Cap × Command)
      → Steady sys
      → Served sys (some (reply, sys))
  same sys reply s = record {
    reply = reply;
    system = sys;
    returns = refl;
    steady = s;
    within = Within-refl sys.channel;
  }

  driver-Served :
      (vm : Vm) (w : World) (n : ℕ) (req : CapReq Cap) (arg : Command) (sys : System Cap)
      → Behaves w arg
      → Steady sys
      → check_cap_token cheri sys.capio req.sealed_cap ≡ 0
      → Served sys (device_ioctl cheri is_dying get_buffer_size vm w (driver n) req arg sys)
  driver-Served vm w n req arg sys b s ok =
      let (r, c, ran, safe) = dispatch-Safe w arg sys.channel s.free s.range b in
      record {
        reply = (r.0, req, r.1);
        system = record sys { channel = c };
        returns =
            device_ioctl_passed cheri is_dying get_buffer_size vm w n req arg sys r.0 r.1 c ok ran;
        steady = record { idle = s.idle; free = safe.free; range = safe.range };
        within = safe.within;
      }

  refused-Served :
      (vm : Vm) (w : World) (cmd : Cmd) (req : CapReq Cap) (arg : Command) (sys : System Cap)
      → Steady sys
      → (check_cap_token cheri sys.capio req.sealed_cap == 0) ≡ false
      → is_attach cmd ≡ false
      → Served sys (device_ioctl cheri is_dying get_buffer_size vm w cmd req arg sys)
  refused-Served vm w cmd req arg sys s no_token other =
      rw
        (device_ioctl_refused cheri is_dying get_buffer_size vm w cmd req arg sys
          (ground (arith, no_token)) other)
        (same sys (eperm, req, arg) s)

  device_ioctl-Served :
      (vm : Vm) (w : World) (cmd : Cmd) (req : CapReq Cap) (arg : Command) (sys : System Cap)
      → Behaves w arg
      → Steady sys
      → Served sys (device_ioctl cheri is_dying get_buffer_size vm w cmd req arg sys)
  unfolding is_attach
  device_ioctl-Served vm w attach req arg sys b s =
      let a = attached cheri (is_some sys.capio.sealed_cap) req req.user_cap sys.capio in
      record {
        reply = (a.0.0, a.0.1, arg);
        system = record sys { capio = a.1 };
        returns = device_ioctl_attach cheri is_dying get_buffer_size vm w req arg sys s.idle.free;
        steady = record {
          idle =
              attached-IsIdle cheri (below is_dying get_buffer_size w) vm req req.user_cap sys.capio
                s.idle.linked;
          free = s.free;
          range = s.range;
        };
        within = Within-refl sys.channel;
      }
  device_ioctl-Served vm w goodbye req arg sys b s =
      elim (Bool-cases (check_cap_token cheri sys.capio req.sealed_cap == 0)) [
        | inl ok ↦ record {
          reply = (last_error vm 0 sys.capio.regions, req, arg);
          system = record sys { capio = revoked vm sys.capio };
          returns =
              device_ioctl_goodbye cheri is_dying get_buffer_size vm w req arg sys s.idle.free
                (ground (arith, ok));
          steady = record {
            idle = record { free = refl; linked = refl };
            free = s.free;
            range = s.range;
          };
          within = Within-refl sys.channel;
        }
        | inr bad ↦ refused-Served vm w goodbye req arg sys s bad refl
      ]
  device_ioctl-Served vm w (driver n) req arg sys b s =
      elim (Bool-cases (check_cap_token cheri sys.capio req.sealed_cap == 0)) [
        | inl ok ↦ driver-Served vm w n req arg sys b s (ground (arith, ok))
        | inr bad ↦ refused-Served vm w (driver n) req arg sys s bad refl
      ]

  -- During every one of the requests the card writes only where it may.
  abbrev pub AllBehave : List (Request Cap) → Type 0
  AllBehave [] = Unit {0}
  AllBehave (q ∷ qs) = Behaves q.world q.arg × AllBehave qs

  -- Where both mutexes are free, the two halves of the token belong together, and the heads and the
  -- read pointer are in their rings, any sequence of ioctls on the device node, from any processes
  -- and with any tokens and data, runs without a fault of a mutex and leaves all of this true, and
  -- every word behind a ring and every byte behind a packet buffer as it was. During each of them
  -- the card has to write inside the event ring and the receive buffer, and a copyin that fails has
  -- to have moved no more than it was asked for.
  pub run-Steady :
      (qs : List (Request Cap)) (sys : System Cap)
      → AllBehave qs
      → Steady sys
      → (sys' : System Cap) × (run qs sys ≡ some sys')
        × Steady sys'
        × Within sys.channel sys'.channel
  unfolding run
  run-Steady [] sys b s = (sys, refl, s, Within-refl sys.channel)
  run-Steady (q ∷ qs) sys b s =
      let v = device_ioctl-Served q.vm q.world q.cmd q.req q.arg sys b.0 s in
      let (sys', ran, s', within) = run-Steady qs v.system b.1 v.steady in
      (
        sys',
        run-step q qs sys v.reply v.system v.returns ∙ ran,
        s',
        Within-trans sys.channel v.system.channel sys'.channel v.within within,
      )

  -- Nobody presents the token.
  abbrev pub NoToken : Softc Cap → List (Request Cap) → Type 0
  NoToken s [] = Unit {0}
  NoToken s (q ∷ qs) = (check_cap_token cheri s q.req.sealed_cap ≢ 0) × NoToken s qs

  -- On a device that is owned an attach changes nothing.
  attach_owned :
      (held : Bool) (req : CapReq Cap) (user : Option Cap) (s : Softc Cap)
      → held ≡ true
      → s.locked ≡ false
      → (attached cheri held req user s).1 ≡ s
  attach_owned held req none s e free = unlocked_eta s free
  attach_owned true req (some c) s e free = unlocked_eta s free
  attach_owned false req (some c) s e free = absurd (cc (e))

  step_intruder :
      (vm : Vm) (w : World) (cmd : Cmd) (req : CapReq Cap) (arg : Command) (sys : System Cap)
      (t : Cap)
      → sys.capio.locked ≡ false
      → sys.capio.sealed_cap ≡ some t
      → check_cap_token cheri sys.capio req.sealed_cap ≢ 0
      → (reply : ℕ × CapReq Cap × Command) × (device_ioctl cheri is_dying get_buffer_size vm w cmd
            req arg sys
          ≡ some (reply, sys))
  unfolding is_attach
  step_intruder vm w attach req arg sys t free held bad =
      let a = attached cheri (is_some sys.capio.sealed_cap) req req.user_cap sys.capio in
      (
        (a.0.0, a.0.1, arg),
        device_ioctl_attach cheri is_dying get_buffer_size vm w req arg sys free
            ∙ ap (λ c. some ((a.0.0, a.0.1, arg), record sys { capio = c }))
                (attach_owned (is_some sys.capio.sealed_cap) req req.user_cap sys.capio
                  (ap is_some held) free),
      )
  step_intruder vm w goodbye req arg sys t free held bad = (
    (eperm, req, arg),
    device_ioctl_refused cheri is_dying get_buffer_size vm w goodbye req arg sys bad refl,
  )
  step_intruder vm w (driver n) req arg sys t free held bad = (
    (eperm, req, arg),
    device_ioctl_refused cheri is_dying get_buffer_size vm w (driver n) req arg sys bad refl,
  )

  -- While the device is owned and the framework's mutex is free, any sequence of ioctls whose
  -- requests do not present the token, attaches and goodbyes included, leaves the framework's and
  -- the driver's state exactly as it was: no packet is posted or taken, no pointer moves, and the
  -- owner stays the owner.
  pub run_intruders :
      (qs : List (Request Cap)) (sys : System Cap) (t : Cap)
      → sys.capio.locked ≡ false
      → sys.capio.sealed_cap ≡ some t
      → NoToken sys.capio qs
      → run qs sys ≡ some sys
  unfolding run
  run_intruders [] sys t free held bad = refl
  run_intruders (q ∷ qs) sys t free held bad =
      let (reply, ran) = step_intruder q.vm q.world q.cmd q.req q.arg sys t free held bad.0 in
      run-step q qs sys reply sys ran ∙ run_intruders qs sys t free held bad.1
