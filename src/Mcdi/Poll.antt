-- ===== src/Mcdi/Poll.antt =====
-- The wait for a response in sfc7120_mcdi.c: `sfc7120_mcdi_poll_response`, the polling loop of
-- `sfc7120_mcdi_exec`, which always ends, and `sfc7120_mcdi_xlate_err`.

use mathlib.Core.Bool.{false≢true}
use solarflare_capio_kernel.Base.Errno.{
  eperm, enoent, eintr, eio, eagain, enomem, eacces, ebusy, einval, enosys, etimedout, eopnotsupp,
}
use solarflare_capio_kernel.Base.Bits.{shr}
use solarflare_capio_kernel.Base.Buffer.{Buffer}
use solarflare_capio_kernel.Mcdi.Wire.{Device}
use solarflare_capio_kernel.Base.{
  ℕ, Bool, if◌then◌else◌, Option, ◌≡◌, ◌*◌, not, ltb, none, some, bit_and, ◌≤◌, false, arith, ◌+◌,
  ◌==◌, true, leb, Bool-cases, inl, inr, refl, is_some,
}
use solarflare_capio_kernel.Mcdi.Mailbox.{read_dword}
use Prim.Native.Nat.{ℕ, bit_and, suc, zero}

unfoldable pub poll_response : Buffer → Bool
unfolding read_dword
poll_response m = not (bit_and (shr (read_dword m 0) 23) 1 == 0)

unfoldable pub xlate_err : ℕ → ℕ
xlate_err mc_err =
    if mc_err == 0
    then 0
    else if mc_err == 1
    then eperm
    else if mc_err == 2
    then enoent
    else if mc_err == 4
    then eintr
    else if mc_err == 5
    then eio
    else if mc_err == 11
    then eagain
    else if mc_err == 12
    then enomem
    else if mc_err == 13
    then eacces
    else if mc_err == 16
    then ebusy
    else if mc_err == 22
    then einval
    else if mc_err == 38
    then enosys
    else if mc_err == 62
    then etimedout
    else if mc_err == 95
    then eopnotsupp
    else eio

abbrev pub poll_min_us : ℕ
poll_min_us = 10

abbrev pub poll_max_us : ℕ
poll_max_us = 100 * 1000

abbrev pub timeout_us : ℕ
timeout_us = 10 * 1000 * 1000

-- How a wait ends: with a response or a timeout, after `total_us` of delays.
pub record Polled (F : Type 0) : Type 0 where
  pub answered : Bool
  pub total_us : ℕ
  pub buf : Buffer
  pub device : F

-- The delay after this one.
abbrev pub next_delay : ℕ → ℕ
next_delay delay_us = if ltb poll_max_us (delay_us * 2) then poll_max_us else delay_us * 2

-- The polling loop. A timeout syncs once more, for its report.
unfoldable pub poll : {F : Type 0} → Device F → ℕ → ℕ → ℕ → Buffer → F → Option (Polled F)
unfolding poll_response
poll d zero delay_us total_us m dev = none
poll d (suc fuel) delay_us total_us m dev =
    let (m', dev') = d.sync m dev in
    let (m'', dev'') = d.sync m' dev' in
    let rest = poll d fuel (next_delay delay_us) (total_us + delay_us) m' dev' in
    if poll_response m'
    then some record { answered = true; total_us = total_us; buf = m'; device = dev' }
    else if leb timeout_us total_us
    then some record { answered = false; total_us = total_us; buf = m''; device = dev'' }
    else rest

-- The delays of the loop when nothing answers, from these on.
unfoldable pub waited : ℕ → ℕ → ℕ → Option ℕ
waited zero delay_us total_us = none
waited (suc fuel) delay_us total_us =
    let rest = waited fuel (next_delay delay_us) (total_us + delay_us) in
    if leb timeout_us total_us then some total_us else rest

-- A wait that has this much fuel ends, and not after more than `w` microseconds of delays.
pub record Ends {F : Type 0} (w : ℕ) (o : Option (Polled F)) : Type 0 where
  pub result : Polled F
  pub ends : o ≡ some result
  pub bounded : result.total_us ≤ w
  pub late : result.answered ≡ false → result.total_us ≡ w
  pub response : result.answered ≡ true → poll_response result.buf ≡ true

waited-lower :
    (fuel delay_us total_us w : ℕ) → waited fuel delay_us total_us ≡ some w → total_us ≤ w
unfolding waited
waited-lower zero delay_us total_us w h = absurd (ground arith)
waited-lower (suc fuel) delay_us total_us w h =
    ground (arith, waited-lower fuel (next_delay delay_us) (total_us + delay_us) w)

pub poll-Ends :
    {F : Type 0} (d : Device F) (fuel delay_us total_us w : ℕ) (m : Buffer) (dev : F)
    → waited fuel delay_us total_us ≡ some w
    → Ends w (poll d fuel delay_us total_us m dev)
unfolding poll waited
poll-Ends d zero delay_us total_us w m dev h = absurd (ground arith)
poll-Ends d (suc fuel) delay_us total_us w m dev h =
    elim (Bool-cases (poll_response (d.sync m dev).0)) [
      | inl e ↦ rw e record {
        result = record {
          answered = true;
          total_us = total_us;
          buf = (d.sync m dev).0;
          device = (d.sync m dev).1;
        };
        ends = refl;
        bounded = waited-lower (suc fuel) delay_us total_us w h;
        late = λ f. absurd (ground (arith, f));
        response = λ f. e;
      }
      | inr e ↦ rw e (elim (Bool-cases (leb timeout_us total_us)) [
        | inl l ↦ rw l record {
          result = record {
            answered = false;
            total_us = total_us;
            buf = (d.sync (d.sync m dev).0 (d.sync m dev).1).0;
            device = (d.sync (d.sync m dev).0 (d.sync m dev).1).1;
          };
          ends = refl;
          bounded = waited-lower (suc fuel) delay_us total_us w h;
          late = λ f. ground (arith, h, l);
          response = λ f. absurd (ground (arith, f));
        }
        | inr l ↦ rw l (
            poll-Ends d fuel (next_delay delay_us) (total_us + delay_us) w (d.sync m dev).0
              (d.sync m dev).1 (ground (arith, h, l)))
      ])
    ]

-- 114 rounds are enough for the loop of `sfc7120_mcdi_exec`.
abbrev pub poll_fuel : ℕ
poll_fuel = 114

abbrev pub longest_wait_us : ℕ
longest_wait_us = 10063830

longest_wait : waited poll_fuel poll_min_us 0 ≡ some longest_wait_us
unfolding waited
longest_wait = refl

pub poll_ends :
    {F : Type 0} (d : Device F) (m : Buffer) (dev : F)
    → Ends longest_wait_us (poll d poll_fuel poll_min_us 0 m dev)
poll_ends d m dev = poll-Ends d poll_fuel poll_min_us 0 longest_wait_us m dev longest_wait

unfoldable pub from_some : {A : Type 0} (o : Option A) → is_some o ≡ true → A
from_some none h = absurd (false≢true h)
from_some (some a) h = a

pub from_some_lem :
    {A : Type 0} (o : Option A) (h : is_some o ≡ true) (a : A) → o ≡ some a → from_some o h ≡ a
unfolding from_some
from_some_lem none h a e = absurd (ground (arith, h))
from_some_lem (some b) h a e = ground (arith, e)

pub poll-is_some :
    {F : Type 0} (d : Device F) (m : Buffer) (dev : F)
    → is_some (poll d poll_fuel poll_min_us 0 m dev) ≡ true
poll-is_some d m dev = rw (poll_ends d m dev).ends refl
