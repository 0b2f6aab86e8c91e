-- ===== src/Mcdi/Exchange.antt =====
-- `sfc7120_mcdi_exec`: what a call refuses, how long it waits, when it succeeds and with what, and
-- the state that it leaves for the next call.

use solarflare_capio_kernel.Mcdi.Mailbox.{read_dword}
use solarflare_capio_kernel.Base.Errno.{einval, enxio}
use solarflare_capio_kernel.Base.Bits.{bit_and_mask}
use solarflare_capio_kernel.Mcdi.Poll.{
  xlate_err, poll_ends, from_some_lem, longest_wait_us, poll, poll_response, poll_fuel, poll_min_us,
  poll-is_some,
}
use solarflare_capio_kernel.Base.{
  ℕ, ◌≡◌, Option, ◌≤◌, ◌+◌, false, true, ◌%◌, ◌⊎◌, refl, if◌then◌else◌, ◌↔◌, ◌<◌, arith, leb,
  Bool-cases, inl, inr,
}
use solarflare_capio_kernel.Base.Buffer.{Buffer}
use Prim.Native.Nat.{ℕ}
use solarflare_capio_kernel.Mcdi.Wire.{Device, Transport, send_locked, ring_doorbell}
use solarflare_capio_kernel.Mcdi.Exec.{
  wait, exec, read_response, response_seq, response_error, response_len, exchange,
}

-- The wait of an exchange is a run of the polling loop that has ended.
wait-Polled :
    {F : Type 0} (d : Device F) (m : Buffer) (dev : F) → wait d m dev ≡ (poll_ends d m dev).result
unfolding wait
wait-Polled d m dev =
    from_some_lem (poll d poll_fuel poll_min_us 0 m dev) (poll-is_some d m dev)
      (poll_ends d m dev).result (poll_ends d m dev).ends

-- Whatever the device does, the polling loop ends after at most 10063830 microseconds of delays:
-- with an answer, and then the response bit is set in the mailbox, or without one, and then after
-- just as many.
pub wait_bounded :
    {F : Type 0} (d : Device F) (m : Buffer) (dev : F)
    → let p = wait d m dev in
      (p.total_us ≤ longest_wait_us)
      × (((p.answered ≡ true) × (poll_response p.buf ≡ true))
          ⊎ ((p.answered ≡ false) × (p.total_us ≡ longest_wait_us)))
wait_bounded d m dev =
    let e = poll_ends d m dev in
    rw (wait-Polled d m dev) (
      e.bounded,
      elim (Bool-cases e.result.answered) [
        | inl a ↦ inl (a, e.response a)
        | inr a ↦ inr (a, e.late a)
      ],
    )

-- A call before `sfc7120_mcdi_init`, or with a request or a response buffer of more than 252
-- bytes, changes nothing: not the mailbox, not the device, not the caller's buffers.
pub exec_refused :
    {F : Type 0} (d : Device F) (cmd : ℕ) (in_buf : Buffer) (in_len : ℕ) (out : Option Buffer)
    (out_len : ℕ) (used : Option ℕ) (t : Transport F)
    → (t.initialized ≡ false) ⊎ ((0xfc < in_len) ⊎ (0xfc < out_len))
    → exec d cmd in_buf in_len out out_len used t
      ≡ (record { rc = if t.initialized then einval else enxio; out = out; used = used }, t)
unfolding exec
exec_refused d cmd in_buf in_len out out_len used t h = ground (arith, h)

-- The transport between two calls: the sequence number is the next one modulo 16, the epoch is no
-- longer new, and the mailbox is where it was.
pub record Advanced {F : Type 0} (t t' : Transport F) : Type 0 where
  pub seq : t'.seq ≡ (t.seq + 1) % 16
  pub new_epoch : t'.new_epoch ≡ false
  pub initialized : t'.initialized ≡ t.initialized
  pub buf_paddr : t'.buf_paddr ≡ t.buf_paddr

exchange-Advanced :
    {F : Type 0} (d : Device F) (cmd : ℕ) (in_buf : Buffer) (in_len : ℕ) (out : Option Buffer)
    (out_len : ℕ) (used : Option ℕ) (t : Transport F)
    → Advanced t (exchange d cmd in_buf in_len out out_len used t).1
unfolding exchange send_locked ring_doorbell
exchange-Advanced d cmd in_buf in_len out out_len used t = record {
  seq = bit_and_mask 4 (t.seq + 1);
  new_epoch = refl;
  initialized = refl;
  buf_paddr = refl;
}

pub exec_lem :
    {F : Type 0} (d : Device F) (cmd : ℕ) (in_buf : Buffer) (in_len : ℕ) (out : Option Buffer)
    (out_len : ℕ) (used : Option ℕ) (t : Transport F)
    → t.initialized ≡ true
    → in_len ≤ 0xfc
    → out_len ≤ 0xfc
    → exec d cmd in_buf in_len out out_len used t ≡ exchange d cmd in_buf in_len out out_len used t
unfolding exec
exec_lem d cmd in_buf in_len out out_len used t ti li lo = ground arith

-- Every call that is not refused, whether it succeeds, fails or times out, leaves the next
-- sequence number and an old epoch.
pub exec_advances :
    {F : Type 0} (d : Device F) (cmd : ℕ) (in_buf : Buffer) (in_len : ℕ) (out : Option Buffer)
    (out_len : ℕ) (used : Option ℕ) (t : Transport F)
    → t.initialized ≡ true
    → in_len ≤ 0xfc
    → out_len ≤ 0xfc
    → Advanced t (exec d cmd in_buf in_len out out_len used t).1
exec_advances d cmd in_buf in_len out out_len used t ti li lo =
    rw (exec_lem d cmd in_buf in_len out out_len used t ti li lo)
      (exchange-Advanced d cmd in_buf in_len out out_len used t)

xlate_err-zero : (c : ℕ) → (xlate_err c ≡ 0) ↔ (c ≡ 0)
unfolding xlate_err
xlate_err-zero c = ground arith

-- An error response with the expected sequence number leaves the caller's buffers alone, and the
-- status is 0 exactly when the response is shorter than 4 bytes or its error code is 0.
pub read_response_error :
    (payload_off seq : ℕ) (m : Buffer) (out : Option Buffer) (out_len : ℕ) (used : Option ℕ)
    → response_seq m ≡ seq
    → response_error m ≡ true
    → let r = read_response payload_off seq m out out_len used in
      (r.out ≡ out)
      × (r.used ≡ used)
      × ((r.rc ≡ 0) ↔ ((response_len payload_off m < 4) ⊎ (read_dword m payload_off ≡ 0)))
unfolding read_response
read_response_error payload_off seq m out out_len used hs he = ground (
  arith,
  hs,
  he,
  xlate_err-zero (if leb 4 (response_len payload_off m) then read_dword m payload_off else 0),
)

-- No call changes whether the transport is initialised.
pub exec_initialized :
    {F : Type 0} (d : Device F) (cmd : ℕ) (in_buf : Buffer) (in_len : ℕ) (out : Option Buffer)
    (out_len : ℕ) (used : Option ℕ) (t : Transport F)
    → (exec d cmd in_buf in_len out out_len used t).1.initialized ≡ t.initialized
unfolding exec
exec_initialized d cmd in_buf in_len out out_len used t =
    ground (arith, (exchange-Advanced d cmd in_buf in_len out out_len used t).initialized)
