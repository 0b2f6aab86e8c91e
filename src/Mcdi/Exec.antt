-- ===== src/Mcdi/Exec.antt =====
-- The synchronous exchange of sfc7120_mcdi.c, `sfc7120_mcdi_exec`. The mutex is not modelled: a
-- call is one step.

use solarflare_capio_kernel.Base.Errno.{eproto, enxio, einval, etimedout}
use solarflare_capio_kernel.Base.Bits.{shr}
use solarflare_capio_kernel.Mcdi.Wire.{Transport, send_locked, Device}
use solarflare_capio_kernel.Mcdi.Mailbox.{
  read_dword, read_payload, mcdi_v2_header_len, mcdi_header_len, mcdi_payload_len_max_v1,
}
use solarflare_capio_kernel.Base.Buffer.{Buffer}
use solarflare_capio_kernel.Mcdi.Poll.{
  poll, from_some, xlate_err, Polled, poll_fuel, poll_min_us, poll-is_some,
}
use solarflare_capio_kernel.Base.{
  ℕ, Option, if◌then◌else◌, Bool, false, bit_and, some, leb, ◌==◌, not, ◌+◌, ◌&&◌, ltb, none, ◌-◌,
  ◌||◌,
}
use Prim.Native.Nat.{ℕ, bit_and}

-- What a call leaves: the status, the output buffer (none for a NULL) and the count of bytes
-- stored through `out_used` (none for a NULL).
pub record Reply : Type 0 where
  pub rc : ℕ
  pub out : Option Buffer
  pub used : Option ℕ

-- How the polling loop ends.
unfoldable pub wait : {F : Type 0} → Device F → Buffer → F → Polled F
unfolding poll from_some
wait d m dev = from_some (poll d poll_fuel poll_min_us 0 m dev) (poll-is_some d m dev)

-- `*out_used = v` for an `out_used` that is not NULL.
abbrev pub store_used : ℕ → Option ℕ → Option ℕ
store_used v none = none
store_used v (some _) = some v

-- `memset(out + from, 0, len)`
abbrev pub fill_zero : Buffer → ℕ → ℕ → Buffer
fill_zero m from len j = if leb from j && ltb j (from + len) then 0 else m j

-- The length of a response, from the header that its framing puts it in.
unfoldable pub response_len : ℕ → Buffer → ℕ
unfolding read_dword
response_len payload_off m =
    if payload_off == mcdi_v2_header_len
    then bit_and (shr (read_dword m mcdi_header_len) 16) 0x3ff
    else bit_and (shr (read_dword m 0) 8) 0xff

unfoldable pub response_seq : Buffer → ℕ
unfolding read_dword
response_seq m = bit_and (shr (read_dword m 0) 16) 0xf

unfoldable pub response_error : Buffer → Bool
unfolding read_dword
response_error m = not (bit_and (shr (read_dword m 0) 22) 1 == 0)

-- The response to a caller that gave an output buffer.
unfoldable pub copy_response : ℕ → Buffer → ℕ → Option Buffer → ℕ → Option ℕ → Reply
unfolding read_payload
copy_response payload_off m resp_datalen none out_len used = record {
  rc = 0;
  out = none;
  used = store_used 0 used;
}
copy_response payload_off m resp_datalen (some out) out_len used =
    let copy = if ltb resp_datalen out_len then resp_datalen else out_len in
    let out' = if ltb 0 copy then read_payload m payload_off out copy else out in
    let out'' = if ltb copy out_len then fill_zero out' copy (out_len - copy) else out' in
    if ltb 0 out_len
    then record { rc = 0; out = some out''; used = store_used copy used }
    else record { rc = 0; out = some out; used = store_used 0 used }

-- The part of `sfc7120_mcdi_exec` between the poll and the label `out`.
unfoldable pub read_response : ℕ → ℕ → Buffer → Option Buffer → ℕ → Option ℕ → Reply
unfolding read_dword response_len response_seq response_error copy_response xlate_err
read_response payload_off seq m out out_len used =
    let mc_err = if leb 4 (response_len payload_off m) then read_dword m payload_off else 0 in
    if not (response_seq m == seq)
    then record { rc = eproto; out = out; used = used }
    else if response_error m
    then record { rc = xlate_err mc_err; out = out; used = used }
    else copy_response payload_off m (response_len payload_off m) out out_len used

-- The next sequence number and epoch, at the label `out` and after a timeout.
abbrev pub advance : {F : Type 0} → Transport F → Transport F
advance t = record t { new_epoch = false; seq = bit_and (t.seq + 1) 0xf }

-- The part of `sfc7120_mcdi_exec` under the mutex.
unfoldable pub exchange :
    {F : Type 0}
    → Device F
    → ℕ
    → Buffer
    → ℕ
    → Option Buffer
    → ℕ
    → Option ℕ
    → Transport F
    → Reply × Transport F
unfolding send_locked wait read_response
exchange d cmd in_buf in_len out out_len used t =
    let seq = bit_and t.seq 0xf in
    let (payload_off, sent) = send_locked d cmd in_buf in_len seq t in
    let p = wait d sent.buf sent.device in
    (
      if not p.answered
          then record { rc = etimedout; out = out; used = used }
          else read_response payload_off seq p.buf out out_len used,
      advance (record sent { buf = p.buf; device = p.device }),
    )

unfoldable pub exec :
    {F : Type 0}
    → Device F
    → ℕ
    → Buffer
    → ℕ
    → Option Buffer
    → ℕ
    → Option ℕ
    → Transport F
    → Reply × Transport F
exec d cmd in_buf in_len out out_len used t =
    if not t.initialized
    then (record { rc = enxio; out = out; used = used }, t)
    else if ltb mcdi_payload_len_max_v1 in_len || ltb mcdi_payload_len_max_v1 out_len
    then (record { rc = einval; out = out; used = used }, t)
    else exchange d cmd in_buf in_len out out_len used t
