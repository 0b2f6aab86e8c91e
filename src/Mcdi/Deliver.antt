-- ===== src/Mcdi/Deliver.antt =====
-- What a successful `sfc7120_mcdi_exec` gives to its caller.

use solarflare_capio_kernel.Base.Bits.{bit_and_mask}
use mathlib.Core.Path.{subst}
use solarflare_capio_kernel.Mcdi.Send.{send_locked_offset}
use solarflare_capio_kernel.Base.Errno.{etimedout}
use solarflare_capio_kernel.Mcdi.Exchange.{exec_lem, wait_bounded}
use solarflare_capio_kernel.Mcdi.Poll.{poll_response, Polled, longest_wait_us}
use solarflare_capio_kernel.Mcdi.Wire.{Transport, Device, use_v2, send_locked}
use solarflare_capio_kernel.Mcdi.Exec.{
  store_used, fill_zero, copy_response, read_response, exchange, response_error, response_seq,
  response_len, exec, wait,
}
use solarflare_capio_kernel.Mcdi.Mailbox.{read_payload}
use solarflare_capio_kernel.Mcdi.Copy.{Received, read_payload-Received}
use solarflare_capio_kernel.Mcdi.Exec.{Reply}
use solarflare_capio_kernel.Base.Bytes.{IsBytes}
use solarflare_capio_kernel.Base.Buffer.{Buffer}
use solarflare_capio_kernel.Base.{
  ℕ, Option, if◌then◌else◌, ltb, ◌≡◌, some, Bool-cases, inl, min, ◌-◌, inr, ap, ◌<◌, arith, ◌+◌,
  refl, ◌≤◌, true, false, ◌%◌, ◌==◌, not, bit_and, sym, ◌∙◌, ◌⊎◌,
}
use Prim.Native.Nat.{ℕ, min, suc, zero, bit_and}

-- The caller's buffer `dst` of `out_len` bytes after a response of `n` bytes at `payload_off`.
pub record Delivered (payload_off : ℕ) (m : Buffer) (n : ℕ) (dst : Buffer) (out_len : ℕ)
    (used : Option ℕ) (r : Reply) : Type 0 where
  pub buffer : Buffer
  pub out : r.out ≡ some buffer
  pub used_bytes : r.used ≡ store_used (min n out_len) used
  pub response : (j : ℕ) → j < n → j < out_len → buffer j ≡ m (payload_off + j)
  pub zeros : (j : ℕ) → n ≤ j → j < out_len → buffer j ≡ 0
  pub rest : (j : ℕ) → out_len ≤ j → buffer j ≡ dst j

-- `read_payload` of a length that may be 0, as the code guards it.
abbrev received : Buffer → ℕ → Buffer → ℕ → Buffer
received m offset dst copy = if ltb 0 copy then read_payload m offset dst copy else dst

received-Received :
    (m : Buffer) (offset : ℕ) (dst : Buffer) (copy : ℕ)
    → IsBytes m
    → Received m offset dst copy (received m offset dst copy)
received-Received m offset dst copy h = elim (Bool-cases (ltb 0 copy)) [
  | inl e ↦ rw e (read_payload-Received m offset dst copy h)
  | inr e ↦ rw e record { bytes = λ j lt. absurd (ground (arith, e)); frame = λ x o. refl }
]

-- The copy and the zeros.
Delivered-some :
    (payload_off : ℕ) (m : Buffer) (n copy : ℕ) (dst : Buffer) (out_len : ℕ) (used : Option ℕ)
    → IsBytes m
    → copy ≡ (if ltb n out_len then n else out_len)
    → let b = received m payload_off dst copy in
      Delivered payload_off m n dst out_len used record {
        rc = 0;
        out = some (if ltb copy out_len then fill_zero b copy (out_len - copy) else b);
        used = store_used copy used;
      }
Delivered-some payload_off m n copy dst out_len used h ec =
    let r = received-Received m payload_off dst copy h in
    record {
      buffer =
          if ltb copy out_len
          then fill_zero (received m payload_off dst copy) copy (out_len - copy)
          else received m payload_off dst copy;
      out = refl;
      used_bytes = ap (λ v. store_used v used) (ground (arith, ec));
      response = λ j lt lo. ground (arith, ec, r.bytes j);
      zeros = λ j ge lo. ground (arith, ec);
      rest = λ j ge. ground (arith, ec, r.frame j);
    }

copy_response-Delivered :
    (payload_off : ℕ) (m : Buffer) (n : ℕ) (dst : Buffer) (out_len : ℕ) (used : Option ℕ)
    → IsBytes m
    → Delivered payload_off m n dst out_len used
        (copy_response payload_off m n (some dst) out_len used)
unfolding copy_response
copy_response-Delivered payload_off m n dst zero used h = record {
  buffer = dst;
  out = refl;
  used_bytes = ap (λ v. store_used v used) (ground arith);
  response = λ j lt lo. absurd (omega arith);
  zeros = λ j ge lo. absurd (omega arith);
  rest = λ j ge. refl;
}
copy_response-Delivered payload_off m n dst (suc k) used h =
    rw (positive k)
      (Delivered-some payload_off m n (if ltb n (suc k) then n else suc k) dst (suc k) used h refl)
  where
    positive : (k : ℕ) → ltb 0 (suc k) ≡ true
    positive k = ground arith

read_response_ok :
    (payload_off seq : ℕ) (m : Buffer) (out : Option Buffer) (out_len : ℕ) (used : Option ℕ)
    → (read_response payload_off seq m out out_len used).rc ≡ 0
    → response_error m ≡ false
    → (response_seq m ≡ seq)
      × (read_response payload_off seq m out out_len used
          ≡ copy_response payload_off m (response_len payload_off m) out out_len used)
unfolding read_response
read_response_ok payload_off seq m out out_len used h e =
    elim (Bool-cases (response_seq m == seq)) [
      | inl same ↦ (ground (arith, same), rw (same, e) refl)
      | inr other ↦ absurd (ground (arith, h, other))
    ]

-- What a successful exchange is: the response bit was set in the mailbox that it leaves, the
-- response carries the sequence number of the request, and its payload was delivered.
pub record Success {F : Type 0} (payload_off : ℕ) (t : Transport F) (dst : Buffer) (out_len : ℕ)
    (used : Option ℕ) (r : Reply × Transport F) : Type 0 where
  pub answered : poll_response r.1.buf ≡ true
  pub same_seq : response_seq r.1.buf ≡ t.seq % 16
  pub delivered :
      Delivered payload_off r.1.buf (response_len payload_off r.1.buf) dst out_len used r.0

after_wait :
    {F : Type 0} (payload_off seq : ℕ) (p : Polled F) (dst : Buffer) (out_len : ℕ) (used : Option ℕ)
    → ((p.answered ≡ true) × (poll_response p.buf ≡ true))
      ⊎ ((p.answered ≡ false) × (p.total_us ≡ longest_wait_us))
    → let r =
        if not p.answered
        then record { rc = etimedout; out = some dst; used = used }
        else read_response payload_off seq p.buf (some dst) out_len used in
      r.rc ≡ 0
      → response_error p.buf ≡ false
      → IsBytes p.buf
      → (poll_response p.buf ≡ true)
        × (response_seq p.buf ≡ seq)
        × Delivered payload_off p.buf (response_len payload_off p.buf) dst out_len used r
after_wait payload_off seq p dst out_len used resp rc0 ok bytes = elim (Bool-cases p.answered) [
  | inl a ↦
      let h =
        read_response_ok payload_off seq p.buf (some dst) out_len used (ground (arith, a, rc0))
          ok in
      (
        ground (arith, a, resp),
        h.0,
        rw (a, h.1)
            (copy_response-Delivered payload_off p.buf (response_len payload_off p.buf) dst out_len
              used bytes),
      )
  | inr a ↦ absurd (ground (arith, a, rc0))
]

exchange-Success :
    {F : Type 0} (d : Device F) (cmd : ℕ) (in_buf : Buffer) (in_len : ℕ) (dst : Buffer)
    (out_len : ℕ) (used : Option ℕ) (t : Transport F)
    → let r = exchange d cmd in_buf in_len (some dst) out_len used t in
      r.0.rc ≡ 0
      → response_error r.1.buf ≡ false
      → IsBytes r.1.buf
      → Success (send_locked d cmd in_buf in_len (bit_and t.seq 0xf) t).0 t dst out_len used r
unfolding exchange
exchange-Success d cmd in_buf in_len dst out_len used t rc0 ok bytes =
    let s = send_locked d cmd in_buf in_len (bit_and t.seq 0xf) t in
    let a =
      after_wait s.0 (bit_and t.seq 0xf) (wait d s.1.buf s.1.device) dst out_len used
        (wait_bounded d s.1.buf s.1.device).1 rc0 ok bytes in
    record { answered = a.0; same_seq = a.1 ∙ bit_and_mask 4 t.seq; delivered = a.2 }

-- A call with status 0 and no error bit in the response: the response bit was set within the
-- wait, the response answers this request's sequence number, and the caller's buffer holds the
-- response payload up to the shorter of the two lengths, zeros up to its own length, and nothing
-- new behind; the count of bytes is that shorter length. The payload starts at 8 for the commands
-- and lengths that take v2 framing and at 4 for the others.
pub exec-Success :
    {F : Type 0} (d : Device F) (cmd : ℕ) (in_buf : Buffer) (in_len : ℕ) (dst : Buffer)
    (out_len : ℕ) (used : Option ℕ) (t : Transport F)
    → t.initialized ≡ true
    → in_len ≤ 0xfc
    → out_len ≤ 0xfc
    → (exec d cmd in_buf in_len (some dst) out_len used t).0.rc ≡ 0
    → response_error (exec d cmd in_buf in_len (some dst) out_len used t).1.buf ≡ false
    → IsBytes (exec d cmd in_buf in_len (some dst) out_len used t).1.buf
    → Success
        (if use_v2 cmd in_len then 8 else 4)
        t
        dst
        out_len
        used
        (exec d cmd in_buf in_len (some dst) out_len used t)
exec-Success d cmd in_buf in_len dst out_len used t ti li lo rc0 ok bytes =
    let e = exec_lem d cmd in_buf in_len (some dst) out_len used t ti li lo in
    rw (e, sym (send_locked_offset d cmd in_buf in_len (bit_and t.seq 0xf) t))
      (exchange-Success d cmd in_buf in_len dst out_len used t (subst (λ r. r.0.rc ≡ 0) e rc0)
        (subst (λ r. response_error r.1.buf ≡ false) e ok) (subst (λ r. IsBytes r.1.buf) e bytes))
