-- ===== src/Mcdi/Tests.antt =====
-- Examples for the MCDI transport.

use solarflare_capio_kernel.Mcdi.Deliver.{Success, exec-Success}
use solarflare_capio_kernel.Mcdi.Poll.{longest_wait_us, poll_response}
use solarflare_capio_kernel.Mcdi.Responder.{idle_transport, responder, silent, respond-IsBytes}
use solarflare_capio_kernel.Mcdi.Mailbox.{read_dword}
use solarflare_capio_kernel.Base.{
  if◌then◌else◌, arith, ◌==◌, ◌≡◌, ◌+◌, ◌≤◌, none, ◌↔◌, true, some, refl, ◌<◌, ◌⊎◌, false,
}
use solarflare_capio_kernel.Mcdi.Exchange.{wait_bounded, read_response_error}
use solarflare_capio_kernel.Mcdi.Exec.{
  wait, exec, response_seq, response_error, exchange, read_response, response_len,
}
use solarflare_capio_kernel.Mcdi.Wire.{send_locked, use_v2}
use solarflare_capio_kernel.Mcdi.Send.{Framed, send_locked-Framed, send_locked_overrun}
use solarflare_capio_kernel.Base.Bytes.{IsBytes, load_bytes, store_bytes}
use solarflare_capio_kernel.Base.Buffer.{Buffer}

abbrev src : Buffer
src a = if a == 0 then 7 else 0

src-IsBytes : IsBytes src
src-IsBytes a = ground arith

send_locked-Framed_example :
    Framed 0x8a src 12 3 idle_transport (send_locked responder 0x8a src 12 3 idle_transport)
send_locked-Framed_example =
    send_locked-Framed responder 0x8a src 12 3 idle_transport src-IsBytes (omega arith)
      (omega arith) (omega arith)

send_locked_overrun_example :
    (send_locked responder 0x8a src 252 3 idle_transport).1.buf (256 + 2) ≡ src (248 + 2)
send_locked_overrun_example =
    send_locked_overrun responder 0x8a src 252 3 idle_transport src-IsBytes (omega arith)
      (omega arith) (omega arith) (omega arith) 2 (omega arith)

wait_bounded_example :
    ((wait silent src tt).total_us ≤ longest_wait_us)
    × ((((wait silent src tt).answered ≡ true) × (poll_response (wait silent src tt).buf ≡ true))
        ⊎ (((wait silent src tt).answered ≡ false)
            × ((wait silent src tt).total_us ≡ longest_wait_us)))
wait_bounded_example = wait_bounded silent src tt

-- An error response with no payload: bytes 0 and 0xc0 of the header.
abbrev error_image : Buffer
error_image a = if a == 2 then 192 else 0

read_response_error_example :
    ((read_response 4 0 error_image none 0 none).out ≡ none)
    × ((read_response 4 0 error_image none 0 none).used ≡ none)
    × (((read_response 4 0 error_image none 0 none).rc ≡ 0)
        ↔ ((response_len 4 error_image < 4) ⊎ (read_dword error_image 4 ≡ 0)))
unfolding response_seq response_error load_bytes
read_response_error_example = read_response_error 4 0 error_image none 0 none refl refl

exec-Success_example :
    Success 4 idle_transport
      (λ a. 9)
      8
      (some 0)
      (exec responder 0x08 src 0 (some (λ a. 9)) 8 (some 0) idle_transport)
unfolding exec exchange use_v2 response_error load_bytes store_bytes
exec-Success_example =
    exec-Success responder 0x08 src 0 (λ a. 9) 8 (some 0) idle_transport refl (omega arith)
      (omega arith) refl refl
      (respond-IsBytes (send_locked responder 0x08 src 0 3 idle_transport).1.buf)
