-- ===== src/Mcdi/Responder.antt =====
-- A controller for the examples: it answers every request at the first poll, with its header, the
-- longest response length, and a payload of ones.

use solarflare_capio_kernel.Base.Bytes.{IsBytes}
use solarflare_capio_kernel.Base.{if◌then◌else◌, ◌+◌, ◌==◌, false, arith, ◌%◌, true}
use solarflare_capio_kernel.Mcdi.Wire.{Device, Transport}
use solarflare_capio_kernel.Base.Buffer.{Buffer}

abbrev pub respond : Buffer → Buffer
respond m a =
    if a == 2
    then m 2 % 16 + 128
    else if a == 1
    then 0xfc
    else if a == 6
    then 0xfc
    else if a == 0
    then m 0 % 256
    else if a == 4
    then (if m 0 % 128 == 127 then 138 else 1)
    else if a == 3
    then 0
    else if a == 5
    then 0
    else if a == 7
    then 0
    else 1

-- The state of this device is nothing; BIU_HW_REV_ID reads as it should.
abbrev pub responder : Device (Unit {0})
responder = record {
  write_reg = λ offset v m dev. dev;
  read_reg = λ offset dev. 0xeb14face;
  sync = λ m dev. (respond m, dev);
}

-- One that never answers.
abbrev pub silent : Device (Unit {0})
silent = record {
  write_reg = λ offset v m dev. dev;
  read_reg = λ offset dev. 0;
  sync = λ m dev. (m, dev);
}

abbrev pub idle_transport : Transport (Unit {0})
idle_transport = record {
  buf = λ a. 0;
  buf_paddr = 4294967296 + 256;
  seq = 3;
  new_epoch = false;
  initialized = true;
  device = tt;
}

pub respond-IsBytes : (m : Buffer) → IsBytes (respond m)
respond-IsBytes m a = ground arith
