-- ===== src/Nic/Attach.antt =====
-- sfc7120_mcdi.c: assertions, reset, identity, version and the attachment of the driver.

use solarflare_capio_kernel.Base.Errno.{eintr, eacces, eio, eproto, etimedout}
use solarflare_capio_kernel.Base.Buffer.{Buffer}
use solarflare_capio_kernel.Mcdi.Exec.{Reply}
use solarflare_capio_kernel.Nic.State.{
  call, Softc, query, request, put_dword, zeros, used_bytes, get_dword,
}
use solarflare_capio_kernel.Base.{
  ℕ, Bool, not, some, false, ◌==◌, if◌then◌else◌, ◌+◌, leb, true, ltb, none, ◌&&◌, ◌||◌,
}
use solarflare_capio_kernel.Mcdi.Wire.{Device, mc_db_hwrd}
use Prim.Native.Nat.{ℕ, suc, zero}

abbrev get_asserts : {F : Type 0} → Device F → Softc F → Reply × Softc F
get_asserts d s = query d 0x06 (put_dword 0 1 zeros) 4 140 s

-- `rc != EINTR && rc != EIO`
abbrev pub is_final : ℕ → Bool
is_final rc = not (rc == eintr) && not (rc == eio)

-- The three tries of `sfc7120_mcdi_clear_assertions`.
unfoldable pub try_asserts : {F : Type 0} → Device F → ℕ → Reply × Softc F → Reply × Softc F
unfolding call
try_asserts d zero last = last
try_asserts d (suc retries) last =
    let next = get_asserts d last.1 in
    let rest = try_asserts d retries next in if is_final next.0.rc then next else rest

unfoldable pub clear_assertions : {F : Type 0} → Device F → Softc F → ℕ × Softc F
unfolding try_asserts
clear_assertions d s =
    let (r, s') = try_asserts d 3 (record { rc = 0; out = some zeros; used = some 0 }, s) in
    if r.rc == eacces then (0, s') else if not (r.rc == 0) then (r.rc, s') else (0, s')

unfoldable pub entity_reset : {F : Type 0} → Device F → Softc F → ℕ × Softc F
unfolding call
entity_reset d s =
    let (r, s') = request d 0x20 (put_dword 0 1 zeros) 4 s in
    if r.rc == eacces then (0, s') else if not (r.rc == 0) then (r.rc, s') else (0, s')

-- GET_PORT_ASSIGNMENT, GET_FUNCTION_INFO and GET_CAPABILITIES; only the last one is kept.
unfoldable pub dump_func_info : {F : Type 0} → Device F → Softc F → ℕ × Softc F
unfolding call
dump_func_info d s =
    let (_, s1) = query d 0xb8 zeros 0 4 s in
    let (_, s2) = query d 0xec zeros 0 8 s1 in
    let (r, s3) = query d 0xbe zeros 0 20 s2 in
    if not (r.rc == 0)
    then (0, s3)
    else if leb 20 (used_bytes r)
    then (0, record s3 { mcdi_cap_flags1 = get_dword r 0; mcdi_caps_valid = true })
    else (0, s3)

-- The wait for BIU_HW_REV_ID after a reboot: `n` reads, `alive` tells what each one sees.
unfoldable pub wait_alive : ℕ → (ℕ → Bool) → ℕ → Bool
wait_alive zero alive i = false
wait_alive (suc n) alive i = let rest = wait_alive n alive (i + 1) in if alive i then true else rest

-- `alive i` tells whether the read of BIU_HW_REV_ID after `i` milliseconds gives 0xeb14face.
unfoldable pub reboot_after_assertion : {F : Type 0} → Device F → (ℕ → Bool) → Softc F → ℕ × Softc F
unfolding call wait_alive
reboot_after_assertion d alive s =
    let (r, s') = request d 0x3d (put_dword 0 1 zeros) 4 s in
    let t = s'.mcdi in
    let t' = record t {
      new_epoch = true;
      seq = 0;
      device = d.write_reg mc_db_hwrd 1 t.buf t.device;
    } in
    if r.rc == 0 || r.rc == eacces
    then (0, s')
    else if not (r.rc == etimedout) && not (r.rc == eio)
    then (r.rc, s')
    else if not (wait_alive 5000 alive 0)
    then (eio, s')
    else (0, record s' { mcdi = t' })

unfoldable pub get_version : {F : Type 0} → Device F → Softc F → ℕ × Softc F
unfolding call
get_version d s =
    let (r, s') = query d 0x08 zeros 0 32 s in
    if not (r.rc == 0)
    then (r.rc, s')
    else if ltb (used_bytes r) (24 + 8)
    then (eproto, s')
    else (0, record s' { fw_version_lo = get_dword r 24; fw_version_hi = get_dword r 28 })

abbrev pub attach_request : ℕ → Buffer
attach_request new_state = put_dword 8 0xffffffff (put_dword 4 1 (put_dword 0 new_state zeros))

unfoldable pub drv_attach : {F : Type 0} → Device F → Softc F → ℕ × Softc F
unfolding call
drv_attach d s =
    let (r, s') = query d 0x1c (attach_request 1) 12 8 s in
    if not (r.rc == 0)
    then (r.rc, s')
    else if leb 8 (used_bytes r)
    then (0, record s' { mcdi_func_flags = get_dword r 4; drv_attached = true })
    else if ltb (used_bytes r) 4
    then (eproto, record s' { mcdi_func_flags = 0 })
    else (0, record s' { mcdi_func_flags = 0; drv_attached = true })

unfoldable pub drv_detach : {F : Type 0} → Device F → Softc F → ℕ × Softc F
unfolding call
drv_detach d s =
    let (r, s') = call d 0x1c (attach_request 0) 12 (some zeros) 8 none s in
    if not s.drv_attached
    then (0, s)
    else if r.rc == 0
    then (r.rc, record s' { drv_attached = false })
    else (r.rc, s')
