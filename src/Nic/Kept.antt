-- ===== src/Nic/Kept.antt =====
-- What each controller command leaves alone: the fields that say how far the bring-up has come.

use solarflare_capio_kernel.Nic.Queue.{port_id_assigned}
use solarflare_capio_kernel.Base.Bits.{shl}
use solarflare_capio_kernel.Nic.Bringup.{wait_link}
use solarflare_capio_kernel.Mcdi.Exchange.{exec_initialized}
use solarflare_capio_kernel.Mcdi.Exec.{Reply}
use solarflare_capio_kernel.Base.Buffer.{Buffer}
use solarflare_capio_kernel.Base.{
  Bool, ◌≡◌, ℕ, arith, some, Option, refl, ap, none, ◌∙◌, Bool-cases, inl, inr, ◌==◌, true, bit_or,
}
use Prim.Native.Nat.{ℕ, suc, zero, bit_or}
use solarflare_capio_kernel.Nic.Link.{get_phy_cfg, get_link, set_mac, mac_request, set_link}
use solarflare_capio_kernel.Nic.Port.{get_mac, alloc_vis, vadaptor_alloc, vadaptor_flags}
use solarflare_capio_kernel.Nic.Attach.{
  try_asserts, clear_assertions, entity_reset, dump_func_info, get_version, is_final, drv_attach,
  attach_request,
}
use solarflare_capio_kernel.Mcdi.Wire.{Device}
use solarflare_capio_kernel.Nic.State.{Softc, call, query, put_dword, zeros, request}

abbrev pub progress : {F : Type 0} → Softc F → Bool × Bool × Bool × Bool
progress s = (s.mcdi.initialized, s.drv_attached, s.vis_allocated, s.vadaptor_allocated)

abbrev pub Kept : {F : Type 0} → Softc F → Softc F → Type 0
Kept s s' = progress s' ≡ progress s

call-Kept :
    {F : Type 0} (d : Device F) (cmd : ℕ) (in_buf : Buffer) (in_len : ℕ) (out : Option Buffer)
    (out_len : ℕ) (used : Option ℕ) (s : Softc F)
    → Kept s (call d cmd in_buf in_len out out_len used s).1
unfolding call
call-Kept d cmd in_buf in_len out out_len used s =
    ap (λ b. (b, s.drv_attached, s.vis_allocated, s.vadaptor_allocated))
      (exec_initialized d cmd in_buf in_len out out_len used s.mcdi)

request-Kept :
    {F : Type 0} (d : Device F) (cmd : ℕ) (in_buf : Buffer) (in_len : ℕ) (s : Softc F)
    → Kept s (request d cmd in_buf in_len s).1
request-Kept d cmd in_buf in_len s = call-Kept d cmd in_buf in_len none 0 none s

query-Kept :
    {F : Type 0} (d : Device F) (cmd : ℕ) (in_buf : Buffer) (in_len out_len : ℕ) (s : Softc F)
    → Kept s (query d cmd in_buf in_len out_len s).1
query-Kept d cmd in_buf in_len out_len s =
    call-Kept d cmd in_buf in_len (some zeros) out_len (some 0) s

try_asserts-Kept :
    {F : Type 0} (d : Device F) (n : ℕ) (s : Softc F) (last : Reply × Softc F)
    → Kept s last.1
    → Kept s (try_asserts d n last).1
unfolding try_asserts
try_asserts-Kept d zero s last h = h
try_asserts-Kept d (suc n) s last h =
    let next = query d 0x06 (put_dword 0 1 zeros) 4 140 last.1 in
    let k = query-Kept d 0x06 (put_dword 0 1 zeros) 4 140 last.1 ∙ h in
    elim (Bool-cases (is_final next.0.rc)) [
      | inl e ↦ rw e k
      | inr e ↦ rw e (try_asserts-Kept d n s next k)
    ]

pub clear_assertions-Kept :
    {F : Type 0} (d : Device F) (s : Softc F) → Kept s (clear_assertions d s).1
unfolding clear_assertions
clear_assertions-Kept d s =
    ground
      (arith, try_asserts-Kept d 3 s (record { rc = 0; out = some zeros; used = some 0 }, s) refl)

pub entity_reset-Kept : {F : Type 0} (d : Device F) (s : Softc F) → Kept s (entity_reset d s).1
unfolding entity_reset
entity_reset-Kept d s = ground (arith, request-Kept d 0x20 (put_dword 0 1 zeros) 4 s)

pub dump_func_info-Kept : {F : Type 0} (d : Device F) (s : Softc F) → Kept s (dump_func_info d s).1
unfolding dump_func_info
dump_func_info-Kept d s =
    let s1 = (query d 0xb8 zeros 0 4 s).1 in
    let s2 = (query d 0xec zeros 0 8 s1).1 in
    ground (
      arith,
      query-Kept d 0xb8 zeros 0 4 s,
      query-Kept d 0xec zeros 0 8 s1,
      query-Kept d 0xbe zeros 0 20 s2,
    )

pub get_version-Kept : {F : Type 0} (d : Device F) (s : Softc F) → Kept s (get_version d s).1
unfolding get_version
get_version-Kept d s = ground (arith, query-Kept d 0x08 zeros 0 32 s)

pub get_mac-Kept : {F : Type 0} (d : Device F) (s : Softc F) → Kept s (get_mac d s).1
unfolding get_mac
get_mac-Kept d s = ground (arith, query-Kept d 0x55 zeros 0 16 s)

pub get_phy_cfg-Kept : {F : Type 0} (d : Device F) (s : Softc F) → Kept s (get_phy_cfg d s).1
unfolding get_phy_cfg
get_phy_cfg-Kept d s = ground (arith, query-Kept d 0x24 zeros 0 72 s)

pub get_link-Kept : {F : Type 0} (d : Device F) (s : Softc F) → Kept s (get_link d s).1
unfolding get_link
get_link-Kept d s = ground (arith, query-Kept d 0x29 zeros 0 44 s)

pub set_mac-Kept : {F : Type 0} (d : Device F) (s : Softc F) → Kept s (set_mac d s).1
unfolding set_mac
set_mac-Kept d s = ground (arith, request-Kept d 0x2c (mac_request s.mac_addr) 28 s)

pub set_link-Kept : {F : Type 0} (d : Device F) (s : Softc F) → Kept s (set_link d s).1
unfolding set_link
set_link-Kept d s =
    let cap = bit_or s.phy_supported_cap_mask (shl 1 10) in
    ground (
      arith,
      request-Kept d 0x2a (put_dword 12 0 (put_dword 8 0 (put_dword 4 0 (put_dword 0 cap zeros))))
          16 (record s { phy_adv_cap_mask = cap }),
    )

pub wait_link-Kept :
    {F : Type 0} (d : Device F) (tries : ℕ) (s : Softc F) → Kept s (wait_link d tries s).1
unfolding wait_link
wait_link-Kept d zero s = refl
wait_link-Kept d (suc tries) s =
    let s' = (get_link d s).1 in
    let k = get_link-Kept d s in
    elim (Bool-cases ((get_link d s).0 == 0)) [
      | inr e ↦ rw e k
      | inl e ↦ rw e (elim (Bool-cases s'.link_up) [
        | inl u ↦ rw u k
        | inr u ↦ rw u (wait_link-Kept d tries s' ∙ k)
      ])
    ]

-- The commands that record a step of the bring-up: where one returns 0, the step is recorded and
-- the earlier ones are kept.
pub drv_attach_ok :
    {F : Type 0} (d : Device F) (s : Softc F)
    → (drv_attach d s).0 ≡ 0
    → progress (drv_attach d s).1
      ≡ (s.mcdi.initialized, true, s.vis_allocated, s.vadaptor_allocated)
unfolding drv_attach
drv_attach_ok d s h = ground (arith, h, query-Kept d 0x1c (attach_request 1) 12 8 s)

pub alloc_vis_ok :
    {F : Type 0} (d : Device F) (min_count max_count : ℕ) (s : Softc F)
    → (alloc_vis d min_count max_count s).0 ≡ 0
    → progress (alloc_vis d min_count max_count s).1
      ≡ (s.mcdi.initialized, s.drv_attached, true, s.vadaptor_allocated)
unfolding alloc_vis
alloc_vis_ok d min_count max_count s h =
    ground (arith, h, query-Kept d 0x8b (put_dword 4 max_count (put_dword 0 min_count zeros)) 8 8 s)

pub vadaptor_alloc_ok :
    {F : Type 0} (d : Device F) (s : Softc F)
    → (vadaptor_alloc d s).0 ≡ 0
    → progress (vadaptor_alloc d s).1 ≡ (s.mcdi.initialized, s.drv_attached, s.vis_allocated, true)
unfolding vadaptor_alloc
vadaptor_alloc_ok d s h = ground (
  arith,
  h,
  request-Kept d 0x98 (put_dword 8 (vadaptor_flags s) (put_dword 0 port_id_assigned zeros)) 30 s,
)
