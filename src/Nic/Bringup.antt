-- ===== src/Nic/Bringup.antt =====
-- `sfc7120_mcdi_init` and `sfc7120_mcdi_fini` of sfc7120_mcdi.c, `sfc7120_hw_init` and
-- `sfc7120_hw_teardown` of sfc7120.c. The DMA tag and map are not modelled, only the address.

use solarflare_capio_kernel.Nic.Port.{get_mac, vadaptor_free, alloc_vis, free_vis, vadaptor_alloc}
use solarflare_capio_kernel.Base.Errno.{enomem, enxio}
use solarflare_capio_kernel.Nic.Queue.{fini_txq, fini_rxq, fini_evq}
use solarflare_capio_kernel.Nic.Filter.{filter_remove}
use solarflare_capio_kernel.Nic.Link.{get_link, set_mac, get_phy_cfg, set_link}
use solarflare_capio_kernel.Nic.Attach.{
  drv_detach, get_version, drv_attach, clear_assertions, entity_reset, dump_func_info,
}
use solarflare_capio_kernel.Nic.State.{Softc, zeros}
use solarflare_capio_kernel.Mcdi.Wire.{Transport, Device, mc_db_hwrd}
use solarflare_capio_kernel.Base.{ℕ, if◌then◌else◌, not, ◌==◌, false, ◌||◌, bit_and, true}
use Prim.Native.Nat.{ℕ, suc, bit_and, zero}

-- What the bus answers during a bring-up: the statuses of bus_dma_tag_create, bus_dmamem_alloc and
-- bus_dmamap_load, the address that the last one gives to the callback, and PCIR_COMMAND.
pub record Bus : Type 0 where
  pub tag_error : ℕ
  pub alloc_error : ℕ
  pub load_error : ℕ
  pub paddr : ℕ
  pub pci_command : ℕ

unfoldable pub alloc_buf : {F : Type 0} → Bus → Transport F → ℕ × Transport F
alloc_buf bus t =
    if not (bus.tag_error == 0)
    then (bus.tag_error, t)
    else if not (bus.alloc_error == 0)
    then (bus.alloc_error, t)
    else if not (bus.load_error == 0) || bus.paddr == 0
    then (
      if not (bus.load_error == 0) then bus.load_error else enomem,
      record t { buf_paddr = bus.paddr },
    )
    else (0, record t { buf = zeros; buf_paddr = bus.paddr })

unfoldable pub free_buf : {F : Type 0} → Transport F → Transport F
free_buf t = record t { buf_paddr = 0 }

unfoldable pub mcdi_init : {F : Type 0} → Device F → Bus → Softc F → ℕ × Softc F
unfolding alloc_buf free_buf
mcdi_init d bus s =
    let (error, t) = alloc_buf bus s.mcdi in
    let failed = record s { mcdi = free_buf t } in
    if not (error == 0)
    then (error, record s { mcdi = t })
    else if not (bit_and bus.pci_command 6 == 6)
    then (enxio, failed)
    else if not (d.read_reg 0 t.device == 0xeb14face)
    then (enxio, failed)
    else (
      0,
      record s {
        mcdi = record t {
          seq = 0;
          new_epoch = true;
          initialized = true;
          device = d.write_reg mc_db_hwrd 1 t.buf t.device;
        };
        mcdi_prev_reboot_status = d.read_reg 0x10 t.device;
      },
    )

unfoldable pub mcdi_fini : {F : Type 0} → Softc F → Softc F
unfolding free_buf
mcdi_fini s =
    let t = free_buf s.mcdi in
    if not s.mcdi.initialized then s else record s { mcdi = record t { initialized = false } }

-- `if (error != 0) goto fail;`
unfoldable pub or_fail :
    {F : Type 0} → ℕ × Softc F → (ℕ × Softc F → ℕ × Softc F) → (Softc F → ℕ × Softc F) → ℕ × Softc F
or_fail r fail next = let n = next r.1 in if not (r.0 == 0) then fail r else n

unfoldable pub fail_mcdi : {F : Type 0} → ℕ × Softc F → ℕ × Softc F
unfolding mcdi_fini
fail_mcdi r = (r.0, mcdi_fini r.1)

unfoldable pub fail_attach : {F : Type 0} → Device F → ℕ × Softc F → ℕ × Softc F
unfolding fail_mcdi drv_detach
fail_attach d r = fail_mcdi (r.0, (drv_detach d r.1).1)

-- The wait for the link: at most `tries` queries.
unfoldable pub wait_link : {F : Type 0} → Device F → ℕ → Softc F → ℕ × Softc F
unfolding get_link
wait_link d zero s = (0, s)
wait_link d (suc tries) s =
    let (error, s') = get_link d s in
    let rest = wait_link d tries s' in
    if not (error == 0) then (error, s') else if s'.link_up then (0, s') else rest

unfoldable pub hw_init : {F : Type 0} → Device F → Bus → Softc F → ℕ × Softc F
hw_init d bus s =
    or_fail (mcdi_init d bus s) (λ r. r)
      λ s1. or_fail (get_version d s1) fail_mcdi λ s2. or_fail (drv_attach d s2) fail_mcdi λ s3.
        or_fail (clear_assertions d s3) fail_mcdi λ s4.
          or_fail (entity_reset d s4) (fail_attach d) λ s5.
            or_fail (get_mac d s5) (fail_attach d) λ s6.
              or_fail (alloc_vis d 1 32 (dump_func_info d s6).1) (fail_attach d) λ s7.
                or_fail (vadaptor_alloc d s7) (fail_attach d) λ s8.
                  or_fail (get_phy_cfg d s8) (fail_attach d) λ s9.
                    or_fail (set_mac d s9) (fail_attach d) λ s10.
                      or_fail (set_link d s10) (fail_attach d)
                        λ s11. or_fail (wait_link d 30 s11) (fail_attach d) λ s12. (0, s12)

unfoldable pub hw_teardown : {F : Type 0} → Device F → Softc F → Softc F
hw_teardown d s =
    let s1 = (filter_remove d s).1 in
    let s2 = (fini_txq d 0 s1).1 in
    let s3 = (fini_rxq d 0 s2).1 in
    let s4 = (fini_evq d 1 s3).1 in
    let s5 = (fini_evq d 0 s4).1 in
    let s6 = (vadaptor_free d s5).1 in
    let s7 = (free_vis d s6).1 in let s8 = (drv_detach d s7).1 in mcdi_fini s8
