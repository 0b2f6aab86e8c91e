-- ===== src/Nic/Tests.antt =====
-- Examples for the controller commands and the bring-up, with a controller that answers.

use solarflare_capio_kernel.Nic.Kept.{progress}
use solarflare_capio_kernel.Nic.Link.{get_phy_cfg, set_mac, set_link}
use solarflare_capio_kernel.Nic.Handle.{insert-remove}
use solarflare_capio_kernel.Nic.Port.{get_mac, alloc_vis, vadaptor_alloc}
use solarflare_capio_kernel.Nic.Ready.{hw_init_up}
use solarflare_capio_kernel.Base.Bytes.{load_bytes, store_bytes}
use solarflare_capio_kernel.Nic.Attach.{
  get_version, drv_attach, clear_assertions, entity_reset, dump_func_info,
}
use solarflare_capio_kernel.Base.{
  true, false, none, ◌≡◌, ◌==◌, ◌&&◌, ◌+◌, ◌%◌, arith, refl, if◌then◌else◌,
}
use solarflare_capio_kernel.Mcdi.Wire.{Device}
use solarflare_capio_kernel.Nic.Leaks.{hw_init_leaks}
use solarflare_capio_kernel.Mcdi.Exec.{exec, exchange}
use solarflare_capio_kernel.Mcdi.Responder.{idle_transport, respond, responder}
use solarflare_capio_kernel.Nic.Filter.{filter_insert, remove_request, insert_request}
use solarflare_capio_kernel.Nic.Queue.{init_evq}
use solarflare_capio_kernel.Nic.Bringup.{hw_init, or_fail, mcdi_init, wait_link}
use solarflare_capio_kernel.Nic.Samples.{start, bus}
use solarflare_capio_kernel.Nic.State.{Softc, get_dword, query}

abbrev running : Softc (Unit {0})
running = record start {
  mcdi = idle_transport;
  vadaptor_allocated = true;
  vis_allocated = true;
  vi_count = 4;
}

hw_init_up_example : progress (hw_init responder bus start).1 ≡ (true, true, true, true)
unfolding dump_func_info hw_init or_fail mcdi_init get_version drv_attach clear_assertions
    entity_reset get_mac alloc_vis vadaptor_alloc get_phy_cfg set_mac set_link wait_link exec
    exchange load_bytes store_bytes
hw_init_up_example = hw_init_up responder bus start refl

-- The assertion stops a ring of two pages.
init_evq_test : init_evq responder 1 8192 1024 running ≡ none
unfolding init_evq
init_evq_test = refl

-- A controller that answers GET_ASSERTS with an error, and the rest as it should.
abbrev accusing : Device (Unit {0})
accusing = record responder {
  sync =
      λ m dev. ((λ a. if (m 0 % 128 == 6) && (a == 2) then m 2 % 16 + 192 else respond m a), dev);
}

hw_init_leaks_example :
    let r3 = drv_attach accusing (get_version accusing (mcdi_init accusing bus start).1).1 in
    ((hw_init accusing bus start).0 ≡ (clear_assertions accusing r3.1).0)
    × ((hw_init accusing bus start).1.mcdi.initialized ≡ false)
    × ((hw_init accusing bus start).1.drv_attached ≡ true)
unfolding mcdi_init get_version drv_attach clear_assertions exec exchange load_bytes store_bytes
hw_init_leaks_example = hw_init_leaks accusing bus start refl refl refl (omega arith)

insert-remove_example :
    ((filter_insert responder running).1.rx_filter_inserted ≡ true)
    × (load_bytes 4 (remove_request (filter_insert responder running).1.rx_filter_handle) 0 ≡ 1)
    × (load_bytes 4 (remove_request (filter_insert responder running).1.rx_filter_handle) 4
        ≡ get_dword (query responder 0x8a (insert_request running.mac_addr) 108 12 running).0 4)
    × (load_bytes 4 (remove_request (filter_insert responder running).1.rx_filter_handle) 8
        ≡ get_dword (query responder 0x8a (insert_request running.mac_addr) 108 12 running).0 8)
unfolding filter_insert exec exchange load_bytes store_bytes
insert-remove_example = insert-remove responder running refl refl (λ a. ground arith)
