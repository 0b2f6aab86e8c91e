-- ===== src/Nic/Samples.antt =====
-- A softc before the bring-up and the answers of a bus, for the examples.
use solarflare_capio_kernel.Base.{false}
use solarflare_capio_kernel.Mcdi.Responder.{idle_transport}
use solarflare_capio_kernel.Nic.Bringup.{Bus}
use solarflare_capio_kernel.Nic.State.{Softc}

abbrev pub start : Softc (Unit {0})
start = record {
  mcdi = record idle_transport { initialized = false };
  mcdi_prev_reboot_status = 0;
  fw_version_lo = 0;
  fw_version_hi = 0;
  mcdi_func_flags = 0;
  drv_attached = false;
  mcdi_cap_flags1 = 0;
  mcdi_caps_valid = false;
  evq_read_ptr = 5;
  evq_initialized = false;
  data_evq_initialized = false;
  rxq_initialized = false;
  txq_initialized = false;
  vadaptor_allocated = false;
  vis_allocated = false;
  vi_count = 0;
  vi_base = 0;
  mac_addr = λ a. 1;
  mac_configured = false;
  phy_supported_cap_mask = 0;
  phy_media_type = 0;
  phy_adv_cap_mask = 0;
  link_configured = false;
  link_up = false;
  full_duplex = false;
  link_speed_mbps = 0;
  link_fcntl = 0;
  rx_filter_handle = 0;
  rx_filter_inserted = false;
}

abbrev pub bus : Bus
bus = record { tag_error = 0; alloc_error = 0; load_error = 0; paddr = 512; pci_command = 6 }
