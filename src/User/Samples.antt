-- ===== src/User/Samples.antt =====
-- A structure that holds nothing and an open session, for the examples.
use solarflare_capio_kernel.Base.{true, false, []}
use solarflare_capio_kernel.User.Session.{Session}

abbrev pub closed : Session
closed = record {
  fd = false;
  modmap_fd = false;
  cap_token = false;
  mac_addr = λ j. 0;
  tx_buffer = false;
  rx_buffer = false;
  tx_desc_ring = false;
  rx_desc_ring = false;
  evq_ring = false;
  mmio_slices = false;
  mmio_slices_len = 0;
  vi_info_valid = false;
  evq_read_ptr = 0;
  used_poll = false;
  rx_head = 0;
  tx_head = 0;
  base = λ i. false;
  fd_held = false;
  modmap_held = false;
  token_held = false;
  slices_held = false;
  map_held = λ i. false;
  trace = [];
}

-- A session with everything open and mapped that has polled.
abbrev pub opened : Session
opened = record closed {
  fd = true;
  modmap_fd = true;
  cap_token = true;
  mmio_slices = true;
  mmio_slices_len = 5;
  vi_info_valid = true;
  used_poll = true;
  evq_read_ptr = 3;
  rx_head = 4;
  tx_head = 5;
  base = λ i. true;
  fd_held = true;
  modmap_held = true;
  token_held = true;
  slices_held = true;
  map_held = λ i. true;
}
