-- ===== src/User/Session.antt =====
-- `map_region`, `sfc7120_init` and `sfc7120_destroy` of userlib/sfc7120_user.c.
use Prim.Native.Nat.{suc, zero}
use solarflare_capio_kernel.Base.{
  ℕ, Bool, true, false, Option, none, some, not, ◌&&◌, ◌||◌, ◌==◌, ◌+◌, List, ◌∷◌, if◌then◌else◌,
}
use solarflare_capio_kernel.Base.Fault.{◌>>=◌}
use solarflare_capio_kernel.Base.Buffer.{Buffer}
use solarflare_capio_kernel.Data.Path.{copy_to}
use solarflare_capio_kernel.Driver.Channel.{EvqSync}

-- The system calls whose order matters to the kernel; an munmap is with whether it worked.
pub data SysCall : Type 0 where
  capio_attach goodbye get_vi_info get_mac : SysCall
  map : ℕ → SysCall
  munmap : ℕ → Bool → SysCall
  set_evq_rptr : EvqSync → SysCall

-- `sfc7120_if_t`: a descriptor by whether it is not negative, a pointer by whether it is not NULL;
-- `base` are those of `region_maps`. The `held` fields are what the process holds, and `trace` the
-- calls so far, the last one first.
pub record Session : Type 0 where
  pub fd : Bool
  pub modmap_fd : Bool
  pub cap_token : Bool
  pub mac_addr : Buffer
  pub tx_buffer : Bool
  pub rx_buffer : Bool
  pub tx_desc_ring : Bool
  pub rx_desc_ring : Bool
  pub evq_ring : Bool
  pub mmio_slices : Bool
  pub mmio_slices_len : ℕ
  pub vi_info_valid : Bool
  pub evq_read_ptr : ℕ
  pub used_poll : Bool
  pub rx_head : ℕ
  pub tx_head : ℕ
  pub base : ℕ → Bool
  pub fd_held : Bool
  pub modmap_held : Bool
  pub token_held : Bool
  pub slices_held : Bool
  pub map_held : ℕ → Bool
  pub trace : List SysCall

-- The answers for one region: MODMAPIOC_GET_SLICES and its sizes, calloc, and MODMAPIOC_MAP.
pub record RegionAnswer : Type 0 where
  pub sizes : Bool
  pub n_slices : ℕ
  pub region_len : ℕ
  pub calloc : Bool
  pub map : Bool

-- The answers during `sfc7120_init`; `unmap` are those to the munmaps of the way back.
pub record InitAnswer : Type 0 where
  pub open_device : Bool
  pub open_modmap : Bool
  pub malloc : Bool
  pub attach : Bool
  pub region : ℕ → RegionAnswer
  pub vi_info : Bool
  pub evq_read_ptr : ℕ
  pub rx_head : ℕ
  pub tx_head : ℕ
  pub mac : Bool
  pub mac_addr : Buffer
  pub unmap : ℕ → Bool

abbrev pub put : ℕ → Bool → (ℕ → Bool) → ℕ → Bool
put i v f j = if i == j then v else f j

-- The result is whether the pointer is not NULL. An array for the slices that is given back at once
-- when the mapping fails is not held in between.
unfoldable pub map_region : RegionAnswer → ℕ → Bool → Session → Bool × Session
map_region a kind sliced s =
    if not a.sizes || a.region_len == 0
    then (false, s)
    else if sliced && not a.calloc
    then (false, s)
    else if not sliced && not (a.n_slices == 0)
    then (false, s)
    else if not a.map
    then (false, s)
    else (
      true,
      record s {
        mmio_slices = sliced || s.mmio_slices;
        slices_held = sliced || s.slices_held;
        mmio_slices_len = if sliced then a.n_slices else s.mmio_slices_len;
        base = put kind true s.base;
        map_held = put kind true s.map_held;
        trace = map kind ∷ s.trace;
      },
    )

-- The loop over the regions, from `i` on, with `n` to go; `unmaps` tells whether the munmap of a
-- region works. A failure is printed, and the pointer is cleared all the same.
unfoldable pub unmap_regions : (ℕ → Bool) → ℕ → ℕ → Session → Session
unmap_regions unmaps zero i s = s
unmap_regions unmaps (suc n) i s = unmap_regions unmaps n (i + 1) (
    if s.base i
    then record s {
      base = put i false s.base;
      map_held = put i (s.map_held i && not (unmaps i)) s.map_held;
      trace = munmap i (unmaps i) ∷ s.trace;
    }
    else s)

unfoldable pub sync_heads : Session → Session
sync_heads s =
    let req : EvqSync = record {
      evq_read_ptr = s.evq_read_ptr;
      tx_head = s.tx_head;
      rx_head = s.rx_head;
    } in
    if s.fd && (s.vi_info_valid && s.used_poll)
    then record s { trace = set_evq_rptr req ∷ s.trace }
    else s

unfoldable pub say_goodbye : Session → Session
say_goodbye s = if s.fd then record s { trace = goodbye ∷ s.trace } else s

-- `free` and `close`; `none` is a fault, of a pointer or a descriptor that is not held.
unfoldable pub free_slices : Session → Option Session
free_slices s =
    if not s.mmio_slices
    then some s
    else if s.slices_held
    then some (record s { mmio_slices = false; mmio_slices_len = 0; slices_held = false })
    else none

unfoldable pub free_token : Session → Option Session
free_token s =
    if not s.cap_token
    then some s
    else if s.token_held
    then some (record s { cap_token = false; token_held = false })
    else none

unfoldable pub close_modmap : Session → Option Session
close_modmap s =
    if not s.modmap_fd
    then some s
    else if s.modmap_held
    then some (record s { modmap_held = false })
    else none

unfoldable pub close_device : Session → Option Session
close_device s =
    if not s.fd then some s else if s.fd_held then some (record s { fd_held = false }) else none

unfoldable pub destroy : (ℕ → Bool) → Session → Option Session
destroy unmaps s =
    let s1 = record (unmap_regions unmaps 6 0 s) {
      tx_buffer = false;
      rx_buffer = false;
      tx_desc_ring = false;
      rx_desc_ring = false;
      evq_ring = false;
    } in
    free_slices (say_goodbye (sync_heads s1)) >>= free_token >>= close_modmap >>= close_device

-- The fields that `sfc7120_init` sets first; it does not set `cap_token`.
unfoldable pub reset : Session → Session
reset s = record s {
  fd = false;
  modmap_fd = false;
  tx_buffer = false;
  rx_buffer = false;
  tx_desc_ring = false;
  rx_desc_ring = false;
  evq_ring = false;
  mmio_slices = false;
  mmio_slices_len = 0;
  vi_info_valid = false;
  evq_read_ptr = 0;
  used_poll = false;
  rx_head = 0;
  tx_head = 0;
  base = λ i. false;
}

-- The result 0 or -1, by whether it is 0.
abbrev pub Outcome : Type 0
Outcome = Option (Bool × Session)

-- `if (!ok) goto fail;`
unfoldable pub or_fail : InitAnswer → Bool × Session → (Session → Outcome) → Outcome
or_fail a r next = if r.0 then next r.1 else (destroy a.unmap r.1 >>= λ s. some (false, s))

unfoldable pub init_mac : InitAnswer → Session → Outcome
init_mac a s =
    or_fail a (a.mac, record s { trace = get_mac ∷ s.trace })
      λ s'. some (true, record s' { mac_addr = copy_to s'.mac_addr 0 a.mac_addr 6 })

unfoldable pub init_vi : InitAnswer → Session → Outcome
init_vi a s =
    or_fail a (a.vi_info, record s { trace = get_vi_info ∷ s.trace })
      λ s'. init_mac a (record s' {
        vi_info_valid = true;
        evq_read_ptr = a.evq_read_ptr;
        rx_head = a.rx_head;
        tx_head = a.tx_head;
      })

-- One region of the five that are not sliced, and the pointer that is set from it.
unfoldable pub init_region :
    InitAnswer → ℕ → (Bool → Session → Session) → (Session → Outcome) → Session → Outcome
init_region a kind set next s =
    let r = map_region (a.region kind) kind false s in or_fail a (r.0, set r.0 r.1) next

unfoldable pub init_regions : InitAnswer → Session → Outcome
init_regions a s =
    init_region a 0 (λ p s. record s { tx_buffer = p })
      (init_region a 1 (λ p s. record s { rx_buffer = p })
        (init_region a 3 (λ p s. record s { tx_desc_ring = p })
          (init_region a 4 (λ p s. record s { rx_desc_ring = p })
            (init_region a 5 (λ p s. record s { evq_ring = p })
              λ s'. or_fail a (map_region (a.region 2) 2 true s') (init_vi a)))))
      s

unfoldable pub init : InitAnswer → Session → Outcome
init a s =
    let s0 = reset s in
    if not a.open_device
    then some (false, s0)
    else or_fail a
        (
          a.open_modmap,
          record s0 {
            fd = true;
            fd_held = true;
            modmap_fd = a.open_modmap;
            modmap_held = a.open_modmap;
          },
        )
        λ s1.
          or_fail a (a.malloc, record s1 { cap_token = a.malloc; token_held = a.malloc })
            λ s2.
              or_fail a (a.attach, record s2 { trace = capio_attach ∷ s2.trace }) (init_regions a)
