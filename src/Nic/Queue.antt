-- ===== src/Nic/Queue.antt =====
-- sfc7120_mcdi.c: the event, receive and transmit queues.

use solarflare_capio_kernel.Base.Errno.{ebusy, einval}
use solarflare_capio_kernel.Base.Bits.{u64, shl}
use solarflare_capio_kernel.Base.Bytes.{store_bytes}
use solarflare_capio_kernel.Mcdi.Wire.{Device}
use solarflare_capio_kernel.Base.Buffer.{Buffer}
use solarflare_capio_kernel.Nic.State.{call, Softc, put_dword, request, zeros, query}
use solarflare_capio_kernel.Base.{
  ℕ, Bool, ltb, ◌==◌, ◌||◌, if◌then◌else◌, bit_or, not, false, leb, bit_and, ◌+◌, ◌-◌, ◌*◌, ◌%◌,
  ◌/◌, true, Option, none, some,
}
use Prim.Native.Nat.{ℕ, bit_or, bit_and}

abbrev pub port_id_assigned : ℕ
port_id_assigned = 0x01000000

-- The test of a ring size: out of range, no power of two, or no whole number of pages.
abbrev pub bad_size : ℕ → ℕ → Bool
bad_size most n =
    ltb n 512 || (ltb most n || (not (bit_and n (n - 1) == 0) || not (n * 8 % 4096 == 0)))

abbrev put_qword : ℕ → ℕ → Buffer → Buffer
put_qword offset v m = store_bytes 8 m offset (u64 v)

-- The request of 44 bytes, and what follows it.
unfoldable pub request_evq : {F : Type 0} → Device F → ℕ → ℕ → ℕ → Softc F → ℕ × Softc F
unfolding call
request_evq d instance_no paddr nevs s =
    let interrupting = instance_no == 0 in
    let flags0 = bit_or (bit_or (shl 1 3) (shl 1 4)) (shl 1 5) in
    let flags = if interrupting then bit_or flags0 (shl 1 0) else flags0 in
    let buf = put_qword 36 paddr (
      put_dword 24 (if interrupting then instance_no else 0)
        (put_dword 16 flags (put_dword 4 instance_no (put_dword 0 nevs zeros)))) in
    let (r, s') = query d 0x80 buf (36 + 8 * (nevs * 8 / 4096)) 4 s in
    if not (r.rc == 0)
    then (r.rc, s')
    else (0, record s' { evq_read_ptr = 0; evq_initialized = true })

-- `none` is the KASSERT that the ring is one page; the request has room for one address.
unfoldable pub init_evq : {F : Type 0} → Device F → ℕ → ℕ → ℕ → Softc F → Option (ℕ × Softc F)
unfolding request_evq
init_evq d instance_no paddr nevs s =
    if bad_size 32768 nevs
    then some (einval, s)
    else if leb s.vi_count instance_no
    then some (einval, s)
    else if not (nevs * 8 / 4096 == 1)
    then none
    else some (request_evq d instance_no paddr nevs s)

-- The guards that `sfc7120_mcdi_init_rxq` and `sfc7120_mcdi_init_txq` share.
unfoldable pub bad_queue : {F : Type 0} → ℕ → ℕ → ℕ → Softc F → Bool
bad_queue instance_no target_evq ndescs s =
    bad_size 4096 ndescs
    || (not s.vadaptor_allocated || (leb s.vi_count instance_no || leb s.vi_count target_evq))

abbrev queue_request : ℕ → ℕ → ℕ → ℕ → ℕ → Buffer
queue_request flags instance_no target_evq ring_paddr ndescs = put_qword 28 ring_paddr (
    put_dword 24 port_id_assigned (
      put_dword 16 flags
        (put_dword 12 instance_no (put_dword 4 target_evq (put_dword 0 ndescs zeros)))))

unfoldable pub init_rxq : {F : Type 0} → Device F → ℕ → ℕ → ℕ → ℕ → Softc F → ℕ × Softc F
unfolding call
init_rxq d instance_no target_evq ring_paddr ndescs s =
    let flags = bit_or (shl 1 8) (shl 1 9) in
    let (r, s') =
      request d 0x81 (queue_request flags instance_no target_evq ring_paddr ndescs)
        (28 + 8 * (ndescs * 8 / 4096)) s in
    if bad_queue instance_no target_evq ndescs s
    then (einval, s)
    else if not (r.rc == 0)
    then (r.rc, s')
    else (0, record s' { rxq_initialized = true })

unfoldable pub init_txq : {F : Type 0} → Device F → ℕ → ℕ → ℕ → ℕ → Softc F → ℕ × Softc F
unfolding call
init_txq d instance_no target_evq ring_paddr ndescs s =
    let flags = bit_or (shl 1 1) (shl 1 2) in
    let (r, s') =
      request d 0x82 (queue_request flags instance_no target_evq ring_paddr ndescs)
        (28 + 8 * (ndescs * 8 / 4096)) s in
    if bad_queue instance_no target_evq ndescs s
    then (einval, s)
    else if not (r.rc == 0)
    then (r.rc, s')
    else (0, record s' { txq_initialized = true })

-- `*donep` of `sfc7120_mcdi_fini_evq`.
unfoldable pub evq_flag : {F : Type 0} → ℕ → Softc F → Bool
evq_flag instance_no s = if instance_no == 0 then s.evq_initialized else s.data_evq_initialized

unfoldable pub clear_evq_flag : {F : Type 0} → ℕ → Softc F → Softc F
clear_evq_flag instance_no s =
    if instance_no == 0
    then record s { evq_initialized = false }
    else record s { data_evq_initialized = false }

unfoldable pub fini_evq : {F : Type 0} → Device F → ℕ → Softc F → ℕ × Softc F
unfolding call evq_flag clear_evq_flag
fini_evq d instance_no s =
    let (r, s') = request d 0x83 (put_dword 0 instance_no zeros) 4 s in
    if not (evq_flag instance_no s)
    then (0, s)
    else if r.rc == ebusy
    then (r.rc, s')
    else (r.rc, clear_evq_flag instance_no s')

unfoldable pub fini_rxq : {F : Type 0} → Device F → ℕ → Softc F → ℕ × Softc F
unfolding call
fini_rxq d instance_no s =
    let (r, s') = request d 0x84 (put_dword 0 instance_no zeros) 4 s in
    if not s.rxq_initialized then (0, s) else (r.rc, record s' { rxq_initialized = false })

unfoldable pub fini_txq : {F : Type 0} → Device F → ℕ → Softc F → ℕ × Softc F
unfolding call
fini_txq d instance_no s =
    let (r, s') = request d 0x85 (put_dword 0 instance_no zeros) 4 s in
    if not s.txq_initialized then (0, s) else (r.rc, record s' { txq_initialized = false })
