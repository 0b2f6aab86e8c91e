-- ===== src/Driver/Handoff.antt =====
-- A session of the direct path between SFC7120_GET_VI_INFO and SFC7120_SET_EVQ_RPTR, against the same
-- calls made as ioctls.
use mathlib.Core.Option
use solarflare_capio_kernel.Base.{
  ℕ, false, Option, none, some, ◌==◌, ◌||◌, leb, ◌+◌, ◌<◌, ◌≡◌, ◌∙◌, sym, ap, refl, arith, List, [],
  ◌∷◌, map, Bool-cases, inl, inr,
}
use mathlib.Core.Path.{subst}
use solarflare_capio_kernel.Base.Buffer.{Buffer}
use solarflare_capio_kernel.Base.Bits.{bit_and_mask}
use solarflare_capio_kernel.Data.Path.{DataPath, next_head, tx_post, rx_recv}
use solarflare_capio_kernel.Driver.Channel.{
  Channel, World, TxReq, RxReq, EvqSync, Command, tx, rx, set_evq_rptr,
}
use solarflare_capio_kernel.Driver.Ioctl.{
  check_tx, await_completion, advance_tx, copy_packet, post_packet, ack, await_packet, copy_frame,
  repost, sync_evq, dispatch,
}
use solarflare_capio_kernel.Driver.Complete.{queue_bells}
use solarflare_capio_kernel.Driver.Answer.{answer, answer_tx, answer_taken, dispatch-answer}
use solarflare_capio_kernel.Driver.Mapped.{Mapped, landed, reach, request}
use solarflare_capio_kernel.Driver.Direct.{tx_post-kernel, rx_recv-ioctl}

-- The calls of a session: a packet posted, or one taken into a buffer after an event with that many
-- bytes; the world is what an ioctl for it meets, and what the card has written before it.
pub data Call : Type 0 where
  post : World → Buffer → ℕ → Call
  take : World → Buffer → ℕ → Call

-- The mapped receive buffer with what the card has written. A refused receive changes nothing.
pub direct_call : Call → DataPath → DataPath
direct_call (post w buf len) sfc = (tx_post buf len sfc).1
direct_call (take w buf rx_bytes) sfc =
    let sfc' = record sfc { rx_buffer = Option.map w.packets sfc.rx_buffer } in
    elim (rx_recv buf rx_bytes sfc') [ none ↦ sfc' | some r ↦ r.1.1 ]

pub direct_run : List Call → DataPath → DataPath
direct_run [] sfc = sfc
direct_run (c ∷ cs) sfc = direct_run cs (direct_call c sfc)

abbrev pub world : Call → World
world (post w buf len) = w
world (take w buf rx_bytes) = w

abbrev pub command : Call → Command
command (post w buf len) = tx (request buf len)
command (take w buf rx_bytes) = rx (record { raw_buffer = buf; length_received = 0; status = 0 })

abbrev pub after : Channel → Option ((ℕ × Command) × Channel) → Channel
after s none = s
after s (some r) = r.1

-- The call made as an ioctl, which does not fault on a free mutex.
pub kernel_call : Call → Channel → Channel
kernel_call c s = after s (dispatch (world c) (command c) s)

pub kernel_run : List Call → Channel → Channel
kernel_run [] s = s
kernel_run (c ∷ cs) s = kernel_run cs (kernel_call c s)

-- The copies of the ioctls work, and the wait of a receive finds an event with that many bytes.
abbrev pub Answered : List Call → Channel → Type 0
Answered [] s = Unit {0}
Answered (post w buf len ∷ cs) s = (w.copy_error ≡ 0) × Answered cs (kernel_call (post w buf len) s)
Answered (take w buf rx_bytes ∷ cs) s =
    (w.copy_error ≡ 0)
    × ((await_packet w s).0 ≡ some rx_bytes)
    × Answered cs (kernel_call (take w buf rx_bytes) s)

-- The mutex is free and the heads are slots.
pub record Ready (s : Channel) : Type 0 where
  pub free : s.locked ≡ false
  pub tx : s.tx_head < 512
  pub rx : s.rx_head < 512

head_in : (head : ℕ) → next_head head < 512
head_in head = omega (arith, bit_and_mask 9 (head + 1))

kernel_call-answer :
    (c : Call) (s : Channel)
    → s.locked ≡ false
    → kernel_call c s ≡ (answer (world c) (command c) s).1
unfolding kernel_call
kernel_call-answer c s free = ap (after s) (dispatch-answer (world c) (command c) s free)

answer_tx-Ready : (w : World) (req : TxReq) (s : Channel) → Ready s → Ready (answer_tx w req s).1
unfolding answer_tx copy_packet post_packet await_completion ack advance_tx
answer_tx-Ready w req s r = elim (Bool-cases (check_tx req == 0)) [
  | inr bad ↦ rw bad r
  | inl ok ↦ elim (Bool-cases (w.copy_error == 0)) [
    | inr fault ↦ rw (ok, fault) (record { free = r.free; tx = r.tx; rx = r.rx })
    | inl moved ↦ rw (ok, moved) (record { free = r.free; tx = head_in s.tx_head; rx = r.rx })
  ]
]

answer_taken-Ready :
    (w : World) (req : RxReq) (found : Option ℕ) (s : Channel)
    → Ready s
    → Ready (answer_taken w req found s).1
unfolding answer_taken copy_frame repost
answer_taken-Ready w req none s r = r
answer_taken-Ready w req (some rx_bytes) s r = elim (Bool-cases (w.copy_error == 0)) [
  | inr fault ↦ rw fault (record { free = r.free; tx = r.tx; rx = r.rx })
  | inl moved ↦ rw moved (record { free = r.free; tx = r.tx; rx = head_in s.rx_head })
]

await_packet-Ready : (w : World) (s : Channel) → Ready s → Ready (await_packet w s).1
unfolding await_packet ack
await_packet-Ready w s r = record { free = r.free; tx = r.tx; rx = r.rx }

call-Ready : (c : Call) (s : Channel) → Ready s → Ready (answer (world c) (command c) s).1
unfolding answer
call-Ready (post w buf len) s r = answer_tx-Ready w (request buf len) s r
call-Ready (take w buf rx_bytes) s r =
    answer_taken-Ready w (record { raw_buffer = buf; length_received = 0; status = 0 })
      (await_packet w s).0 (await_packet w s).1 (await_packet-Ready w s r)

kernel_call-Ready : (c : Call) (s : Channel) → Ready s → Ready (kernel_call c s)
kernel_call-Ready c s r = subst Ready (sym (kernel_call-answer c s r.free)) (call-Ready c s r)

-- The mapping shares the receive buffer with what the card writes.
landed-Mapped :
    (w : World) (sfc : DataPath) (s : Channel)
    → Mapped sfc s
    → Mapped (record sfc { rx_buffer = Option.map w.packets sfc.rx_buffer }) (landed w s)
landed-Mapped w sfc s m = record {
  tx_buffer = m.tx_buffer;
  rx_buffer = ap (Option.map w.packets) m.rx_buffer;
  tx_ring = m.tx_ring;
  rx_ring = m.rx_ring;
  tx_paddr = m.tx_paddr;
  rx_paddr = m.rx_paddr;
  tx_head = m.tx_head;
  rx_head = m.rx_head;
  slices = m.slices;
  count = m.count;
  bells = m.bells;
}

post-Mapped :
    (w : World) (buf : Buffer) (len : ℕ) (sfc : DataPath) (s : Channel)
    → Ready s
    → Mapped sfc s
    → w.copy_error ≡ 0
    → Mapped (direct_call (post w buf len) sfc) (kernel_call (post w buf len) s)
unfolding direct_call answer
post-Mapped w buf len sfc s r m moved =
    subst (Mapped (tx_post buf len sfc).1) (sym (kernel_call-answer (post w buf len) s r.free))
      (tx_post-kernel w buf len sfc s moved m)

take-Mapped :
    (w : World) (buf : Buffer) (rx_bytes : ℕ) (sfc : DataPath) (s : Channel)
    → Ready s
    → Mapped sfc s
    → w.copy_error ≡ 0
    → (await_packet w s).0 ≡ some rx_bytes
    → Mapped (direct_call (take w buf rx_bytes) sfc) (kernel_call (take w buf rx_bytes) s)
unfolding direct_call kernel_call
take-Mapped w buf rx_bytes sfc s r m moved found =
    let (t, s', taken, answered, m') =
      rx_recv-ioctl w (record { raw_buffer = buf; length_received = 0; status = 0 }) rx_bytes
        (record sfc { rx_buffer = Option.map w.packets sfc.rx_buffer }) s r.free moved found
        (landed-Mapped w sfc s m) r.rx in
    subst (Mapped (direct_call (take w buf rx_bytes) sfc)) (sym (ap (after s) answered))
      (rw (taken, direct_call) m')

run-Mapped :
    (cs : List Call) (sfc : DataPath) (s : Channel)
    → Ready s
    → Mapped sfc s
    → Answered cs s
    → Mapped (direct_run cs sfc) (kernel_run cs s) × Ready (kernel_run cs s)
unfolding direct_run kernel_run
run-Mapped [] sfc s r m a = (m, r)
run-Mapped (post w buf len ∷ cs) sfc s r m a =
    let c = post w buf len in
    run-Mapped cs (direct_call c sfc) (kernel_call c s) (kernel_call-Ready c s r)
      (post-Mapped w buf len sfc s r m a.0) a.1
run-Mapped (take w buf rx_bytes ∷ cs) sfc s r m a =
    let c = take w buf rx_bytes in
    run-Mapped cs (direct_call c sfc) (kernel_call c s) (kernel_call-Ready c s r)
      (take-Mapped w buf rx_bytes sfc s r m a.0 a.1) a.2

-- What is mapped, in place of the kernel's own.
abbrev pub mapped_or : Buffer → Option Buffer → Buffer
mapped_or b none = b
mapped_or b (some b') = b'

-- The softc after a direct session: the memory that both share is what the session left in it, and
-- the rest is as it was before the session, of which the kernel learns nothing.
abbrev pub shared : Channel → DataPath → Channel
shared s sfc = record s {
  tx_buffer = mapped_or s.tx_buffer sfc.tx_buffer;
  rx_buffer = mapped_or s.rx_buffer sfc.rx_buffer;
  tx_desc_ring = mapped_or s.tx_desc_ring sfc.tx_desc_ring;
  rx_desc_ring = mapped_or s.rx_desc_ring sfc.rx_desc_ring;
}

-- Two softcs with the same buffers, descriptors and heads, and the mutex free in both.
pub record Agrees (s k : Channel) : Type 0 where
  pub tx_buffer : s.tx_buffer ≡ k.tx_buffer
  pub rx_buffer : s.rx_buffer ≡ k.rx_buffer
  pub tx_ring : s.tx_desc_ring ≡ k.tx_desc_ring
  pub rx_ring : s.rx_desc_ring ≡ k.rx_desc_ring
  pub tx_head : s.tx_head ≡ k.tx_head
  pub rx_head : s.rx_head ≡ k.rx_head
  pub free : (s.locked ≡ false) × (k.locked ≡ false)

abbrev pub final_sync : ℕ → DataPath → EvqSync
final_sync ptr sfc = record { evq_read_ptr = ptr; tx_head = sfc.tx_head; rx_head = sfc.rx_head }

-- After any sequence of packets posted and taken directly, on a mapping that agrees with the
-- kernel's state, with the driver's mutex free and the heads in their rings, the synchronisation
-- with the library's heads and a read pointer inside the ring is accepted by the kernel, which has
-- its own state from before the session and the shared memory as the session left it. It then has
-- that read pointer, and the buffers, the descriptors and the heads that it would have if the same
-- calls had been made as ioctls, with copies that work, and an event with the byte count of each
-- packet taken found by its wait; and the session has written to the registers what those ioctls
-- write, but for the event queue's read pointer.
pub handoff :
    (w : World) (cs : List Call) (sfc : DataPath) (s : Channel) (ptr : ℕ)
    → Ready s
    → Mapped sfc s
    → Answered cs s
    → ptr < 512
    → let sfc' = direct_run cs sfc in
      let k = kernel_run cs s in
      let req = final_sync ptr sfc' in
      (s' : Channel) × (dispatch w (set_evq_rptr req) (shared s sfc')
        ≡ some ((0, set_evq_rptr req), s'))
      × (s'.data_evq_read_ptr ≡ ptr)
      × Agrees s' k
      × (map reach sfc'.doorbells ≡ map some (queue_bells k.doorbells))
unfolding answer sync_evq
handoff w cs sfc s ptr r m a lt =
    let (m', r') = run-Mapped cs sfc s r m a in
    let sfc' = direct_run cs sfc in
    let ok : (leb 512 ptr || (leb 512 sfc'.tx_head || leb 512 sfc'.rx_head)) ≡ false =
      ground (arith, r'.tx, r'.rx, m'.tx_head, m'.rx_head, lt) in
    (
      sync_evq (final_sync ptr sfc') (shared s sfc'),
      dispatch-answer w (set_evq_rptr (final_sync ptr sfc')) (shared s sfc') r.free
          ∙ ap some (rw ok refl),
      refl,
      record {
        tx_buffer = ap (mapped_or s.tx_buffer) m'.tx_buffer;
        rx_buffer = ap (mapped_or s.rx_buffer) m'.rx_buffer;
        tx_ring = ap (mapped_or s.tx_desc_ring) m'.tx_ring;
        rx_ring = ap (mapped_or s.rx_desc_ring) m'.rx_ring;
        tx_head = m'.tx_head;
        rx_head = m'.rx_head;
        free = (r.free, r'.free);
      },
      m'.bells,
    )
