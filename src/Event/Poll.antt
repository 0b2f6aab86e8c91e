-- ===== src/Event/Poll.antt =====
-- `sfc7120_poll` of userlib/sfc7120_user.c.

use mathlib.Core.Path.{subst, sym}
use solarflare_capio_kernel.Event.Drain.{Drained, drain-Drained}
use solarflare_capio_kernel.Base.Bits.{u16, bit_and_mask}
use solarflare_capio_kernel.Event.Ring.{event_code, next_ptr, is_empty, drain}
use solarflare_capio_kernel.Base.Buffer.{Buffer, update}
use solarflare_capio_kernel.Base.{
  ℕ, Option, if◌then◌else◌, List, Bool, [], some, ◌==◌, true, ltb, ◌||◌, length, not, bit_and, ◌∷◌,
  leb, none, map, ◌≡◌, Bool-cases, ap, ◌%◌, ◌+◌, ◌<◌, inl, refl, ◌≤◌, inr, ◌∙◌, sym, arith,
}
use Prim.Native.Nat.{ℕ, suc, bit_and, zero}

pub data EventType : Type 0 where
  rx : EventType
  tx : EventType
  other : EventType

-- `sfc7120_ev_t`
pub record Event : Type 0 where
  pub type : EventType
  pub rx_bytes : ℕ
  pub tx_desc_idx : ℕ
  pub raw : ℕ

unfoldable pub classify : ℕ → Event
classify ev =
    if event_code ev == 0
    then record { type = rx; rx_bytes = u16 (bit_and ev 0x3fff); tx_desc_idx = 0; raw = ev }
    else if event_code ev == 2
    then record { type = tx; rx_bytes = 0; tx_desc_idx = u16 (bit_and ev 0xffff); raw = ev }
    else record { type = other; rx_bytes = 0; tx_desc_idx = 0; raw = ev }

-- The fields of `sfc7120_if_t` that a poll uses; `none` is a ring that is not mapped. `doorbells`
-- are the writes through the RPTR slice, the last one first.
pub record Interface : Type 0 where
  pub evq_ring : Option Buffer
  pub has_slices : Bool
  pub mmio_slices_len : ℕ
  pub evq_read_ptr : ℕ
  pub used_poll : Bool
  pub doorbells : List ℕ

-- SFC7120_SLICE_DATA_EVQ_RPTR_DBL
abbrev pub slice_data_evq_rptr_dbl : ℕ
slice_data_evq_rptr_dbl = 1

-- The loop, with the room that is left in `evs`.
unfoldable pub poll_loop : ℕ → Buffer → ℕ → List Event × (Buffer × ℕ)
unfolding classify
poll_loop zero evq ptr = ([], (evq, ptr))
poll_loop (suc room) evq ptr =
    let rest = poll_loop room (update evq ptr 0) (next_ptr ptr) in
    if is_empty (evq ptr) then ([], (evq, ptr)) else (classify (evq ptr) ∷ rest.0, rest.1)

unfoldable pub run_poll : ℕ → Buffer → Interface → List Event × Interface
run_poll max_evs evq sfc =
    let (evs, (evq', ptr')) = poll_loop max_evs evq sfc.evq_read_ptr in
    (
      evs,
      record sfc {
        evq_ring = some evq';
        evq_read_ptr = ptr';
        used_poll = true;
        doorbells =
            if ltb 0 (length evs) then bit_and ptr' 0x7fff ∷ sfc.doorbells else sfc.doorbells;
      },
    )

-- The call with an interface and an array that are not NULL: `none` for the result -1, and otherwise the events that were written to `evs`, whose
-- number is the result. A `max_evs` that is not positive is 0.
unfoldable pub enter_poll : ℕ → Option Buffer → Interface → Option (List Event) × Interface
enter_poll max_evs none sfc = (none, sfc)
enter_poll max_evs (some evq) sfc =
    let (evs, sfc') = run_poll max_evs evq sfc in
    if max_evs == 0 || (not sfc.has_slices || leb sfc.mmio_slices_len slice_data_evq_rptr_dbl)
    then (none, sfc)
    else (some evs, sfc')

unfoldable pub poll_events : ℕ → Interface → Option (List Event) × Interface
unfolding enter_poll
poll_events max_evs sfc = enter_poll max_evs sfc.evq_ring sfc

poll_loop_lem :
    (room : ℕ) (evq : Buffer) (ptr : ℕ)
    → poll_loop room evq ptr ≡ (map classify (drain room evq ptr).0, (drain room evq ptr).1)
unfolding poll_loop drain
poll_loop_lem zero evq ptr = refl
poll_loop_lem (suc room) evq ptr = elim (Bool-cases (is_empty (evq ptr))) [
  | inl e ↦ rw e refl
  | inr e ↦ rw e (
      ap (λ (r : List Event × (Buffer × ℕ)). (classify (evq ptr) ∷ r.0, r.1))
        (poll_loop_lem room (update evq ptr 0) (next_ptr ptr)))
]

-- What a poll takes and reports.
pub record Polled (max_evs : ℕ) (evq : Buffer) (sfc : Interface) (r : List Event × Interface)
    : Type 0 where
  pub events : List ℕ
  pub ring_after : Buffer
  pub drained : Drained max_evs evq sfc.evq_read_ptr (events, (ring_after, r.1.evq_read_ptr))
  pub report : r.0 ≡ map classify events
  pub same_ring : r.1.evq_ring ≡ some ring_after
  pub owner : r.1.used_poll ≡ true
  pub ack :
      r.1.doorbells
      ≡ (if ltb 0 (length events) then r.1.evq_read_ptr ∷ sfc.doorbells else sfc.doorbells)

length-map : (es : List ℕ) → length (map classify es) ≡ length es
length-map [] = refl
length-map (e ∷ es) = ap suc (length-map es)

rptr_mask : (ptr k : ℕ) → ptr ≡ k % 512 → bit_and ptr 0x7fff ≡ ptr
rptr_mask ptr k h = bit_and_mask 15 ptr ∙ omega arith

run_poll-Polled :
    (max_evs : ℕ) (evq : Buffer) (sfc : Interface) (r : List ℕ × (Buffer × ℕ))
    → Drained max_evs evq sfc.evq_read_ptr r
    → poll_loop max_evs evq sfc.evq_read_ptr ≡ (map classify r.0, r.1)
    → Polled max_evs evq sfc (run_poll max_evs evq sfc)
unfolding run_poll
run_poll-Polled max_evs evq sfc r d e = rw e record {
  events = r.0;
  ring_after = r.1.0;
  drained = d;
  report = refl;
  same_ring = refl;
  owner = refl;
  ack = rw (length-map r.0, rptr_mask r.1.1 (sfc.evq_read_ptr + length r.0) d.pointer) refl;
}

enter_poll_lem :
    (max_evs : ℕ) (o : Option Buffer) (evq : Buffer) (sfc : Interface)
    → o ≡ some evq
    → 0 < max_evs
    → sfc.has_slices ≡ true
    → slice_data_evq_rptr_dbl < sfc.mmio_slices_len
    → enter_poll max_evs o sfc ≡ (some (run_poll max_evs evq sfc).0, (run_poll max_evs evq sfc).1)
unfolding enter_poll
enter_poll_lem max_evs o evq sfc here pos slices len =
    subst
      (λ o.
        enter_poll max_evs o sfc
        ≡ (some (run_poll max_evs evq sfc).0, (run_poll max_evs evq sfc).1))
      (sym here) (ground (arith, pos, slices, len))

-- A poll of up to 512 events, with the ring and the doorbell slice mapped, reports the longest run
-- of present events from its read pointer on, each classified and in ring order, zeroes just their
-- slots, records that the session owns the read pointer, and writes the new read pointer to the
-- doorbell, once, exactly when it took an event.
pub poll-Polled :
    (max_evs : ℕ) (evq : Buffer) (sfc : Interface)
    → sfc.evq_ring ≡ some evq
    → 0 < max_evs
    → max_evs ≤ 512
    → sfc.has_slices ≡ true
    → slice_data_evq_rptr_dbl < sfc.mmio_slices_len
    → sfc.evq_read_ptr < 512
    → (poll_events max_evs sfc ≡ (some (run_poll max_evs evq sfc).0, (run_poll max_evs evq sfc).1))
      × Polled max_evs evq sfc (run_poll max_evs evq sfc)
unfolding poll_events
poll-Polled max_evs evq sfc here pos le slices len h = (
  enter_poll_lem max_evs sfc.evq_ring evq sfc here pos slices len,
  run_poll-Polled max_evs evq sfc (drain max_evs evq sfc.evq_read_ptr)
      (drain-Drained max_evs evq sfc.evq_read_ptr le h)
      (poll_loop_lem max_evs evq sfc.evq_read_ptr),
)
