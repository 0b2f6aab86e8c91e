-- ===== src/Event/Interrupt.antt =====
-- `sfc7120_interrupt_handler` and `sfc7120_linkchange_speed_mbps` of sfc7120.c. The lock and the
-- log output are not modelled: a run of the handler is one step.

use mathlib.Core.Path.{subst, sym}
use solarflare_capio_kernel.Event.Drain.{drain-Drained, Drained}
use solarflare_capio_kernel.Base.Bits.{u32, shr, bit_and_mask}
use solarflare_capio_kernel.Event.Ring.{drain, num_evq_entry, next_ptr, is_empty}
use solarflare_capio_kernel.Base.Buffer.{Buffer, update}
use solarflare_capio_kernel.Base.{
  none, Bool, ℕ, Option, List, if◌then◌else◌, some, ◌∷◌, ◌≡◌, ◌==◌, ltb, [], bit_and, ◌+◌, length,
  ◌&&◌, ap, not, arith, Bool-cases, inl, inr, ◌||◌, ◌∙◌, false, ◌⊎◌, true, ◌<◌, refl, ◌%◌, sym,
}
use Prim.Native.Nat.{ℕ, suc, bit_and, zero}

-- What an interrupt changes of the link.
pub record Link : Type 0 where
  pub link_up : Bool
  pub full_duplex : Bool
  pub link_speed_mbps : ℕ
  pub link_fcntl : ℕ

unfoldable pub linkchange_speed_mbps : ℕ → ℕ
linkchange_speed_mbps code =
    if code == 1
    then 100
    else if code == 2
    then 1000
    else if code == 3
    then 10000
    else if code == 4
    then 40000
    else if code == 5
    then 25000
    else if code == 6
    then 50000
    else if code == 7
    then 100000
    else 0

-- The two switches of the handler: only a LINKCHANGE of the controller changes anything.
unfoldable pub handle_event : ℕ → Link → Link
unfolding linkchange_speed_mbps
handle_event ev link =
    let lo = u32 (bit_and ev 0xffffffff) in
    let hi = u32 (shr ev 32) in
    let code = bit_and (shr hi 28) 0xf in
    let mcdi_code = bit_and (shr hi 12) 0xff in
    let flags = bit_and (shr lo 24) 0xff in
    if code == 12 && mcdi_code == 4
    then record {
      link_up = not (bit_and flags 1 == 0);
      full_duplex = not (bit_and flags 2 == 0);
      link_speed_mbps = linkchange_speed_mbps (bit_and (shr lo 16) 0xf);
      link_fcntl = bit_and (shr lo 20) 0xf;
    }
    else link

-- The fields of the softc that the handler uses; `none` is a ring that is not there. The doorbell
-- writes are a list, the last one first.
pub record Control : Type 0 where
  pub evq_ring : Option Buffer
  pub dying : Bool
  pub evq_initialized : Bool
  pub evq_read_ptr : ℕ
  pub link : Link
  pub doorbells : List (ℕ × ℕ)

-- The loop, with the number of events that it may still process.
unfoldable pub process : ℕ → Buffer → ℕ → Link → ℕ → ℕ × (Buffer × (ℕ × Link))
unfolding handle_event
process zero ring ptr link processed = (processed, (ring, (ptr, link)))
process (suc left) ring ptr link processed =
    let rest =
      process left (update ring ptr 0) (next_ptr ptr) (handle_event (ring ptr) link)
        (processed + 1) in
    if is_empty (ring ptr) then (processed, (ring, (ptr, link))) else rest

abbrev pub evq_rptr_dbl : ℕ
evq_rptr_dbl = 0x0400

unfoldable pub run_handler : Buffer → Control → Control
run_handler ring sc =
    let (processed, (ring', (ptr', link'))) =
      process num_evq_entry ring sc.evq_read_ptr sc.link 0 in
    record sc {
      evq_ring = some ring';
      evq_read_ptr = ptr';
      link = link';
      doorbells =
          if ltb 0 processed
          then (evq_rptr_dbl, bit_and (u32 ptr') 0x7fff) ∷ sc.doorbells
          else sc.doorbells;
    }

-- The tests at the head of the handler.
unfoldable pub enter_handler : Option Buffer → Control → Control
enter_handler none sc = sc
enter_handler (some ring) sc =
    if sc.dying || not sc.evq_initialized then sc else run_handler ring sc

-- `none` is the handler's NULL argument.
unfoldable pub interrupt_handler : Option Control → Option Control
unfolding enter_handler
interrupt_handler none = none
interrupt_handler (some sc) = some (enter_handler sc.evq_ring sc)

zero_add : (n : ℕ) → 0 + n ≡ n
zero_add n = omega arith

-- The link after a list of events.
unfoldable pub handle_events : List ℕ → Link → Link
handle_events [] link = link
handle_events (ev ∷ evs) link = handle_events evs (handle_event ev link)

process_lem :
    (left : ℕ) (ring : Buffer) (ptr : ℕ) (link : Link) (processed : ℕ)
    → let r = drain left ring ptr in
      process left ring ptr link processed
      ≡ (processed + length r.0, (r.1.0, (r.1.1, handle_events r.0 link)))
unfolding process drain handle_events
process_lem zero ring ptr link processed = ap (λ n. (n, (ring, (ptr, link)))) (omega arith)
process_lem (suc left) ring ptr link processed = elim (Bool-cases (is_empty (ring ptr))) [
  | inl e ↦ rw e (ap (λ n. (n, (ring, (ptr, link)))) (omega arith))
  | inr e ↦ rw e (
      process_lem left (update ring ptr 0) (next_ptr ptr) (handle_event (ring ptr) link)
        (processed + 1)
      ∙ ap
          (λ n. (
            n,
            (
              (drain left (update ring ptr 0) (next_ptr ptr)).1.0,
              (
                (drain left (update ring ptr 0) (next_ptr ptr)).1.1,
                handle_events (drain left (update ring ptr 0) (next_ptr ptr)).0
                    (handle_event (ring ptr) link),
              ),
            ),
          ))
          (omega arith))
]

-- What a run of the handler does with the events that it finds.
pub record Handled (ring : Buffer) (sc sc' : Control) : Type 0 where
  pub events : List ℕ
  pub ring_after : Buffer
  pub drained : Drained num_evq_entry ring sc.evq_read_ptr (events, (ring_after, sc'.evq_read_ptr))
  pub same_ring : sc'.evq_ring ≡ some ring_after
  pub link : sc'.link ≡ handle_events events sc.link
  pub ack : sc'.doorbells ≡ (
      if ltb 0 (length events)
      then (evq_rptr_dbl, sc'.evq_read_ptr) ∷ sc.doorbells
      else sc.doorbells)

rptr_mask : (ptr k : ℕ) → ptr ≡ k % 512 → bit_and (u32 ptr) 0x7fff ≡ ptr
rptr_mask ptr k h = bit_and_mask 15 (u32 ptr) ∙ omega arith

-- The effects of a run, for any result of the loop that is a drain.
run_handler-Handled :
    (ring : Buffer) (sc : Control) (r : List ℕ × (Buffer × ℕ))
    → Drained num_evq_entry ring sc.evq_read_ptr r
    → process num_evq_entry ring sc.evq_read_ptr sc.link 0
      ≡ (0 + length r.0, (r.1.0, (r.1.1, handle_events r.0 sc.link)))
    → Handled ring sc (run_handler ring sc)
unfolding run_handler
run_handler-Handled ring sc r d e = rw e record {
  events = r.0;
  ring_after = r.1.0;
  drained = d;
  same_ring = refl;
  link = refl;
  ack = rw (zero_add (length r.0), rptr_mask r.1.1 (sc.evq_read_ptr + length r.0) d.pointer) refl;
}

interrupt_open :
    (ring : Buffer) (sc : Control)
    → sc.evq_ring ≡ some ring
    → sc.dying ≡ false
    → sc.evq_initialized ≡ true
    → interrupt_handler (some sc) ≡ some (run_handler ring sc)
unfolding interrupt_handler
interrupt_open ring sc here alive up =
    ap some
      (subst (λ o. enter_handler o sc ≡ run_handler ring sc) (sym here) (ground (arith, alive, up)))

-- The handler of an initialised control queue, outside a teardown, takes the longest run of events
-- from the read pointer on, at most the whole ring: their slots are zeroed, the link is what the
-- events make of it in ring order, and exactly when there was an event the new read pointer is
-- written to the control queue's doorbell, once.
pub interrupt-Handled :
    (ring : Buffer) (sc : Control)
    → sc.evq_ring ≡ some ring
    → sc.dying ≡ false
    → sc.evq_initialized ≡ true
    → sc.evq_read_ptr < 512
    → (interrupt_handler (some sc) ≡ some (run_handler ring sc))
      × Handled ring sc (run_handler ring sc)
interrupt-Handled ring sc here alive up h = (
  interrupt_open ring sc here alive up,
  run_handler-Handled ring sc (drain num_evq_entry ring sc.evq_read_ptr)
      (drain-Drained num_evq_entry ring sc.evq_read_ptr (omega arith) h)
      (process_lem num_evq_entry ring sc.evq_read_ptr sc.link 0),
)

enter_latched :
    (o : Option Buffer) (sc : Control)
    → (o ≡ none) ⊎ ((sc.dying ≡ true) ⊎ (sc.evq_initialized ≡ false))
    → enter_handler o sc ≡ sc
unfolding enter_handler
enter_latched none sc h = refl
enter_latched (some ring) sc h = ground (arith, h)

-- Before the queue is initialised, without a ring and during a teardown the handler does nothing.
pub interrupt_latched :
    (sc : Control)
    → (sc.evq_ring ≡ none) ⊎ ((sc.dying ≡ true) ⊎ (sc.evq_initialized ≡ false))
    → interrupt_handler (some sc) ≡ some sc
unfolding interrupt_handler
interrupt_latched sc h = ap some (enter_latched sc.evq_ring sc h)
