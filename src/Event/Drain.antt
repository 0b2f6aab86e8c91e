-- ===== src/Event/Drain.antt =====
-- What a drain takes: the longest run of events from the read pointer on, and nothing else.

use solarflare_capio_kernel.Base.Bits.{bit_and_mask}
use solarflare_capio_kernel.Event.Ring.{next_ptr, is_empty, drain}
use solarflare_capio_kernel.Base.Buffer.{Buffer, update, get_elem?, update_ne, update_self}
use solarflare_capio_kernel.Base.{
  ℕ, ◌<◌, List, ◌≡◌, ◌+◌, length, true, false, ◌%◌, arith, [], ◌≤◌, suc, ◌∷◌, some, ◌∙◌, ◌≢◌, refl,
  ap, sym, Bool-cases, inl, inr,
}
use Prim.Native.Nat.{ℕ, suc, zero}

-- `k` events were taken from `ring` at `ptr`, of at most `n`.
pub record Drained (n : ℕ) (ring : Buffer) (ptr : ℕ) (r : List ℕ × (Buffer × ℕ)) : Type 0 where
  pub count : length r.0 ≤ n
  pub pointer : r.1.1 ≡ (ptr + length r.0) % 512
  pub taken : (j : ℕ) → j < length r.0 → get_elem? r.0 j ≡ some (ring ((ptr + j) % 512))
  pub present : (j : ℕ) → j < length r.0 → is_empty (ring ((ptr + j) % 512)) ≡ false
  pub stop : length r.0 < n → is_empty (ring ((ptr + length r.0) % 512)) ≡ true
  pub zeroed : (j : ℕ) → j < length r.0 → r.1.0 ((ptr + j) % 512) ≡ 0
  pub kept : (x : ℕ) → ((j : ℕ) → j < length r.0 → x ≢ (ptr + j) % 512) → r.1.0 x ≡ ring x

next_ptr_lem : (ptr : ℕ) → next_ptr ptr ≡ (ptr + 1) % 512
next_ptr_lem ptr = bit_and_mask 9 (ptr + 1)

slot_next : (ptr j : ℕ) → (next_ptr ptr + j) % 512 ≡ (ptr + suc j) % 512
slot_next ptr j = omega (arith, next_ptr_lem ptr)

slot_first : (ptr : ℕ) → ptr < 512 → (ptr + 0) % 512 ≡ ptr
slot_first ptr h = omega arith

Drained-none :
    (n : ℕ) (ring : Buffer) (ptr : ℕ)
    → ptr < 512
    → (0 < n → is_empty (ring ptr) ≡ true)
    → Drained n ring ptr ([], (ring, ptr))
Drained-none n ring ptr h empty = record {
  count = omega arith;
  pointer = omega arith;
  taken = λ j lt. absurd (omega arith);
  present = λ j lt. absurd (omega arith);
  stop = λ lt. rw (slot_first ptr h) (empty lt);
  zeroed = λ j lt. absurd (omega arith);
  kept = λ x out. refl;
}

slot_update :
    (ring : Buffer) (ptr j : ℕ)
    → ptr < 512
    → suc j < 512
    → update ring ptr 0 ((next_ptr ptr + j) % 512) ≡ ring ((ptr + suc j) % 512)
slot_update ring ptr j h lt =
    ap (update ring ptr 0) (slot_next ptr j)
    ∙ update_ne ring ptr 0 ((ptr + suc j) % 512) (λ e. absurd (omega (arith, e)))

-- One event more at the front.
module _ (n : ℕ) (ring : Buffer) (ptr : ℕ) (r : List ℕ × (Buffer × ℕ)) (h : ptr < 512)
    (small : n < 512) (here : is_empty (ring ptr) ≡ false)
    (d : Drained n (update ring ptr 0) (next_ptr ptr) r) where
  cons_taken :
      (j : ℕ) → j < suc (length r.0) → get_elem? (ring ptr ∷ r.0) j ≡ some (ring ((ptr + j) % 512))
  cons_taken zero lt = ap (λ x. some (ring x)) (sym (slot_first ptr h))
  cons_taken (suc j) lt =
      d.taken j (omega arith) ∙ ap some (slot_update ring ptr j h (omega (arith, d.count)))

  cons_present : (j : ℕ) → j < suc (length r.0) → is_empty (ring ((ptr + j) % 512)) ≡ false
  cons_present zero lt = ap (λ x. is_empty (ring x)) (slot_first ptr h) ∙ here
  cons_present (suc j) lt =
      ap is_empty (sym (slot_update ring ptr j h (omega (arith, d.count))))
      ∙ d.present j (omega arith)

  cons_zeroed : (j : ℕ) → j < suc (length r.0) → r.1.0 ((ptr + j) % 512) ≡ 0
  cons_zeroed zero lt =
      ap r.1.0 (slot_first ptr h)
      ∙ d.kept ptr (λ j lt' e. absurd (omega (arith, e, d.count, slot_next ptr j)))
      ∙ update_self ring ptr 0
  cons_zeroed (suc j) lt = ap r.1.0 (sym (slot_next ptr j)) ∙ d.zeroed j (omega arith)

  Drained-cons : Drained (suc n) ring ptr (ring ptr ∷ r.0, r.1)
  Drained-cons = record {
    count = omega (arith, d.count);
    pointer = d.pointer ∙ slot_next ptr (length r.0);
    taken = cons_taken;
    present = cons_present;
    stop = λ lt.
        ap is_empty (sym (slot_update ring ptr (length r.0) h (omega arith)))
        ∙ d.stop (omega arith);
    zeroed = cons_zeroed;
    kept = λ x out.
        d.kept x (λ j lt e. out (suc j) (omega arith) (e ∙ slot_next ptr j))
        ∙ update_ne ring ptr 0 x (λ e. out 0 (omega arith) (sym e ∙ sym (slot_first ptr h)));
  }

-- A drain of at most 512 events takes the longest run of present events from the read pointer on,
-- in ring order, zeroes just their slots, and leaves the pointer behind the last one.
pub drain-Drained :
    (n : ℕ) (ring : Buffer) (ptr : ℕ) → n ≤ 512 → ptr < 512 → Drained n ring ptr (drain n ring ptr)
unfolding drain
drain-Drained zero ring ptr le h = Drained-none zero ring ptr h (λ lt. absurd (omega arith))
drain-Drained (suc n) ring ptr le h = elim (Bool-cases (is_empty (ring ptr))) [
  | inl e ↦ rw e (Drained-none (suc n) ring ptr h (λ lt. e))
  | inr e ↦ rw e (
      Drained-cons n ring ptr (drain n (update ring ptr 0) (next_ptr ptr)) h (omega arith) e (
        drain-Drained n (update ring ptr 0) (next_ptr ptr) (omega arith)
          (omega (arith, next_ptr_lem ptr))))
]
