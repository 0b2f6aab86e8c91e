-- ===== src/Driver/Await.antt =====
-- The wait for an event: where it leaves the read pointer, and that it finds what arrives.
use Prim.Native.Nat.{suc, zero}
use mathlib.Core.Path.{subst}
use solarflare_capio_kernel.Base.{
  ℕ, Bool, true, false, Option, some, ◌+◌, ◌%◌, ◌<◌, ◌≤◌, ◌≡◌, ◌∙◌, sym, ap, refl, List, [], ◌∷◌,
  ◌++◌, length, arith, Bool-cases, inl, inr, none, not, ◌&&◌, if◌then◌else◌,
}
use solarflare_capio_kernel.Base.Buffer.{Buffer, update, update_ne, get_elem?, length-append}
use solarflare_capio_kernel.Base.Bits.{bit_and_mask}
use solarflare_capio_kernel.Event.Ring.{is_empty, next_ptr}
use solarflare_capio_kernel.Driver.Wait.{Cursor, consume, wait_event}

next_ptr_lem : (ptr : ℕ) → next_ptr ptr ≡ (ptr + 1) % 512
next_ptr_lem ptr = bit_and_mask 9 (ptr + 1)

some_inj : (a b : ℕ) → some a ≡ some b → b ≡ a
some_inj a b h = cc

-- What a wait from `c` with `left` tries leaves behind.
pub record Waited (wanted : ℕ → Bool) (left : ℕ) (c : Cursor) (r : Option ℕ × Cursor) : Type 0 where
  pub count : ℕ
  pub most : count ≤ left
  pub consumed : r.1.consumed ≡ c.consumed + count
  pub pointer : r.1.ptr ≡ (c.ptr + count) % 512
  pub right : (ev : ℕ) → r.0 ≡ some ev → (wanted ev ≡ true) × (is_empty ev ≡ false)

-- What a wait that finds `ev` returns, after it passed `n` events.
pub record Found (ev n : ℕ) (c : Cursor) (r : Option ℕ × Cursor) : Type 0 where
  pub event : r.0 ≡ some ev
  pub pointer : r.1.ptr ≡ (c.ptr + n + 1) % 512
  pub consumed : r.1.consumed ≡ c.consumed + n + 1

-- The events `es` arrive in the slots from `ptr` on, all before try `t`: until then the slot at
-- `ptr` is empty, try `t` sees them, and the card leaves their slots alone afterwards.
pub record Delivers (events : ℕ → Buffer → Buffer) (ptr t : ℕ) (es : List ℕ) : Type 0 where
  pub quiet : (k : ℕ) (ring : Buffer) → k < t → is_empty (events k ring ptr) ≡ true
  pub shown :
      (ring : Buffer) (j : ℕ)
      → j < length es
      → get_elem? es j ≡ some (events t ring ((ptr + j) % 512))
  pub left_alone :
      (k : ℕ) (ring : Buffer) (j : ℕ)
      → t < k
      → j < length es
      → events k ring ((ptr + j) % 512) ≡ ring ((ptr + j) % 512)

-- The cursor after a try that ends no wait, and the word that try number `i + k` of such tries sees
-- in the slot at the read pointer.
unfoldable pub passing : (ℕ → Buffer → Buffer) → ℕ → Cursor → Cursor
passing events i c =
    let seen = record c { ring = events i c.ring } in
    if is_empty (seen.ring seen.ptr) then seen else consume seen

unfoldable pub shown : (ℕ → Buffer → Buffer) → ℕ → ℕ → Cursor → ℕ
unfolding passing
shown events i zero c = events i c.ring c.ptr
shown events i (suc k) c = shown events (i + 1) k (passing events i c)

-- Events that a wait passes over.
abbrev pub Passed : (ℕ → Bool) → List ℕ → Type 0
Passed wanted [] = Unit {0}
Passed wanted (ev ∷ es) = (is_empty ev ≡ false) × (wanted ev ≡ false) × Passed wanted es

-- The card writes inside its ring of 512 entries.
abbrev pub InRing : (ℕ → Buffer → Buffer) → Type 0
InRing events = (k : ℕ) (ring : Buffer) (x : ℕ) → 512 ≤ x → events k ring x ≡ ring x

module _ (events : ℕ → Buffer → Buffer) (wanted : ℕ → Bool) where
  -- One try, by what the slot at the read pointer shows.
  try_empty :
      (i left : ℕ) (c : Cursor)
      → is_empty (events i c.ring c.ptr) ≡ true
      → wait_event events wanted i (suc left) c
        ≡ wait_event events wanted (i + 1) left (record c { ring = events i c.ring })
  unfolding wait_event
  try_empty i left c e = rw e refl

  try_other :
      (i left : ℕ) (c : Cursor)
      → is_empty (events i c.ring c.ptr) ≡ false
      → wanted (events i c.ring c.ptr) ≡ false
      → wait_event events wanted i (suc left) c
        ≡ wait_event events wanted (i + 1) left (consume (record c { ring = events i c.ring }))
  unfolding wait_event
  try_other i left c e n = rw (e, n) refl

  try_wanted :
      (i left : ℕ) (c : Cursor)
      → is_empty (events i c.ring c.ptr) ≡ false
      → wanted (events i c.ring c.ptr) ≡ true
      → wait_event events wanted i (suc left) c
        ≡ (some (events i c.ring c.ptr), consume (record c { ring = events i c.ring }))
  unfolding wait_event
  try_wanted i left c e y = rw (e, y) refl

  Waited-later :
      (left : ℕ) (c c' : Cursor) (k : ℕ) (r : Option ℕ × Cursor)
      → k ≤ 1
      → c'.consumed ≡ c.consumed + k
      → c'.ptr ≡ (c.ptr + k) % 512
      → Waited wanted left c' r
      → Waited wanted (suc left) c r
  Waited-later left c c' k r le e p w = record {
    count = k + w.count;
    most = omega (arith, w.most, le);
    consumed = omega (arith, w.consumed, e);
    pointer = omega (arith, w.pointer, p);
    right = w.right;
  }

  pub wait_event-Waited :
      (left i : ℕ) (c : Cursor)
      → c.ptr < 512
      → Waited wanted left c (wait_event events wanted i left c)
  unfolding wait_event consume
  wait_event-Waited zero i c lt = record {
    count = 0;
    most = omega arith;
    consumed = omega arith;
    pointer = omega arith;
    right = λ ev h. absurd (cc);
  }
  wait_event-Waited (suc left) i c lt =
      let seen = record c { ring = events i c.ring } in
      elim (Bool-cases (is_empty (events i c.ring c.ptr))) [
        | inl e ↦ rw e (
            Waited-later left c seen 0 (wait_event events wanted (i + 1) left seen) (omega arith)
              (omega arith) (omega arith) (wait_event-Waited left (i + 1) seen lt))
        | inr e ↦ elim (Bool-cases (wanted (events i c.ring c.ptr))) [
          | inl y ↦
              rw (e, y)
                record {
                  count = 1;
                  most = omega arith;
                  consumed = refl;
                  pointer = next_ptr_lem c.ptr;
                  right = λ ev h. (cc, cc);
                }
          | inr n ↦
              rw (e, n)
                (Waited-later left c (consume seen) 1
                  (wait_event events wanted (i + 1) left (consume seen)) (omega arith) refl
                  (next_ptr_lem c.ptr)
                  (wait_event-Waited left (i + 1) (consume seen)
                    (omega (arith, next_ptr_lem c.ptr))))
        ]
      ]

  consume-outside : (c : Cursor) (x : ℕ) → c.ptr < 512 → 512 ≤ x → (consume c).ring x ≡ c.ring x
  unfolding consume
  consume-outside c x lt out = update_ne c.ring c.ptr 0 x (λ e. absurd (omega (arith, e)))

  -- Nothing outside the ring changes.
  pub wait_event-outside :
      InRing events
      → (left i : ℕ) (c : Cursor) (x : ℕ) → c.ptr < 512
      → 512 ≤ x
      → (wait_event events wanted i left c).1.ring x ≡ c.ring x
  unfolding wait_event consume
  wait_event-outside inside zero i c x lt out = refl
  wait_event-outside inside (suc left) i c x lt out =
      let seen = record c { ring = events i c.ring } in
      let first : seen.ring x ≡ c.ring x = inside i c.ring x out in
      let taken : (consume seen).ring x ≡ c.ring x = consume-outside seen x lt out ∙ first in
      elim (Bool-cases (is_empty (events i c.ring c.ptr))) [
        | inl e ↦ rw e (wait_event-outside inside left (i + 1) seen x lt out ∙ first)
        | inr e ↦ elim (Bool-cases (wanted (events i c.ring c.ptr))) [
          | inl y ↦ rw (e, y) taken
          | inr n ↦
              rw (e, n)
                (wait_event-outside inside left (i + 1) (consume seen) x
                    (omega (arith, next_ptr_lem c.ptr)) out
                  ∙ taken)
        ]
      ]

  -- The slots of `es` from the read pointer on, as try `i` sees them and the later ones keep them.
  record Visible (i : ℕ) (c : Cursor) (es : List ℕ) : Type 0 where
    now : (j : ℕ) → j < length es → get_elem? es j ≡ some (events i c.ring ((c.ptr + j) % 512))
    later :
        (k : ℕ) (ring : Buffer) (j : ℕ)
        → i < k
        → j < length es
        → events k ring ((c.ptr + j) % 512) ≡ ring ((c.ptr + j) % 512)

  Visible-first :
      (i : ℕ) (c : Cursor) (ev : ℕ) (es : List ℕ)
      → c.ptr < 512
      → Visible i c (ev ∷ es)
      → events i c.ring c.ptr ≡ ev
  Visible-first i c ev es lt v =
      let here : (c.ptr + 0) % 512 ≡ c.ptr = omega arith in
      ap (events i c.ring) (sym here)
      ∙ some_inj ev (events i c.ring ((c.ptr + 0) % 512)) (v.now 0 (omega arith))

  Visible-rest :
      (i : ℕ) (c : Cursor) (ev : ℕ) (es : List ℕ)
      → c.ptr < 512
      → length es < 512
      → Visible i c (ev ∷ es)
      → Visible (i + 1) (consume (record c { ring = events i c.ring })) es
  unfolding consume
  Visible-rest i c ev es lt few v =
      let slot : (j : ℕ) → (next_ptr c.ptr + j) % 512 ≡ (c.ptr + suc j) % 512 =
        λ j. omega (arith, next_ptr_lem c.ptr) in
      record {
        now = λ j lj.
            v.now (suc j) (omega arith)
            ∙ ap some (
                sym (
                  ap (events (i + 1) (update (events i c.ring) c.ptr 0)) (slot j)
                  ∙ v.later (i + 1) (update (events i c.ring) c.ptr 0) (suc j) (omega arith)
                      (omega arith)
                  ∙ update_ne (events i c.ring) c.ptr 0 ((c.ptr + suc j) % 512)
                      (λ e. absurd (omega (arith, e)))));
        later = λ k ring j lk lj.
            ap (events k ring) (slot j)
            ∙ v.later k ring (suc j) (omega arith) (omega arith)
            ∙ ap ring (sym (slot j));
      }

  wait-Visible :
      (pre : List ℕ) (ev i left : ℕ) (c : Cursor)
      → c.ptr < 512
      → length pre < left
      → length pre < 512
      → Passed wanted pre
      → is_empty ev ≡ false
      → wanted ev ≡ true
      → Visible i c (pre ++ ev ∷ [])
      → Found ev (length pre) c (wait_event events wanted i left c)
  unfolding consume
  wait-Visible pre ev i zero c lt room few p full yes' v = absurd (omega arith)
  wait-Visible [] ev i (suc left) c lt room few p full yes' v =
      let e = Visible-first i c ev [] lt v in
      rw (try_wanted i left c (ap is_empty e ∙ full) (ap wanted e ∙ yes')) record {
        event = ap some e;
        pointer = next_ptr_lem c.ptr ∙ omega arith;
        consumed = omega arith;
      }
  wait-Visible (q ∷ pre) ev i (suc left) c lt room few p full yes' v =
      let e = Visible-first i c q (pre ++ ev ∷ []) lt v in
      let c' = consume (record c { ring = events i c.ring }) in
      let f =
        wait-Visible pre ev (i + 1) left c' (omega (arith, next_ptr_lem c.ptr)) (omega arith)
          (omega arith) p.2 full yes'
          (Visible-rest i c q (pre ++ ev ∷ []) lt (omega (arith, length-append pre (ev ∷ []))) v) in
      rw (try_other i left c (ap is_empty e ∙ p.0) (ap wanted e ∙ p.1)) record {
        event = f.event;
        pointer = f.pointer ∙ omega (arith, next_ptr_lem c.ptr);
        consumed = f.consumed ∙ omega arith;
      }

  -- The tries before the events arrive pass over nothing.
  pub wait_event-Found :
      (gap : ℕ) (pre : List ℕ) (ev t i left : ℕ) (c : Cursor)
      → t ≡ i + gap
      → c.ptr < 512
      → gap + length pre < left
      → length pre < 512
      → Passed wanted pre
      → is_empty ev ≡ false
      → wanted ev ≡ true
      → Delivers events c.ptr t (pre ++ ev ∷ [])
      → Found ev (length pre) c (wait_event events wanted i left c)
  wait_event-Found gap pre ev t i zero c et lt room few p full good d = absurd (omega arith)
  wait_event-Found zero pre ev t i (suc left) c et lt room few p full good d =
      let same : t ≡ i = omega arith in
      wait-Visible pre ev i (suc left) c lt (omega arith) few p full good (
        subst (λ k. Visible k c (pre ++ ev ∷ [])) same
          (record { now = d.shown c.ring; later = d.left_alone }))
  wait_event-Found (suc gap) pre ev t i (suc left) c et lt room few p full good d =
      let f =
        wait_event-Found gap pre ev t (i + 1) left (record c { ring = events i c.ring })
          (omega arith) lt (omega arith) few p full good d in
      rw (try_empty i left c (d.quiet i c.ring (omega arith)))
        (record { event = f.event; pointer = f.pointer; consumed = f.consumed })

  -- Where no try sees an event that meets the test, the wait finds nothing.
  pub wait_event-none :
      (left i : ℕ) (c : Cursor)
      → ((k : ℕ)
          → k < left
          → (not (is_empty (shown events i k c)) && wanted (shown events i k c)) ≡ false)
      → (wait_event events wanted i left c).0 ≡ none
  unfolding wait_event shown passing
  wait_event-none zero i c never = refl
  wait_event-none (suc left) i c never = rw (never 0 (omega arith)) (
      wait_event-none left (i + 1) (passing events i c) (λ k lt. never (suc k) (omega (arith, lt))))
