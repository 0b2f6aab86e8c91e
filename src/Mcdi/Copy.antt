-- ===== src/Mcdi/Copy.antt =====
-- The payload copies of sfc7120_mcdi.c (mcdi_buf_write_payload and mcdi_buf_read_payload), byte
-- by byte.

use native.Mathlib.Decide.{dec_lt}
use solarflare_capio_kernel.Base.Bytes.{
  IsBytes, load_bytes, store-load_bytes, store_bytes_frame, store-load_bytes_pad, load_bytes_shift,
  store_bytes,
}
use solarflare_capio_kernel.Base.{
  ℕ, ◌≤◌, ◌<◌, ◌⊎◌, ◌+◌, ◌%◌, ◌≡◌, ◌*◌, arith, ◌-◌, Bool-cases, refl, ◌/◌, inl, leb, ◌∙◌, inr, ltb,
  ap, sym,
}
use Prim.Native.Nat.{ℕ, suc, zero}
use solarflare_capio_kernel.Mcdi.Mailbox.{
  write_dword, write_words, write_payload, write_tail, read_words, read_tail, read_payload,
  read_dword,
}
use solarflare_capio_kernel.Base.Buffer.{Buffer}

-- What a run of `write_words` from `i` ends with: the memory and the count of the bytes copied.
record Written (m : Buffer) (offset : ℕ) (src : Buffer) (len i : ℕ) (r : Buffer × ℕ) : Type 0 where
  start : i ≤ r.1
  within : r.1 ≤ len
  near : len < r.1 + 4
  aligned : r.1 % 4 ≡ 0
  body : (j : ℕ) → i ≤ j → j < r.1 → r.0 (offset + j) ≡ src j
  kept : (x : ℕ) → (x < offset + i) ⊎ (offset + r.1 ≤ x) → r.0 x ≡ m x

word_body :
    (m : Buffer) (offset : ℕ) (src : Buffer) (i j : ℕ)
    → IsBytes src
    → i ≤ j
    → j < i + 4
    → write_dword m (offset + i) (load_bytes 4 src i) (offset + j) ≡ src j
unfolding write_dword
word_body m offset src i j h lo hi =
    store-load_bytes 4 4 m src (offset + i) i (j - i) (offset + j) j h (omega arith) (omega arith)
      (omega arith) (omega arith)

word_kept :
    (m : Buffer) (offset v x : ℕ) → (x < offset) ⊎ (offset + 4 ≤ x) → write_dword m offset v x ≡ m x
unfolding write_dword
word_kept m offset v x h = store_bytes_frame 4 m offset v x h

abbrev next_word : Buffer → ℕ → Buffer → ℕ → Buffer
next_word m offset src i = write_dword m (offset + i) (load_bytes 4 src i)

-- One round more.
Written-step :
    {m : Buffer} {offset : ℕ} {src : Buffer} {len i : ℕ} {r : Buffer × ℕ}
    → IsBytes src
    → Written (next_word m offset src i) offset src len (i + 4) r
    → Written m offset src len i r
Written-step {m} {offset} {src} {len} {i} {r} h w = record {
  start = omega (arith, w.start);
  within = w.within;
  near = w.near;
  aligned = w.aligned;
  body = λ j lo hi. elim (dec_lt j (i + 4)) [
    | yes lt ↦ w.kept (offset + j) (inl (omega arith)) ∙ word_body m offset src i j h lo lt
    | no ge ↦ w.body j (omega arith) hi
  ];
  kept = λ x o.
      w.kept x (ground (arith, o))
      ∙ word_kept m (offset + i) (load_bytes 4 src i) x (ground (arith, o, w.start));
}

Written-stop :
    {m : Buffer} {offset : ℕ} {src : Buffer} {len i : ℕ}
    → i % 4 ≡ 0
    → i ≤ len
    → len < i + 4
    → Written m offset src len i (m, i)
Written-stop mult le near = record {
  start = omega arith;
  within = le;
  near = near;
  aligned = mult;
  body = λ j lo hi. absurd (omega arith);
  kept = λ x o. refl;
}

write_words-Written :
    (fuel : ℕ) (m : Buffer) (offset : ℕ) (src : Buffer) (len i : ℕ)
    → IsBytes src
    → i % 4 ≡ 0
    → i ≤ len
    → len < i + 4 * fuel + 1
    → Written m offset src len i (write_words fuel m offset src len i)
unfolding write_words
write_words-Written zero m offset src len i h mult le enough = Written-stop mult le (omega arith)
write_words-Written (suc fuel) m offset src len i h mult le enough =
    elim (Bool-cases (leb (i + 4) len)) [
      | inl more ↦ rw more (
          Written-step h (
            write_words-Written fuel (next_word m offset src i) offset src len (i + 4) h
              (omega arith) (ground arith) (omega arith)))
      | inr done ↦ rw done (Written-stop mult le (ground arith))
    ]

-- The length of a payload in the mailbox: whole dwords.
abbrev pub padded : ℕ → ℕ
padded len = (len + 3) / 4 * 4

-- The memory after the copy of a payload: its bytes, zeros up to the end of the last dword, and
-- nothing else changed.
pub record Payload (m : Buffer) (offset : ℕ) (src : Buffer) (len : ℕ) (m' : Buffer) : Type 0 where
  pub bytes : (j : ℕ) → j < len → m' (offset + j) ≡ src j
  pub pad : (j : ℕ) → len ≤ j → j < padded len → m' (offset + j) ≡ 0
  pub frame : (x : ℕ) → (x < offset) ⊎ (offset + padded len ≤ x) → m' x ≡ m x

tail-Payload :
    {m : Buffer} {offset : ℕ} {src : Buffer} {len : ℕ} {r : Buffer × ℕ}
    → IsBytes src
    → Written m offset src len 0 r
    → r.1 < len
    → Payload m offset src len (write_dword r.0 (offset + r.1) (load_bytes (len - r.1) src r.1))
unfolding write_dword
tail-Payload {m} {offset} {src} {len} {r} h w short = record {
  bytes = λ j hi. elim (dec_lt j r.1) [
    | yes lt ↦
        word_kept r.0 (offset + r.1) (load_bytes (len - r.1) src r.1) (offset + j)
          (inl (omega arith))
        ∙ w.body j (omega arith) lt
    | no ge ↦
        store-load_bytes 4 (len - r.1) r.0 src (offset + r.1) r.1 (j - r.1) (offset + j) j h
          (omega (arith, w.near)) (omega arith) (omega arith) (omega arith)
  ];
  pad = λ j lo hi.
      store-load_bytes_pad 4 (len - r.1) r.0 src (offset + r.1) r.1 (j - r.1) (offset + j) h
        (omega arith) (omega arith) (omega (arith, w.near, w.aligned));
  frame = λ x o.
      word_kept r.0 (offset + r.1) (load_bytes (len - r.1) src r.1) x
        (ground (arith, o, w.near, w.aligned))
      ∙ w.kept x (ground (arith, o, w.near, w.aligned));
}

whole-Payload :
    {m : Buffer} {offset : ℕ} {src : Buffer} {len : ℕ} {r : Buffer × ℕ}
    → Written m offset src len 0 r
    → len ≤ r.1
    → Payload m offset src len r.0
whole-Payload {m} {offset} {src} {len} {r} w long = record {
  bytes = λ j hi. w.body j (omega arith) (omega arith);
  pad = λ j lo hi. absurd (omega (arith, w.within, w.aligned));
  frame = λ x o. w.kept x (ground (arith, o, w.within, w.aligned));
}

-- A payload of bytes is in the mailbox as it was given, padded with zeros to whole dwords, and
-- no byte outside those dwords changes.
pub write_payload-Payload :
    (m : Buffer) (offset : ℕ) (src : Buffer) (len : ℕ)
    → IsBytes src
    → Payload m offset src len (write_payload m offset src len)
unfolding write_payload write_tail
write_payload-Payload m offset src len h =
    let w = write_words-Written len m offset src len 0 h refl (omega arith) (omega arith) in
    elim (Bool-cases (ltb (write_words len m offset src len 0).1 len)) [
      | inl short ↦ rw short (tail-Payload h w (ground arith))
      | inr whole ↦ rw whole (whole-Payload w (ground arith))
    ]

add_zero_left : (i : ℕ) → 0 + i ≡ i
add_zero_left i = omega arith

-- Reading a payload is writing it to the start of the caller's buffer.
read_words-write_words :
    (fuel : ℕ) (m : Buffer) (offset : ℕ) (dst : Buffer) (len i : ℕ)
    → read_words fuel m offset dst len i ≡ write_words fuel dst 0 (λ x. m (offset + x)) len i
unfolding read_words write_words read_dword write_dword
read_words-write_words zero m offset dst len i = refl
read_words-write_words (suc fuel) m offset dst len i =
    rw
      (
        add_zero_left i,
        load_bytes_shift 4 m offset i,
        read_words-write_words fuel m offset (store_bytes 4 dst i (load_bytes 4 m (offset + i))) len
            (i + 4),
      )
      refl

-- A payload that was read: its bytes are at the start of the buffer, and the rest of the buffer
-- is as it was.
pub record Received (m : Buffer) (offset : ℕ) (dst : Buffer) (len : ℕ) (dst' : Buffer)
    : Type 0 where
  pub bytes : (j : ℕ) → j < len → dst' j ≡ m (offset + j)
  pub frame : (x : ℕ) → len ≤ x → dst' x ≡ dst x

read_tail-Received :
    {m : Buffer} {offset : ℕ} {dst : Buffer} {len : ℕ} {r : Buffer × ℕ}
    → IsBytes m
    → Written dst 0 (λ x. m (offset + x)) len 0 r
    → Received m offset dst len (read_tail m offset r.0 len r.1)
unfolding read_tail read_dword
read_tail-Received {m} {offset} {dst} {len} {r} h w = elim (Bool-cases (ltb r.1 len)) [
  | inl e ↦ rw e record {
    bytes = λ j hi. elim (dec_lt j r.1) [
      | yes lt ↦
          store_bytes_frame (len - r.1) r.0 r.1 (load_bytes 4 m (offset + r.1)) j (inl lt)
          ∙ ap r.0 (sym (add_zero_left j))
          ∙ w.body j (omega arith) lt
      | no ge ↦
          store-load_bytes (len - r.1) 4 r.0 m r.1 (offset + r.1) (j - r.1) j (offset + j) h
            (omega arith) (omega arith) (omega arith) (omega (arith, w.near))
    ];
    frame = λ x o.
        store_bytes_frame (len - r.1) r.0 r.1 (load_bytes 4 m (offset + r.1)) x
          (inr (omega (arith, w.within)))
        ∙ w.kept x (inr (omega (arith, w.within)));
  }
  | inr e ↦ rw e record {
    bytes = λ j hi. ap r.0 (sym (add_zero_left j)) ∙ w.body j (omega arith) (ground arith);
    frame = λ x o. w.kept x (inr (omega (arith, w.within)));
  }
]

-- A payload of bytes is read as it stands in the mailbox, and the buffer changes nowhere else.
pub read_payload-Received :
    (m : Buffer) (offset : ℕ) (dst : Buffer) (len : ℕ)
    → IsBytes m
    → Received m offset dst len (read_payload m offset dst len)
unfolding read_payload
read_payload-Received m offset dst len h = rw (read_words-write_words len m offset dst len 0) (
    read_tail-Received h (
      write_words-Written len dst 0 (λ x. m (offset + x)) len 0 (λ a. h (offset + a)) refl
        (omega arith) (omega arith)))
