-- ===== src/Lifecycle/Unwind.antt =====
-- The way back of the DMA allocations: what is freed when one of the six fails.
use solarflare_capio_kernel.Base.{
  ℕ, Option, some, ◌==◌, ◌≡◌, ◌≢◌, refl, arith, Bool-cases, inl, inr,
}
use solarflare_capio_kernel.Lifecycle.Dma.{
  DmaBuf, Dma, DmaAnswers, fail_evq, fail_data_evq, fail_txd, fail_rxd, fail_txb, or_goto,
}
use solarflare_capio_kernel.Lifecycle.Allocated.{
  IsEmpty, IsLoaded, IsSane, Allocated, free_dmabuf-loaded,
}

pub record AllEmpty (d : Dma) : Type 0 where
  pub evq : IsEmpty d.evq
  pub data_evq : IsEmpty d.data_evq
  pub tx_desc : IsEmpty d.tx_desc
  pub rx_desc : IsEmpty d.rx_desc
  pub tx_buffer : IsEmpty d.tx_buffer
  pub rx_buffer : IsEmpty d.rx_buffer

pub record AllLoaded (d : Dma) : Type 0 where
  pub evq : IsLoaded d.evq
  pub data_evq : IsLoaded d.data_evq
  pub tx_desc : IsLoaded d.tx_desc
  pub rx_desc : IsLoaded d.rx_desc
  pub tx_buffer : IsLoaded d.tx_buffer
  pub rx_buffer : IsLoaded d.rx_buffer

pub record AllSane (a : DmaAnswers) : Type 0 where
  pub evq : IsSane a.evq
  pub data_evq : IsSane a.data_evq
  pub tx_desc : IsSane a.tx_desc
  pub rx_desc : IsSane a.rx_desc
  pub tx_buffer : IsSane a.tx_buffer
  pub rx_buffer : IsSane a.rx_buffer

-- Both event rings hold the pattern for "no event yet", and all else is zero.
pub record IsPrimed (d : Dma) : Type 0 where
  pub evq : (x : ℕ) → d.evq.words x ≡ 0xffffffffffffffff
  pub data_evq : (x : ℕ) → d.data_evq.words x ≡ 0xffffffffffffffff
  pub tx_desc : (x : ℕ) → d.tx_desc.words x ≡ 0
  pub rx_desc : (x : ℕ) → d.rx_desc.words x ≡ 0
  pub tx_buffer : (x : ℕ) → d.tx_buffer.words x ≡ 0
  pub rx_buffer : (x : ℕ) → d.rx_buffer.words x ≡ 0

-- The call returns, and with all allocations or none.
pub record AllOrNone (r : Option (ℕ × Dma)) : Type 0 where
  pub status : ℕ
  pub dma : Dma
  pub returns : r ≡ some (status, dma)
  pub loaded : status ≡ 0 → AllLoaded dma
  pub primed : status ≡ 0 → IsPrimed dma
  pub empty : status ≢ 0 → AllEmpty dma

pub failed : (error : ℕ) (d : Dma) → error ≢ 0 → AllEmpty d → AllOrNone (some (error, d))
failed error d ne e = record {
  status = error;
  dma = d;
  returns = refl;
  loaded = λ z. absurd (ne z);
  primed = λ z. absurd (ne z);
  empty = λ _. e;
}

-- A label of the way back frees one allocation; those before it are loaded, those behind it empty.
module _ (error : ℕ) (ne : error ≢ 0) where
  pub fail_evq-none :
      (d : Dma)
      → IsLoaded d.evq
      → IsEmpty d.data_evq
      → IsEmpty d.tx_desc
      → IsEmpty d.rx_desc
      → IsEmpty d.tx_buffer
      → IsEmpty d.rx_buffer
      → AllOrNone (fail_evq error d)
  unfolding fail_evq
  fail_evq-none d evq data_evq tx_desc rx_desc tx_buffer rx_buffer =
      let (b, e, none_held) = free_dmabuf-loaded d.evq evq in
      rw e (
        failed error (record d { evq = b }) ne
          (record {
            evq = none_held;
            data_evq = data_evq;
            tx_desc = tx_desc;
            rx_desc = rx_desc;
            tx_buffer = tx_buffer;
            rx_buffer = rx_buffer;
          }))

  pub fail_data_evq-none :
      (d : Dma)
      → IsLoaded d.evq
      → IsLoaded d.data_evq
      → IsEmpty d.tx_desc
      → IsEmpty d.rx_desc
      → IsEmpty d.tx_buffer
      → IsEmpty d.rx_buffer
      → AllOrNone (fail_data_evq error d)
  unfolding fail_data_evq
  fail_data_evq-none d evq data_evq tx_desc rx_desc tx_buffer rx_buffer =
      let (b, e, none_held) = free_dmabuf-loaded d.data_evq data_evq in
      rw e (
        fail_evq-none (record d { data_evq = b }) evq none_held tx_desc rx_desc tx_buffer rx_buffer)

  pub fail_txd-none :
      (d : Dma)
      → IsLoaded d.evq
      → IsLoaded d.data_evq
      → IsLoaded d.tx_desc
      → IsEmpty d.rx_desc
      → IsEmpty d.tx_buffer
      → IsEmpty d.rx_buffer
      → AllOrNone (fail_txd error d)
  unfolding fail_txd
  fail_txd-none d evq data_evq tx_desc rx_desc tx_buffer rx_buffer =
      let (b, e, none_held) = free_dmabuf-loaded d.tx_desc tx_desc in
      rw e (
        fail_data_evq-none (record d { tx_desc = b }) evq data_evq none_held rx_desc tx_buffer
          rx_buffer)

  pub fail_rxd-none :
      (d : Dma)
      → IsLoaded d.evq
      → IsLoaded d.data_evq
      → IsLoaded d.tx_desc
      → IsLoaded d.rx_desc
      → IsEmpty d.tx_buffer
      → IsEmpty d.rx_buffer
      → AllOrNone (fail_rxd error d)
  unfolding fail_rxd
  fail_rxd-none d evq data_evq tx_desc rx_desc tx_buffer rx_buffer =
      let (b, e, none_held) = free_dmabuf-loaded d.rx_desc rx_desc in
      rw e (
        fail_txd-none (record d { rx_desc = b }) evq data_evq tx_desc none_held tx_buffer rx_buffer)

  pub fail_txb-none :
      (d : Dma)
      → IsLoaded d.evq
      → IsLoaded d.data_evq
      → IsLoaded d.tx_desc
      → IsLoaded d.rx_desc
      → IsLoaded d.tx_buffer
      → IsEmpty d.rx_buffer
      → AllOrNone (fail_txb error d)
  unfolding fail_txb
  fail_txb-none d evq data_evq tx_desc rx_desc tx_buffer rx_buffer =
      let (b, e, none_held) = free_dmabuf-loaded d.tx_buffer tx_buffer in
      rw e (
        fail_rxd-none (record d { tx_buffer = b }) evq data_evq tx_desc rx_desc none_held rx_buffer)

pub or_goto-elim :
    (P : Option (ℕ × Dma) → Type 0) (r : Option (ℕ × DmaBuf)) (put : DmaBuf → Dma)
    (fail : ℕ → Dma → Option (ℕ × Dma)) (next : Dma → Option (ℕ × Dma))
    → (a : Allocated r) → (a.status ≢ 0 → IsEmpty a.buffer → P (fail a.status (put a.buffer)))
    → (a.status ≡ 0
        → IsLoaded a.buffer
        → ((x : ℕ) → a.buffer.words x ≡ 0)
        → P (next (put a.buffer)))
    → P (or_goto r put fail next)
unfolding or_goto
or_goto-elim P r put fail next a bad good = rw a.returns (elim (Bool-cases (a.status == 0)) [
  | inl e ↦ rw e (good (ground arith) (a.good (ground arith)) (a.zeroed (ground arith)))
  | inr e ↦ rw e (bad (ground arith) (a.bad (ground arith)))
])
