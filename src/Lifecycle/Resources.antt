-- ===== src/Lifecycle/Resources.antt =====
-- The six DMA allocations of the softc: all of them or none, and nothing left when they are freed.
use solarflare_capio_kernel.Lifecycle.Unwind.{
  AllSane, AllLoaded, AllOrNone, AllEmpty, or_goto-elim, fail_txb-none, fail_rxd-none,
  fail_txd-none, fail_data_evq-none, fail_evq-none, failed,
}
use solarflare_capio_kernel.Base.{ℕ, some, ◌≡◌, refl}
use solarflare_capio_kernel.Lifecycle.Dma.{
  DmaBuf, Dma, DmaAnswers, alloc_dmabuf, prime, fail_evq, fail_data_evq, fail_txd, fail_rxd,
  fail_txb, alloc_dma_resources, alloc_data_evq, alloc_tx_desc, alloc_rx_desc, alloc_tx_buffer,
  alloc_rx_buffer, free_dma_resources,
}
use solarflare_capio_kernel.Lifecycle.Allocated.{
  IsEmpty, IsLoaded, alloc_dmabuf-Allocated, free_dmabuf-loaded,
}

prime-IsLoaded : (b : DmaBuf) → IsLoaded b → IsLoaded (prime b)
prime-IsLoaded b l = record { dtag = l.dtag; vaddr = l.vaddr; paddr = l.paddr; stage = l.stage }

module _ (a : DmaAnswers) (s : AllSane a) where
  alloc_rx_buffer-AllOrNone :
      (d : Dma)
      → IsLoaded d.evq
      → IsLoaded d.data_evq
      → IsLoaded d.tx_desc
      → IsLoaded d.rx_desc
      → IsLoaded d.tx_buffer
      → IsEmpty d.rx_buffer
      → ((x : ℕ) → d.evq.words x ≡ 0xffffffffffffffff)
      → ((x : ℕ) → d.data_evq.words x ≡ 0xffffffffffffffff)
      → ((x : ℕ) → d.tx_desc.words x ≡ 0)
      → ((x : ℕ) → d.rx_desc.words x ≡ 0)
      → ((x : ℕ) → d.tx_buffer.words x ≡ 0)
      → AllOrNone (alloc_rx_buffer a d)
  unfolding alloc_rx_buffer
  alloc_rx_buffer-AllOrNone d evq data_evq tx_desc rx_desc tx_buffer rx_buffer evq_words
        data_evq_words tx_desc_words rx_desc_words tx_buffer_words =
      let r = alloc_dmabuf-Allocated a.rx_buffer d.rx_buffer s.rx_buffer rx_buffer in
      or_goto-elim AllOrNone (alloc_dmabuf a.rx_buffer d.rx_buffer)
        (λ b. record d { rx_buffer = b }) fail_txb (λ d. some (0, d)) r
        (λ ne none_held.
          fail_txb-none r.status ne (record d { rx_buffer = r.buffer }) evq data_evq tx_desc rx_desc
            tx_buffer none_held)
        (λ _ held zero_words. record {
          status = 0;
          dma = record d { rx_buffer = r.buffer };
          returns = refl;
          loaded = λ _. record {
            evq = evq;
            data_evq = data_evq;
            tx_desc = tx_desc;
            rx_desc = rx_desc;
            tx_buffer = tx_buffer;
            rx_buffer = held;
          };
          primed = λ _. record {
            evq = evq_words;
            data_evq = data_evq_words;
            tx_desc = tx_desc_words;
            rx_desc = rx_desc_words;
            tx_buffer = tx_buffer_words;
            rx_buffer = zero_words;
          };
          empty = λ ne. absurd (ne refl);
        })

  alloc_tx_buffer-AllOrNone :
      (d : Dma)
      → IsLoaded d.evq
      → IsLoaded d.data_evq
      → IsLoaded d.tx_desc
      → IsLoaded d.rx_desc
      → IsEmpty d.tx_buffer
      → IsEmpty d.rx_buffer
      → ((x : ℕ) → d.evq.words x ≡ 0xffffffffffffffff)
      → ((x : ℕ) → d.data_evq.words x ≡ 0xffffffffffffffff)
      → ((x : ℕ) → d.tx_desc.words x ≡ 0)
      → ((x : ℕ) → d.rx_desc.words x ≡ 0)
      → AllOrNone (alloc_tx_buffer a d)
  unfolding alloc_tx_buffer
  alloc_tx_buffer-AllOrNone d evq data_evq tx_desc rx_desc tx_buffer rx_buffer evq_words
        data_evq_words tx_desc_words rx_desc_words =
      let r = alloc_dmabuf-Allocated a.tx_buffer d.tx_buffer s.tx_buffer tx_buffer in
      or_goto-elim AllOrNone (alloc_dmabuf a.tx_buffer d.tx_buffer)
        (λ b. record d { tx_buffer = b }) fail_rxd (alloc_rx_buffer a) r
        (λ ne none_held.
          fail_rxd-none r.status ne (record d { tx_buffer = r.buffer }) evq data_evq tx_desc rx_desc
            none_held rx_buffer)
        (λ _ held zero_words.
          alloc_rx_buffer-AllOrNone (record d { tx_buffer = r.buffer }) evq data_evq tx_desc rx_desc
            held rx_buffer evq_words data_evq_words tx_desc_words rx_desc_words zero_words)

  alloc_rx_desc-AllOrNone :
      (d : Dma)
      → IsLoaded d.evq
      → IsLoaded d.data_evq
      → IsLoaded d.tx_desc
      → IsEmpty d.rx_desc
      → IsEmpty d.tx_buffer
      → IsEmpty d.rx_buffer
      → ((x : ℕ) → d.evq.words x ≡ 0xffffffffffffffff)
      → ((x : ℕ) → d.data_evq.words x ≡ 0xffffffffffffffff)
      → ((x : ℕ) → d.tx_desc.words x ≡ 0)
      → AllOrNone (alloc_rx_desc a d)
  unfolding alloc_rx_desc
  alloc_rx_desc-AllOrNone d evq data_evq tx_desc rx_desc tx_buffer rx_buffer evq_words
        data_evq_words tx_desc_words =
      let r = alloc_dmabuf-Allocated a.rx_desc d.rx_desc s.rx_desc rx_desc in
      or_goto-elim AllOrNone (alloc_dmabuf a.rx_desc d.rx_desc) (λ b. record d { rx_desc = b })
        fail_txd (alloc_tx_buffer a) r
        (λ ne none_held.
          fail_txd-none r.status ne (record d { rx_desc = r.buffer }) evq data_evq tx_desc none_held
            tx_buffer rx_buffer)
        (λ _ held zero_words.
          alloc_tx_buffer-AllOrNone (record d { rx_desc = r.buffer }) evq data_evq tx_desc held
            tx_buffer rx_buffer evq_words data_evq_words tx_desc_words zero_words)

  alloc_tx_desc-AllOrNone :
      (d : Dma)
      → IsLoaded d.evq
      → IsLoaded d.data_evq
      → IsEmpty d.tx_desc
      → IsEmpty d.rx_desc
      → IsEmpty d.tx_buffer
      → IsEmpty d.rx_buffer
      → ((x : ℕ) → d.evq.words x ≡ 0xffffffffffffffff)
      → ((x : ℕ) → d.data_evq.words x ≡ 0xffffffffffffffff)
      → AllOrNone (alloc_tx_desc a d)
  unfolding alloc_tx_desc
  alloc_tx_desc-AllOrNone d evq data_evq tx_desc rx_desc tx_buffer rx_buffer evq_words
        data_evq_words =
      let r = alloc_dmabuf-Allocated a.tx_desc d.tx_desc s.tx_desc tx_desc in
      or_goto-elim AllOrNone (alloc_dmabuf a.tx_desc d.tx_desc) (λ b. record d { tx_desc = b })
        fail_data_evq (alloc_rx_desc a) r
        (λ ne none_held.
          fail_data_evq-none r.status ne (record d { tx_desc = r.buffer }) evq data_evq none_held
            rx_desc tx_buffer rx_buffer)
        (λ _ held zero_words.
          alloc_rx_desc-AllOrNone (record d { tx_desc = r.buffer }) evq data_evq held rx_desc
            tx_buffer rx_buffer evq_words data_evq_words zero_words)

  alloc_data_evq-AllOrNone :
      (d : Dma)
      → IsLoaded d.evq
      → IsEmpty d.data_evq
      → IsEmpty d.tx_desc
      → IsEmpty d.rx_desc
      → IsEmpty d.tx_buffer
      → IsEmpty d.rx_buffer
      → ((x : ℕ) → d.evq.words x ≡ 0xffffffffffffffff)
      → AllOrNone (alloc_data_evq a d)
  unfolding alloc_data_evq
  alloc_data_evq-AllOrNone d evq data_evq tx_desc rx_desc tx_buffer rx_buffer evq_words =
      let r = alloc_dmabuf-Allocated a.data_evq d.data_evq s.data_evq data_evq in
      or_goto-elim AllOrNone (alloc_dmabuf a.data_evq d.data_evq) (λ b. record d { data_evq = b })
        fail_evq (λ d. alloc_tx_desc a (record d { data_evq = prime d.data_evq })) r
        (λ ne none_held.
          fail_evq-none r.status ne (record d { data_evq = r.buffer }) evq none_held tx_desc rx_desc
            tx_buffer rx_buffer)
        (λ _ held zero_words.
          alloc_tx_desc-AllOrNone (record d { data_evq = prime r.buffer }) evq
            (prime-IsLoaded r.buffer held) tx_desc rx_desc tx_buffer rx_buffer evq_words
            (λ x. refl))

-- The allocations of a softc that holds none, from a bus that places no memory at NULL and whose
-- loads, when they work, store another address than 0, make only calls that the bus allows: on success the six are loaded, both event rings hold all ones and the
-- rest zeros, and after a failure at any of the six the softc holds none again.
pub alloc_dma_resources-AllOrNone :
    (a : DmaAnswers) (d : Dma) → AllSane a → AllEmpty d → AllOrNone (alloc_dma_resources a d)
unfolding alloc_dma_resources
alloc_dma_resources-AllOrNone a d s e =
    let r = alloc_dmabuf-Allocated a.evq d.evq s.evq e.evq in
    or_goto-elim AllOrNone (alloc_dmabuf a.evq d.evq) (λ b. record d { evq = b })
      (λ e d. some (e, d)) (λ d. alloc_data_evq a (record d { evq = prime d.evq })) r
      (λ ne none_held.
        failed r.status (record d { evq = r.buffer }) ne
          (record {
            evq = none_held;
            data_evq = e.data_evq;
            tx_desc = e.tx_desc;
            rx_desc = e.rx_desc;
            tx_buffer = e.tx_buffer;
            rx_buffer = e.rx_buffer;
          }))
      (λ _ held _.
        alloc_data_evq-AllOrNone a s (record d { evq = prime r.buffer })
          (prime-IsLoaded r.buffer held) e.data_evq e.tx_desc e.rx_desc e.tx_buffer e.rx_buffer
          (λ x. refl))

-- The release of all six: the calls are allowed, and none is held afterwards.
pub free_dma_resources-AllEmpty :
    (d : Dma) → AllLoaded d → (d' : Dma) × (free_dma_resources d ≡ some d') × AllEmpty d'
unfolding free_dma_resources
free_dma_resources-AllEmpty d l =
    let (rx_buffer, rx_buffer_freed, rx_buffer_none) = free_dmabuf-loaded d.rx_buffer l.rx_buffer in
    let (tx_buffer, tx_buffer_freed, tx_buffer_none) = free_dmabuf-loaded d.tx_buffer l.tx_buffer in
    let (rx_desc, rx_desc_freed, rx_desc_none) = free_dmabuf-loaded d.rx_desc l.rx_desc in
    let (tx_desc, tx_desc_freed, tx_desc_none) = free_dmabuf-loaded d.tx_desc l.tx_desc in
    let (data_evq, data_evq_freed, data_evq_none) = free_dmabuf-loaded d.data_evq l.data_evq in
    let (evq, evq_freed, evq_none) = free_dmabuf-loaded d.evq l.evq in
    (
      record {
        evq = evq;
        data_evq = data_evq;
        tx_desc = tx_desc;
        rx_desc = rx_desc;
        tx_buffer = tx_buffer;
        rx_buffer = rx_buffer;
      },
      rw (rx_buffer_freed, tx_buffer_freed, rx_desc_freed, tx_desc_freed, data_evq_freed, evq_freed)
          refl,
      record {
        evq = evq_none;
        data_evq = data_evq_none;
        tx_desc = tx_desc_none;
        rx_desc = rx_desc_none;
        tx_buffer = tx_buffer_none;
        rx_buffer = rx_buffer_none;
      },
    )
