-- ===== src/Lifecycle/Dma.antt =====
-- The DMA helpers of sfc7120.c: `sfc7120_alloc_dmabuf`, `sfc7120_free_dmabuf`,
-- `sfc7120_alloc_dma_resources` and `sfc7120_free_dma_resources`.
use solarflare_capio_kernel.Base.{
  ℕ, Bool, true, false, Option, none, some, not, ◌||◌, ◌==◌, ltb, if◌then◌else◌,
}
use solarflare_capio_kernel.Base.Errno.{enomem}
use solarflare_capio_kernel.Base.Fault.{◌>>=◌}
use solarflare_capio_kernel.Base.Buffer.{Buffer}

-- The four fields of the softc that belong to one DMA allocation (the map goes with the memory), 0
-- for NULL, and the words of its memory. `stage` is what the bus holds: nothing, a tag, memory of
-- the tag, or memory that is loaded.
pub record DmaBuf : Type 0 where
  pub dtag : Bool
  pub vaddr : ℕ
  pub paddr : ℕ
  pub words : Buffer
  pub stage : ℕ

-- What the bus answers for one allocation: the statuses of bus_dma_tag_create, bus_dmamem_alloc
-- and bus_dmamap_load, which the callback gets too, the virtual address, and the segments that the
-- callback gets: their number and the address of the first.
pub record DmaAnswer : Type 0 where
  pub tag_error : ℕ
  pub alloc_error : ℕ
  pub load_error : ℕ
  pub vaddr : ℕ
  pub nseg : ℕ
  pub ds_addr : ℕ

-- `sfc7120_dma_cb`: the address that it stores.
unfoldable pub dma_cb : ℕ → ℕ → ℕ → ℕ
dma_cb error nseg ds_addr = if not (error == 0) || ltb nseg 1 then 0 else ds_addr

abbrev pub loaded_at : DmaAnswer → ℕ
loaded_at a = dma_cb a.load_error a.nseg a.ds_addr

-- A call of the bus; `none` is a call that it does not allow: creating over a tag that is held,
-- allocating or freeing in the wrong order, or freeing what is not held.
abbrev pub move : ℕ → ℕ → DmaBuf → Option DmaBuf
move from to b = if b.stage == from then some (record b { stage = to }) else none

abbrev zeros : Buffer
zeros x = 0

-- The way back when the load failed or stored no address. It does not unload, so that after a load
-- that worked it frees memory that is loaded, which the bus does not allow.
unfoldable pub unload_failed : DmaAnswer → DmaBuf → Option (ℕ × DmaBuf)
unload_failed a b = do
  b1 ← move 2 1 b
  b2 ← move 1 0 b1
  some (
    if not (a.load_error == 0) then a.load_error else enomem,
    record b2 { vaddr = 0; dtag = false },
  )

unfoldable pub load_dmabuf : DmaAnswer → DmaBuf → Option (ℕ × DmaBuf)
unfolding unload_failed
load_dmabuf a b =
    move 2 (if a.load_error == 0 then 3 else 2) (record b { paddr = loaded_at a }) >>= λ c.
    if not (a.load_error == 0) || loaded_at a == 0 then unload_failed a c else some (0, c)

unfoldable pub alloc_memory : DmaAnswer → DmaBuf → Option (ℕ × DmaBuf)
unfolding load_dmabuf
alloc_memory a b =
    if not (a.alloc_error == 0)
    then (move 1 0 b >>= λ c. some (a.alloc_error, record c { dtag = false }))
    else (move 1 2 (record b { vaddr = a.vaddr; paddr = 0; words = zeros }) >>= load_dmabuf a)

unfoldable pub alloc_dmabuf : DmaAnswer → DmaBuf → Option (ℕ × DmaBuf)
unfolding alloc_memory
alloc_dmabuf a b =
    if not (a.tag_error == 0)
    then some (a.tag_error, b)
    else (move 0 1 (record b { dtag = true }) >>= alloc_memory a)

-- The three steps of `sfc7120_free_dmabuf`.
unfoldable pub free_map : DmaBuf → Option DmaBuf
free_map b =
    if not (b.paddr == 0) then (move 3 2 b >>= λ c. some (record c { paddr = 0 })) else some b

unfoldable pub free_memory : DmaBuf → Option DmaBuf
free_memory b =
    if not (b.vaddr == 0) then (move 2 1 b >>= λ c. some (record c { vaddr = 0 })) else some b

unfoldable pub free_tag : DmaBuf → Option DmaBuf
free_tag b = if b.dtag then (move 1 0 b >>= λ c. some (record c { dtag = false })) else some b

unfoldable pub free_dmabuf : DmaBuf → Option DmaBuf
unfolding free_map free_memory free_tag
free_dmabuf b = do b1 ← free_map b; b2 ← free_memory b1; free_tag b2

-- `memset(ring, 0xff, size)`
abbrev pub prime : DmaBuf → DmaBuf
prime b = record b { words = λ x. 0xffffffffffffffff }

-- The six allocations of the softc.
pub record Dma : Type 0 where
  pub evq : DmaBuf
  pub data_evq : DmaBuf
  pub tx_desc : DmaBuf
  pub rx_desc : DmaBuf
  pub tx_buffer : DmaBuf
  pub rx_buffer : DmaBuf

pub record DmaAnswers : Type 0 where
  pub evq : DmaAnswer
  pub data_evq : DmaAnswer
  pub tx_desc : DmaAnswer
  pub rx_desc : DmaAnswer
  pub tx_buffer : DmaAnswer
  pub rx_buffer : DmaAnswer

-- The labels that a failure jumps to, each of which falls through to the next.
unfoldable pub fail_evq : ℕ → Dma → Option (ℕ × Dma)
fail_evq error d = do b ← free_dmabuf d.evq; some (error, record d { evq = b })

unfoldable pub fail_data_evq : ℕ → Dma → Option (ℕ × Dma)
fail_data_evq error d = do b ← free_dmabuf d.data_evq; fail_evq error (record d { data_evq = b })

unfoldable pub fail_txd : ℕ → Dma → Option (ℕ × Dma)
fail_txd error d = do b ← free_dmabuf d.tx_desc; fail_data_evq error (record d { tx_desc = b })

unfoldable pub fail_rxd : ℕ → Dma → Option (ℕ × Dma)
fail_rxd error d = do b ← free_dmabuf d.rx_desc; fail_txd error (record d { rx_desc = b })

unfoldable pub fail_txb : ℕ → Dma → Option (ℕ × Dma)
fail_txb error d = do b ← free_dmabuf d.tx_buffer; fail_rxd error (record d { tx_buffer = b })

-- `error = sfc7120_alloc_dmabuf(…); if (error != 0) goto fail;`
unfoldable pub or_goto :
    Option (ℕ × DmaBuf)
    → (DmaBuf → Dma)
    → (ℕ → Dma → Option (ℕ × Dma))
    → (Dma → Option (ℕ × Dma))
    → Option (ℕ × Dma)
or_goto r put fail next = do
  (error, b) ← r
  if not (error == 0) then fail error (put b) else next (put b)

-- `sfc7120_alloc_dma_resources`, from its last allocation back to the first.
unfoldable pub alloc_rx_buffer : DmaAnswers → Dma → Option (ℕ × Dma)
alloc_rx_buffer a d =
    or_goto (alloc_dmabuf a.rx_buffer d.rx_buffer) (λ b. record d { rx_buffer = b }) fail_txb
      (λ d. some (0, d))

unfoldable pub alloc_tx_buffer : DmaAnswers → Dma → Option (ℕ × Dma)
alloc_tx_buffer a d =
    or_goto (alloc_dmabuf a.tx_buffer d.tx_buffer) (λ b. record d { tx_buffer = b }) fail_rxd
      (alloc_rx_buffer a)

unfoldable pub alloc_rx_desc : DmaAnswers → Dma → Option (ℕ × Dma)
alloc_rx_desc a d =
    or_goto (alloc_dmabuf a.rx_desc d.rx_desc) (λ b. record d { rx_desc = b }) fail_txd
      (alloc_tx_buffer a)

unfoldable pub alloc_tx_desc : DmaAnswers → Dma → Option (ℕ × Dma)
alloc_tx_desc a d =
    or_goto (alloc_dmabuf a.tx_desc d.tx_desc) (λ b. record d { tx_desc = b }) fail_data_evq
      (alloc_rx_desc a)

unfoldable pub alloc_data_evq : DmaAnswers → Dma → Option (ℕ × Dma)
alloc_data_evq a d =
    or_goto (alloc_dmabuf a.data_evq d.data_evq) (λ b. record d { data_evq = b }) fail_evq
      (λ d. alloc_tx_desc a (record d { data_evq = prime d.data_evq }))

unfoldable pub alloc_dma_resources : DmaAnswers → Dma → Option (ℕ × Dma)
alloc_dma_resources a d =
    or_goto (alloc_dmabuf a.evq d.evq) (λ b. record d { evq = b }) (λ e d. some (e, d))
      (λ d. alloc_data_evq a (record d { evq = prime d.evq }))

unfoldable pub free_dma_resources : Dma → Option Dma
free_dma_resources d = do
  rx_buffer ← free_dmabuf d.rx_buffer
  tx_buffer ← free_dmabuf d.tx_buffer
  rx_desc ← free_dmabuf d.rx_desc
  tx_desc ← free_dmabuf d.tx_desc
  data_evq ← free_dmabuf d.data_evq
  evq ← free_dmabuf d.evq
  some (record {
    evq = evq;
    data_evq = data_evq;
    tx_desc = tx_desc;
    rx_desc = rx_desc;
    tx_buffer = tx_buffer;
    rx_buffer = rx_buffer;
  })
