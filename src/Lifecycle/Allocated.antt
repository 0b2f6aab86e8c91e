-- ===== src/Lifecycle/Allocated.antt =====
-- The DMA allocations are made all or none, and are given back.
use solarflare_capio_kernel.Base.{
  ℕ, true, false, Option, some, ◌==◌, ◌≡◌, ◌≢◌, refl, inl, inr, arith, Bool-cases,
}
use solarflare_capio_kernel.Lifecycle.Dma.{
  DmaBuf, DmaAnswer, dma_cb, loaded_at, alloc_dmabuf, load_dmabuf, free_dmabuf,
}

-- Nothing is held and the fields say so.
pub record IsEmpty (b : DmaBuf) : Type 0 where
  pub dtag : b.dtag ≡ false
  pub vaddr : b.vaddr ≡ 0
  pub paddr : b.paddr ≡ 0
  pub stage : b.stage ≡ 0

-- Memory is loaded and the fields say so.
pub record IsLoaded (b : DmaBuf) : Type 0 where
  pub dtag : b.dtag ≡ true
  pub vaddr : b.vaddr ≢ 0
  pub paddr : b.paddr ≢ 0
  pub stage : b.stage ≡ 3

-- What the code takes for granted of the bus: memory is not at NULL, and a load that works stores
-- an address, which is not 0.
pub record IsSane (a : DmaAnswer) : Type 0 where
  pub placed : a.vaddr ≢ 0
  pub addressed : a.load_error ≡ 0 → loaded_at a ≢ 0

-- The result of an allocation.
pub record Allocated (r : Option (ℕ × DmaBuf)) : Type 0 where
  pub status : ℕ
  pub buffer : DmaBuf
  pub returns : r ≡ some (status, buffer)
  pub good : status ≡ 0 → IsLoaded buffer
  pub zeroed : status ≡ 0 → (x : ℕ) → buffer.words x ≡ 0
  pub bad : status ≢ 0 → IsEmpty buffer

refused : (error : ℕ) (b : DmaBuf) → error ≢ 0 → IsEmpty b → Allocated (some (error, b))
refused error b ne e = record {
  status = error;
  buffer = b;
  returns = refl;
  good = λ z. absurd (ne z);
  zeroed = λ z. absurd (ne z);
  bad = λ _. e;
}

-- Memory that is held and not loaded.
record IsHeld (a : DmaAnswer) (b : DmaBuf) : Type 0 where
  dtag : b.dtag ≡ true
  vaddr : b.vaddr ≡ a.vaddr
  stage : b.stage ≡ 2

no_address : (error nseg ds_addr : ℕ) → error ≢ 0 → dma_cb error nseg ds_addr ≡ 0
unfolding dma_cb
no_address error nseg ds_addr ne = ground (arith, ne)

load_dmabuf-Allocated :
    (a : DmaAnswer) (b : DmaBuf)
    → IsSane a
    → IsHeld a b
    → ((x : ℕ) → b.words x ≡ 0)
    → Allocated (load_dmabuf a b)
unfolding load_dmabuf
load_dmabuf-Allocated a b s h zero_words = elim (Bool-cases (a.load_error == 0)) [
  | inr bad ↦
      rw (h.stage, bad)
        (refused a.load_error (record b { paddr = loaded_at a; vaddr = 0; dtag = false; stage = 0 })
          (ground (arith, bad))
          (record {
            dtag = refl;
            vaddr = refl;
            paddr = no_address a.load_error a.nseg a.ds_addr (ground (arith, bad));
            stage = refl;
          }))
  | inl works ↦
      let ok : (loaded_at a == 0) ≡ false = ground (arith, s.addressed, works) in
      rw (h.stage, works, ok)
        (record {
          status = 0;
          buffer = record b { paddr = loaded_at a; stage = 3 };
          returns = refl;
          good = λ _. record {
            dtag = h.dtag;
            vaddr = λ z. s.placed (ground (arith, h.vaddr, z));
            paddr = ground (arith, ok);
            stage = refl;
          };
          zeroed = λ _. zero_words;
          bad = λ ne. absurd (ne refl);
        })
]

pub alloc_dmabuf-Allocated :
    (a : DmaAnswer) (b : DmaBuf) → IsSane a → IsEmpty b → Allocated (alloc_dmabuf a b)
unfolding alloc_dmabuf
alloc_dmabuf-Allocated a b s e = elim (Bool-cases (a.tag_error == 0)) [
  | inr bad ↦ rw bad (refused a.tag_error b (ground (arith, bad)) e)
  | inl ok ↦
      rw (ok, e.stage)
        (elim (Bool-cases (a.alloc_error == 0)) [
          | inr bad ↦ rw bad (
              refused a.alloc_error (record b { dtag = false; stage = 0 }) (ground (arith, bad))
                (record { dtag = refl; vaddr = e.vaddr; paddr = e.paddr; stage = refl }))
          | inl ok2 ↦ rw ok2 (
              load_dmabuf-Allocated a
                (record { dtag = true; vaddr = a.vaddr; paddr = 0; words = λ x. 0; stage = 2 }) s
                (record { dtag = refl; vaddr = refl; stage = refl }) (λ x. refl))
        ])
]

pub free_dmabuf-loaded :
    (b : DmaBuf) → IsLoaded b → (b' : DmaBuf) × (free_dmabuf b ≡ some b') × IsEmpty b'
unfolding free_dmabuf
free_dmabuf-loaded b l = (
  record b { paddr = 0; vaddr = 0; dtag = false; stage = 0 },
  ground (arith, l.dtag, l.vaddr, l.paddr, l.stage),
  record { dtag = refl; vaddr = refl; paddr = refl; stage = refl },
)

pub free_dmabuf-empty : (b : DmaBuf) → IsEmpty b → free_dmabuf b ≡ some b
unfolding free_dmabuf
free_dmabuf-empty b e = ground (arith, e.dtag, e.vaddr, e.paddr)
