-- ===== src/Driver/Channel.antt =====
-- The data path fields of `sfc7120_softc_t` (sfc7120.h), the requests of the driver's ioctls
-- (sfc7120_uapi.h), and an operation on those fields that may fault on the driver's mutex.
use solarflare_capio_kernel.Base.{
  ℕ, Bool, true, false, Option, none, some, List, if◌then◌else◌, ◌≡◌, sym,
}
use solarflare_capio_kernel.Base.Buffer.{Buffer}

-- `locked` is the state of `sc_mtx`. `doorbells` are the register writes, the last one first.
pub record Channel : Type 0 where
  pub locked : Bool
  pub mac_addr : Buffer
  pub vi_base : ℕ
  pub tx_buffer : Buffer
  pub tx_buffer_paddr : ℕ
  pub tx_desc_ring : Buffer
  pub tx_head : ℕ
  pub rx_buffer : Buffer
  pub rx_buffer_paddr : ℕ
  pub rx_desc_ring : Buffer
  pub rx_head : ℕ
  pub data_evq_ring : Buffer
  pub data_evq_read_ptr : ℕ
  pub doorbells : List (ℕ × ℕ)

-- What the code meets during one call: what the card has done to the event ring when the driver
-- synchronises before try `i`, and to the receive buffer; the status of copyin or copyout, and the
-- bytes that a copy has moved when it fails.
pub record World : Type 0 where
  pub events : ℕ → Buffer → Buffer
  pub packets : Buffer → Buffer
  pub copy_error : ℕ
  pub copied : ℕ

-- `sfc7120_tx_req_t`: `has_tag`, `may_load` and `cap_len` are what the CHERI instructions say of
-- `tx_buf_addr`, and `packet` the bytes behind it.
pub record TxReq : Type 0 where
  pub has_tag : Bool
  pub may_load : Bool
  pub cap_len : ℕ
  pub packet : Buffer
  pub length : ℕ
  pub status : ℕ

-- `sfc7120_rx_req_t`: `raw_buffer` is the memory that it points to. The code does not use `error`.
pub record RxReq : Type 0 where
  pub raw_buffer : Buffer
  pub length_received : ℕ
  pub status : ℕ

-- `sfc7120_vi_info_req_t`
pub record ViInfo : Type 0 where
  pub tx_buffer_paddr : ℕ
  pub rx_buffer_paddr : ℕ
  pub vi_base : ℕ
  pub evq_instance : ℕ
  pub rxq_instance : ℕ
  pub txq_instance : ℕ
  pub num_tx_desc : ℕ
  pub num_rx_desc : ℕ
  pub num_evq_entry : ℕ
  pub tx_head : ℕ
  pub rx_head : ℕ
  pub evq_read_ptr : ℕ

-- `sfc7120_evq_sync_req_t`
pub record EvqSync : Type 0 where
  pub evq_read_ptr : ℕ
  pub tx_head : ℕ
  pub rx_head : ℕ

-- The ioctl commands with their argument; `other` is any other command number.
pub data Command : Type 0 where
  get_mac : Buffer → Command
  get_vi_info : ViInfo → Command
  set_evq_rptr : EvqSync → Command
  tx : TxReq → Command
  rx : RxReq → Command
  other : ℕ → Command

-- `none` is a fault: taking the mutex while it is held, or dropping it while it is free.
abbrev pub Act : Type 0 → Type 0
Act A = Channel → Option (A × Channel)

infixl 5 ◌>>=◌ ◌>>◌
abbrev pub ◌>>=◌ : {A B : Type 0} → Act A → (A → Act B) → Act B
◌>>=◌ m f s = elim (m s) [ none ↦ none | some (a, s') ↦ f a s' ]

abbrev pub ◌>>◌ : {A B : Type 0} → Act A → Act B → Act B
m >> k = m >>= λ _. k

abbrev pub pure : {A : Type 0} → A → Act A
pure a s = some (a, s)

-- A part of the code that does not touch the mutex.
abbrev pub run : {A : Type 0} → (Channel → A × Channel) → Act A
run f s = some (f s)

abbrev pub modify : (Channel → Channel) → Act (Unit {0})
modify f s = some (tt, f s)

-- SFC7120_LOCK and SFC7120_UNLOCK
abbrev pub lock : Act (Unit {0})
lock s = if s.locked then none else some (tt, record s { locked = true })

abbrev pub unlock : Act (Unit {0})
unlock s = if s.locked then some (tt, record s { locked = false }) else none

-- `SFC7120_UNLOCK(sc); return r;`
abbrev pub unlock_return : {A : Type 0} → A → Act A
unlock_return r = unlock >> pure r

abbrev pub unlocked : Channel → Channel
unlocked s = record s { locked = false }

pub unlocked_eta : (s : Channel) → s.locked ≡ false → unlocked s ≡ s
unlocked_eta s h = λ i. record s { locked = sym h i }
