-- ===== src/Capio/Types.antt =====
-- The data of capio.h, and what the framework uses of CHERI and of the driver below it.
use Prim.Native.String.{String}
use solarflare_capio_kernel.Base.{ℕ, ◌≡◌, ◌↔◌, Bool, true, Option, some, List}

-- The capability instructions that capio.c uses. NULL is the `none` of an `Option Cap`; sealing
-- with a key and unsealing with the same key gives the capability back.
pub record Cheri (Cap : Type 0) : Type 0 where
  pub seal : Cap → Option Cap → Cap
  pub unseal : Cap → Option Cap → Cap
  pub ptr_equal_exact : Cap → Cap → Bool
  pub get_tag : Cap → Bool
  pub unseal-seal : (c k : Cap) → unseal (seal c (some k)) (some k) ≡ c
  pub ptr_equal_exact_iff : (a b : Cap) → (ptr_equal_exact a b ≡ true) ↔ (a ≡ b)

-- `slice_def_t`
pub record SliceDef : Type 0 where
  pub offset : ℕ
  pub name : String
  pub read_only : Bool
  pub len : ℕ

-- `shared_mem_region_t`, without the fields that capio.c never reads (`vm_object_handle` and
-- `memattr`). `slice_definitions` is the array that the pointer names.
pub record Region : Type 0 where
  pub kind : ℕ
  pub is_physical : Bool
  pub addr : ℕ
  pub paddr : ℕ
  pub offset : ℕ
  pub len : ℕ
  pub mapped : Bool
  pub is_sliced : Bool
  pub slice_definitions : List SliceDef
  pub slice_def_len : ℕ

-- `capio_softc_t`, with `sealed_cap_state_t` written out; `locked` is the state of `cap_mtx`.
pub record Softc (Cap : Type 0) : Type 0 where
  pub sealing_key : Option Cap
  pub original_cap : Option Cap
  pub sealed_cap : Option Cap
  pub locked : Bool
  pub mapped : Bool
  pub regions : List Region

-- `cap_req_t`
pub record CapReq (Cap : Type 0) : Type 0 where
  pub user_cap : Option Cap
  pub sealed_cap : Option Cap

-- `capio_ops_t`: what the framework asks of the driver, whose state is `D`.
pub record Ops (D : Type 0) : Type 0 where
  pub is_dying : D → Bool
  pub get_buffer_size : D → ℕ → ℕ
  pub ioctl : ℕ → D → ℕ × D
