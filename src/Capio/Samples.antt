-- ===== src/Capio/Samples.antt =====
-- Capabilities that are numbers, a framework softc and its owner, for the examples.
use solarflare_capio_kernel.Capio.Session.{IsIdle}
use solarflare_capio_kernel.Capio.Revoke.{Vm}
use solarflare_capio_kernel.Capio.Types.{Cheri, Ops, Softc, CapReq, Region}
use solarflare_capio_kernel.Base.{
  ℕ, Bool, some, ◌==◌, if◌then◌else◌, true, ◌∷◌, refl, ==_iff, false, none, [],
}
use Prim.Native.Nat.{ℕ}

abbrev pub numbers : Cheri ℕ
numbers = record {
  seal = λ c k. c;
  unseal = λ t k. t;
  ptr_equal_exact = λ a b. a == b;
  get_tag = λ c. true;
  unseal-seal = λ c k. refl;
  ptr_equal_exact_iff = λ a b. ==_iff a b;
}

-- The driver's state says whether it is dying; its one region has 4096 bytes.
abbrev pub driver_ops : Ops Bool
driver_ops = record {
  is_dying = λ d. d;
  get_buffer_size = λ d kind. if kind == 1 then 4096 else 0;
  ioctl = λ n d. (0, d);
}

abbrev pub region_of : ℕ → ℕ → Region
region_of kind offset = record {
  kind = kind;
  is_physical = false;
  addr = 65536;
  paddr = 0;
  offset = offset;
  len = 4096;
  mapped = false;
  is_sliced = false;
  slice_definitions = [];
  slice_def_len = 0;
}

abbrev pub fresh : Softc ℕ
fresh = record {
  sealing_key = some 7;
  original_cap = none;
  sealed_cap = none;
  locked = false;
  mapped = false;
  regions = region_of 1 0 ∷ [];
}

abbrev pub owned : Softc ℕ
owned = record fresh { original_cap = some 5; sealed_cap = some 5 }

abbrev pub token_req : CapReq ℕ
token_req = record { user_cap = some 5; sealed_cap = some 5 }

-- A process whose mapping at 100 cannot be removed.
abbrev pub vm : Vm
vm = record { has_vmspace = true; lookup = λ a. 0; remove = λ a b. if a == 100 then 5 else 0 }

pub owned-IsIdle : IsIdle numbers owned
owned-IsIdle = record { free = refl; linked = refl }
