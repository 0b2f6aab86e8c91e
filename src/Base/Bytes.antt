-- ===== src/Base/Bytes.antt =====
-- `memcpy` between bytes and little-endian words, as on the little-endian host that the driver
-- runs on.
use solarflare_capio_kernel.Base.{ap}
use Prim.Native.Nat.{ℕ, zero, suc, ◌+◌, ◌*◌, ◌/◌, ◌%◌, ◌<◌, ◌≤◌, ◌^◌}
use mathlib.Core.Path.{◌≡◌, refl, ◌∙◌, ap}
use mathlib.Core.Logic.{◌⊎◌, inl}
use native.Mathlib.Nat.{pow-suc}
use native.Mathlib.Omega.{arith}
use solarflare_capio_kernel.Base.Buffer.{Buffer, update, update_self}

-- The word whose low `n` bytes are those at `a`, and whose other bytes are 0.
unfoldable pub load_bytes : ℕ → Buffer → ℕ → ℕ
load_bytes zero m a = 0
load_bytes (suc n) m a = m a + 256 * load_bytes n m (a + 1)

-- The low `n` bytes of `v`, stored at `a`.
unfoldable pub store_bytes : ℕ → Buffer → ℕ → ℕ → Buffer
store_bytes zero m a v = m
store_bytes (suc n) m a v = store_bytes n (update m a (v % 256)) (a + 1) (v / 256)

abbrev pub IsBytes : Buffer → Type 0
IsBytes m = (a : ℕ) → m a < 256

pub store_bytes_frame :
    (n : ℕ) (m : Buffer) (a v x : ℕ) → (x < a) ⊎ (a + n ≤ x) → store_bytes n m a v x ≡ m x
unfolding store_bytes
store_bytes_frame zero m a v x h = refl
store_bytes_frame (suc n) m a v x h =
    ground (arith, store_bytes_frame n (update m a (v % 256)) (a + 1) (v / 256) x)

pub load_bytes-lt : (n : ℕ) (m : Buffer) (a : ℕ) → IsBytes m → load_bytes n m a < 256 ^ n
unfolding load_bytes
load_bytes-lt zero m a h = omega arith
load_bytes-lt (suc n) m a h = omega (arith, h a, load_bytes-lt n m (a + 1) h, pow-suc 256 n)

rest :
    (k : ℕ) (src : Buffer) (b : ℕ)
    → IsBytes src
    → (src b + 256 * load_bytes k src (b + 1)) / 256 ≡ load_bytes k src (b + 1)
rest k src b h = omega (arith, h b)

-- A copy of `k` bytes through a word, of which `n` bytes are stored, gives those bytes.
pub store-load_bytes :
    (n k : ℕ) (m src : Buffer) (a b j x y : ℕ)
    → IsBytes src
    → j < n
    → x ≡ a + j
    → y ≡ b + j
    → j < k
    → store_bytes n m a (load_bytes k src b) x ≡ src y
unfolding store_bytes load_bytes
store-load_bytes n zero m src a b j x y h le ex ey lt = absurd (omega arith)
store-load_bytes zero (suc k) m src a b j x y h le ex ey lt = absurd (omega arith)
store-load_bytes (suc n) (suc k) m src a b zero x y h le ex ey lt =
    store_bytes_frame n (update m a ((src b + 256 * load_bytes k src (b + 1)) % 256)) (a + 1)
      ((src b + 256 * load_bytes k src (b + 1)) / 256) x (inl (omega arith))
    ∙ ground (arith, h b)
store-load_bytes (suc n) (suc k) m src a b (suc j) x y h le ex ey lt = rw (rest k src b h) (
    store-load_bytes n k (update m a ((src b + 256 * load_bytes k src (b + 1)) % 256)) src (a + 1)
      (b + 1) j x y h (omega arith) (omega arith) (omega arith) (omega arith))

-- The rest of the word is 0.
pub store-load_bytes_pad :
    (n k : ℕ) (m src : Buffer) (a b j x : ℕ)
    → IsBytes src
    → x ≡ a + j
    → k ≤ j
    → j < n
    → store_bytes n m a (load_bytes k src b) x ≡ 0
unfolding store_bytes load_bytes
store-load_bytes_pad zero k m src a b j x h e le lt = absurd (omega arith)
store-load_bytes_pad (suc n) zero m src a b zero x h e le lt =
    store_bytes_frame n (update m a 0) (a + 1) 0 x (inl (omega arith)) ∙ ground arith
store-load_bytes_pad (suc n) zero m src a b (suc j) x h e le lt =
    store-load_bytes_pad n zero (update m a 0) src (a + 1) b j x h (omega arith) (omega arith)
      (omega arith)
store-load_bytes_pad (suc n) (suc k) m src a b zero x h e le lt = absurd (omega arith)
store-load_bytes_pad (suc n) (suc k) m src a b (suc j) x h e le lt = rw (rest k src b h) (
    store-load_bytes_pad n k (update m a ((src b + 256 * load_bytes k src (b + 1)) % 256)) src
      (a + 1) (b + 1) j x h (omega arith) (omega arith) (omega arith))

-- A word reads back as it was stored, cut to its width.
pub load-store_bytes :
    (n : ℕ) (m : Buffer) (a v : ℕ) → v < 256 ^ n → load_bytes n (store_bytes n m a v) a ≡ v
unfolding store_bytes load_bytes
load-store_bytes zero m a v h = omega (arith, h)
load-store_bytes (suc n) m a v h = omega (
  arith,
  store_bytes_frame n (update m a (v % 256)) (a + 1) (v / 256) a (inl (omega arith)),
  update_self m a (v % 256),
  load-store_bytes n (update m a (v % 256)) (a + 1) (v / 256) (omega (arith, pow-suc 256 n)),
)

-- A word is made of its bytes alone.
pub load_bytes-cong :
    (n : ℕ) (m m' : Buffer) (a : ℕ)
    → ((x : ℕ) → a ≤ x → x < a + n → m x ≡ m' x)
    → load_bytes n m a ≡ load_bytes n m' a
unfolding load_bytes
load_bytes-cong zero m m' a h = refl
load_bytes-cong (suc n) m m' a h = omega (
  arith,
  h a (omega arith) (omega arith),
  load_bytes-cong n m m' (a + 1) (λ x lo hi. h x (omega arith) (omega arith)),
)

pub load_bytes_shift :
    (n : ℕ) (m : Buffer) (o i : ℕ) → load_bytes n (λ x. m (o + x)) i ≡ load_bytes n m (o + i)
unfolding load_bytes
load_bytes_shift zero m o i = refl
load_bytes_shift (suc n) m o i =
    ap (λ w. m (o + i) + 256 * w)
      (load_bytes_shift n m o (i + 1) ∙ ap (load_bytes n m) (omega arith))
