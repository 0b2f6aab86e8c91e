-- ===== src/Capio/Act.antt =====
-- An operation on the CAPIO softc as a state transformer. `none` is a fault of the mutex: taking
-- `cap_mtx` while it is held (a self-deadlock), or dropping it while it is free.
use solarflare_capio_kernel.Base.{true, false, Option, none, some, if◌then◌else◌, ◌≡◌, sym}
use solarflare_capio_kernel.Capio.Types.{Softc}

abbrev pub Act : Type 0 → Type 0 → Type 0
Act Cap A = Softc Cap → Option (A × Softc Cap)

infixl 5 ◌>>=◌ ◌>>◌
abbrev pub ◌>>=◌ : {Cap A B : Type 0} → Act Cap A → (A → Act Cap B) → Act Cap B
◌>>=◌ m f s = elim (m s) [ none ↦ none | some (a, s') ↦ f a s' ]

abbrev pub ◌>>◌ : {Cap A B : Type 0} → Act Cap A → Act Cap B → Act Cap B
m >> k = m >>= λ _. k

abbrev pub pure : {Cap A : Type 0} → A → Act Cap A
pure a s = some (a, s)

abbrev pub gets : {Cap A : Type 0} → (Softc Cap → A) → Act Cap A
gets f s = some (f s, s)

abbrev pub modify : {Cap : Type 0} → (Softc Cap → Softc Cap) → Act Cap (Unit {0})
modify f s = some (tt, f s)

-- CAP_LOCK
abbrev pub cap_lock : {Cap : Type 0} → Act Cap (Unit {0})
cap_lock s = if s.locked then none else some (tt, record s { locked = true })

-- CAP_UNLOCK
abbrev pub cap_unlock : {Cap : Type 0} → Act Cap (Unit {0})
cap_unlock s = if s.locked then some (tt, record s { locked = false }) else none

-- The second half of a sequence runs where the first half ended.
pub >>=-eq-some :
    {Cap A B : Type 0} (m : Act Cap A) (f : A → Act Cap B) {s : Softc Cap} {a : A} {t : Softc Cap}
    → m s ≡ some (a, t)
    → (m >>= f) s ≡ f a t
>>=-eq-some m f h = rw (h, ◌>>=◌)

-- A softc whose lock is free.
abbrev pub unlocked : {Cap : Type 0} → Softc Cap → Softc Cap
unlocked s = record s { locked = false }

pub unlocked_eta : {Cap : Type 0} (s : Softc Cap) → s.locked ≡ false → unlocked s ≡ s
unlocked_eta s h = λ i. record s { locked = sym h i }
