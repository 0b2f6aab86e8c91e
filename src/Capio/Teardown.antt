-- ===== src/Capio/Teardown.antt =====
-- What revoking the token does to the table of regions.
use solarflare_capio_kernel.Capio.Region.{find_region, slice_length_callback, sizes_of}
use mathlib.Core.Path.{subst}
use mathlib.Core.List.{append_assoc}
use solarflare_capio_kernel.Base.{
  ℕ, ◌≡◌, refl, ap, ◌∙◌, false, none, some, List, [], ◌∷◌, ◌++◌, map, ◌==◌, length, if◌then◌else◌,
  arith, ◌≢◌,
}
use solarflare_capio_kernel.Base.Buffer.{get_elem?-length, length-append}
use solarflare_capio_kernel.Capio.Types.{Region, Softc}
use solarflare_capio_kernel.Capio.Act.{>>=-eq-some, unlocked_eta, ◌>>=◌}
use solarflare_capio_kernel.Capio.Revoke.{
  Vm, delete_mapping_from_user, clear_offset, finish_region, revoke_region, revoke_loop,
  revoke_cap_token,
}

-- The entry after the loop: its offset is cleared if the mapping went away.
abbrev pub release : Vm → Region → Region
release vm r =
    if r.offset == 0
    then r
    else if delete_mapping_from_user vm r.offset r.len == 0
    then record r { offset = 0 }
    else r

-- The status after an entry, from the status before it.
abbrev pub next_error : Vm → ℕ → Region → ℕ
next_error vm error r = if r.offset == 0 then error else delete_mapping_from_user vm r.offset r.len

abbrev pub last_error : Vm → ℕ → List Region → ℕ
last_error vm error [] = error
last_error vm error (r ∷ rs) = last_error vm (next_error vm error r) rs

-- A softc whose lock is free and whose table is `rs`.
abbrev pub with_regions : {Cap : Type 0} → Softc Cap → List Region → Softc Cap
with_regions s rs = record s { locked = false; regions = rs }

clear_offset-length :
    (ps : List Region) (r : Region) (rs : List Region)
    → clear_offset (length ps) (ps ++ r ∷ rs) ≡ ps ++ record r { offset = 0 } ∷ rs
unfolding clear_offset
clear_offset-length [] r rs = refl
clear_offset-length (p ∷ ps) r rs = ap (λ l. p ∷ l) (clear_offset-length ps r rs)

module _ {Cap : Type 0} (vm : Vm) (s : Softc Cap) where
  revoke_region_lem :
      (ps : List Region) (r : Region) (rs : List Region) (error : ℕ)
      → revoke_region vm (length ps) error (some r) (with_regions s (ps ++ r ∷ rs))
        ≡ some (next_error vm error r, with_regions s (ps ++ release vm r ∷ rs))
  unfolding revoke_region finish_region
  revoke_region_lem ps r rs error = ground (arith, clear_offset-length ps r rs)

  revoke_loop_lem :
      (ps rs : List Region) (error : ℕ)
      → revoke_loop vm (length rs) (length ps) error (with_regions s (ps ++ rs))
        ≡ some (last_error vm error rs, with_regions s (ps ++ map (release vm) rs))
  unfolding revoke_loop
  revoke_loop_lem ps [] error = refl
  revoke_loop_lem ps (r ∷ rs) error = rw (get_elem?-length ps r rs) (
      >>=-eq-some (revoke_region vm (length ps) error (some r)) _ (revoke_region_lem ps r rs error)
      ∙ (rw
          (
            length-append ps (release vm r ∷ []),
            append_assoc ps (release vm r ∷ []) rs,
            append_assoc ps (release vm r ∷ []) (map (release vm) rs),
          )
          at (revoke_loop_lem (ps ++ (release vm r ∷ [])) rs (next_error vm error r))))

module _ {Cap : Type 0} (vm : Vm) where
  abbrev pub revoked : Softc Cap → Softc Cap
  revoked s = record s {
    original_cap = none;
    sealed_cap = none;
    locked = false;
    regions = map (release vm) s.regions;
  }

  -- From a free lock, revoking clears both halves of the token, releases every region in order
  -- and returns the status of the last deletion that it made; the lock is free again.
  pub revoke_cap_token_lem :
      (s : Softc Cap)
      → s.locked ≡ false
      → revoke_cap_token vm s ≡ some (last_error vm 0 s.regions, revoked s)
  unfolding revoke_cap_token
  revoke_cap_token_lem s free =
      subst (λ t. revoke_cap_token vm t ≡ some (last_error vm 0 t.regions, revoked t))
        (unlocked_eta s free)
        (revoke_loop_lem vm (record s { original_cap = none; sealed_cap = none }) [] s.regions 0)

sizes_of-release :
    (vm : Vm) (kind : ℕ) (rs : List Region)
    → sizes_of (find_region kind (map (release vm) rs)) ≡ sizes_of (find_region kind rs)
unfolding find_region sizes_of
sizes_of-release vm kind [] = refl
sizes_of-release vm kind (r ∷ rs) = ground (arith, sizes_of-release vm kind rs)

last_error-append :
    (vm : Vm) (error : ℕ) (ps : List Region) (r : Region)
    → r.offset ≢ 0
    → last_error vm error (ps ++ r ∷ []) ≡ delete_mapping_from_user vm r.offset r.len
last_error-append vm error [] r h = ground arith
last_error-append vm error (p ∷ ps) r h = last_error-append vm (next_error vm error p) ps r h

module _ {Cap : Type 0} (vm : Vm) where
  -- Revoking a token from a free lock and then asking for the sizes of a region gives the sizes
  -- that the region had before: a later attach can map it again.
  pub revoke_keeps_sizes :
      (s : Softc Cap) (kind : ℕ)
      → s.locked ≡ false
      → (revoke_cap_token vm >>= λ _. slice_length_callback kind) s
        ≡ some (sizes_of (find_region kind s.regions), revoked vm s)
  unfolding slice_length_callback
  revoke_keeps_sizes s kind free =
      >>=-eq-some (revoke_cap_token vm) _ (revoke_cap_token_lem vm s free)
      ∙ rw (sizes_of-release vm kind s.regions)

  -- The status keeps only the last deletion: where the first region's mapping could not be
  -- removed and the last region's could, the call returns 0 and the first region keeps its offset.
  pub revoke_hides_error :
      (s : Softc Cap) (p : Region) (ps : List Region) (r : Region)
      → s.locked ≡ false
      → s.regions ≡ p ∷ (ps ++ r ∷ [])
      → p.offset ≢ 0
      → delete_mapping_from_user vm p.offset p.len ≢ 0
      → r.offset ≢ 0
      → delete_mapping_from_user vm r.offset r.len ≡ 0
      → (revoke_cap_token vm s ≡ some (0, revoked vm s))
        × ((revoked vm s).regions ≡ p ∷ map (release vm) (ps ++ r ∷ []))
  revoke_hides_error s p ps r free e hp dp hr dr = (
    revoke_cap_token_lem vm s free ∙ rw (e, last_error-append vm (next_error vm 0 p) ps r hr, dr),
    rw e (ground arith),
  )
