-- ===== src/User/Opened.antt =====
-- `sfc7120_init`: a session that is open, or nothing held but what could not be unmapped.
use solarflare_capio_kernel.User.Steps.{Opened, or_fail-Opened, init_regions-Opened}
use solarflare_capio_kernel.Base.{ℕ, true, false, none, ◌≡◌, ◌∙◌, sym, refl, not_if-elim}
use solarflare_capio_kernel.User.Session.{Session, InitAnswer, reset, or_fail, init}
use solarflare_capio_kernel.User.Balance.{Clean, destroy_faults}

-- A structure that holds nothing, whatever its other fields hold, but for the token's pointer.
pub record Blank (s : Session) : Type 0 where
  pub fd : s.fd_held ≡ false
  pub modmap : s.modmap_held ≡ false
  pub token_held : s.token_held ≡ false
  pub slices : s.slices_held ≡ false
  pub maps : (i : ℕ) → s.map_held i ≡ false
  pub cap_token : s.cap_token ≡ false

-- An init of a structure that holds nothing, whose token pointer is NULL, faults nowhere. When it
-- returns 0 the session is open: the six regions are mapped, the fields tell what is held, and the
-- heads and the read pointer are those that the kernel told. When it returns -1, at whatever step,
-- nothing is held any more but the mappings whose munmap failed on the way back.
pub init-Opened : (a : InitAnswer) (s : Session) → Blank s → Opened a (init a s)
unfolding init reset
init-Opened a s b =
    not_if-elim (Opened a) a.open_device _ _
      (λ _. record {
        ok = false;
        session = reset s;
        returns = refl;
        good = λ h. absurd (cc (h));
        bad = λ _. record {
          fd = b.fd;
          modmap = b.modmap;
          token = b.token_held;
          slices = b.slices;
          maps = λ i lt. rw (b.maps i) refl;
        };
      })
      (λ _.
        or_fail-Opened a _ _
          (record {
            fd = refl;
            modmap = refl;
            token = b.token_held ∙ sym b.cap_token;
            slices = b.slices;
            maps = b.maps;
          })
          λ _.
            or_fail-Opened a _ _
              (record { fd = refl; modmap = refl; token = refl; slices = b.slices; maps = b.maps })
              λ _.
                or_fail-Opened a _ _
                  (record {
                    fd = refl;
                    modmap = refl;
                    token = refl;
                    slices = b.slices;
                    maps = b.maps;
                  })
                  λ _. init_regions-Opened a _ (record {
                    fd = refl;
                    modmap = refl;
                    token = refl;
                    slices = b.slices;
                    maps = b.maps;
                  }))

-- An init that finds no modmap device faults when the structure came with another value than NULL
-- in the token's pointer, which init does not set: the way back frees that pointer.
pub init_faults :
    (a : InitAnswer) (s : Session)
    → Clean a.unmap s
    → ((i : ℕ) → s.map_held i ≡ false)
    → s.cap_token ≡ true
    → a.open_device ≡ true
    → a.open_modmap ≡ false
    → init a s ≡ none
unfolding init reset or_fail
init_faults a s clean maps garbage found missing =
    let s1 = record (reset s) {
      fd = true;
      fd_held = true;
      modmap_fd = false;
      modmap_held = false;
    } in
    rw (found, missing, destroy_faults a.unmap s1 maps clean.slices garbage clean.token) refl
