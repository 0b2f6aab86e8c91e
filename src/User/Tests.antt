-- ===== src/User/Tests.antt =====
-- Examples for the session of the user library.
use solarflare_capio_kernel.Base.{ℕ, Bool, true, false, none, not, ◌==◌, ◌≡◌, refl}
use solarflare_capio_kernel.User.Session.{InitAnswer, RegionAnswer, init}
use solarflare_capio_kernel.User.Balance.{Destroyed, destroy-Destroyed}
use solarflare_capio_kernel.User.Steps.{Opened}
use solarflare_capio_kernel.User.Samples.{closed, opened}
use solarflare_capio_kernel.User.Opened.{init-Opened, init_faults}

-- The munmap of the third region fails.
abbrev third_fails : ℕ → Bool
third_fails i = not (i == 2)

destroy-Destroyed_example : Destroyed third_fails opened
destroy-Destroyed_example =
    destroy-Destroyed third_fails opened
      (record { fd = refl; modmap = refl; token = refl; slices = refl; maps = λ i. refl })

-- Everything works.
abbrev region_answer : RegionAnswer
region_answer = record { sizes = true; n_slices = 0; region_len = 4096; calloc = true; map = true }

abbrev answers : InitAnswer
answers = record {
  open_device = true;
  open_modmap = true;
  malloc = true;
  attach = true;
  region = λ i. region_answer;
  vi_info = true;
  evq_read_ptr = 3;
  rx_head = 4;
  tx_head = 5;
  mac = true;
  mac_addr = λ j. 1;
  unmap = third_fails;
}

init-Opened_example : Opened answers (init answers closed)
init-Opened_example = init-Opened answers closed (record {
  fd = refl;
  modmap = refl;
  token_held = refl;
  slices = refl;
  maps = λ i. refl;
  cap_token = refl;
})

init_faults_example :
    init (record answers { open_modmap = false }) (record closed { cap_token = true }) ≡ none
init_faults_example =
    init_faults (record answers { open_modmap = false }) (record closed { cap_token = true })
      (record { fd = refl; modmap = refl; token = refl; slices = refl; maps = λ i lt. refl })
      (λ i. refl) refl refl refl
