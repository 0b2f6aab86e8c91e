-- ===== src/Lifecycle/Vector.antt =====
-- The interrupt resources: all of them or none, and none after a teardown.
use solarflare_capio_kernel.Base.{
  ℕ, true, false, Option, some, ◌==◌, ◌≡◌, ◌≢◌, refl, arith, Bool-cases, inl, inr,
}
use solarflare_capio_kernel.Base.Errno.{enxio, enomem}
use solarflare_capio_kernel.Lifecycle.Interrupt.{Intr, IntrAnswer, intr_setup, intr_teardown}

-- No field and no call holds anything.
abbrev pub no_intr : Intr
no_intr = record {
  msix_bar_resource = false;
  msix_nvec = 0;
  irq_resource = false;
  irq_handle = false;
  intr_initialized = false;
  bar_held = false;
  vectors_held = false;
  irq_held = false;
  handler_held = false;
}

-- One vector with the handler installed.
abbrev pub one_intr : Intr
one_intr = record {
  msix_bar_resource = true;
  msix_nvec = 1;
  irq_resource = true;
  irq_handle = true;
  intr_initialized = true;
  bar_held = true;
  vectors_held = true;
  irq_held = true;
  handler_held = true;
}

pub record SetUp (r : Option (ℕ × Intr)) : Type 0 where
  pub status : ℕ
  pub intr : Intr
  pub returns : r ≡ some (status, intr)
  pub good : status ≡ 0 → intr ≡ one_intr
  pub bad : status ≢ 0 → intr ≡ no_intr

refused : (error : ℕ) → error ≢ 0 → SetUp (some (error, no_intr))
refused error ne = record {
  status = error;
  intr = no_intr;
  returns = refl;
  good = λ z. absurd (ne z);
  bad = λ _. refl;
}

-- The setup calls the bus only as it allows, and ends with one vector whose handler is installed,
-- or, after a failure at any step, with nothing held.
pub intr_setup-SetUp : (a : IntrAnswer) → SetUp (intr_setup a no_intr)
unfolding intr_setup
intr_setup-SetUp a = elim (Bool-cases (a.msix_count == 0)) [
  | inl e ↦ rw e (refused enxio (omega arith))
  | inr e1 ↦ elim (Bool-cases a.bar) [
    | inr e ↦ rw (e1, e) (refused enomem (omega arith))
    | inl e2 ↦ elim (Bool-cases (a.alloc_error == 0)) [
      | inr e ↦ rw (e1, e2, e) (refused a.alloc_error (ground arith))
      | inl e3 ↦ elim (Bool-cases (a.granted == 1)) [
        | inr e ↦ rw (e1, e2, e3, e) (refused enxio (omega arith))
        | inl e4 ↦ elim (Bool-cases a.irq) [
          | inr e ↦ rw (e1, e2, e3, e4, e) (refused enomem (omega arith))
          | inl e5 ↦ elim (Bool-cases (a.setup_error == 0)) [
            | inr e ↦ rw (e1, e2, e3, e4, e5, e) (refused a.setup_error (ground arith))
            | inl e6 ↦
                rw (e1, e2, e3, e4, e5, e6)
                  (record {
                    status = 0;
                    intr = one_intr;
                    returns = refl;
                    good = λ _. refl;
                    bad = λ ne. absurd (ne refl);
                  })
          ]
        ]
      ]
    ]
  ]
]

-- The teardown undoes a setup, and does nothing where there was none.
pub intr_teardown_lem :
    (intr_teardown one_intr ≡ some no_intr) × (intr_teardown no_intr ≡ some no_intr)
unfolding intr_teardown
intr_teardown_lem = (refl, refl)
