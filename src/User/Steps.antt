-- ===== src/User/Steps.antt =====
-- The steps of `sfc7120_init`: each goes on, or gives back what it can.
use solarflare_capio_kernel.Base.{
  ℕ, Bool, true, false, some, ◌≡◌, ◌∙◌, ap, refl, List, ◌∷◌, arith, inl, inr, Bool-cases,
}
use solarflare_capio_kernel.Data.Path.{copy_to}
use solarflare_capio_kernel.User.Session.{
  Session, RegionAnswer, InitAnswer, SysCall, get_mac, get_vi_info, map_region, Outcome, or_fail,
  init_mac, init_vi, init_region, init_regions,
}
use solarflare_capio_kernel.User.Balance.{Consistent, Clean, destroy-Destroyed}

abbrev pub Pointers : Type 0
Pointers = Bool × Bool × Bool × Bool × Bool × Bool

abbrev pub pointers : Session → Pointers
pointers s = (s.tx_buffer, s.rx_buffer, s.tx_desc_ring, s.rx_desc_ring, s.evq_ring, s.mmio_slices)

-- An open session: everything that the direct path uses is there, and the heads are the kernel's.
pub record Open (a : InitAnswer) (s : Session) : Type 0 where
  pub consistent : Consistent s
  pub mapped : pointers s ≡ (true, true, true, true, true, true)
  pub tx_head : s.tx_head ≡ a.tx_head
  pub rx_head : s.rx_head ≡ a.rx_head
  pub evq_read_ptr : s.evq_read_ptr ≡ a.evq_read_ptr
  pub vi_info : s.vi_info_valid ≡ true

pub record Opened (a : InitAnswer) (r : Outcome) : Type 0 where
  pub ok : Bool
  pub session : Session
  pub returns : r ≡ some (ok, session)
  pub good : ok ≡ true → Open a session
  pub bad : ok ≡ false → Clean a.unmap session

module _ (a : InitAnswer) where
  pub or_fail-Opened :
      (r : Bool × Session) (next : Session → Outcome)
      → Consistent r.1
      → (r.0 ≡ true → Opened a (next r.1))
      → Opened a (or_fail a r next)
  unfolding or_fail
  or_fail-Opened r next c later = elim (Bool-cases r.0) [
    | inl ok ↦ rw ok (later ok)
    | inr failed ↦
        let d = destroy-Destroyed a.unmap r.1 c in
        rw (failed, d.returns)
          (record {
            ok = false;
            session = d.session;
            returns = refl;
            good = λ h. absurd (cc);
            bad = λ _. d.clean;
          })
  ]

  -- Only fields that say nothing about what is held changed.
  pub same_held :
      (s : Session) (valid : Bool) (evq rx tx : ℕ) (calls : List SysCall)
      → Consistent s
      → Consistent (record s {
        vi_info_valid = valid;
        evq_read_ptr = evq;
        rx_head = rx;
        tx_head = tx;
        trace = calls;
      })
  same_held s valid evq rx tx calls c = record {
    fd = c.fd;
    modmap = c.modmap;
    token = c.token;
    slices = c.slices;
    maps = c.maps;
  }

  pub init_mac-Opened : (s : Session) → Open a s → Opened a (init_mac a s)
  unfolding init_mac
  init_mac-Opened s o =
      let c = o.consistent in
      let s' = record s { trace = get_mac ∷ s.trace } in
      or_fail-Opened (a.mac, s') _
        (same_held s s.vi_info_valid s.evq_read_ptr s.rx_head s.tx_head (get_mac ∷ s.trace) c)
        (λ _. record {
          ok = true;
          session = record s' { mac_addr = copy_to s'.mac_addr 0 a.mac_addr 6 };
          returns = refl;
          good = λ _. record {
            consistent = record {
              fd = c.fd;
              modmap = c.modmap;
              token = c.token;
              slices = c.slices;
              maps = c.maps;
            };
            mapped = o.mapped;
            tx_head = o.tx_head;
            rx_head = o.rx_head;
            evq_read_ptr = o.evq_read_ptr;
            vi_info = o.vi_info;
          };
          bad = λ h. absurd (cc (h));
        })

  pub init_vi-Opened :
      (s : Session)
      → Consistent s
      → pointers s ≡ (true, true, true, true, true, true)
      → Opened a (init_vi a s)
  unfolding init_vi
  init_vi-Opened s c m =
      let s' = record s { trace = get_vi_info ∷ s.trace } in
      or_fail-Opened (a.vi_info, s') _
        (same_held s s.vi_info_valid s.evq_read_ptr s.rx_head s.tx_head (get_vi_info ∷ s.trace) c)
        (λ _.
          init_mac-Opened
            (record s' {
              vi_info_valid = true;
              evq_read_ptr = a.evq_read_ptr;
              rx_head = a.rx_head;
              tx_head = a.tx_head;
            })
            (record {
              consistent =
                  same_held s true a.evq_read_ptr a.rx_head a.tx_head (get_vi_info ∷ s.trace) c;
              mapped = m;
              tx_head = refl;
              rx_head = refl;
              evq_read_ptr = refl;
              vi_info = refl;
            }))

  -- One region: what is held stays told, and a region that is not sliced sets no pointer itself.
  pub map_region-Consistent :
      (r : RegionAnswer) (kind : ℕ) (sliced : Bool) (s : Session)
      → Consistent s
      → Consistent (map_region r kind sliced s).1
  unfolding map_region
  map_region-Consistent r kind sliced s c = record {
    fd = ground (arith, c.fd);
    modmap = ground (arith, c.modmap);
    token = ground (arith, c.token);
    slices = ground (arith, c.slices);
    maps = λ i. ground (arith, c.maps i);
  }

  pub map_region-pointers :
      (r : RegionAnswer) (kind : ℕ) (s : Session)
      → pointers (map_region r kind false s).1 ≡ pointers s
  unfolding map_region
  map_region-pointers r kind s = ground arith

  pub map_region_slices :
      (r : RegionAnswer) (kind : ℕ) (s : Session)
      → (map_region r kind true s).0 ≡ true
      → pointers (map_region r kind true s).1
        ≡ (s.tx_buffer, s.rx_buffer, s.tx_desc_ring, s.rx_desc_ring, s.evq_ring, true)
  unfolding map_region
  map_region_slices r kind s ok = ground (arith, ok)

  pub init_region-Opened :
      (kind : ℕ) (set : Bool → Session → Session) (f : Bool → Pointers → Pointers)
      (next : Session → Outcome) (s : Session)
      → ((p : Bool) (t : Session) → pointers (set p t) ≡ f p (pointers t))
      → ((p : Bool) (t : Session) → Consistent t → Consistent (set p t))
      → Consistent s
      → ((t : Session) → Consistent t → pointers t ≡ f true (pointers s) → Opened a (next t))
      → Opened a (init_region a kind set next s)
  unfolding init_region
  init_region-Opened kind set f next s sets keeps c later =
      let r = map_region (a.region kind) kind false s in
      let c' = keeps r.0 r.1 (map_region-Consistent (a.region kind) kind false s c) in
      or_fail-Opened (r.0, set r.0 r.1) next c'
        λ ok. later (set r.0 r.1) c' (
          sets r.0 r.1
          ∙ ap (λ p. f p (pointers r.1)) ok
          ∙ ap (f true) (map_region-pointers (a.region kind) kind s))

  pub init_regions-Opened : (s : Session) → Consistent s → Opened a (init_regions a s)
  unfolding init_regions
  init_regions-Opened s c =
      init_region-Opened 0 (λ p s. record s { tx_buffer = p }) (λ p q. (p, q.1, q.2, q.3, q.4, q.5))
        _ s (λ p t. refl)
        (λ p t c. record {
          fd = c.fd;
          modmap = c.modmap;
          token = c.token;
          slices = c.slices;
          maps = c.maps;
        })
        c
        λ s0 c0 e0.
          init_region-Opened 1 (λ p s. record s { rx_buffer = p })
            (λ p q. (q.0, p, q.2, q.3, q.4, q.5)) _ s0 (λ p t. refl)
            (λ p t c. record {
              fd = c.fd;
              modmap = c.modmap;
              token = c.token;
              slices = c.slices;
              maps = c.maps;
            })
            c0
            λ s1 c1 e1.
              init_region-Opened 3 (λ p s. record s { tx_desc_ring = p })
                (λ p q. (q.0, q.1, p, q.3, q.4, q.5)) _ s1 (λ p t. refl)
                (λ p t c. record {
                  fd = c.fd;
                  modmap = c.modmap;
                  token = c.token;
                  slices = c.slices;
                  maps = c.maps;
                })
                c1
                λ s2 c2 e2.
                  init_region-Opened 4 (λ p s. record s { rx_desc_ring = p })
                    (λ p q. (q.0, q.1, q.2, p, q.4, q.5)) _ s2 (λ p t. refl)
                    (λ p t c. record {
                      fd = c.fd;
                      modmap = c.modmap;
                      token = c.token;
                      slices = c.slices;
                      maps = c.maps;
                    })
                    c2
                    λ s3 c3 e3.
                      init_region-Opened 5 (λ p s. record s { evq_ring = p })
                        (λ p q. (q.0, q.1, q.2, q.3, p, q.5)) _ s3 (λ p t. refl)
                        (λ p t c. record {
                          fd = c.fd;
                          modmap = c.modmap;
                          token = c.token;
                          slices = c.slices;
                          maps = c.maps;
                        })
                        c3
                        λ s4 c4 e4.
                          or_fail-Opened (map_region (a.region 2) 2 true s4) (init_vi a)
                            (map_region-Consistent (a.region 2) 2 true s4 c4)
                            λ ok.
                              init_vi-Opened (map_region (a.region 2) 2 true s4).1
                                (map_region-Consistent (a.region 2) 2 true s4 c4)
                                (map_region_slices (a.region 2) 2 s4 ok
                                  ∙ ground (arith, e0, e1, e2, e3, e4))
