-- ===== src/Radio/Resetting.antt =====
-- What a reset of the radio leaves.
use ajou_etri_project.Base.{
  ℕ, suc, ◌+◌, ◌≡◌, refl, ap, ◌∙◌, Bool, true, false, Option, none, some, List, [], ◌∷◌, not, ◌>>=◌,
  length, Bool-cases, inl, inr, Ensures, Ensures-bind, Ensures-if, Ensures-any, Ensures-elim,
  Ensures-map, faults, ends, arith,
}
use mathlib.Core.Path.{ap₂}
use ajou_etri_project.Timer.{unlink, elem}
use ajou_etri_project.Settings.{Mib, trx}
use ajou_etri_project.Sender.{TxTimers, init_tx_timer, init_tx_operation, release_tx_operation}
use ajou_etri_project.Radio.{
  Answers, Radio, init_v2x_libs, read_addresses, access, start_sending, open_interfaces, reset,
}

-- All settings but the number of interfaces and their addresses.
abbrev pub choices : Mib → Mib
choices m = record m { if_num = 0; my_addr = [] }

-- A radio that is open, with the channels of these settings, the second one on the second interface.
pub record IsOpen (m : Mib) (r : Radio) : Type 0 where
  pub settings : choices r.mib ≡ choices m
  pub dot3_open : r.dot3 ≡ true
  pub wal_open : r.wal ≡ true
  pub channels :
      (l : List (ℕ × ℕ)) × (r.accessed ≡ (1, m.tx_chan_num2) ∷ (m.tx_if_idx, m.tx_chan_num) ∷ l)

timer_made :
    (arms : ℕ → Bool) (t : TxTimers) (o : Option ℕ)
    → (elim o as (λ _. Bool × TxTimers) [
      | none ↦ (false, t)
      | some i ↦ (arms i, record { live = i ∷ t.live; g_tx_timer = i })
    ]).0
      ≡ true
    → length
        (elim o as (λ _. Bool × TxTimers) [
          | none ↦ (false, t)
          | some i ↦ (arms i, record { live = i ∷ t.live; g_tx_timer = i })
        ]).1.live
      ≡ suc (length t.live)
timer_made arms t none e = absurd (cc)
timer_made arms t (some i) e = refl

init_tx_timer-length :
    (a : Answers) (t : TxTimers)
    → (init_tx_timer a.create a.arms t).0 ≡ true
    → length (init_tx_timer a.create a.arms t).1.live ≡ suc (length t.live)
unfolding init_tx_timer
init_tx_timer-length a t e = timer_made a.arms t (a.create t.live) e

no_truth : false ≡ true → ⊥
no_truth e = absurd (cc)

init_tx_operation-length :
    (a : Answers) (t : TxTimers)
    → (init_tx_operation a.create a.arms t).0 ≡ true
    → length (init_tx_operation a.create a.arms t).1.live ≡ 2 + length t.live
unfolding init_tx_operation
init_tx_operation-length a t e = elim (Bool-cases (init_tx_timer a.create a.arms t).0) [
  | inl b ↦
      let h = init_tx_timer-length a t b in
      rw b (init_tx_timer-length a (init_tx_timer a.create a.arms t).1 (rw b at e) ∙ omega arith)
  | inr b ↦ absurd (no_truth (rw b at e))
]

length-release : (i : ℕ) (l : List ℕ) → elem i l ≡ true → suc (length (unlink i l)) ≡ length l
unfolding unlink
length-release i [] e = absurd (cc)
length-release i (j ∷ l) e = ground (arith, length-release i l)

module _ (a : Answers) where
  start_sending-length :
      (r : Radio)
      → r.mib.op ≡ trx
      → Ensures
          (λ s.
            (s.mib ≡ r.mib)
            × (s.dot3 ≡ r.dot3)
            × (s.wal ≡ r.wal)
            × (s.accessed ≡ r.accessed)
            × (length s.tx_timers.live ≡ 2 + length r.tx_timers.live))
          (start_sending a r)
  unfolding start_sending
  start_sending-length r e =
      rw e (elim (Bool-cases (init_tx_operation a.create a.arms r.tx_timers).0) [
        | inl b ↦ rw b (ends (refl, refl, refl, refl, init_tx_operation-length a r.tx_timers b))
        | inr b ↦ rw b faults
      ])

  -- What the libraries' start leaves alone.
  init-Opens :
      (r : Radio)
      → Ensures
          (λ s.
            (choices s.mib ≡ choices r.mib)
            × (s.dot3 ≡ true)
            × (s.wal ≡ true)
            × (s.accessed ≡ r.accessed)
            × (s.tx_timers ≡ r.tx_timers))
          (init_v2x_libs a r)
  unfolding init_v2x_libs
  init-Opens r =
      Ensures-if (not a.dot3_init) faults
        (Ensures-elim a.wal_open faults (λ n. ends (refl, refl, refl, refl, refl)))

  access-eq :
      (i c : ℕ) (r : Radio)
      → Ensures (λ s. s ≡ record r { accessed = (i, c) ∷ r.accessed }) (access a i c r)
  unfolding access
  access-eq i c r = Ensures-if (a.access_channel i c) (ends refl) faults

  open_interfaces-IsOpen :
      (r : Radio)
      → r.mib.op ≡ trx
      → Ensures
          (λ s. IsOpen r.mib s × (length s.tx_timers.live ≡ 2 + length r.tx_timers.live))
          (init_v2x_libs a r >>= open_interfaces a)
  unfolding open_interfaces
  open_interfaces-IsOpen r e = Ensures-bind (init-Opens r) (λ s hs.
      Ensures-bind
        (Ensures-any {P = λ _. Unit {0}} (read_addresses a s.mib.if_num 0 s.mib.my_addr) (λ _. tt))
        (λ addrs _.
          let t : Radio = record s { mib = record (s.mib) { my_addr = addrs } } in
          Ensures-bind (access-eq t.mib.tx_if_idx t.mib.tx_chan_num t) (λ u hu.
            Ensures-bind (access-eq 1 u.mib.tx_chan_num2 u) (λ v hv.
              let m : choices v.mib ≡ choices r.mib =
                ap (λ x. choices x.mib) hv ∙ ap (λ x. choices x.mib) hu ∙ hs.0 in
              Ensures-if (a.add_wsr v.mib.psid)
                (Ensures-map (start_sending-length v (ap (λ (p : Mib). p.op) m ∙ e)) (λ w hw. (
                  record {
                    settings = ap choices hw.0 ∙ m;
                    dot3_open = hw.1 ∙ ap (λ x. x.dot3) hv ∙ ap (λ x. x.dot3) hu ∙ hs.1;
                    wal_open = hw.2 ∙ ap (λ x. x.wal) hv ∙ ap (λ x. x.wal) hu ∙ hs.2;
                    channels = (
                      s.accessed,
                      hw.3
                          ∙ ap (λ x. x.accessed) hv
                          ∙ ap₂ (λ c l. (1, c) ∷ l)
                              (ap (λ x. x.mib.tx_chan_num2) hu
                                ∙ ap (λ (p : Mib). p.tx_chan_num2) hs.0)
                              (ap (λ x. x.accessed) hu
                                ∙ ap₂ (λ i c. (i, c) ∷ s.accessed)
                                    (ap (λ (p : Mib). p.tx_if_idx) hs.0)
                                    (ap (λ (p : Mib). p.tx_chan_num) hs.0)),
                    );
                  },
                  hw.4
                      ∙ ap (λ x. 2 + length x.tx_timers.live) hv
                      ∙ ap (λ x. 2 + length x.tx_timers.live) hu
                      ∙ ap (λ x. 2 + length x.live) hs.4,
                )))
                faults))))

  -- Where a timer runs the sending thread, a `Reset` that does not end the program leaves the radio open
  -- with the rate and the second channel asked for and every other setting as it was, but for the number
  -- of interfaces and their addresses; it has accessed both channels last, and leaves one timer more
  -- than there were.
  pub reset-IsOpen :
      (data_rate receiving_channel : ℕ) (r : Radio)
      → r.mib.op ≡ trx
      → elem r.tx_timers.g_tx_timer r.tx_timers.live ≡ true
      → Ensures
          (λ s.
            IsOpen (record (r.mib) { tx_datarate = data_rate; tx_chan_num2 = receiving_channel }) s
            × (length s.tx_timers.live ≡ suc (length r.tx_timers.live)))
          (reset a data_rate receiving_channel r)
  unfolding reset release_tx_operation
  reset-IsOpen data_rate receiving_channel r e h =
      let n = length-release r.tx_timers.g_tx_timer r.tx_timers.live h in
      Ensures-map (open_interfaces-IsOpen _ e) (λ s v. (v.0, omega (arith, v.1, n)))
