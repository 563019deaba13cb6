-- ===== src/Sender/Doubled.antt =====
-- The sender's POSIX timer is made twice and deleted once.
use ajou_etri_project.Base.{
  ℕ, ◌≡◌, ap, ◌∙◌, if◌then◌else◌, Bool, true, false, Option, none, some, List, ◌∷◌, ==_refl,
}
use ajou_etri_project.Timer.{unlink}
use ajou_etri_project.Sender.{TxTimers, init_tx_timer, init_tx_operation, release_tx_operation}

init_tx_timer-made :
    (create : List ℕ → Option ℕ) (arms : ℕ → Bool) (t : TxTimers) {i : ℕ}
    → create t.live ≡ some i
    → arms i ≡ true
    → init_tx_timer create arms t ≡ (true, record { live = i ∷ t.live; g_tx_timer = i })
unfolding init_tx_timer
init_tx_timer-made create arms t {i} e h =
    ap
      (λ o. elim o as (λ _. Bool × TxTimers) [
        | none ↦ (false, t)
        | some k ↦ (arms k, record { live = k ∷ t.live; g_tx_timer = k })
      ])
      e
    ∙ ap (λ b. (b, record { live = i ∷ t.live; g_tx_timer = i })) h

init_tx_operation-made :
    (create : List ℕ → Option ℕ) (arms : ℕ → Bool) (t : TxTimers) {i j : ℕ}
    → create t.live ≡ some i
    → create (i ∷ t.live) ≡ some j
    → arms i ≡ true
    → arms j ≡ true
    → init_tx_operation create arms t ≡ (true, record { live = j ∷ i ∷ t.live; g_tx_timer = j })
unfolding init_tx_operation
init_tx_operation-made create arms t {i} {j} e f h k =
    ap (λ (r : Bool × TxTimers). if r.0 then init_tx_timer create arms r.1 else (false, r.1))
      (init_tx_timer-made create arms t e h)
    ∙ init_tx_timer-made create arms (record { live = i ∷ t.live; g_tx_timer = i }) f k

-- Where timers can be made and set, `WSM_InitTxOperation` succeeds with two timers more, and after
-- `WSM_ReleaseTxOperation` the first of them still exists.
release-init :
    (create : List ℕ → Option ℕ) (arms : ℕ → Bool) (t : TxTimers) {i j : ℕ}
    → create t.live ≡ some i
    → create (i ∷ t.live) ≡ some j
    → arms i ≡ true
    → arms j ≡ true
    → let (ok, u) = init_tx_operation create arms t in
      (ok ≡ true) × (u.live ≡ j ∷ i ∷ t.live) × ((release_tx_operation u).live ≡ i ∷ t.live)
unfolding release_tx_operation unlink
release-init create arms t {i} {j} e f h k =
    let m = init_tx_operation-made create arms t e f h k in
    (
      ap (λ r. r.0) m,
      ap (λ r. r.1.live) m,
      ap (λ r. (release_tx_operation r.1).live) m ∙ rw (==_refl j),
    )
