-- ===== src/Node/Alm/Percent.antt =====
-- What the measure of wsm/aodv.c can be: the ring of seconds stays a ring of zeros and ones, and its
-- share a percentage.
use ajou_etri_project.Base.{
  ℕ, zero, suc, ◌+◌, ◌*◌, ◌/◌, ◌-◌, ◌≤◌, ◌<◌, ◌≡◌, Bool, true, false, List, [], ◌∷◌, ltb, leb,
  if◌then◌else◌, length, take, All, All-set, length-set, arith,
}
use native.Mathlib.Nat.{div-lt_iff_lt-mul}
use ajou_etri_project.Route
use ajou_etri_project.Node.Alm.{note_second, sum, measure}

-- What `alm_buffer` and its pointer are between calls.
pub record IsRing (r : Route.Route) : Type 0 where
  pub bits : All (λ x. x ≤ 1) r.alm_buffer
  pub places : length r.alm_buffer ≡ 10
  pub pointer : r.alm_buffer_pointer < 10

bit : (b : Bool) → (if b then 1 else 0) ≤ 1
bit true = omega arith
bit false = omega arith

next : (p : ℕ) → p < 10 → (if leb 10 (p + 1) then 0 else p + 1) < 10
next p h = ground arith

-- A second noted keeps the ring: ten places, each 0 or 1, and the pointer at one of them.
note_second-IsRing : (r : Route.Route) → IsRing r → IsRing (note_second r)
unfolding note_second
note_second-IsRing r v = ground (
  arith,
  next r.alm_buffer_pointer v.pointer,
  length-set r.alm_buffer r.alm_buffer_pointer (if ltb 0 r.sch_hello_detector then 1 else 0),
  All-set (λ x. x ≤ 1) r.alm_buffer r.alm_buffer_pointer
      (if ltb 0 r.sch_hello_detector then 1 else 0) (bit (ltb 0 r.sch_hello_detector)) v.bits,
)

sum-take : (n : ℕ) (l : List ℕ) → All (λ x. x ≤ 1) l → sum (take n l) ≤ n
unfolding sum
sum-take zero l h = omega arith
sum-take (suc n) [] h = omega arith
sum-take (suc n) (x ∷ l) h = omega (arith, sum-take n l h.1, h.0)

share : (s n : ℕ) → 0 < n → s ≤ n → s * 100 / n ≤ 100
share s n p h = omega (arith, (div-lt_iff_lt-mul {k = n} {x = s * 100} {y = 101} p).1 (omega arith))

-- The measure of a route with such a ring is at most 100 percent, whatever the clock says.
pub measure-percent : (now_sec : ℕ) (r : Route.Route) → IsRing r → measure now_sec r ≤ 100
unfolding measure
measure-percent now_sec r v =
    let d : ℕ = now_sec - r.first_hello_time.tv_sec in
    let some_seconds = sum-take d r.alm_buffer v.bits in
    let all_seconds = sum-take 10 r.alm_buffer v.bits in
    ground (
      arith,
      share (sum (take d r.alm_buffer)) d,
      share (sum (take 10 r.alm_buffer)) 10 (omega arith) all_seconds,
      some_seconds,
    )
