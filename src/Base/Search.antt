-- ===== src/Base/Search.antt =====
-- The scans `for (i = 0; i < n; i++) if (test(t[i])) ...` over a whole array.
use Prim.Native.Nat.{ℕ, zero, suc, ◌≤◌, ◌<◌}
use mathlib.Core.Path.{◌≡◌}
use mathlib.Core.Bool.{Bool, true, false}
use mathlib.Core.List.{List, [], ◌∷◌}
use mathlib.Core.Option.{Option, none, some}
use mathlib.Core.Option
use mathlib.Core.Logic.{inl, inr}
use native.Mathlib.Omega.{arith}
use native.Mathlib.Decide.{dec_le}
use ajou_etri_project.Base.Tests.{if◌then◌else◌, Option-cases}
use ajou_etri_project.Base.Lists.{length, get_or}

module _ {ℓ} {A : Type ℓ} where
  -- The first index that passes: the scan returns at its first hit.
  unfoldable pub find_index : (A → Bool) → List A → Option ℕ
  find_index p [] = none
  find_index p (x ∷ xs) = if p x then some 0 else Option.map suc (find_index p xs)

  -- The last index that passes: the scan overwrites its result and goes on.
  unfoldable pub find_last : (A → Bool) → List A → Option ℕ
  find_last p [] = none
  find_last p (x ∷ xs) = elim (find_last p xs) [
    | some i ↦ some (suc i)
    | none ↦ if p x then some 0 else none
  ]

  -- `find_index` by cases, one per case of the scan's first step.
  pub find_index-hit :
      (p : A → Bool) (xs : List A) (d : A) {i : ℕ}
      → find_index p xs ≡ some i
      → (i < length xs) × (p (get_or xs i d) ≡ true)
  unfolding find_index
  find_index-hit p [] d e = absurd (cc)
  find_index-hit p (x ∷ xs) d {i = zero} e = (omega arith, ground (arith))
  find_index-hit p (x ∷ xs) d {i = suc i} e = elim (Option-cases (find_index p xs)) [
    | inl n ↦ ground arith
    | inr (j, s) ↦ let ih = find_index-hit p xs d s in ground arith
  ]

  pub find_index-first :
      (p : A → Bool) (xs : List A) (d : A) {i : ℕ} (j : ℕ)
      → find_index p xs ≡ some i
      → j < i
      → p (get_or xs j d) ≡ false
  unfolding find_index
  find_index-first p [] d j e h = absurd (cc)
  find_index-first p (x ∷ xs) d {i} zero e h = ground arith
  find_index-first p (x ∷ xs) d {i = zero} (suc j) e h = absurd (omega arith)
  find_index-first p (x ∷ xs) d {i = suc i} (suc j) e h = elim (Option-cases (find_index p xs)) [
    | inl n ↦ ground arith
    | inr (k, s) ↦ find_index-first p xs d {i = k} j s (ground arith)
  ]

  pub find_index-miss :
      (p : A → Bool) (xs : List A) (d : A) (j : ℕ)
      → find_index p xs ≡ none
      → j < length xs
      → p (get_or xs j d) ≡ false
  unfolding find_index
  find_index-miss p [] d j e h = absurd (omega arith)
  find_index-miss p (x ∷ xs) d zero e h = ground arith
  find_index-miss p (x ∷ xs) d (suc j) e h = find_index-miss p xs d j (ground arith) (omega arith)

  -- What passes is found.
  pub find_index-some :
      (p : A → Bool) (xs : List A) (d : A) (j : ℕ)
      → j < length xs
      → p (get_or xs j d) ≡ true
      → (i : ℕ) × (find_index p xs ≡ some i) × (i ≤ j)
  find_index-some p xs d j h t = elim (Option-cases (find_index p xs)) [
    | inl n ↦ absurd (clash (find_index-miss p xs d j n h))
    | inr (i, s) ↦ (i, s, bound i s)
  ]
    where
      clash : p (get_or xs j d) ≡ false → ⊥
      clash f = ground arith

      bound : (i : ℕ) → find_index p xs ≡ some i → i ≤ j
      bound i s = elim (dec_le i j) [
        | yes b ↦ b
        | no b ↦ absurd (clash (find_index-first p xs d j s (omega arith)))
      ]

  pub find_last-hit :
      (p : A → Bool) (xs : List A) (d : A) {i : ℕ}
      → find_last p xs ≡ some i
      → (i < length xs) × (p (get_or xs i d) ≡ true)
  unfolding find_last
  find_last-hit p [] d e = absurd (cc)
  find_last-hit p (x ∷ xs) d {i = zero} e = ground arith
  find_last-hit p (x ∷ xs) d {i = suc i} e = elim (Option-cases (find_last p xs)) [
    | inl n ↦ ground arith
    | inr (j, s) ↦ let ih = find_last-hit p xs d s in ground arith
  ]

  pub find_last-miss :
      (p : A → Bool) (xs : List A) (d : A) (j : ℕ)
      → find_last p xs ≡ none
      → j < length xs
      → p (get_or xs j d) ≡ false
  unfolding find_last
  find_last-miss p [] d j e h = absurd (omega arith)
  find_last-miss p (x ∷ xs) d zero e h = ground arith
  find_last-miss p (x ∷ xs) d (suc j) e h = find_last-miss p xs d j (ground arith) (omega arith)

  pub find_last-after :
      (p : A → Bool) (xs : List A) (d : A) {i : ℕ} (j : ℕ)
      → find_last p xs ≡ some i
      → i < j
      → j < length xs
      → p (get_or xs j d) ≡ false
  unfolding find_last
  find_last-after p [] d j e h l = absurd (cc)
  find_last-after p (x ∷ xs) d {i} zero e h l = absurd (omega arith)
  find_last-after p (x ∷ xs) d {i = zero} (suc j) e h l = elim (Option-cases (find_last p xs)) [
    | inl n ↦ find_last-miss p xs d j n (omega arith)
    | inr (k, s) ↦ ground arith
  ]
  find_last-after p (x ∷ xs) d {i = suc i} (suc j) e h l = elim (Option-cases (find_last p xs)) [
    | inl n ↦ ground arith
    | inr (k, s) ↦ find_last-after p xs d {i = k} j s (ground arith) (omega arith)
  ]
