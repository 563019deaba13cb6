-- ===== src/Base/Changes.antt =====
-- Scans of an array of which one element changed.
use Prim.Native.Nat.{ℕ, zero, suc}
use mathlib.Core.Path.{◌≡◌, refl, ap}
use mathlib.Core.Bool.{Bool}
use mathlib.Core.List.{List, [], ◌∷◌}
use mathlib.Core.Option.{Option, none, some}
use mathlib.Core.Option
use ajou_etri_project.Base.Tests.{if◌then◌else◌}
use ajou_etri_project.Base.Lists.{get_or, modify}
use ajou_etri_project.Base.Search.{find_index, find_last}

module _ {ℓ} {A : Type ℓ} where
  -- A change that the test does not see.
  pub find_index-modify :
      (p : A → Bool) (xs : List A) (i : ℕ) (f : A → A) (d : A)
      → p (f (get_or xs i d)) ≡ p (get_or xs i d)
      → find_index p (modify xs i f) ≡ find_index p xs
  unfolding find_index
  find_index-modify p [] i f d e = refl
  find_index-modify p (x ∷ xs) zero f d e = rw e refl
  find_index-modify p (x ∷ xs) (suc i) f d e =
      ap (λ o. if p x then some 0 else Option.map suc o) (find_index-modify p xs i f d e)

  pub find_last-modify :
      (p : A → Bool) (xs : List A) (i : ℕ) (f : A → A) (d : A)
      → p (f (get_or xs i d)) ≡ p (get_or xs i d)
      → find_last p (modify xs i f) ≡ find_last p xs
  unfolding find_last
  find_last-modify p [] i f d e = refl
  find_last-modify p (x ∷ xs) zero f d e =
      ap
        (λ b. elim (find_last p xs) as (λ _. Option ℕ) [
          | some i ↦ some (suc i)
          | none ↦ if b then some 0 else none
        ])
        e
  find_last-modify p (x ∷ xs) (suc i) f d e =
      ap
        (λ o. elim o as (λ _. Option ℕ) [
          | some i ↦ some (suc i)
          | none ↦ if p x then some 0 else none
        ])
        (find_last-modify p xs i f d e)
