-- ===== src/Tools/Addr/Status.antt =====
-- How addr uses the library, and its exit status.
use ajou_etri_project.Base.{
  ℕ, ◌≡◌, refl, Bool, true, not, Option, none, some, [], ◌∷◌, is_negative, Bool-cases, inl, inr,
  if-elim,
}
use ajou_etri_project.Tools.Library.{
  Call, Ended, set_if_mac_address, get_if_mac_address, is_use, Bracketed, unopened, refused, closed,
}
use ajou_etri_project.Tools.Chan.{starts_with}
use ajou_etri_project.Tools.Addr.{Answers, Arguments, set_word, operate, main}

module _ (a : Answers) where
  operate_use : (v : Arguments) (i : ℕ) → is_use (operate a v i) ≡ true
  unfolding operate
  operate_use v i =
      if-elim (λ (c : Call). is_use c ≡ true) (starts_with v.operation set_word)
        {x = set_if_mac_address i (a.octets v.address)} {y = get_if_mac_address i} refl refl

  -- However addr is called and whatever the library answers, it opens the library at most once, first,
  -- and closes it last, once, if the opening succeeded.
  pub main-Bracketed : (signals : Bool) (v : Option Arguments) → Bracketed (main a signals v).calls
  unfolding main
  main-Bracketed signals none = unopened
  main-Bracketed signals (some v) = elim (Bool-cases (is_negative a.opened)) [
    | inl e ↦ rw e (refused a.opened e)
    | inr e ↦ rw e (
        if-elim (λ (r : Ended). Bracketed r.calls) (not signals) (closed a.opened [] e tt)
          (if-elim (λ (r : Ended). Bracketed r.calls) _ (closed a.opened [] e tt)
            (closed a.opened (operate a v _ ∷ []) e (operate_use v _, tt))))
  ]
