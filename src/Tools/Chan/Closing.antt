-- ===== src/Tools/Chan/Closing.antt =====
-- How chan uses the library.
use ajou_etri_project.Base.{
  ℕ, zero, suc, ◌+◌, ◌≡◌, refl, Bool, true, not, Option, none, some, List, [], All, Ensures,
  Ensures-bind, Ensures-any, ends, Bool-cases, inl, inr, ℤ, negsuc, is_negative, if-elim,
}
use ajou_etri_project.Tools.Library.{Call, Ended, is_use, Bracketed, unopened, refused, closed}
use ajou_etri_project.Tools.Chan.{
  Text, Settings, Getopt, Answers, Parsed, parsed, invalid, check, config, parse,
  print_current_channel, access_channels, operate, run, main,
}

abbrev AllUses : List Call → Type 0
AllUses l = All (λ c. is_use c ≡ true) l

module _ (a : Answers) where
  print-AllUses : (k i : ℕ) → AllUses (print_current_channel a k i).0
  unfolding print_current_channel
  print-AllUses zero i = tt
  print-AllUses (suc k) i =
      if-elim (λ (r : List Call × ℤ). AllUses r.0) (is_negative (a.current i)) (refl, tt)
        (refl, print-AllUses k (i + 1))

  operate-AllUses : (s : Settings) → AllUses (operate a s).0
  unfolding operate access_channels
  operate-AllUses s =
      elim s.op
        as (λ op.
          AllUses
            (elim op as (λ _. List Call × ℤ) [
              | check ↦ print_current_channel a s.if_num 0
              | config ↦ access_channels a s
            ]).0) [ check ↦ print-AllUses s.if_num 0 | config ↦ (refl, tt) ]

  run-Bracketed : (signals : Bool) (s : Settings) → Bracketed (run a signals s).calls
  unfolding run
  run-Bracketed signals s = elim (Bool-cases (is_negative a.opened)) [
    | inl e ↦ rw e (refused a.opened e)
    | inr e ↦ rw e (
        if-elim (λ (r : Ended). Bracketed r.calls) (not signals) (closed a.opened [] e tt)
          (closed a.opened _ e (operate-AllUses _)))
  ]

  -- However chan is called and whatever the library answers, where no option is read through a null
  -- pointer, it opens the library at most once, first, and closes it last, once, if the opening succeeded.
  pub main-Bracketed :
      (signals : Bool) (argv : Option Text) (opts : List Getopt)
      → Ensures (λ r. Bracketed r.calls) (main a signals argv opts)
  unfolding main
  main-Bracketed signals none opts = ends unopened
  main-Bracketed signals (some word) opts =
      Ensures-bind (Ensures-any {P = λ _. Unit {0}} (parse word opts) (λ _. tt)) (λ p _. each p)
    where
      each :
          (p : Parsed)
          → Ensures
              (λ r. Bracketed r.calls)
              (elim p [
                | invalid ↦ some (record { calls = []; status = negsuc 0 })
                | parsed s ↦ some (run a signals s)
              ])
      each invalid = ends unopened
      each (parsed s) = ends (run-Bracketed signals s)
