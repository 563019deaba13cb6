-- ===== src/Tests/Lists.antt =====
-- The lists of timers in memory at concrete states.
use ajou_etri_project.Base.{ℕ, ◌≡◌, refl, none, some, [], ◌∷◌, ◌++◌, arith}
use ajou_etri_project.Timer.{Timeval, insert, unlink, split_expired}
use ajou_etri_project.Timer.Links.{Links, put, add_links, list_detach, expire_links}
use ajou_etri_project.Timer.Links.Moving.{Both}
use ajou_etri_project.Timer.Links.Scan.{expire_links-Both}
use ajou_etri_project.Timer.Links.Sequences.{Represents}
use ajou_etri_project.Timer.Links.Operations.{add_links-Represents, list_detach-Represents}

-- Timer i is due after i seconds. The head is 9; timers 4 and 6 wait.
abbrev at_second : ℕ → Timeval
at_second i = record { tv_sec = i; tv_usec = 0 }

abbrev two_timers : Links
two_timers = record {
  next = put (put (put (λ i. none) 9 (some 4)) 4 (some 6)) 6 (some 9);
  prev = put (put (put (λ i. none) 9 (some 6)) 4 (some 9)) 6 (some 4);
}

two_timers-Represents : Represents two_timers 9 (4 ∷ 6 ∷ [])
two_timers-Represents = record {
  chain = (refl, refl, (refl, refl, (refl, refl)));
  headless = refl;
  distinct = (refl, (refl, tt));
}

add_links-Represents_example :
    (t : Links) × (add_links at_second 3 9 5 two_timers ≡ some t)
    × Represents t 9 (insert at_second 5 (4 ∷ 6 ∷ []))
add_links-Represents_example =
    add_links-Represents at_second 3 9 5 (4 ∷ 6 ∷ []) two_timers two_timers-Represents
      (λ e. omega arith) refl (omega arith)

list_detach-Represents_example :
    (t : Links) × (list_detach 4 two_timers ≡ some t)
    × Represents t 9 (unlink 4 (4 ∷ 6 ∷ []))
    × (t.next 4 ≡ none)
    × (t.prev 4 ≡ none)
list_detach-Represents_example =
    list_detach-Represents 9 4 (4 ∷ 6 ∷ []) two_timers two_timers-Represents refl

-- Beside the queue, timer 7 in a list with the head 8.
abbrev two_lists : Links
two_lists = record {
  next = put (put two_timers.next 8 (some 7)) 7 (some 8);
  prev = put (put two_timers.prev 8 (some 7)) 7 (some 8);
}

two_lists-Both : Both two_lists 9 8 (4 ∷ 6 ∷ []) (7 ∷ [])
two_lists-Both = record {
  one = record {
    chain = (refl, refl, (refl, refl, (refl, refl)));
    headless = refl;
    distinct = (refl, (refl, tt));
  };
  two = record { chain = (refl, refl, (refl, refl)); headless = refl; distinct = (refl, tt) };
  heads = λ e. omega arith;
  headless_one = refl;
  headless_two = refl;
  apart = λ i. ground arith;
}

expire_links-Both_example :
    (t : Links) × (expire_links at_second (at_second 5) 3 9 8 two_lists ≡ some t)
    × Both t 9 8
        (split_expired at_second (at_second 5) (4 ∷ 6 ∷ [])).1
        (7 ∷ [] ++ (split_expired at_second (at_second 5) (4 ∷ 6 ∷ [])).0)
expire_links-Both_example =
    expire_links-Both at_second (at_second 5) 3 9 8 (4 ∷ 6 ∷ []) (7 ∷ []) two_lists two_lists-Both
      (omega arith)
