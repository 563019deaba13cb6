-- ===== src/Daemon/Deaf.antt =====
-- Reception where the debug level is 0.
use ajou_etri_project.Base.{
  ℕ, ◌≡◌, refl, ◌∙◌, Bool, true, false, some, List, [], ◌∷◌, ◌++◌, All, map, Option, arith,
}
use ajou_etri_project.Node.{Node, Env}
use ajou_etri_project.Settings.{
  Mib, Choice, Setup, if_idx, psid, chan, rate, power, prio, dst, len, interval, dbg, root, ip,
  metric, hop, log, to_u32, process_option, process_options, parse,
}
use ajou_etri_project.Settings.Precedence.{process_options-++}
use ajou_etri_project.Reception.{
  Mpdu, unallocated, unparsed, wsdu, process_rx_wsdu, process_rx_mpdu_callback,
}
use ajou_etri_project.Sender.{Construct, Transmit, Station}
use ajou_etri_project.Daemon.{Event, heard, step, run}

abbrev pub is_dbg : Choice → Bool
is_dbg (dbg v) = true
is_dbg _ = false

process_option-dbg :
    (s : Setup) (o : Choice) → is_dbg o ≡ false → (process_option s o).mib.dbg ≡ s.mib.dbg
unfolding process_option
process_option-dbg s (if_idx v) h = refl
process_option-dbg s (psid v) h = refl
process_option-dbg s (chan v) h = refl
process_option-dbg s (rate v) h = refl
process_option-dbg s (power v) h = refl
process_option-dbg s (prio v) h = refl
process_option-dbg s (dst a) h = refl
process_option-dbg s (len v) h = refl
process_option-dbg s (interval v) h = refl
process_option-dbg s (dbg v) h = ground arith
process_option-dbg s (root v) h = refl
process_option-dbg s (ip a b c d) h = refl
process_option-dbg s (metric v) h = refl
process_option-dbg s (hop v) h = refl
process_option-dbg s (log v) h = refl

process_options-dbg :
    (s : Setup) (os : List Choice)
    → All (λ o. is_dbg o ≡ false) os
    → (process_options s os).mib.dbg ≡ s.mib.dbg
unfolding process_options
process_options-dbg s [] h = refl
process_options-dbg s (o ∷ os) h =
    process_options-dbg (process_option s o) os h.1 ∙ process_option-dbg s o h.0

parse-dbg :
    (m : Mib) (n : Node) (os ps : List Choice) (v : ℕ)
    → All (λ o. is_dbg o ≡ false) ps
    → (parse m n (os ++ dbg v ∷ ps)).mib.dbg ≡ to_u32 v
unfolding parse process_options process_option
parse-dbg m n os ps v h = rw (process_options-++ _ os (dbg v ∷ ps)) (process_options-dbg _ ps h)

callback-deaf :
    (env : Env) (level : ℕ) (mpdu : Mpdu) (n : Node)
    → level ≡ 0
    → process_rx_mpdu_callback env level mpdu n ≡ some n
unfolding process_rx_mpdu_callback process_rx_wsdu
callback-deaf env level unallocated n e = refl
callback-deaf env level unparsed n e = refl
callback-deaf env level (wsdu i sender frame) n e = rw e refl

abbrev pub hear : Env × Mpdu → Event
hear (env, mpdu) = heard env mpdu

module _ {M : Type 0} (payload_max : ℕ) (construct : Construct → Option M)
    (accepts : Transmit M → Bool) where
  run-deaf :
      (s : Station M) (l : List (Env × Mpdu))
      → s.mib.dbg ≡ 0
      → run payload_max construct accepts (map hear l) s ≡ some s
  unfolding run step
  run-deaf s [] e = refl
  run-deaf s ((env, mpdu) ∷ l) e = rw (callback-deaf env s.mib.dbg mpdu s.node e) (run-deaf s l e)

  -- A daemon whose last `--dbg` option is 0 receives nothing: whatever MPDUs arrive, its state stays as it
  -- is.
  pub run-parse :
      (m : Mib) (n : Node) (os ps : List Choice) (v : ℕ) (s : Station M) (l : List (Env × Mpdu))
      → All (λ o. is_dbg o ≡ false) ps
      → to_u32 v ≡ 0
      → s.mib ≡ (parse m n (os ++ dbg v ∷ ps)).mib
      → run payload_max construct accepts (map hear l) s ≡ some s
  run-parse m n os ps v s l h z e = run-deaf s l (rw e (parse-dbg m n os ps v h ∙ z))
