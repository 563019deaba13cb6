-- ===== src/Settings/Precedence.antt =====
-- What the start options come to, in whatever order they stand.
use ajou_etri_project.Base.{
  ℕ, ◌≡◌, refl, ap, ◌∙◌, Bool, true, false, List, [], ◌∷◌, ◌++◌, All, arith,
}
use ajou_etri_project.Node.{Node}
use ajou_etri_project.Settings.{
  Mib, Choice, Setup, if_idx, psid, chan, rate, power, prio, dst, len, interval, dbg, root, ip,
  metric, hop, log, ip_value, root_node_set, process_option, process_options, parse, with_defaults,
}

abbrev pub is_ip : Choice → Bool
is_ip (ip a b c d) = true
is_ip _ = false

-- An address once given stays where no other is.
process_option-ip :
    (s : Setup) (o : Choice)
    → s.ip_set ≡ true
    → is_ip o ≡ false
    → ((process_option s o).ip_set ≡ true) × ((process_option s o).node.my_ip ≡ s.node.my_ip)
unfolding process_option root_node_set
process_option-ip s (if_idx v) e h = (e, refl)
process_option-ip s (psid v) e h = (e, refl)
process_option-ip s (chan v) e h = (e, refl)
process_option-ip s (rate v) e h = (e, refl)
process_option-ip s (power v) e h = (e, refl)
process_option-ip s (prio v) e h = (e, refl)
process_option-ip s (dst a) e h = (e, refl)
process_option-ip s (len v) e h = (e, refl)
process_option-ip s (interval v) e h = (e, refl)
process_option-ip s (dbg v) e h = (e, refl)
process_option-ip s (root v) e h = ground arith
process_option-ip s (ip a b c d) e h = ground arith
process_option-ip s (metric v) e h = (e, refl)
process_option-ip s (hop v) e h = ground arith
process_option-ip s (log v) e h = (e, refl)

process_options-ip :
    (s : Setup) (os : List Choice)
    → s.ip_set ≡ true
    → All (λ o. is_ip o ≡ false) os
    → (process_options s os).node.my_ip ≡ s.node.my_ip
unfolding process_options
process_options-ip s [] e h = refl
process_options-ip s (o ∷ os) e h =
    let k = process_option-ip s o e h.0 in process_options-ip (process_option s o) os k.0 h.1 ∙ k.1

pub process_options-++ :
    (s : Setup) (os ps : List Choice)
    → process_options s (os ++ ps) ≡ process_options (process_options s os) ps
unfolding process_options
process_options-++ s [] ps = refl
process_options-++ s (o ∷ os) ps = process_options-++ (process_option s o) os ps

-- The node has the address of the last `--ip` option, whether a `--hop` option, which sets one too,
-- stands before it or behind it.
parse-my_ip :
    (m : Mib) (n : Node) (os ps : List Choice) (a b c d : ℕ)
    → All (λ o. is_ip o ≡ false) ps
    → (parse m n (os ++ ip a b c d ∷ ps)).node.my_ip ≡ ip_value a b c d
unfolding parse process_options process_option
parse-my_ip m n os ps a b c d h =
    let s = process_options (record { mib = with_defaults m; node = n; ip_set = false }) os in
    ap (λ r. r.node.my_ip)
      (process_options-++ (record { mib = with_defaults m; node = n; ip_set = false }) os
        (ip a b c d ∷ ps))
    ∙ process_options-ip (process_option s (ip a b c d)) ps refl h
