-- ===== src/Tools/Chan/Options.antt =====
-- What chan makes of its options.
use ajou_etri_project.Base.{◌≡◌, refl, none, some, List, ◌∷◌}
use ajou_etri_project.Tools.Chan.{
  Text, Getopt, refused, Operation, process_parsed_option, process_options, parse_operation, parse,
}

-- An option that getopt_long refuses before any other, with no argument, is taken for `--if`, whose
-- number is then read through NULL.
pub parse-refused :
    (word : Text) (op : Operation) (opts : List Getopt)
    → parse_operation word ≡ some op
    → parse word (refused none ∷ opts) ≡ none
unfolding parse process_options process_parsed_option parse_operation
parse-refused word op opts e = rw e refl
