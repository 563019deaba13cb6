-- ===== src/Tools/Chan.antt =====
-- The tool chan: chan/chan.c, chan/chan-input-params.c and chan/chan-libwlanaccess.c. A text is its
-- characters. `none` is an access through a null pointer. What getopt_long finds and what the library
-- answers are parameters.
pub mod Closing
pub mod Options
use ajou_etri_project.Base.{
  ℕ, zero, suc, ◌+◌, ◌%◌, Bool, true, false, Option, none, some, List, [], ◌∷◌, ◌++◌, ◌==◌, ◌&&◌,
  if◌then◌else◌, ◌>>=◌, ℤ, pos, negsuc, is_negative, not, to_ℕ,
}
use ajou_etri_project.Tools.Library.{
  Call, Ended, wal_open, access_channel, get_current_channel, wal_close,
}

abbrev pub Text : Type 0
Text = List ℕ

-- memcmp with a word that has no zero byte.
abbrev pub starts_with : Text → Text → Bool
starts_with l [] = true
starts_with [] (d ∷ m) = false
starts_with (c ∷ l) (d ∷ m) = c == d && starts_with l m

pub data Operation : Type 0 where
  check config : Operation

-- "check" and "config"
abbrev pub check_word : Text
check_word = 99 ∷ 104 ∷ 101 ∷ 99 ∷ 107 ∷ []

abbrev config_word : Text
config_word = 99 ∷ 111 ∷ 110 ∷ 102 ∷ 105 ∷ 103 ∷ []

-- The globals.
pub record Settings : Type 0 where
  pub op : Operation
  pub if_num : ℕ
  pub if_idx : ℕ
  pub ts0_chan_num : ℕ
  pub ts1_chan_num : ℕ
  pub loop : Bool

-- What a call of getopt_long gives: an option, by its place in `options`, or a refusal, which leaves
-- `option_idx` as it was. `optarg` is the number read from the argument, or NULL.
pub data Getopt : Type 0 where
  found : (option_idx : ℕ) → (optarg : Option ℕ) → Getopt
  refused : (optarg : Option ℕ) → Getopt

unfoldable pub process_parsed_option :
    (option_idx : ℕ) → (optarg : Option ℕ) → Settings → Option Settings
process_parsed_option idx arg s =
    if idx == 0
    then (arg >>= λ v. some (record s { if_idx = v % 256 }))
    else if idx == 1
    then (arg >>= λ v. some (record s { ts0_chan_num = v }))
    else if idx == 2
    then (arg >>= λ v. some (record s { ts1_chan_num = v }))
    else if idx == 3
    then some (record s { loop = true })
    else some s

-- The loop over the options, with `option_idx`.
unfoldable pub process_options : List Getopt → (option_idx : ℕ) → Settings → Option Settings
process_options [] idx s = some s
process_options (found i arg ∷ l) idx s = process_parsed_option i arg s >>= process_options l i
process_options (refused arg ∷ l) idx s = process_parsed_option idx arg s >>= process_options l idx

-- What CHAN_ParsingInputParameters gives: the settings, or -1.
pub data Parsed : Type 0 where
  parsed : Settings → Parsed
  invalid : Parsed

unfoldable pub parse_operation : Text → Option Operation
parse_operation word =
    if starts_with word check_word
    then some check
    else if starts_with word config_word
    then some config
    else none

abbrev pub with_defaults : Operation → Settings
with_defaults op = record {
  op = op;
  if_num = 0;
  if_idx = 0;
  ts0_chan_num = 172;
  ts1_chan_num = 172;
  loop = false;
}

unfoldable pub parse : Text → List Getopt → Option Parsed
parse word opts = elim (parse_operation word) [
  | none ↦ some invalid
  | some op ↦ (process_options opts 0 (with_defaults op) >>= λ s. some (parsed s))
]

-- What the library answers.
pub record Answers : Type 0 where
  pub opened : ℤ
  pub access : (if_idx ts0 ts1 : ℕ) → ℤ
  pub current : (if_idx : ℕ) → ℤ

module _ (a : Answers) where
  -- The calls for `k` interfaces from `i` on, and the result.
  unfoldable pub print_current_channel : (k i : ℕ) → List Call × ℤ
  print_current_channel zero i = ([], pos 0)
  print_current_channel (suc k) i =
      let rest = print_current_channel k (i + 1) in
      if is_negative (a.current i)
      then (get_current_channel i ∷ [], a.current i)
      else (get_current_channel i ∷ rest.0, rest.1)

  unfoldable pub access_channels : Settings → List Call × ℤ
  access_channels s =
      let ret = a.access s.if_idx s.ts0_chan_num s.ts1_chan_num in
      (
        access_channel s.if_idx s.ts0_chan_num s.ts1_chan_num ∷ [],
        if is_negative ret then ret else pos 0,
      )

  unfoldable pub operate : Settings → List Call × ℤ
  operate s = elim s.op [ check ↦ print_current_channel s.if_num 0 | config ↦ access_channels s ]

  -- From the library on. `signals` says whether the two handlers can be set. With `--loop` the tool ends by
  -- a signal, whose handler closes the library and exits with 0, as the end of main does.
  unfoldable pub run : (signals : Bool) → Settings → Ended
  run signals s =
      if is_negative a.opened
      then record { calls = wal_open a.opened ∷ []; status = negsuc 0 }
      else if not signals
      then record { calls = wal_open a.opened ∷ wal_close ∷ []; status = negsuc 0 }
      else let r = operate (record s { if_num = to_ℕ a.opened % 256 }) in
        record { calls = wal_open a.opened ∷ (r.0 ++ wal_close ∷ []); status = r.1 }

  -- `argv` is the first argument, if there is one.
  unfoldable pub main : (signals : Bool) → (argv : Option Text) → List Getopt → Option Ended
  main signals none opts = some (record { calls = []; status = pos 0 })
  main signals (some word) opts = parse word opts >>= λ p. elim p [
    | invalid ↦ some (record { calls = []; status = negsuc 0 })
    | parsed s ↦ some (run signals s)
  ]
