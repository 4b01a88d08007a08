-- ===== src/CommandLine.antt =====
-- The arguments of `packet_gen` (traffic-gen/tools/packet_gen_main.cpp) and the names of the log levels
-- (parser/src/log.cpp). What is printed is left out.
pub mod Split
pub mod Laws
pub mod SplitLaws
pub mod Validate
pub mod Stream
pub mod StreamLaws
pub mod Script
pub mod ScriptLaws
pub mod Output
pub mod Main
pub mod Frames
pub mod Replay
pub mod RoundTrip
use tsn_gen.Prelude.{
  Text, codes, text_eq, is_empty, ℕ, ◌+◌, ltb, ◌==◌, Bool, true, false, not, ◌&&◌, ◌||◌, List, [],
  ◌∷◌, ◌++◌, Option, none, some, if◌then◌else◌,
}
use tsn_gen.CommandLine.Split.{split_spec}
use tsn_gen.Parser.Number.{stoull}

pub record Args : Type 0 where
  pub yaml_dir : Text
  pub iface : Text
  pub count : ℕ
  pub seed : ℕ
  pub seed_set : Bool
  pub output : Text
  pub transport : Text
  pub log_level : Text
  pub list_interfaces : Bool
  pub validate : Bool
  pub decode : Bool
  pub hex_input : Text
  pub chain : List Text
  pub stack : List Text
  pub stack_file : Text

abbrev pub default_args : Args
default_args = record {
  yaml_dir = [];
  iface = [];
  count = 1;
  seed = 0;
  seed_set = false;
  output = codes "json";
  transport = codes "none";
  log_level = codes "warn";
  list_interfaces = false;
  validate = false;
  decode = false;
  hex_input = [];
  chain = [];
  stack = [];
  stack_file = [];
}

-- What becomes of the arguments: they are taken, an error is reported, the program exits with 0, or
-- an exception of `stoull` ends it.
pub data Parse : Type 0 where
  taken : Args → Parse
  refused leaves thrown : Parse

-- What an option does; a valued one with the next argument, or the empty text if there is none.
pub data Action : Type 0 where
  flag : (Args → Args) → Action
  valued : (Text → Args → Option Args) → Action
  leave unknown : Action

unfoldable pub set_count : Text → Args → Option Args
set_count v out =
    if is_empty v
    then some out
    else elim (stoull 10 v) [ none ↦ none | some n ↦ some (record out { count = n.0 }) ]

unfoldable pub set_seed : Text → Args → Option Args
set_seed v out = if is_empty v then some out else elim (stoull 10 v) [
  | none ↦ none
  | some n ↦ some (record out { seed = n.0; seed_set = true })
]

-- The chain of comparisons of `parseArgs`.
unfoldable pub action_of : Text → Action
unfolding set_count set_seed
action_of a =
    if text_eq a (codes "--yaml-dir")
    then valued (λ v out. some (record out { yaml_dir = v }))
    else if text_eq a (codes "--interface")
    then valued (λ v out. some (record out { iface = v }))
    else if text_eq a (codes "--count")
    then valued set_count
    else if text_eq a (codes "--seed")
    then valued set_seed
    else if text_eq a (codes "--output")
    then valued (λ v out. some (record out { output = v }))
    else if text_eq a (codes "--transport")
    then valued (λ v out. some (record out { transport = v }))
    else if text_eq a (codes "--stack-file")
    then valued (λ v out. some (record out { stack_file = v }))
    else if text_eq a (codes "--log-level")
    then valued (λ v out. some (record out { log_level = v }))
    else if text_eq a (codes "--list-interfaces")
    then flag (λ out. record out { list_interfaces = true })
    else if text_eq a (codes "--validate")
    then flag (λ out. record out { validate = true })
    else if text_eq a (codes "--decode")
    then flag (λ out. record out { decode = true })
    else if text_eq a (codes "--hex")
    then valued (λ v out. some (record out { hex_input = v }))
    else if text_eq a (codes "--connect")
    then valued (λ v out. some (record out { chain = out.chain ++ split_spec v }))
    else if text_eq a (codes "--stack")
    then valued (λ v out. some (record out { stack = out.stack ++ split_spec v }))
    else if text_eq a (codes "--version")
    then leave
    else if text_eq a (codes "--help")
    then leave
    else unknown

-- The last argument has none after it.
abbrev pub last_option : Action → Args → Parse
last_option (flag set) out = taken (set out)
last_option (valued set) out = elim (set [] out) [ none ↦ thrown | some out' ↦ taken out' ]
last_option leave out = leaves
last_option unknown out = refused

-- The loop over the arguments.
unfoldable pub parse_loop : List Text → Args → Parse
unfolding action_of
parse_loop [] out = taken out
parse_loop (a ∷ []) out = last_option (action_of a) out
parse_loop (a ∷ v ∷ rest) out = elim (action_of a) [
  | flag set ↦ parse_loop (v ∷ rest) (set out)
  | valued set ↦ elim (set v out) [ none ↦ thrown | some out' ↦ parse_loop rest out' ]
  | leave ↦ leaves
  | unknown ↦ refused
]

-- `setLogLevel`: whether the name is that of a level.
unfoldable pub set_log_level : Text → Bool
set_log_level name =
    text_eq name (codes "quiet")
    || text_eq name (codes "error")
    || text_eq name (codes "warn")
    || text_eq name (codes "info")
    || text_eq name (codes "debug")

abbrev pub is_nil_list : List Text → Bool
is_nil_list [] = true
is_nil_list (name ∷ names) = false

abbrev pub one_if : Bool → ℕ
one_if b = if b then 1 else 0

unfoldable pub pipeline_flags : Args → ℕ
pipeline_flags out =
    one_if (not (is_nil_list out.chain))
    + one_if (not (is_nil_list out.stack))
    + one_if (not (is_empty out.stack_file))

-- `--hex` implies `--decode`.
abbrev pub imply_decode : Args → Args
imply_decode out = if is_empty out.hex_input then out else record out { decode = true }

-- The interface before the chain, and then before the stack.
abbrev pub prepend_chain : Args → Args
prepend_chain out =
    if not (is_empty out.iface) && not (is_nil_list out.chain)
    then record out { chain = out.iface ∷ out.chain; iface = [] }
    else out

abbrev pub prepend_stack : Args → Args
prepend_stack out =
    if not (is_empty out.iface) && not (is_nil_list out.stack)
    then record out { stack = out.iface ∷ out.stack; iface = [] }
    else out

abbrev pub check_output : Args → Parse
check_output out =
    if not (text_eq out.output (codes "hex")) && not (text_eq out.output (codes "json"))
    then refused
    else taken out

-- `--interface`, or a flag that makes up for it.
abbrev pub has_work : Args → Bool
has_work out =
    out.list_interfaces
    || out.validate
    || not (is_empty out.iface)
    || not (is_nil_list out.chain)
    || not (is_nil_list out.stack)
    || not (is_empty out.stack_file)

-- The checks after the loop.
unfoldable pub check_args : Args → Parse
unfolding set_log_level pipeline_flags
check_args out =
    if not (set_log_level out.log_level)
    then refused
    else if is_empty out.yaml_dir
    then refused
    else if ltb 1 (pipeline_flags out)
    then refused
    else if not (has_work out)
    then refused
    else check_output (prepend_stack (prepend_chain (imply_decode out)))

unfoldable pub parse_args : List Text → Parse
unfolding parse_loop check_args
parse_args argv = elim (parse_loop argv default_args) [ taken out ↦ check_args out | other ↦ other ]

-- A transport by its kind, with what follows the colon.
pub data Transport : Type 0 where
  raw_socket pcap verilator : Text → Transport

unfoldable pub split_kind : Text → Option (Text × Text)
split_kind [] = none
split_kind (c ∷ s) =
    let rest = split_kind s in
    if c == b':' then some ([], s) else elim rest [ none ↦ none | some r ↦ some (c ∷ r.0, r.1) ]

-- `makeSender`; `makeReceiver` differs in the classes only. None is the null pointer.
unfoldable pub make_transport : Text → Option Transport
unfolding split_kind
make_transport spec =
    if text_eq spec (codes "none") || is_empty spec then none else elim (split_kind spec) [
      | none ↦ none
      | some (kind, param) ↦
          if text_eq kind (codes "raw")
          then some (raw_socket param)
          else if text_eq kind (codes "pcap")
          then some (pcap param)
          else if text_eq kind (codes "verilator")
          then some (verilator param)
          else none
    ]
