-- ===== src/Cli.antt =====
-- The command line of src/main.cpp: `parse_strategy_selection`, `strategy_name` and the positional
-- arguments of `main`. An argument list is `argv` from 1 on.
pub mod Selection
pub mod Positional
use low_latency_prediction_m.Base.{
  ℕ, zero, suc, Bool, true, false, Option, none, some, List, [], ◌∷◌, if◌then◌else◌, Bytes, codes,
  same_text, strip_prefix, get_or,
}

pub data StrategySelection : Type 0 where
  momentum ofi both : StrategySelection

-- The chain of tests on `value`; the Boolean is `ok`.
pub selection_of_value : Bytes → Bool × StrategySelection
selection_of_value value =
    if same_text value (codes "momentum")
    then (true, momentum)
    else if same_text value (codes "ofi")
    then (true, ofi)
    else if same_text value (codes "both")
    then (true, both)
    else (false, both)

-- `--strategy` takes the next argument, which may be missing.
pub selection_of_next : List Bytes → Bool × StrategySelection
selection_of_next [] = (false, both)
selection_of_next (value ∷ args) = selection_of_value value

pub parse_strategy_selection : List Bytes → Bool × StrategySelection
parse_strategy_selection [] = (true, both)
parse_strategy_selection (arg ∷ args) =
    let rest = parse_strategy_selection args in
    elim (strip_prefix (codes "--strategy=") arg) [
      | some value ↦ selection_of_value value
      | none ↦ if same_text arg (codes "--strategy") then selection_of_next args else rest
    ]

pub strategy_name : StrategySelection → Bytes
strategy_name momentum = codes "momentum"
strategy_name ofi = codes "ofi"
strategy_name both = codes "both"

-- The loop of `main` that collects at most `left` arguments; `skip` is set where the next argument is
-- the value of `--strategy`.
unfoldable pub collect : Bool → ℕ → List Bytes → List Bytes
collect skip zero args = []
collect skip (suc left) [] = []
collect true (suc left) (arg ∷ args) = collect false (suc left) args
collect false (suc left) (arg ∷ args) =
    let taken = arg ∷ collect false left args in
    let skipped = collect true (suc left) args in
    let ignored = collect false (suc left) args in
    if same_text arg (codes "--strategy")
    then skipped
    else elim (strip_prefix (codes "--strategy=") arg) [ some value ↦ ignored | none ↦ taken ]

pub positional : List Bytes → List Bytes
positional args = collect false 3 args

pub record Endpoint : Type 0 where
  pub host : Bytes
  pub port : Bytes
  pub target : Bytes

unfoldable pub endpoint : List Bytes → Endpoint
unfolding positional
endpoint args = record {
  host = get_or (positional args) 0 (codes "example.com");
  port = get_or (positional args) 1 (codes "443");
  target = get_or (positional args) 2 (codes "/");
}
