-- ===== src/Cli/Selection.antt =====
-- Which strategy the command line selects.
use low_latency_prediction_m.Base.{
  ◌≡◌, ◌↔◌, refl, true, false, none, List, [], ◌∷◌, ◌++◌, Bytes, codes, same_text, same_text_iff,
  strip_prefix, All, arith,
}
use low_latency_prediction_m.Cli.{
  StrategySelection, momentum, ofi, both, selection_of_value, selection_of_next,
  parse_strategy_selection, strategy_name,
}

-- Neither `--strategy` nor `--strategy=...`.
abbrev pub IsPlain : Bytes → Type 0
IsPlain arg =
    (strip_prefix (codes "--strategy=") arg ≡ none) × (same_text arg (codes "--strategy") ≡ false)

-- What the three comparisons say of a value.
tests :
    (value : Bytes)
    → ((same_text value (codes "momentum") ≡ true) ↔ (value ≡ codes "momentum"))
      × ((same_text value (codes "ofi") ≡ true) ↔ (value ≡ codes "ofi"))
      × ((same_text value (codes "both") ≡ true) ↔ (value ≡ codes "both"))
tests value = (
  same_text_iff value (codes "momentum"),
  same_text_iff value (codes "ofi"),
  same_text_iff value (codes "both"),
)

selection_of_value_iff :
    (value : Bytes) (sel : StrategySelection)
    → (selection_of_value value ≡ (true, sel)) ↔ (value ≡ strategy_name sel)
unfolding selection_of_value strategy_name
selection_of_value_iff value momentum = ground (arith, tests value)
selection_of_value_iff value ofi = ground (arith, tests value)
selection_of_value_iff value both = ground (arith, tests value)

parse_strategy_selection-plain :
    (before args : List Bytes)
    → All IsPlain before
    → parse_strategy_selection (before ++ args) ≡ parse_strategy_selection args
unfolding parse_strategy_selection
parse_strategy_selection-plain [] args h = refl
parse_strategy_selection-plain (arg ∷ before) args h =
    ground (arith, parse_strategy_selection-plain before args h.1)

-- The first `--strategy` of a command line decides, in either form and wherever it stands: it is
-- accepted with a selection exactly when its value is that selection's name. What follows it is not
-- looked at.
pub parse_strategy_selection_iff :
    (before after : List Bytes) (value : Bytes) (sel : StrategySelection)
    → All IsPlain before
    → ((parse_strategy_selection (before ++ codes "--strategy" ∷ value ∷ after) ≡ (true, sel))
        ↔ (value ≡ strategy_name sel))
      × ((parse_strategy_selection (before ++ (codes "--strategy=" ++ value) ∷ after) ≡ (true, sel))
          ↔ (value ≡ strategy_name sel))
unfolding parse_strategy_selection selection_of_next
parse_strategy_selection_iff before after value sel plain =
    rw
      (
        parse_strategy_selection-plain before (codes "--strategy" ∷ value ∷ after) plain,
        parse_strategy_selection-plain before ((codes "--strategy=" ++ value) ∷ after) plain,
      )
      (selection_of_value_iff value sel, selection_of_value_iff value sel)

-- A command line without the flag selects both strategies; one that ends in `--strategy` with no
-- value is refused.
pub parse_strategy_selection-default :
    (args : List Bytes)
    → All IsPlain args
    → (parse_strategy_selection args ≡ (true, both))
      × (parse_strategy_selection (args ++ codes "--strategy" ∷ []) ≡ (false, both))
unfolding parse_strategy_selection selection_of_next
parse_strategy_selection-default [] plain = (refl, refl)
parse_strategy_selection-default (arg ∷ args) plain =
    ground (arith, parse_strategy_selection-default args plain.1)
