-- ===== src/Tests/Cli.antt =====
-- Command lines of the engine, and the theorems on them.
use low_latency_prediction_m.Base.{◌≡◌, ◌↔◌, refl, true, [], ◌∷◌, codes}
use low_latency_prediction_m.Cli.{ofi, parse_strategy_selection, strategy_name, collect, endpoint}
use low_latency_prediction_m.Cli.Selection.{parse_strategy_selection_iff}
use low_latency_prediction_m.Cli.Positional.{endpoint-flag}

-- engine --strategy both example.com 443 /ws
example_endpoint :
    endpoint (codes "--strategy" ∷ codes "both" ∷ codes "example.org" ∷ codes "8443" ∷ [])
    ≡ record { host = codes "example.org"; port = codes "8443"; target = codes "/" }
unfolding endpoint collect
example_endpoint = refl

parse_strategy_selection_iff_example :
    ((parse_strategy_selection (codes "host" ∷ codes "--strategy" ∷ codes "ofi" ∷ []) ≡ (true, ofi))
      ↔ (codes "ofi" ≡ strategy_name ofi))
    × ((parse_strategy_selection (codes "host" ∷ codes "--strategy=ofi" ∷ []) ≡ (true, ofi))
        ↔ (codes "ofi" ≡ strategy_name ofi))
parse_strategy_selection_iff_example =
    parse_strategy_selection_iff (codes "host" ∷ []) [] (codes "ofi") ofi ((refl, refl), tt)

endpoint-flag_example :
    (endpoint (codes "host" ∷ codes "--strategy" ∷ codes "ofi" ∷ codes "443" ∷ [])
      ≡ endpoint (codes "host" ∷ codes "443" ∷ []))
    × (endpoint (codes "host" ∷ codes "--strategy=ofi" ∷ codes "443" ∷ [])
        ≡ endpoint (codes "host" ∷ codes "443" ∷ []))
endpoint-flag_example =
    endpoint-flag (codes "host" ∷ []) (codes "443" ∷ []) (codes "ofi") ((refl, refl), tt)
