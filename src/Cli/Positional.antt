-- ===== src/Cli/Positional.antt =====
-- The endpoint that the command line names.
use low_latency_prediction_m.Base.{
  ℕ, zero, suc, ◌≡◌, refl, false, List, [], ◌∷◌, ◌++◌, Bytes, codes, All, arith, take,
}
use low_latency_prediction_m.Cli.{collect, positional, endpoint}
use low_latency_prediction_m.Cli.Selection.{IsPlain}

-- Without flags the positional arguments are the first three.
pub collect-plain :
    (left : ℕ) (args : List Bytes) → All IsPlain args → collect false left args ≡ take left args
unfolding collect
collect-plain zero args plain = refl
collect-plain (suc left) [] plain = refl
collect-plain (suc left) (arg ∷ args) plain = ground (arith, collect-plain left args plain.1)

collect-flag :
    (left : ℕ) (before after : List Bytes) (value : Bytes)
    → All IsPlain before
    → (collect false left (before ++ codes "--strategy" ∷ value ∷ after)
        ≡ collect false left (before ++ after))
      × (collect false left (before ++ (codes "--strategy=" ++ value) ∷ after)
          ≡ collect false left (before ++ after))
unfolding collect
collect-flag zero before after value plain = (refl, refl)
collect-flag (suc left) [] after value plain = (refl, refl)
collect-flag (suc left) (arg ∷ before) after value plain =
    ground (arith, collect-flag left before after value plain.1)

-- The endpoint is the same with the flag as without it, in either form and wherever it stands.
pub endpoint-flag :
    (before after : List Bytes) (value : Bytes)
    → All IsPlain before
    → (endpoint (before ++ codes "--strategy" ∷ value ∷ after) ≡ endpoint (before ++ after))
      × (endpoint (before ++ (codes "--strategy=" ++ value) ∷ after) ≡ endpoint (before ++ after))
unfolding endpoint positional
endpoint-flag before after value plain =
    let (spaced, joined) = collect-flag 3 before after value plain in
    rw (spaced, joined) (refl, refl)
