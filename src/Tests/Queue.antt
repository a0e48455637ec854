-- ===== src/Tests/Queue.antt =====
-- `SpscQueueTest`, and the theorems on `SpscQueue` at concrete queues.
use low_latency_prediction_m.Base.{
  ℕ, zero, suc, ◌%◌, ◌≤◌, ap, ◌+◌, ◌-◌, ◌^◌, ◌<◌, ◌≡◌, refl, true, false, Option, none, some, List,
  [], ◌∷◌, arith, get_elem?,
}
use low_latency_prediction_m.Queue.{SpscQueue, nothing, item, empty, push, pop, destroy}
use low_latency_prediction_m.Queue.Invariant.{IsSize, Holds}
use low_latency_prediction_m.Queue.Fifo.{put, get, stored, got, run, run_list, run_refines}
use low_latency_prediction_m.Queue.Destroy.{IsRaw, destroy-IsRaw}

pub four_IsSize : IsSize 4
four_IsSize = record {
  exponent = 2;
  at_least_two = omega arith;
  representable = omega arith;
  power = refl;
}

-- A queue of four whose write index is about to wrap round 2 ^ 64, with 7 in it.
abbrev wrapping : SpscQueue ℕ
wrapping = record {
  buffer = none ∷ none ∷ none ∷ some 7 ∷ [];
  write_index = 0;
  read_index = 2 ^ 64 - 1;
}

wrapping-live :
    (i a : ℕ)
    → get_elem? (7 ∷ []) i ≡ some a
    → get_elem? wrapping.buffer ((wrapping.read_index + i) % 4) ≡ some (some a)
wrapping-live zero a e = ap some e
wrapping-live (suc i) a e = cc

wrapping-free :
    (i : ℕ) → 1 ≤ i → i < 4 → get_elem? wrapping.buffer ((wrapping.read_index + i) % 4) ≡ some none
wrapping-free zero lo hi = absurd (omega arith)
wrapping-free (suc zero) lo hi = refl
wrapping-free (suc (suc zero)) lo hi = refl
wrapping-free (suc (suc (suc zero))) lo hi = refl
wrapping-free (suc (suc (suc (suc i)))) lo hi = absurd (omega arith)

wrapping-Holds : Holds 4 wrapping (7 ∷ [])
wrapping-Holds = record {
  slots = refl;
  read_small = omega arith;
  write_at = refl;
  fits = omega arith;
  live = wrapping-live;
  free = wrapping-free;
}

-- Filled to the brim, refused, and emptied in order, as in the test.
fills_and_empties :
    run {A = ℕ} 4
      (empty 4)
      (get ∷ put 0 ∷ put 1 ∷ put 2 ∷ put 3 ∷ put 123 ∷ get ∷ get ∷ get ∷ get ∷ get ∷ [])
    ≡ got nothing
      ∷ stored true
      ∷ stored true
      ∷ stored true
      ∷ stored true
      ∷ stored false
      ∷ got (item 0)
      ∷ got (item 1)
      ∷ got (item 2)
      ∷ got (item 3)
      ∷ got nothing
      ∷ []
unfolding run push pop empty
fills_and_empties = refl

run_refines_example :
    run 4 wrapping (put 8 ∷ get ∷ get ∷ get ∷ [])
    ≡ stored true ∷ got (item 7) ∷ got (item 8) ∷ got nothing ∷ []
unfolding run_list
run_refines_example = run_refines four_IsSize (put 8 ∷ get ∷ get ∷ get ∷ []) wrapping-Holds

destroy-IsRaw_example :
    (buffer : List (Option ℕ)) × (destroy 4 2 wrapping ≡ some buffer) × IsRaw 4 buffer
destroy-IsRaw_example = destroy-IsRaw four_IsSize (7 ∷ []) 2 wrapping-Holds (omega arith)
