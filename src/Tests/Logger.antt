-- ===== src/Tests/Logger.antt =====
-- The logger at a short run.
use low_latency_prediction_m.Base.{
  ℕ, ◌+◌, ◌%◌, ◌≡◌, some, List, [], ◌∷◌, ◌++◌, map, Bytes, codes, length, arith,
}
use low_latency_prediction_m.Base.Int.{pos, magnitude}
use low_latency_prediction_m.Queue.Invariant.{Holds}
use low_latency_prediction_m.Logger.{
  queue_size, LogEvent, Queue, Format, Writer, line, start, drain, name_field, c_string,
}
use low_latency_prediction_m.Logger.Worker.{Move, log, work, play, begin, drain_complete}
use low_latency_prediction_m.Logger.Names.{c_string-name_field}
use low_latency_prediction_m.Tests.Cents.{cents}

-- One digit is enough here.
abbrev digit : ℕ → Bytes
digit n = (b'0' + n % 10) ∷ []

abbrev pub digits : Format cents
digits = record {
  print_nat = digit;
  print_int = λ z. digit (magnitude z);
  print_double = λ z. digit (magnitude z);
}

abbrev trade : LogEvent cents
trade = record {
  timestamp_us = 1;
  event_type = b'T';
  price = pos 5;
  size = pos 3;
  realized_pnl = pos 0;
  latency_us = 2;
  strategy = 0 ∷ [];
}

abbrev moves : List (Move digits)
moves = log trade ∷ work 5 ∷ log trade ∷ []

drain_complete_example :
    let r = play digits (begin digits 0) moves in
    (q : Queue cents) × (w : Writer cents) × (drain cents digits 4097 r.queue r.writer
      ≡ some (q, w))
    × Holds queue_size q []
    × (w.written ≡ (start cents digits 0).written ++ map (line cents digits) r.accepted)
    × (w.flushed ≡ length w.written)
drain_complete_example = drain_complete digits 0 moves 4097 (omega arith)

c_string-name_field_example : c_string (name_field (codes "momentum")) ≡ codes "momentum"
c_string-name_field_example = c_string-name_field (codes "momentum") (ground arith)
