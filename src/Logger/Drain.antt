-- ===== src/Logger/Drain.antt =====
-- The loops of the worker thread after the stop.
use mathlib.Core.List.{append-nil, append_assoc}
use low_latency_prediction_m.Base.{
  ℕ, zero, suc, ◌<◌, ◌≡◌, refl, sym, ◌∙◌, some, List, [], ◌∷◌, ◌++◌, map, length, arith,
}
use low_latency_prediction_m.Base.Double.{Arithmetic}
use low_latency_prediction_m.Queue.{nothing, item, pop}
use low_latency_prediction_m.Queue.Invariant.{IsSize, Holds}
use low_latency_prediction_m.Queue.Fifo.{pop_refines}
use low_latency_prediction_m.Logger.{
  queue_size, LogEvent, Queue, Format, Writer, flush, maybe_flush, line, write, drain,
  drain_without_io,
}

pub queue-IsSize : IsSize queue_size
queue-IsSize = record {
  exponent = 12;
  at_least_two = omega arith;
  representable = omega arith;
  power = refl;
}

module _ {d : Arithmetic} (format : Format d) where
  pub pop-none : {q : Queue d} → Holds queue_size q [] → (pop queue_size q).1 ≡ nothing
  pop-none h = (pop_refines queue-IsSize h).1

  pub pop-item :
      {q : Queue d} {ev : LogEvent d} {items : List (LogEvent d)}
      → Holds queue_size q (ev ∷ items)
      → (pop queue_size q).1 ≡ item ev
  pop-item h = (pop_refines queue-IsSize h).1

  pub maybe_flush-written : (now : ℕ) (w : Writer d) → (maybe_flush d now w).written ≡ w.written
  unfolding maybe_flush
  maybe_flush-written now w = ground arith

  drain-none :
      (fuel : ℕ) (q : Queue d) (w : Writer d)
      → (pop queue_size q).1 ≡ nothing
      → drain d format (suc fuel) q w ≡ some ((pop queue_size q).0, flush d w)
  unfolding drain
  drain-none fuel q w e = ground arith

  drain-item :
      (fuel : ℕ) (q : Queue d) (w : Writer d) (ev : LogEvent d)
      → (pop queue_size q).1 ≡ item ev
      → drain d format (suc fuel) q w
        ≡ drain d format fuel (pop queue_size q).0 (write d format ev w)
  unfolding drain
  drain-item fuel q w ev e = ground arith

  -- With one round of fuel more than there are events, the loop after the stop writes them all.
  pub drain-all :
      (items : List (LogEvent d)) (fuel : ℕ) {q : Queue d} (w : Writer d)
      → Holds queue_size q items
      → length items < fuel
      → (q' : Queue d) × (w' : Writer d) × (drain d format fuel q w ≡ some (q', w'))
        × Holds queue_size q' []
        × (w'.written ≡ w.written ++ map (line d format) items)
        × (w'.flushed ≡ length w'.written)
  unfolding write
  drain-all items zero w h enough = elim enough [ ]
  drain-all [] (suc fuel) {q} w h enough = (
    (pop queue_size q).0,
    flush d w,
    drain-none fuel q w (pop-none h),
    (pop_refines queue-IsSize h).0,
    sym (append-nil w.written),
    refl,
  )
  drain-all (ev ∷ items) (suc fuel) {q} w h enough =
      let (q', w', e, empty', all, whole) =
        drain-all items fuel (write d format ev w) (pop_refines queue-IsSize h).0 (omega arith) in
      (
        q',
        w',
        drain-item fuel q w ev (pop-item h) ∙ e,
        empty',
        all ∙ append_assoc w.written _ _,
        whole,
      )

  discard-none :
      (fuel : ℕ) (q : Queue d)
      → (pop queue_size q).1 ≡ nothing
      → drain_without_io d (suc fuel) q ≡ some (pop queue_size q).0
  unfolding drain_without_io
  discard-none fuel q e = ground arith

  discard-item :
      (fuel : ℕ) (q : Queue d) (ev : LogEvent d)
      → (pop queue_size q).1 ≡ item ev
      → drain_without_io d (suc fuel) q ≡ drain_without_io d fuel (pop queue_size q).0
  unfolding drain_without_io
  discard-item fuel q ev e = ground arith

  -- Without a file the loop empties the queue all the same.
  pub drain_without_io-empty :
      (items : List (LogEvent d)) (fuel : ℕ) {q : Queue d}
      → Holds queue_size q items
      → length items < fuel
      → (q' : Queue d) × (drain_without_io d fuel q ≡ some q') × Holds queue_size q' []
  drain_without_io-empty items zero h enough = elim enough [ ]
  drain_without_io-empty [] (suc fuel) {q} h enough =
      ((pop queue_size q).0, discard-none fuel q (pop-none h), (pop_refines queue-IsSize h).0)
  drain_without_io-empty (ev ∷ items) (suc fuel) {q} h enough =
      let (q', e, empty') =
        drain_without_io-empty items fuel (pop_refines queue-IsSize h).0 (omega arith) in
      (q', discard-item fuel q ev (pop-item h) ∙ e, empty')
