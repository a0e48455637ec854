-- ===== src/Logger/Worker.antt =====
-- The worker thread: every event that was accepted reaches the file, once and in order.
pub mod Journal
use mathlib.Core.List.{append_assoc}
use low_latency_prediction_m.Base.{
  ℕ, ◌+◌, ◌<◌, ◌≡◌, refl, sym, ◌∙◌, ap, some, List, [], ◌∷◌, ◌++◌, map, ◌==◌, if◌then◌else◌, Bytes,
  length, arith, Bool-cases, inl, inr,
}
use low_latency_prediction_m.Base.Double.{Arithmetic}
use low_latency_prediction_m.Queue.{nothing, item, push, pop, empty}
use low_latency_prediction_m.Queue.Invariant.{Holds}
use low_latency_prediction_m.Queue.Steps.{empty-Holds}
use low_latency_prediction_m.Queue.Fifo.{offer, push_refines, pop_refines}
use low_latency_prediction_m.Logger.Drain.{
  queue-IsSize, pop-none, pop-item, maybe_flush-written, drain-all,
}
use low_latency_prediction_m.Logger.{
  queue_size, LogEvent, Queue, Format, Writer, maybe_flush, line, write, start, round, drain,
}

module _ {d : Arithmetic} (format : Format d) where
  -- What happens to the logger while it runs: a call logs an event, or the worker makes a round, which
  -- reads the clock.
  pub data Move : Type 0 where
    log : LogEvent d → Move
    work : ℕ → Move

  -- The queue, the worker, and the events that `push` has accepted.
  pub record Run : Type 0 where
    pub queue : Queue d
    pub writer : Writer d
    pub accepted : List (LogEvent d)

  pub step : Run → Move → Run
  step r (log ev) =
      let (q, ok) = push queue_size r.queue ev in
      record r { queue = q; accepted = if ok then r.accepted ++ ev ∷ [] else r.accepted }
  step r (work now) =
      let (q, w) = round d format now r.queue r.writer in record r { queue = q; writer = w }

  pub play : Run → List Move → Run
  play r [] = r
  play r (m ∷ moves) = play (step r m) moves

  pub begin : ℕ → Run
  begin now = record { queue = empty queue_size; writer = start d format now; accepted = [] }

  -- Every accepted event is written or still in the queue.
  abbrev pub IsLogged : ℕ → Run → Type 0
  IsLogged now r =
      (items : List (LogEvent d)) × Holds queue_size r.queue items
      × (r.writer.written ++ map (line d format) items
          ≡ (start d format now).written ++ map (line d format) r.accepted)

  map-append :
      (xs ys : List (LogEvent d))
      → map (line d format) (xs ++ ys) ≡ map (line d format) xs ++ map (line d format) ys
  map-append [] ys = refl
  map-append (x ∷ xs) ys = ap (◌∷◌ (line d format x)) (map-append xs ys)

  pub begin-IsLogged : (now : ℕ) → IsLogged now (begin now)
  unfolding begin
  begin-IsLogged now = ([], empty-Holds queue-IsSize, refl)

  offered :
      (size : ℕ) (items accepted : List (LogEvent d)) (ev : LogEvent d) (out header : List Bytes)
      → out ++ map (line d format) items ≡ header ++ map (line d format) accepted
      → out ++ map (line d format) (offer size items ev).0
        ≡ header
          ++ map (line d format) (if (offer size items ev).1 then accepted ++ ev ∷ [] else accepted)
  offered size items accepted ev out header e = elim (Bool-cases (length items == size)) [
    | inl full ↦ rw full e
    | inr room ↦ rw room (
        ap (◌++◌ out) (map-append items (ev ∷ []))
        ∙ sym (append_assoc out _ _)
        ∙ ap (λ t. t ++ line d format ev ∷ []) e
        ∙ append_assoc header _ _
        ∙ ap (◌++◌ header) (sym (map-append accepted (ev ∷ []))))
  ]

  pub log-IsLogged :
      (now : ℕ) (r : Run) (ev : LogEvent d) → IsLogged now r → IsLogged now (step r (log ev))
  unfolding step
  log-IsLogged now r ev (items, h, e) =
      let (h', ok) = push_refines queue-IsSize ev h in
      (
        (offer queue_size items ev).0,
        h',
        rw ok (
            offered queue_size items r.accepted ev r.writer.written (start d format now).written e),
      )

  round-none :
      (now : ℕ) (q : Queue d) (w : Writer d)
      → (pop queue_size q).1 ≡ nothing
      → round d format now q w ≡ ((pop queue_size q).0, maybe_flush d now w)
  unfolding round
  round-none now q w e = ground arith

  round-item :
      (now : ℕ) (q : Queue d) (w : Writer d) (ev : LogEvent d)
      → (pop queue_size q).1 ≡ item ev
      → ((round d format now q w).0 ≡ (pop queue_size q).0)
        × ((round d format now q w).1.written ≡ (write d format ev w).written)
  unfolding round
  round-item now q w ev e = rw (round-eq) (refl, maybe_flush-written format now _)
    where
      round-eq : round d format now q w ≡ (
        (pop queue_size q).0,
        maybe_flush d now (record (write d format ev w) {
          events_since_flush = (write d format ev w).events_since_flush + 1;
        }),
      )
      round-eq = ground arith

  pub work-IsLogged :
      (start_time : ℕ) (r : Run) (now : ℕ)
      → IsLogged start_time r
      → IsLogged start_time (step r (work now))
  unfolding step write
  work-IsLogged start_time r now ([], h, e) =
      rw (round-none now r.queue r.writer (pop-none format h)) (
        [],
        (pop_refines queue-IsSize h).0,
        ap (λ t. t ++ []) (maybe_flush-written format now r.writer) ∙ e,
      )
  work-IsLogged start_time r now (ev ∷ items, h, e) =
      let (q, w) = round-item now r.queue r.writer ev (pop-item format h) in
      (
        items,
        rw q (pop_refines queue-IsSize h).0,
        ap (λ t. t ++ map (line d format) items) w ∙ append_assoc r.writer.written _ _ ∙ e,
      )

  step-IsLogged : (now : ℕ) (r : Run) (m : Move) → IsLogged now r → IsLogged now (step r m)
  step-IsLogged now r (log ev) h = log-IsLogged now r ev h
  step-IsLogged now r (work t) h = work-IsLogged now r t h

  play-IsLogged :
      (now : ℕ) (r : Run) (moves : List Move) → IsLogged now r → IsLogged now (play r moves)
  unfolding play
  play-IsLogged now r [] h = h
  play-IsLogged now r (m ∷ moves) h = play-IsLogged now (step r m) moves (step-IsLogged now r m h)

  -- However the calls that log and the rounds of the worker interleave, once the worker has been
  -- stopped and has emptied the queue, for which as many rounds as the queue has slots and one more are
  -- enough, the file holds the header line and then the line of every event that was accepted, in the
  -- order of the calls, and all of it is flushed.
  pub drain_complete :
      (now : ℕ) (moves : List Move) (fuel : ℕ)
      → queue_size < fuel
      → let r = play (begin now) moves in
        (q' : Queue d) × (w' : Writer d) × (drain d format fuel r.queue r.writer ≡ some (q', w'))
        × Holds queue_size q' []
        × (w'.written ≡ (start d format now).written ++ map (line d format) r.accepted)
        × (w'.flushed ≡ length w'.written)
  drain_complete now moves fuel enough =
      let (items, h, e) = play-IsLogged now (begin now) moves (begin-IsLogged now) in
      let (q', w', drained, empty', all, whole) =
        drain-all format items fuel (play (begin now) moves).writer h (omega (arith, h.fits)) in
      (q', w', drained, empty', all ∙ e, whole)
