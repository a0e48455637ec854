-- ===== src/Tests/Threads.antt =====
-- The theorems on the two threads of `SpscQueue`, where the consumer overtakes a call of the producer.
use low_latency_prediction_m.Base.{
  ℕ, ◌≤◌, ◌≡◌, ◌≢◌, ◌⊎◌, refl, none, some, List, [], ◌∷◌, arith, length, get_elem?, ◌+◌, ◌++◌,
}
use low_latency_prediction_m.Queue.{empty, slot}
use low_latency_prediction_m.Queue.Threads.{
  Producer, Consumer, Threads, Produce, Consume, by_producer, by_consumer, Reach, here, next, start,
}
use low_latency_prediction_m.Base.Words.{add_size, sub_size}
use low_latency_prediction_m.Queue.Fifo.{Op, put, get, run_list}
use low_latency_prediction_m.Queue.Threads.Calls.{accepted, taken, at_rest, after, run-Reach}
use low_latency_prediction_m.Queue.Threads.Invariant.{IsSound}
use low_latency_prediction_m.Queue.Threads.Safety.{Reach-IsSound, popped-in_order, slots_apart}
use low_latency_prediction_m.Queue.Threads.Progress.{push_left, Pushing, Popping, pop-wait_free}
use low_latency_prediction_m.Queue.Threads.Push.{push-returns}
use low_latency_prediction_m.Tests.Queue.{four_IsSize}

-- 7 is pushed and published.
abbrev one_pushed : Threads ℕ
one_pushed = record {
  queue = record { buffer = some 7 ∷ none ∷ none ∷ none ∷ []; write_index = 1; read_index = 0 };
  producer = Producer.outside;
  consumer = Consumer.outside;
  seen_read = 0;
  seen_write = 0;
  pushed = 7 ∷ [];
  popped = [];
}

-- 8 is about to be constructed, and 7 to be moved out.
abbrev meeting : Threads ℕ
meeting = record (one_pushed) {
  producer = Producer.compared 8 1 0;
  consumer = Consumer.compared 0 1;
  seen_write = 1;
}

one_pushed-Reach : Reach 4 (start 4) one_pushed
unfolding start empty
one_pushed-Reach =
    next
      (next
        (next (next here (by_producer (Produce.enter (start 4) 7)))
          (by_producer (Produce.load_read (start 4) 7 0 0 (omega arith))))
        (by_producer (Produce.construct (start 4) 7 0 0 (omega arith))))
      (by_producer (
        Produce.publish
          (record (one_pushed) { queue = record (one_pushed.queue) { write_index = 0 } }) 7 0))

meeting-Reach : Reach 4 (start 4) meeting
meeting-Reach =
    next
      (next
        (next (next one_pushed-Reach (by_consumer (Consume.enter one_pushed)))
          (by_producer (Produce.enter (record (one_pushed) { consumer = Consumer.loaded 0 }) 8)))
        (by_consumer (
          Consume.load_write (record (one_pushed) { producer = Producer.loaded 8 1 }) 0 1
            (omega arith))))
      (by_producer
        (Produce.load_read (record (meeting) { producer = Producer.outside }) 8 1 0 (omega arith)))

Reach-IsSound_example : IsSound 4 meeting
Reach-IsSound_example = Reach-IsSound four_IsSize meeting-Reach

popped-in_order_example : (rest : List ℕ) × (7 ∷ [] ≡ rest) × (length rest ≤ 4)
popped-in_order_example = popped-in_order four_IsSize meeting-Reach

slots_apart_example :
    (get_elem? meeting.queue.buffer 1 ≡ some none)
    × ((x : ℕ) × (get_elem? meeting.queue.buffer 0 ≡ some (some x)))
    × ◌≢◌ {A = ℕ} 1 0
slots_apart_example = slots_apart four_IsSize meeting-Reach refl refl

-- The producer constructs 8 while the consumer moves 7 out.
abbrev crossing : Threads ℕ
crossing = record (meeting) {
  queue = record (meeting.queue) { buffer = some 7 ∷ some 8 ∷ none ∷ none ∷ [] };
  producer = Producer.constructed 8 1;
  consumer = Consumer.moved 0 7;
  pushed = 7 ∷ 8 ∷ [];
}

meeting-Popping : Popping 4 1 meeting crossing
meeting-Popping =
    Popping.own
      (Popping.other (Popping.begin meeting) (Produce.construct meeting 8 1 0 (omega arith)))
      (omega arith)
      (Consume.move (record (crossing) { consumer = Consumer.outside }) 7 0 1 (omega arith) refl)

-- The consumer is about to move 7 out, and the producer is outside.
abbrev waiting : Threads ℕ
waiting = record (meeting) { producer = Producer.outside }

waiting-Reach : Reach 4 (start 4) waiting
waiting-Reach =
    next (next one_pushed-Reach (by_consumer (Consume.enter one_pushed)))
      (by_consumer (Consume.load_write one_pushed 0 1 (omega arith)))

-- 8 is pushed while the consumer moves 7 out.
abbrev published : Threads ℕ
published = record (crossing) {
  queue = record (crossing.queue) { write_index = 2 };
  producer = Producer.outside;
}

push_8 : Pushing 4 3 (record (waiting) { producer = Producer.loaded 8 1 }) published
push_8 =
    Pushing.own
      (Pushing.other
        (Pushing.own
          (Pushing.own (Pushing.begin (record (waiting) { producer = Producer.loaded 8 1 }))
            (omega arith) (Produce.load_read waiting 8 1 0 (omega arith)))
          (omega arith) (Produce.construct meeting 8 1 0 (omega arith)))
        (Consume.move (record (crossing) { consumer = Consumer.outside }) 7 0 1 (omega arith) refl))
      (omega arith) (Produce.publish crossing 8 1)

push-returns_example :
    let write = waiting.queue.write_index in
    let left = push_left published.producer in
    (3 + left ≤ 3)
    × (1 ≤ left → (u : Threads ℕ) × Produce 4 published u)
    × (left ≡ 1 → get_elem? published.queue.buffer (slot 4 write) ≡ some (some 8))
    × (left ≡ 0
        → ((published.pushed ≡ waiting.pushed ++ 8 ∷ [])
            × (published.queue.write_index ≡ add_size write 1)
            × (sub_size write published.seen_read ≢ 4))
          ⊎ ((published.pushed ≡ waiting.pushed)
              × (published.queue.write_index ≡ write)
              × (sub_size write published.seen_read ≡ 4)))
push-returns_example = push-returns four_IsSize waiting 8 waiting-Reach push_8

pop-wait_free_example : (3 ≤ 4) × (1 ≤ 2 → (u : Threads ℕ) × Consume 4 crossing u)
pop-wait_free_example = pop-wait_free four_IsSize meeting-Reach meeting-Popping

run-Reach_example :
    let ops : List (Op ℕ) = put 7 ∷ put 8 ∷ get ∷ get ∷ get ∷ [] in
    (t : Threads ℕ) × Reach 4 (start 4) (at_rest t)
    × (t.queue ≡ after 4 (empty 4) ops)
    × (t.pushed ≡ accepted ops (run_list 4 [] ops))
    × (t.popped ≡ taken (run_list 4 [] ops))
run-Reach_example = run-Reach four_IsSize (put 7 ∷ put 8 ∷ get ∷ get ∷ get ∷ [])
