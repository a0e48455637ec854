-- ===== src/Queue/Threads/Safety.antt =====
-- What the invariant gives for every interleaving of the two threads of `SpscQueue`: the order of the
-- items, and the slots that each thread touches.
use low_latency_prediction_m.Base.{
  ℕ, ◌≤◌, ◌≡◌, ◌≢◌, refl, Option, some, none, List, [], ◌++◌, length, get_elem?, ◌==◌,
  if◌then◌else◌, arith,
}
use low_latency_prediction_m.Base.Words.{sub_size}
use low_latency_prediction_m.Queue.{slot}
use low_latency_prediction_m.Queue.Invariant.{IsSize}
use low_latency_prediction_m.Queue.Steps.{empty-Holds, write_slot}
use low_latency_prediction_m.Queue.Threads.{
  Producer, Consumer, Threads, Step, by_producer, by_consumer, Reach, here, next, start,
}
use low_latency_prediction_m.Queue.Threads.Tallies.{start-Tally, Tally-construct}
use low_latency_prediction_m.Queue.Threads.Steps.{
  Produce-IsSound, Consume-IsSound, front_item, move-front,
}
use low_latency_prediction_m.Queue.Threads.Invariant.{with_moved, IsSound}

-- The slot that a thread's next step accesses.
abbrev pub writing {ℓ} : {A : Type ℓ} → ℕ → Producer A → Option ℕ
writing size (Producer.compared x write read) =
    if sub_size write read == size then none else some (slot size write)
writing size _ = none

abbrev pub reading {ℓ} : {A : Type ℓ} → ℕ → Consumer A → Option ℕ
reading size (Consumer.compared read write) = if read == write then none else some (slot size read)
reading size (Consumer.moved read x) = some (slot size read)
reading size _ = none

reading-item {ℓ} :
    (A : Type ℓ) (size read write i : ℕ)
    → reading {A = A} size (Consumer.compared read write) ≡ some i
    → (read ≢ write) × (slot size read ≡ i)
reading-item A size read write i e = ground arith

at_slot : {i j : ℕ} → some i ≡ some j → i ≡ j
at_slot e = cc

module _ {ℓ} {A : Type ℓ} {size : ℕ} (z : IsSize size) where
  pub start-IsSound : IsSound {A = A} size (start size)
  unfolding start
  start-IsSound = record {
    rest = [];
    holds = empty-Holds z;
    history = refl;
    tally = start-Tally z;
    producer_at = tt;
    consumer_at = tt;
  }

  pub Step-IsSound : {s t : Threads A} → Step size s t → IsSound size s → IsSound size t
  Step-IsSound (by_producer p) h = Produce-IsSound z p h
  Step-IsSound (by_consumer c) h = Consume-IsSound z c h

  -- From the start of a queue whose size is a power of two, at least 2 and less than 2 ^ 64, whatever
  -- the order of the threads' steps, and however old the values of the indices that they load, the
  -- indices count the slots, and exactly the items constructed and not destroyed live in them.
  pub Reach-IsSound : {s : Threads A} → Reach size (start size) s → IsSound size s
  Reach-IsSound here = start-IsSound
  Reach-IsSound (next r st) = Step-IsSound st (Reach-IsSound r)

  -- In every interleaving, the consumer gets the producer's items in the order of the pushes, with none
  -- lost and none twice: the items pushed are those popped followed by at most `size` items still in
  -- the queue. `size` is a power of two, at least 2 and less than 2 ^ 64.
  pub popped-in_order :
      {s : Threads A}
      → Reach size (start size) s
      → (rest : List A) × (s.pushed ≡ s.popped ++ rest) × (length rest ≤ size)
  popped-in_order {s} r =
      let h = Reach-IsSound r in (with_moved s.consumer h.rest, h.history, h.holds.fits)

  writing-room :
      (x : A) (write read i : ℕ)
      → writing size (Producer.compared x write read) ≡ some i
      → (sub_size write read ≢ size) × (slot size write ≡ i)
  writing-room x write read i e = ground arith

  -- The slot that the producer's next step constructs an item in is raw storage.
  writing-raw :
      (s : Threads A) (p : Producer A) (i : ℕ)
      → IsSound size (record s { producer = p })
      → writing size p ≡ some i
      → get_elem? s.queue.buffer i ≡ some none
  writing-raw s Producer.outside i h e = absurd cc
  writing-raw s (Producer.loaded x write) i h e = absurd cc
  writing-raw s (Producer.compared x write read) i h e =
      let (differ, same) = writing-room x write read i e in
      let tally' = Tally-construct z h.tally (rw (h.producer_at.0, h.producer_at.1) at differ) in
      rw (← same, h.producer_at.0, write_slot z h.holds)
        (h.holds.free _ (omega arith) (omega (arith, tally'.room, tally'.counted)))
  writing-raw s (Producer.constructed x write) i h e = absurd cc

  -- An item lives in the slot that the consumer's next step reads.
  reading-live :
      (s : Threads A) (c : Consumer A) (i : ℕ)
      → IsSound size (record s { consumer = c })
      → reading size c ≡ some i
      → (x : A) × (get_elem? s.queue.buffer i ≡ some (some x))
  reading-live s Consumer.outside i h e = absurd cc
  reading-live s (Consumer.loaded read) i h e = absurd cc
  reading-live s (Consumer.compared read write) i h e =
      let (differ, same) = reading-item A size read write i e in
      let (y, rest, split, live, tally') = move-front z s read write differ h in
      (y, (rw same at live))
  reading-live s (Consumer.moved read x) i h e =
      (x, rw (← at_slot e, h.consumer_at) (front_item z x h.holds))
  reading-live s (Consumer.destroyed read x) i h e = absurd cc

  -- In every interleaving, when the producer's next step constructs an item in a slot and the consumer's
  -- next step reads or destroys one, the first slot is raw storage, in the second an item lives, and they
  -- are different slots. `size` is a power of two, at least 2 and less than 2 ^ 64.
  pub slots_apart :
      {s : Threads A} {i j : ℕ}
      → Reach size (start size) s
      → writing size s.producer ≡ some i
      → reading size s.consumer ≡ some j
      → (get_elem? s.queue.buffer i ≡ some none)
        × ((x : A) × (get_elem? s.queue.buffer j ≡ some (some x)))
        × (i ≢ j)
  slots_apart {s} {i} {j} r w e =
      let raw = writing-raw s s.producer i (Reach-IsSound r) w in
      let (x, live) = reading-live s s.consumer j (Reach-IsSound r) e in
      (raw, (x, live), λ same. cc)
