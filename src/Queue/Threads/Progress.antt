-- ===== src/Queue/Threads/Progress.antt =====
-- `push` and `pop` of `SpscQueue` are wait-free: a call needs a bounded number of its thread's steps,
-- whatever the other thread does, and is never without a step to make.
use low_latency_prediction_m.Base.{ℕ, suc, ◌+◌, ◌≤◌, ◌<◌, ◌≡◌, refl, arith}
use native.Mathlib.Decide.{ℕ_discrete}
use low_latency_prediction_m.Base.Words.{sub_size}
use low_latency_prediction_m.Queue.Invariant.{IsSize}
use low_latency_prediction_m.Queue.Threads.{
  Producer, Consumer, Threads, Produce, Consume, by_producer, by_consumer, Reach, start,
}
use low_latency_prediction_m.Queue.Threads.Steps.{move-front}
use low_latency_prediction_m.Queue.Threads.Invariant.{IsSound}
use low_latency_prediction_m.Queue.Threads.Safety.{Step-IsSound, Reach-IsSound}

-- The most steps that the call under way has left; none if there is no call.
abbrev pub push_left {ℓ} : {A : Type ℓ} → Producer A → ℕ
push_left Producer.outside = 0
push_left (Producer.loaded x write) = 3
push_left (Producer.compared x write read) = 2
push_left (Producer.constructed x write) = 1

abbrev pub pop_left {ℓ} : {A : Type ℓ} → Consumer A → ℕ
pop_left Consumer.outside = 0
pop_left (Consumer.loaded read) = 4
pop_left (Consumer.compared read write) = 3
pop_left (Consumer.moved read x) = 2
pop_left (Consumer.destroyed read x) = 1

pop_left_le {ℓ} : {A : Type ℓ} (c : Consumer A) → pop_left c ≤ 4
pop_left_le Consumer.outside = omega arith
pop_left_le (Consumer.loaded read) = omega arith
pop_left_le (Consumer.compared read write) = omega arith
pop_left_le (Consumer.moved read x) = omega arith
pop_left_le (Consumer.destroyed read x) = omega arith

module _ {ℓ} {A : Type ℓ} (size : ℕ) where
  -- The threads' steps from `s`, in any order, of which `n` are the producer's, all made inside a call.
  pub data Pushing : ℕ → Threads A → Threads A → Type ℓ where
    begin : (s : Threads A) → Pushing 0 s s
    own :
        {n : ℕ} {s t u : Threads A}
        → Pushing n s t
        → 1 ≤ push_left t.producer
        → Produce size t u
        → Pushing (suc n) s u
    other : {n : ℕ} {s t u : Threads A} → Pushing n s t → Consume size t u → Pushing n s u

  pub data Popping : ℕ → Threads A → Threads A → Type ℓ where
    begin : (s : Threads A) → Popping 0 s s
    own :
        {n : ℕ} {s t u : Threads A}
        → Popping n s t
        → 1 ≤ pop_left t.consumer
        → Consume size t u
        → Popping (suc n) s u
    other : {n : ℕ} {s t u : Threads A} → Popping n s t → Produce size t u → Popping n s u

module _ {ℓ} {A : Type ℓ} {size : ℕ} where
  Produce-push_left :
      {s t : Threads A}
      → Produce size s t
      → 1 ≤ push_left s.producer
      → push_left t.producer < push_left s.producer
  Produce-push_left (Produce.enter s x) h = absurd (omega arith)
  Produce-push_left (Produce.load_read s x write later le) h = omega arith
  Produce-push_left (Produce.refuse s x write read full) h = omega arith
  Produce-push_left (Produce.construct s x write read differ) h = omega arith
  Produce-push_left (Produce.publish s x write) h = omega arith

  Consume-producer : {s t : Threads A} → Consume size s t → t.producer ≡ s.producer
  Consume-producer (Consume.enter s) = refl
  Consume-producer (Consume.load_write s read later le) = refl
  Consume-producer (Consume.give_up s read write same) = refl
  Consume-producer (Consume.move s x read write differ e) = refl
  Consume-producer (Consume.destroy s x read) = refl
  Consume-producer (Consume.release s x read) = refl

  pub Pushing-left :
      {n : ℕ} {s t : Threads A}
      → Pushing size n s t
      → n + push_left t.producer ≤ push_left s.producer
  Pushing-left (Pushing.begin s) = omega arith
  Pushing-left (Pushing.own p busy st) = omega (arith, Pushing-left p, Produce-push_left st busy)
  Pushing-left (Pushing.other p st) = rw (Consume-producer st) (Pushing-left p)

  pub push-step :
      (s : Threads A) (p : Producer A)
      → 1 ≤ push_left p
      → (t : Threads A) × Produce size (record s { producer = p }) t
  push-step s Producer.outside busy = absurd (omega arith)
  push-step s (Producer.loaded x write) busy = (_, Produce.load_read s x write 0 (omega arith))
  push-step s (Producer.compared x write read) busy = elim (ℕ_discrete (sub_size write read) size) [
    | yes full ↦ (_, Produce.refuse s x write read full)
    | no room ↦ (_, Produce.construct s x write read room)
  ]
  push-step s (Producer.constructed x write) busy = (_, Produce.publish s x write)

  Consume-pop_left :
      {s t : Threads A}
      → Consume size s t
      → 1 ≤ pop_left s.consumer
      → pop_left t.consumer < pop_left s.consumer
  Consume-pop_left (Consume.enter s) h = absurd (omega arith)
  Consume-pop_left (Consume.load_write s read later le) h = omega arith
  Consume-pop_left (Consume.give_up s read write same) h = omega arith
  Consume-pop_left (Consume.move s x read write differ e) h = omega arith
  Consume-pop_left (Consume.destroy s x read) h = omega arith
  Consume-pop_left (Consume.release s x read) h = omega arith

  Produce-consumer : {s t : Threads A} → Produce size s t → t.consumer ≡ s.consumer
  Produce-consumer (Produce.enter s x) = refl
  Produce-consumer (Produce.load_read s x write later le) = refl
  Produce-consumer (Produce.refuse s x write read full) = refl
  Produce-consumer (Produce.construct s x write read differ) = refl
  Produce-consumer (Produce.publish s x write) = refl

  Popping-left :
      {n : ℕ} {s t : Threads A} → Popping size n s t → n + pop_left t.consumer ≤ pop_left s.consumer
  Popping-left (Popping.begin s) = omega arith
  Popping-left (Popping.own p busy st) = omega (arith, Popping-left p, Consume-pop_left st busy)
  Popping-left (Popping.other p st) = rw (Produce-consumer st) (Popping-left p)

module _ {ℓ} {A : Type ℓ} {size : ℕ} (z : IsSize size) where
  Popping-IsSound : {n : ℕ} {s t : Threads A} → Popping size n s t → IsSound size s → IsSound size t
  Popping-IsSound (Popping.begin s) h = h
  Popping-IsSound (Popping.own p busy st) h = Step-IsSound z (by_consumer st) (Popping-IsSound p h)
  Popping-IsSound (Popping.other p st) h = Step-IsSound z (by_producer st) (Popping-IsSound p h)

  pub Pushing-IsSound :
      {n : ℕ} {s t : Threads A} → Pushing size n s t → IsSound size s → IsSound size t
  Pushing-IsSound (Pushing.begin s) h = h
  Pushing-IsSound (Pushing.own p busy st) h = Step-IsSound z (by_producer st) (Pushing-IsSound p h)
  Pushing-IsSound (Pushing.other p st) h = Step-IsSound z (by_consumer st) (Pushing-IsSound p h)

  pop-step :
      (s : Threads A) (c : Consumer A)
      → IsSound size (record s { consumer = c })
      → 1 ≤ pop_left c
      → (t : Threads A) × Consume size (record s { consumer = c }) t
  pop-step s Consumer.outside h busy = absurd (omega arith)
  pop-step s (Consumer.loaded read) h busy = (_, Consume.load_write s read 0 (omega arith))
  pop-step s (Consumer.compared read write) h busy = elim (ℕ_discrete read write) [
    | yes same ↦ (_, Consume.give_up s read write same)
    | no differ ↦
        let (y, rest, split, live, tally) = move-front z s read write differ h in
        (_, Consume.move s y read write differ live)
  ]
  pop-step s (Consumer.moved read x) h busy = (_, Consume.destroy s x read)
  pop-step s (Consumer.destroyed read x) h busy = (_, Consume.release s x read)

  -- A call of `pop` returns: at most four steps of the consumer after its first, in any interleaving
  -- with the producer, and as long as it has not returned the consumer has a step to make. A move out
  -- of a slot in which no object lives is no step.
  pub pop-wait_free :
      {n : ℕ} {s t : Threads A}
      → Reach size (start size) s
      → Popping size n s t
      → (n + pop_left t.consumer ≤ 4)
        × (1 ≤ pop_left t.consumer → (u : Threads A) × Consume size t u)
  pop-wait_free {s = s} {t} r p = (
    omega (arith, Popping-left p, pop_left_le s.consumer),
    pop-step t t.consumer (Popping-IsSound p (Reach-IsSound z r)),
  )
