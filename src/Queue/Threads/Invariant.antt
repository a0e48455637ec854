-- ===== src/Queue/Threads/Invariant.antt =====
-- The invariant of the two threads of `SpscQueue`, at every point between their atomic steps.
use low_latency_prediction_m.Base.{ℕ, ◌+◌, ◌^◌, ◌≤◌, ◌<◌, ◌≡◌, List, ◌∷◌, ◌++◌, length}
use low_latency_prediction_m.Base.Words.{add_size}
use low_latency_prediction_m.Queue.{SpscQueue}
use low_latency_prediction_m.Queue.Invariant.{Holds}
use low_latency_prediction_m.Queue.Threads.{Producer, Consumer, Threads}

-- One if the producer has constructed an item that it has not published.
abbrev pub made {ℓ} : {A : Type ℓ} → Producer A → ℕ
made (Producer.constructed x write) = 1
made _ = 0

-- One if the consumer has destroyed an item whose slot it has not released.
abbrev pub gone {ℓ} : {A : Type ℓ} → Consumer A → ℕ
gone (Consumer.destroyed read x) = 1
gone _ = 0

-- One if the consumer has found an item.
abbrev pub found {ℓ} : {A : Type ℓ} → Consumer A → ℕ
found (Consumer.moved read x) = 1
found (Consumer.destroyed read x) = 1
found _ = 0

-- The items in the slots, given those behind the one that the consumer has moved out.
abbrev pub with_moved {ℓ} : {A : Type ℓ} → Consumer A → List A → List A
with_moved (Consumer.moved read x) rest = x ∷ rest
with_moved _ rest = rest

-- The indices once the stores to come are made.
abbrev pub write_to_come {ℓ} : {A : Type ℓ} → Producer A → ℕ → ℕ
write_to_come (Producer.constructed x write) index = add_size index 1
write_to_come _ index = index

abbrev pub read_to_come {ℓ} : {A : Type ℓ} → Consumer A → ℕ → ℕ
read_to_come (Consumer.destroyed read x) index = add_size index 1
read_to_come _ index = index

abbrev pub settled {ℓ} : {A : Type ℓ} → Threads A → SpscQueue A
settled s = record (s.queue) {
  write_index = write_to_come s.producer s.queue.write_index;
  read_index = read_to_come s.consumer s.queue.read_index;
}

-- What the threads' local variables say of the shared words.
abbrev pub ProducerAt {ℓ} : {A : Type ℓ} → ℕ → ℕ → Producer A → Type 0
ProducerAt index seen Producer.outside = Unit
ProducerAt index seen (Producer.loaded x write) = write ≡ index
ProducerAt index seen (Producer.compared x write read) = (write ≡ index) × (read ≡ seen)
ProducerAt index seen (Producer.constructed x write) = write ≡ index

abbrev pub ConsumerAt {ℓ} : {A : Type ℓ} → ℕ → ℕ → Consumer A → Type 0
ConsumerAt index seen Consumer.outside = Unit
ConsumerAt index seen (Consumer.loaded read) = read ≡ index
ConsumerAt index seen (Consumer.compared read write) = (read ≡ index) × (write ≡ seen)
ConsumerAt index seen (Consumer.moved read x) = read ≡ index
ConsumerAt index seen (Consumer.destroyed read x) = read ≡ index

-- The indices are `write` and `read`, the last ones loaded by the other thread `seen_write` and
-- `seen_read`. `published` is the distance of the indices, `behind` counts the slots released that the
-- producer has not seen, and `unseen` the items published that the consumer has not seen.
pub record Tally (size items made gone found write read seen_write seen_read : ℕ) : Type 0 where
  pub published : ℕ
  pub behind : ℕ
  pub unseen : ℕ
  pub write_at : write ≡ add_size read published
  pub read_at : read ≡ add_size seen_read behind
  pub seen_at : write ≡ add_size seen_write unseen
  pub counted : items + gone ≡ published + made
  pub room : published + behind + made ≤ size
  pub ahead : unseen + found ≤ published
  pub seen_write_small : seen_write < 2 ^ 64
  pub seen_read_small : seen_read < 2 ^ 64

abbrev pub Counts {ℓ} : {A : Type ℓ} → ℕ → Threads A → ℕ → Type 0
Counts size s items =
    Tally size items (made s.producer) (gone s.consumer) (found s.consumer) s.queue.write_index
      s.queue.read_index s.seen_write s.seen_read

-- The items pushed are those popped followed by those in the slots.
pub record IsSound {ℓ} {A : Type ℓ} (size : ℕ) (s : Threads A) : Type ℓ where
  pub rest : List A
  pub holds : Holds size (settled s) (with_moved s.consumer rest)
  pub history : s.pushed ≡ s.popped ++ with_moved s.consumer rest
  pub tally : Counts size s (length (with_moved s.consumer rest))
  pub producer_at : ProducerAt s.queue.write_index s.seen_read s.producer
  pub consumer_at : ConsumerAt s.queue.read_index s.seen_write s.consumer
