-- ===== src/Queue/Threads.antt =====
-- `push` and `pop` of `SpscQueue` as the producer's and the consumer's thread make them, one atomic
-- access or one access to a slot at a time, in any interleaving.
--
-- A relaxed load of a thread's own index gives its value. An acquire load of the other thread's index
-- gives any value from the one that the thread has last seen to the current one, in the order of the
-- stores, which each add one.
pub mod Invariant
pub mod Tallies
pub mod Steps
pub mod Safety
pub mod Progress
pub mod Push
pub mod Calls
use low_latency_prediction_m.Base.{
  ℕ, ◌≡◌, ◌≢◌, ◌≤◌, Option, none, some, List, [], ◌∷◌, ◌++◌, get_elem?, set,
}
use low_latency_prediction_m.Base.Words.{add_size, sub_size}
use low_latency_prediction_m.Queue.{SpscQueue, slot, empty}

-- Where the producer stands in `push`: outside, with `write` loaded, with `read` loaded too, or with
-- the item constructed.
pub data Producer {ℓ} (A : Type ℓ) : Type ℓ where
  outside : Producer A
  loaded : A → ℕ → Producer A
  compared : A → ℕ → ℕ → Producer A
  constructed : A → ℕ → Producer A

-- Where the consumer stands in `pop`: outside, with `read` loaded, with `write` loaded too, with the
-- item moved out, or with the slot destroyed.
pub data Consumer {ℓ} (A : Type ℓ) : Type ℓ where
  outside : Consumer A
  loaded : ℕ → Consumer A
  compared : ℕ → ℕ → Consumer A
  moved : ℕ → A → Consumer A
  destroyed : ℕ → A → Consumer A

-- `seen_read` and `seen_write` are the last values that a thread has loaded of the other's index.
-- `pushed` and `popped` are the items constructed and destroyed so far.
pub record Threads {ℓ} (A : Type ℓ) : Type ℓ where
  pub queue : SpscQueue A
  pub producer : Producer A
  pub consumer : Consumer A
  pub seen_read : ℕ
  pub seen_write : ℕ
  pub pushed : List A
  pub popped : List A

module _ {ℓ} {A : Type ℓ} (size : ℕ) where
  unfoldable pub start : Threads A
  unfolding empty
  start = record {
    queue = empty size;
    producer = Producer.outside;
    consumer = Consumer.outside;
    seen_read = 0;
    seen_write = 0;
    pushed = [];
    popped = [];
  }

  -- The steps of `push`, from any state `s` up to where the producer stands. `refuse` is `return false`,
  -- `publish` the release store with `return true`.
  pub data Produce : Threads A → Threads A → Type ℓ where
    enter :
        (s : Threads A) (x : A)
        → Produce
            (record s { producer = Producer.outside })
            (record s { producer = Producer.loaded x s.queue.write_index })
    load_read :
        (s : Threads A) (x : A) (write later : ℕ)
        → later ≤ sub_size s.queue.read_index s.seen_read
        → Produce
            (record s { producer = Producer.loaded x write })
            (record s {
              producer = Producer.compared x write (add_size s.seen_read later);
              seen_read = add_size s.seen_read later;
            })
    refuse :
        (s : Threads A) (x : A) (write read : ℕ)
        → sub_size write read ≡ size
        → Produce
            (record s { producer = Producer.compared x write read })
            (record s { producer = Producer.outside })
    construct :
        (s : Threads A) (x : A) (write read : ℕ)
        → sub_size write read ≢ size
        → Produce
            (record s { producer = Producer.compared x write read })
            (record s {
              queue = record (s.queue) { buffer = set s.queue.buffer (slot size write) (some x) };
              producer = Producer.constructed x write;
              pushed = s.pushed ++ x ∷ [];
            })
    publish :
        (s : Threads A) (x : A) (write : ℕ)
        → Produce
            (record s { producer = Producer.constructed x write })
            (record s {
              queue = record (s.queue) { write_index = add_size write 1 };
              producer = Producer.outside;
            })

  -- The steps of `pop`, from any state `s` up to where the consumer stands. `give_up` is
  -- `return false`, `release` the release store with `return true`. An item can be moved out only of a
  -- slot in which one lives.
  pub data Consume : Threads A → Threads A → Type ℓ where
    enter :
        (s : Threads A)
        → Consume
            (record s { consumer = Consumer.outside })
            (record s { consumer = Consumer.loaded s.queue.read_index })
    load_write :
        (s : Threads A) (read later : ℕ)
        → later ≤ sub_size s.queue.write_index s.seen_write
        → Consume
            (record s { consumer = Consumer.loaded read })
            (record s {
              consumer = Consumer.compared read (add_size s.seen_write later);
              seen_write = add_size s.seen_write later;
            })
    give_up :
        (s : Threads A) (read write : ℕ)
        → read ≡ write
        → Consume
            (record s { consumer = Consumer.compared read write })
            (record s { consumer = Consumer.outside })
    move :
        (s : Threads A) (x : A) (read write : ℕ)
        → read ≢ write
        → get_elem? s.queue.buffer (slot size read) ≡ some (some x)
        → Consume
            (record s { consumer = Consumer.compared read write })
            (record s { consumer = Consumer.moved read x })
    destroy :
        (s : Threads A) (x : A) (read : ℕ)
        → Consume
            (record s { consumer = Consumer.moved read x })
            (record s {
              queue = record (s.queue) { buffer = set s.queue.buffer (slot size read) none };
              consumer = Consumer.destroyed read x;
              popped = s.popped ++ x ∷ [];
            })
    release :
        (s : Threads A) (x : A) (read : ℕ)
        → Consume
            (record s { consumer = Consumer.destroyed read x })
            (record s {
              queue = record (s.queue) { read_index = add_size read 1 };
              consumer = Consumer.outside;
            })

  pub data Step (s : Threads A) (t : Threads A) : Type ℓ where
    by_producer : Produce s t → Step s t
    by_consumer : Consume s t → Step s t

  pub data Reach (s : Threads A) : Threads A → Type ℓ where
    here : Reach s s
    next : {t u : Threads A} → Reach s t → Step t u → Reach s u
