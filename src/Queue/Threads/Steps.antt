-- ===== src/Queue/Threads/Steps.antt =====
-- The steps of the producer and of the consumer of `SpscQueue` keep the invariant of the two threads.
use mathlib.Core.List.{append_assoc}
use low_latency_prediction_m.Base.{
  ℕ, ◌≤◌, ◌≡◌, ◌≢◌, some, get_elem?, set, refl, sym, ◌∙◌, List, [], ◌∷◌, ◌++◌, length, arith,
  length-append,
}
use low_latency_prediction_m.Base.Words.{sub_size}
use low_latency_prediction_m.Queue.{SpscQueue, slot}
use low_latency_prediction_m.Queue.Invariant.{IsSize, Holds}
use low_latency_prediction_m.Queue.Steps.{pushed-Holds, popped-Holds, read_slot}
use low_latency_prediction_m.Queue.Threads.{Producer, Consumer, Threads, Produce, Consume}
use low_latency_prediction_m.Queue.Threads.Tallies.{
  Tally-load_read, Tally-load_write, Tally-construct, Tally-publish, Tally-move, Tally-destroy,
  Tally-release,
}
use low_latency_prediction_m.Queue.Threads.Invariant.{made, with_moved, Tally, IsSound}

with_moved-append {ℓ} :
    {A : Type ℓ} (c : Consumer A) (rest : List A) (x : A)
    → with_moved c (rest ++ x ∷ []) ≡ with_moved c rest ++ x ∷ []
with_moved-append Consumer.outside rest x = refl
with_moved-append (Consumer.loaded r) rest x = refl
with_moved-append (Consumer.compared r w) rest x = refl
with_moved-append (Consumer.moved r y) rest x = refl
with_moved-append (Consumer.destroyed r y) rest x = refl

headed {ℓ} : {A : Type ℓ} (xs : List A) → 1 ≤ length xs → (y : A) × (ys : List A) × (xs ≡ y ∷ ys)
headed [] h = absurd (omega arith)
headed (x ∷ xs) h = (x, xs, refl)

module _ {ℓ} {A : Type ℓ} {size : ℕ} (z : IsSize size) where
  construct-IsSound :
      (s : Threads A) (x : A) (write read : ℕ)
      → sub_size write read ≢ size
      → IsSound size (record s { producer = Producer.compared x write read })
      → IsSound size (record s {
        queue = record (s.queue) { buffer = set s.queue.buffer (slot size write) (some x) };
        producer = Producer.constructed x write;
        pushed = s.pushed ++ x ∷ [];
      })
  construct-IsSound s x write read differ h =
      let differ' : sub_size s.queue.write_index s.seen_read ≢ size =
        rw (h.producer_at.0, h.producer_at.1) at differ in
      let tally' = Tally-construct z h.tally differ' in
      record {
        rest = h.rest ++ x ∷ [];
        holds =
            rw (with_moved-append s.consumer h.rest x, h.producer_at.0)
              (pushed-Holds z x h.holds (omega (arith, tally'.room, tally'.counted)));
        history =
            rw (with_moved-append s.consumer h.rest x, h.history)
              (append_assoc s.popped (with_moved s.consumer h.rest) (x ∷ []));
        tally =
            rw
              (
                with_moved-append s.consumer h.rest x,
                length-append (with_moved s.consumer h.rest) (x ∷ []),
              )
              tally';
        producer_at = h.producer_at.0;
        consumer_at = h.consumer_at;
      }

  pub Produce-IsSound : {s t : Threads A} → Produce size s t → IsSound size s → IsSound size t
  Produce-IsSound (Produce.enter s x) h = record {
    rest = h.rest;
    holds = h.holds;
    history = h.history;
    tally = h.tally;
    producer_at = refl;
    consumer_at = h.consumer_at;
  }
  Produce-IsSound (Produce.load_read s x write later le) h = record {
    rest = h.rest;
    holds = h.holds;
    history = h.history;
    tally = Tally-load_read z h.tally later le;
    producer_at = (h.producer_at, refl);
    consumer_at = h.consumer_at;
  }
  Produce-IsSound (Produce.refuse s x write read full) h = record {
    rest = h.rest;
    holds = h.holds;
    history = h.history;
    tally = h.tally;
    producer_at = tt;
    consumer_at = h.consumer_at;
  }
  Produce-IsSound (Produce.construct s x write read differ) h =
      construct-IsSound s x write read differ h
  Produce-IsSound (Produce.publish s x write) h = rw h.producer_at (record {
    rest = h.rest;
    holds = h.holds;
    history = h.history;
    tally = Tally-publish z h.tally;
    producer_at = tt;
    consumer_at = h.consumer_at;
  })

  -- The slot at `read_index` holds the oldest item.
  pub front_item :
      {q : SpscQueue A} {items : List A} (y : A)
      → Holds size q (y ∷ items)
      → get_elem? q.buffer (slot size q.read_index) ≡ some (some y)
  front_item y h = rw (read_slot z y h) (h.live 0 y refl)

  -- The consumer that finds the queue not empty has an item to move.
  pub move-front :
      (s : Threads A) (read write : ℕ)
      → read ≢ write
      → (h : IsSound size (record s { consumer = Consumer.compared read write }))
      → (y : A) × (rest : List A) × (h.rest ≡ y ∷ rest)
        × (get_elem? s.queue.buffer (slot size read) ≡ some (some y))
        × Tally size
            (length h.rest)
            (made s.producer)
            0
            1
            s.queue.write_index
            s.queue.read_index
            s.seen_write
            s.seen_read
  move-front s read write differ h =
      let differ' : s.queue.read_index ≢ s.seen_write =
        rw (h.consumer_at.0, h.consumer_at.1) at differ in
      let tally' = Tally-move z h.tally differ' in
      let (y, rest, split) = headed h.rest (omega (arith, tally'.ahead, tally'.counted)) in
      (y, rest, split, rw h.consumer_at.0 (front_item y (rw split at h.holds)), tally')

  move-IsSound :
      (s : Threads A) (x : A) (read write : ℕ)
      → read ≢ write
      → get_elem? s.queue.buffer (slot size read) ≡ some (some x)
      → IsSound size (record s { consumer = Consumer.compared read write })
      → IsSound size (record s { consumer = Consumer.moved read x })
  move-IsSound s x read write differ there h =
      let (y, rest, split, there', tally') = move-front s read write differ h in
      let same : x ≡ y = cc in
      rw same (record {
        rest = rest;
        holds = rw split at h.holds;
        history = rw split at h.history;
        tally = rw split at tally';
        producer_at = h.producer_at;
        consumer_at = h.consumer_at.0;
      })

  pub Consume-IsSound : {s t : Threads A} → Consume size s t → IsSound size s → IsSound size t
  Consume-IsSound (Consume.enter s) h = record {
    rest = h.rest;
    holds = h.holds;
    history = h.history;
    tally = h.tally;
    producer_at = h.producer_at;
    consumer_at = refl;
  }
  Consume-IsSound (Consume.load_write s read later le) h = record {
    rest = h.rest;
    holds = h.holds;
    history = h.history;
    tally = Tally-load_write z h.tally later le;
    producer_at = h.producer_at;
    consumer_at = (h.consumer_at, refl);
  }
  Consume-IsSound (Consume.give_up s read write same) h = record {
    rest = h.rest;
    holds = h.holds;
    history = h.history;
    tally = h.tally;
    producer_at = h.producer_at;
    consumer_at = tt;
  }
  Consume-IsSound (Consume.move s x read write differ e) h = move-IsSound s x read write differ e h
  Consume-IsSound (Consume.destroy s x read) h = record {
    rest = h.rest;
    holds = rw h.consumer_at (popped-Holds z x h.holds);
    history = h.history ∙ sym (append_assoc s.popped (x ∷ []) h.rest);
    tally = Tally-destroy z h.tally;
    producer_at = h.producer_at;
    consumer_at = h.consumer_at;
  }
  Consume-IsSound (Consume.release s x read) h = rw h.consumer_at (record {
    rest = h.rest;
    holds = h.holds;
    history = h.history;
    tally = Tally-release z h.tally;
    producer_at = h.producer_at;
    consumer_at = tt;
  })
