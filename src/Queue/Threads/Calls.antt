-- ===== src/Queue/Threads/Calls.antt =====
-- The whole-step `push` and `pop` of `SpscQueue` are runs of the two threads: a call made while the
-- other thread is outside its own, with the other index loaded as it is.
use low_latency_prediction_m.Base.{
  List, [], ◌∙◌, sym, ap, ==_iff, ne→==, ℕ, ◌^◌, ◌<◌, ◌≡◌, refl, some, none, ◌∷◌, ◌++◌, arith, set,
  Bool, true, false, if◌then◌else◌,
}
use mathlib.Core.List.{append_assoc, append-nil}
use native.Mathlib.Decide.{ℕ_discrete}
use low_latency_prediction_m.Base.Words.{add_size, sub_size}
use low_latency_prediction_m.Queue.{
  SpscQueue, Popped, nothing, item, undefined, empty, slot, push, pop,
}
use low_latency_prediction_m.Queue.Invariant.{IsSize}
use low_latency_prediction_m.Queue.Fifo.{
  Op, put, get, Reply, stored, got, run, run_list, run_refines,
}
use low_latency_prediction_m.Queue.Steps.{empty-Holds}
use low_latency_prediction_m.Queue.Threads.{
  start, Producer, Consumer, Threads, Produce, Consume, by_producer, by_consumer, Reach, here, next,
}
use low_latency_prediction_m.Queue.Threads.Steps.{move-front}
use low_latency_prediction_m.Queue.Threads.Safety.{Step-IsSound, start-IsSound}
use low_latency_prediction_m.Queue.Threads.Invariant.{IsSound}

-- The items of the calls of `push` that answered true.
abbrev pub accepted {ℓ} : {A : Type ℓ} → List (Op A) → List (Reply A) → List A
accepted (put x ∷ ops) (stored true ∷ replies) = x ∷ accepted ops replies
accepted (op ∷ ops) (reply ∷ replies) = accepted ops replies
accepted _ _ = []

-- The items that the calls of `pop` gave.
abbrev pub taken {ℓ} : {A : Type ℓ} → List (Reply A) → List A
taken [] = []
taken (got (item x) ∷ replies) = x ∷ taken replies
taken (_ ∷ replies) = taken replies

-- Both threads are outside their calls.
abbrev pub at_rest {ℓ} : {A : Type ℓ} → Threads A → Threads A
at_rest s = record s { producer = Producer.outside; consumer = Consumer.outside }

add-sub : (a b : ℕ) → a < 2 ^ 64 → b < 2 ^ 64 → add_size b (sub_size a b) ≡ a
add-sub a b ha hb = omega arith

-- The queue after several calls.
abbrev pub after {ℓ} : {A : Type ℓ} → ℕ → SpscQueue A → List (Op A) → SpscQueue A
after size q [] = q
after size q (put x ∷ ops) = after size (push size q x).0 ops
after size q (get ∷ ops) = after size (pop size q).0 ops

-- What a call leaves in the ghost lists, beside the queue.
abbrev pub IsCall {ℓ} : {A : Type ℓ} → ℕ → Threads A → Op A → Threads A → Type ℓ
IsCall size s (put x) t =
    (t.queue ≡ (push size s.queue x).0)
    × (t.pushed ≡ (if (push size s.queue x).1 then s.pushed ++ x ∷ [] else s.pushed))
    × (t.popped ≡ s.popped)
IsCall size s get t =
    (t.queue ≡ (pop size s.queue).0)
    × (t.pushed ≡ s.pushed)
    × (t.popped ≡ s.popped ++ taken (got (pop size s.queue).1 ∷ []))

accepted-put {ℓ} :
    {A : Type ℓ} (b : Bool) (xs : List A) (x : A) (ops : List (Op A)) (replies : List (Reply A))
    → (if b then xs ++ x ∷ [] else xs) ++ accepted ops replies
      ≡ xs ++ accepted (put x ∷ ops) (stored b ∷ replies)
accepted-put true xs x ops replies = append_assoc xs (x ∷ []) (accepted ops replies)
accepted-put false xs x ops replies = refl

taken-got {ℓ} :
    {A : Type ℓ} (out : Popped A) (xs : List A) (replies : List (Reply A))
    → xs ++ taken (got out ∷ []) ++ taken replies ≡ xs ++ taken (got out ∷ replies)
taken-got nothing xs replies = ap (λ l. l ++ taken replies) (append-nil xs)
taken-got (item x) xs replies = append_assoc xs (x ∷ []) (taken replies)
taken-got undefined xs replies = ap (λ l. l ++ taken replies) (append-nil xs)

module _ {ℓ} {A : Type ℓ} {size : ℕ} (z : IsSize size) where
  -- A load of the other index as it is.
  load_read-at :
      (s : Threads A) (x : A) (write v : ℕ)
      → add_size s.seen_read (sub_size s.queue.read_index s.seen_read) ≡ v
      → Produce size
          (record s { producer = Producer.loaded x write })
          (record s { producer = Producer.compared x write v; seen_read = v })
  load_read-at s x write v e = rw (← e) (Produce.load_read s x write _ (omega arith))

  load_write-at :
      (s : Threads A) (read v : ℕ)
      → add_size s.seen_write (sub_size s.queue.write_index s.seen_write) ≡ v
      → Consume size
          (record s { consumer = Consumer.loaded read })
          (record s { consumer = Consumer.compared read v; seen_write = v })
  load_write-at s read v e = rw (← e) (Consume.load_write s read _ (omega arith))

  -- A call of `push` between other calls is a run of the threads that leaves the queue as `push` does.
  pub push-Reach :
      (s : Threads A) (x : A)
      → IsSound size (at_rest s)
      → (t : Threads A) × Reach size (at_rest s) (at_rest t) × IsCall size s (put x) t
  unfolding push
  push-Reach s x h =
      let w = s.queue.write_index in
      let r = s.queue.read_index in
      let load =
        load_read-at (at_rest s) x w r
          (add-sub r s.seen_read h.holds.read_small h.tally.seen_read_small) in
      let loads = next (next here (by_producer (Produce.enter (at_rest s) x))) (by_producer load) in
      let s' = record (at_rest s) { seen_read = r } in
      let s'' = record (s') {
        queue = record (s.queue) { buffer = set s.queue.buffer (slot size w) (some x) };
        pushed = s.pushed ++ x ∷ [];
      } in
      elim (ℕ_discrete (sub_size w r) size) [
        | yes full ↦ (
          s',
          next loads (by_producer (Produce.refuse s' x w r full)),
          rw ((==_iff (sub_size w r) size).1 full) (refl, refl, refl),
        )
        | no room ↦ (
          record (s'') { queue = record (s''.queue) { write_index = add_size w 1 } },
          next (next loads (by_producer (Produce.construct s' x w r room)))
              (by_producer (Produce.publish s'' x w)),
          rw (ne→== (sub_size w r) size room) (refl, refl, refl),
        )
      ]

  pub pop-Reach :
      (s : Threads A)
      → IsSound size (at_rest s)
      → (t : Threads A) × Reach size (at_rest s) (at_rest t) × IsCall size s get t
  unfolding pop
  pop-Reach s h =
      let w = s.queue.write_index in
      let r = s.queue.read_index in
      let load =
        load_write-at (at_rest s) r w
          (add-sub w s.seen_write (omega (arith, h.tally.write_at)) h.tally.seen_write_small) in
      let loads = next (next here (by_consumer (Consume.enter (at_rest s)))) (by_consumer load) in
      let s' = record (at_rest s) { seen_write = w } in
      let h' =
        Step-IsSound z (by_consumer load)
          (Step-IsSound z (by_consumer (Consume.enter (at_rest s))) h) in
      elim (ℕ_discrete r w) [
        | yes same ↦ (
          s',
          next loads (by_consumer (Consume.give_up s' r w same)),
          rw ((==_iff r w).1 same) (refl, refl, sym (append-nil s.popped)),
        )
        | no differ ↦
            let (x, rest, split, live, tally) = move-front z s' r w differ h' in
            let s'' = record (s') {
              queue = record (s.queue) { buffer = set s.queue.buffer (slot size r) none };
              popped = s.popped ++ x ∷ [];
            } in
            (
              record (s'') { queue = record (s''.queue) { read_index = add_size r 1 } },
              next
                  (next (next loads (by_consumer (Consume.move s' x r w differ live)))
                    (by_consumer (Consume.destroy s' x r)))
                  (by_consumer (Consume.release s'' x r)),
              rw (ne→== r w differ, live) (refl, refl, refl),
            )
      ]

  Reach-trans : {s t u : Threads A} → Reach size s t → Reach size t u → Reach size s u
  Reach-trans r here = r
  Reach-trans r (next r' st) = next (Reach-trans r r') st

  further-IsSound : {s t : Threads A} → Reach size s t → IsSound size s → IsSound size t
  further-IsSound here h = h
  further-IsSound (next r st) h = Step-IsSound z st (further-IsSound r h)

  calls-Reach :
      (ops : List (Op A)) (s : Threads A)
      → IsSound size (at_rest s)
      → (t : Threads A) × Reach size (at_rest s) (at_rest t)
        × (t.queue ≡ after size s.queue ops)
        × (t.pushed ≡ s.pushed ++ accepted ops (run size s.queue ops))
        × (t.popped ≡ s.popped ++ taken (run size s.queue ops))
  unfolding run
  calls-Reach [] s h = (s, here, refl, sym (append-nil s.pushed), sym (append-nil s.popped))
  calls-Reach (put x ∷ ops) s h =
      let (t, r, (q, pushed, popped)) = push-Reach s x h in
      let (u, r', e, pushed', popped') = calls-Reach ops t (further-IsSound r h) in
      (
        u,
        Reach-trans r r',
        e ∙ ap (λ q'. after size q' ops) q,
        pushed'
            ∙ ap (λ q'. t.pushed ++ accepted ops (run size q' ops)) q
            ∙ ap (λ l. l ++ accepted ops (run size (push size s.queue x).0 ops)) pushed
            ∙ accepted-put (push size s.queue x).1 s.pushed x ops _,
        popped'
            ∙ ap (λ q'. t.popped ++ taken (run size q' ops)) q
            ∙ ap (λ l. l ++ taken (run size (push size s.queue x).0 ops)) popped,
      )
  calls-Reach (get ∷ ops) s h =
      let (t, r, (q, pushed, popped)) = pop-Reach s h in
      let (u, r', e, pushed', popped') = calls-Reach ops t (further-IsSound r h) in
      (
        u,
        Reach-trans r r',
        e ∙ ap (λ q'. after size q' ops) q,
        pushed'
            ∙ ap (λ q'. t.pushed ++ accepted ops (run size q' ops)) q
            ∙ ap (λ l. l ++ accepted ops (run size (pop size s.queue).0 ops)) pushed,
        popped'
            ∙ ap (λ q'. t.popped ++ taken (run size q' ops)) q
            ∙ ap (λ l. l ++ taken (run size (pop size s.queue).0 ops)) popped
            ∙ taken-got (pop size s.queue).1 s.popped _,
      )

  -- Every sequence of calls of the whole-step `push` and `pop`, from the empty queue, is a run of the
  -- two threads, with both outside their calls at its end. The run leaves the same queue; the items that
  -- the producer has constructed are those that the list of at most `size` items accepts, and the items
  -- that the consumer has moved out are those that this list gives, in order. `size` is a power of two,
  -- at least 2 and less than 2 ^ 64.
  pub run-Reach :
      (ops : List (Op A))
      → (t : Threads A) × Reach size (start size) (at_rest t)
        × (t.queue ≡ after size (empty size) ops)
        × (t.pushed ≡ accepted ops (run_list size [] ops))
        × (t.popped ≡ taken (run_list size [] ops))
  unfolding start
  run-Reach ops =
      let (t, r, q, pushed, popped) = calls-Reach ops (start size) (start-IsSound z) in
      let replies = run_refines z ops (empty-Holds z) in
      (t, r, q, pushed ∙ ap (accepted ops) replies, popped ∙ ap taken replies)
