-- ===== src/Queue/Threads/Push.antt =====
-- What a call of `push` of `SpscQueue` has done when it returns, whatever the consumer does meanwhile.
use low_latency_prediction_m.Base.{
  ℕ, ◌+◌, ◌-◌, ◌%◌, ◌^◌, ◌≤◌, ◌<◌, ◌≡◌, ◌≢◌, refl, sym, ◌∙◌, ap, ◌⊎◌, inl, inr, some, List, [], ◌∷◌,
  ◌++◌, length, length-append, get_elem?, arith,
}
use low_latency_prediction_m.Base.Words.{add_size, sub_size}
use low_latency_prediction_m.Queue.{slot}
use low_latency_prediction_m.Queue.Invariant.{IsSize, IsSize-le, slot_of_wrapped}
use low_latency_prediction_m.Queue.Threads.{
  Producer, Consumer, Threads, Produce, Consume, by_producer, Reach, next, start,
}
use low_latency_prediction_m.Queue.Threads.Invariant.{
  made, gone, found, with_moved, write_to_come, read_to_come, IsSound,
}
use low_latency_prediction_m.Queue.Threads.Safety.{Reach-IsSound}
use low_latency_prediction_m.Queue.Threads.Progress.{
  push_left, Pushing, Pushing-left, Pushing-IsSound, push-step,
}

-- What is true in a call of `push x` that began with `pushed` constructed and the index `write`. `now`,
-- `index` and `seen` are the items constructed, the write index and the read index last loaded.
abbrev pub PushAt {ℓ} : {A : Type ℓ} → ℕ → List A → ℕ → A → List A → ℕ → ℕ → Producer A → Type ℓ
PushAt size pushed write x now index seen Producer.outside =
    ((now ≡ pushed ++ x ∷ []) × (index ≡ add_size write 1) × (sub_size write seen ≢ size))
    ⊎ ((now ≡ pushed) × (index ≡ write) × (sub_size write seen ≡ size))
PushAt size pushed write x now index seen (Producer.loaded y w) =
    (y ≡ x) × (w ≡ write) × (now ≡ pushed) × (index ≡ write)
PushAt size pushed write x now index seen (Producer.compared y w r) =
    (y ≡ x) × (w ≡ write) × (now ≡ pushed) × (index ≡ write) × (r ≡ seen)
PushAt size pushed write x now index seen (Producer.constructed y w) =
    (y ≡ x)
    × (w ≡ write)
    × (now ≡ pushed ++ x ∷ [])
    × (index ≡ write)
    × (sub_size write seen ≢ size)

tail_eq {ℓ} : {A : Type ℓ} {x y : A} {xs ys : List A} → x ∷ xs ≡ y ∷ ys → xs ≡ ys
tail_eq e = cc

-- The last item of a list that ends a longer one.
get_elem-end {ℓ} : {A : Type ℓ} (q : List A) (x : A) → get_elem? (q ++ x ∷ []) (length q) ≡ some x
get_elem-end [] x = refl
get_elem-end (y ∷ q) x = get_elem-end q x

get_elem-tail {ℓ} :
    {A : Type ℓ} (p r q : List A) (x : A)
    → p ++ r ≡ q ++ x ∷ []
    → 1 ≤ length r
    → get_elem? r (length r - 1) ≡ some x
get_elem-tail [] r q x e some_item =
    let last : length (q ++ x ∷ []) - 1 ≡ length q = omega (arith, length-append q (x ∷ [])) in
    rw (e, last) (get_elem-end q x)
get_elem-tail (y ∷ p) r [] x e some_item = absurd (omega (arith, ap length e, length-append p r))
get_elem-tail (y ∷ p) r (z ∷ q) x e some_item = get_elem-tail p r q x (tail_eq e) some_item

gone-le {ℓ} : {A : Type ℓ} (c : Consumer A) → gone c ≤ found c
gone-le Consumer.outside = omega arith
gone-le (Consumer.loaded read) = omega arith
gone-le (Consumer.compared read write) = omega arith
gone-le (Consumer.moved read x) = omega arith
gone-le (Consumer.destroyed read x) = omega arith

module _ {ℓ} {A : Type ℓ} (size : ℕ) (pushed : List A) (write : ℕ) (x : A) where
  abbrev pub InPush : Threads A → Type ℓ
  InPush t = PushAt size pushed write x t.pushed t.queue.write_index t.seen_read t.producer

  Consume-InPush : {t u : Threads A} → Consume size t u → InPush t → InPush u
  Consume-InPush (Consume.enter s) h = h
  Consume-InPush (Consume.load_write s read later le) h = h
  Consume-InPush (Consume.give_up s read w same) h = h
  Consume-InPush (Consume.move s y read w differ e) h = h
  Consume-InPush (Consume.destroy s y read) h = h
  Consume-InPush (Consume.release s y read) h = h

  Produce-InPush :
      {t u : Threads A} → Produce size t u → 1 ≤ push_left t.producer → InPush t → InPush u
  Produce-InPush (Produce.enter s y) busy h = absurd (omega arith)
  Produce-InPush (Produce.load_read s y w later le) busy (item, at, now, index) =
      (item, at, now, index, refl)
  Produce-InPush (Produce.refuse s y w r full) busy (item, at, now, index, seen) =
      inr (now, index, rw (← at, ← seen) full)
  Produce-InPush (Produce.construct s y w r room) busy (item, at, now, index, seen) =
      (item, at, rw (now, item) refl, index, rw (← at, ← seen) room)
  Produce-InPush (Produce.publish s y w) busy (item, at, now, index, room) =
      inl (now, ap (λ i. add_size i 1) at, room)

  Pushing-InPush : {n : ℕ} {s t : Threads A} → Pushing size n s t → InPush s → InPush t
  Pushing-InPush (Pushing.begin s) h = h
  Pushing-InPush (Pushing.own p busy st) h = Produce-InPush st busy (Pushing-InPush p h)
  Pushing-InPush (Pushing.other p st) h = Consume-InPush st (Pushing-InPush p h)

module _ {ℓ} {A : Type ℓ} {size : ℕ} (z : IsSize size) where
  -- The item constructed lives in its slot until it is published.
  constructed-slot :
      (t : Threads A) (p : Producer A) (x : A) (w : ℕ) (old : List A)
      → IsSound size t
      → t.producer ≡ p
      → p ≡ Producer.constructed x w
      → t.pushed ≡ old ++ x ∷ []
      → t.queue.write_index < 2 ^ 64
      → get_elem? t.queue.buffer (slot size t.queue.write_index) ≡ some (some x)
  constructed-slot t p x w old h at e now small =
      let items = with_moved t.consumer h.rest in
      let made_one : made t.producer ≡ 1 = rw (at, e) refl in
      let to_come : write_to_come t.producer t.queue.write_index ≡ add_size t.queue.write_index 1 =
        rw (at, e) refl in
      let some_item : 1 ≤ length items =
        omega (arith, h.tally.counted, h.tally.ahead, made_one, gone-le t.consumer) in
      let place : t.queue.write_index
          ≡ add_size (read_to_come t.consumer t.queue.read_index) (length items - 1) =
        omega (arith, to_come, h.holds.write_at, h.holds.fits, IsSize-le z, h.holds.read_small) in
      let where_to : slot size t.queue.write_index
          ≡ (read_to_come t.consumer t.queue.read_index + (length items - 1)) % size =
        ap (slot size) place ∙ slot_of_wrapped z _ _ in
      rw where_to (
        h.holds.live (length items - 1) x
          (get_elem-tail t.popped items old x (sym h.history ∙ now) some_item))

  last-slot :
      (old : List A) (write : ℕ) (x : A) (t : Threads A) (p : Producer A)
      → IsSound size t
      → t.producer ≡ p
      → push_left p ≡ 1
      → PushAt size old write x t.pushed t.queue.write_index t.seen_read p
      → write < 2 ^ 64
      → get_elem? t.queue.buffer (slot size write) ≡ some (some x)
  last-slot old write x t Producer.outside h at last e small = absurd (omega arith)
  last-slot old write x t (Producer.loaded y w) h at last e small = absurd (omega arith)
  last-slot old write x t (Producer.compared y w r) h at last e small = absurd (omega arith)
  last-slot old write x t (Producer.constructed y w) h at last (item, w_at, now, index, _) small =
      rw (← index) (
        constructed-slot t _ x w old h at (ap (λ v. Producer.constructed v w) item) now
          (rw index small))

  answer :
      (old : List A) (write : ℕ) (x : A) (now : List A) (index seen : ℕ) (p : Producer A)
      → push_left p ≡ 0
      → PushAt size old write x now index seen p
      → PushAt size old write x now index seen Producer.outside
  answer old write x now index seen Producer.outside done h = h
  answer old write x now index seen (Producer.loaded y w) done h = absurd (omega arith)
  answer old write x now index seen (Producer.compared y w r) done h = absurd (omega arith)
  answer old write x now index seen (Producer.constructed y w) done h = absurd (omega arith)

  -- A call of `push x`, begun in any state that the threads reach, in any interleaving with the consumer
  -- and however old the values of the read index that it loads. It returns: after its first step the
  -- producer makes at most three, and as long as the call has not returned the producer has a step to
  -- make. Before its last step, the publication, `x` lives in the slot of the write index. When it has
  -- returned, either `x` is the item last constructed and the write index has moved on by one, or
  -- nothing is constructed or published; the second exactly where the write index was `size` beyond the
  -- read index last loaded. `size` is a power of two, at least 2 and less than 2 ^ 64.
  pub push-returns :
      {n : ℕ} {t : Threads A} (s : Threads A) (x : A)
      → let begun = record s { producer = Producer.loaded x s.queue.write_index } in
        let first = s.queue.write_index in
        Reach size (start size) (record s { producer = Producer.outside })
        → Pushing size n begun t
        → (n + push_left t.producer ≤ 3)
          × (1 ≤ push_left t.producer → (u : Threads A) × Produce size t u)
          × (push_left t.producer ≡ 1 → get_elem? t.queue.buffer (slot size first) ≡ some (some x))
          × (push_left t.producer ≡ 0
              → ((t.pushed ≡ s.pushed ++ x ∷ [])
                  × (t.queue.write_index ≡ add_size first 1)
                  × (sub_size first t.seen_read ≢ size))
                ⊎ ((t.pushed ≡ s.pushed)
                    × (t.queue.write_index ≡ first)
                    × (sub_size first t.seen_read ≡ size)))
  push-returns {t = t} s x r p =
      let first = s.queue.write_index in
      let begun : IsSound size (record s { producer = Producer.loaded x first }) =
        Reach-IsSound z (next r (by_producer (Produce.enter s x))) in
      let at = Pushing-InPush size s.pushed first x p (refl, refl, refl, refl) in
      (
        Pushing-left p,
        push-step t t.producer,
        λ last.
            last-slot s.pushed first x t t.producer (Pushing-IsSound z p begun) refl last at
              (omega (arith, begun.tally.write_at)),
        λ done. answer s.pushed first x t.pushed t.queue.write_index t.seen_read t.producer done at,
      )
