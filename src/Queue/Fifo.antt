-- ===== src/Queue/Fifo.antt =====
-- `SpscQueue` against a bounded first-in first-out list.
use native.Mathlib.Decide.{ℕ_discrete}
use low_latency_prediction_m.Base.{
  ==_iff, ne→==, ℕ, ◌≡◌, ◌≢◌, refl, ◌∙◌, ap, Bool, true, false, List, [], ◌∷◌, ◌++◌, arith, ◌==◌,
  if◌then◌else◌, length, get_elem?,
}
use low_latency_prediction_m.Queue.{SpscQueue, Popped, nothing, item, push, pop}
use low_latency_prediction_m.Queue.Invariant.{IsSize, Holds, IsSize-le}
use low_latency_prediction_m.Queue.Steps.{distance, pushed, pushed-Holds, read_slot, popped-Holds}

-- The specification: a list of at most `size` items.
abbrev pub offer {ℓ} : {A : Type ℓ} → ℕ → List A → A → List A × Bool
offer size items x = if length items == size then (items, false) else (items ++ x ∷ [], true)

abbrev pub poll {ℓ} : {A : Type ℓ} → List A → List A × Popped A
poll [] = ([], nothing)
poll (x ∷ items) = (items, item x)

-- What a client does with a queue.
pub data Op {ℓ} (A : Type ℓ) : Type ℓ where
  put : A → Op A
  get : Op A

-- What it sees of each call.
pub data Reply {ℓ} (A : Type ℓ) : Type ℓ where
  stored : Bool → Reply A
  got : Popped A → Reply A

module _ {ℓ} {A : Type ℓ} (size : ℕ) where
  unfoldable pub run : SpscQueue A → List (Op A) → List (Reply A)
  run q [] = []
  run q (put x ∷ ops) = let (q', ok) = push size q x in stored ok ∷ run q' ops
  run q (get ∷ ops) = let (q', out) = pop size q in got out ∷ run q' ops

  unfoldable pub run_list : List A → List (Op A) → List (Reply A)
  run_list items [] = []
  run_list items (put x ∷ ops) =
      let (items', ok) = offer size items x in stored ok ∷ run_list items' ops
  run_list items (get ∷ ops) = let (items', out) = poll items in got out ∷ run_list items' ops

module _ {ℓ} {A : Type ℓ} {size : ℕ} (s : IsSize size) where
  push-full :
      {q : SpscQueue A} {items : List A} (x : A)
      → Holds size q items
      → length items ≡ size
      → push size q x ≡ (q, false)
  unfolding push
  push-full x h full = ground (arith, distance s h)

  push-room :
      {q : SpscQueue A} {items : List A} (x : A)
      → Holds size q items
      → length items ≢ size
      → push size q x ≡ (pushed s q x, true)
  unfolding push
  push-room x h room = ground (arith, distance s h)

  -- `push` answers as the bounded list does, and leaves the queue holding that list's items.
  pub push_refines :
      {q : SpscQueue A} {items : List A} (x : A)
      → Holds size q items
      → Holds size (push size q x).0 (offer size items x).0
        × ((push size q x).1 ≡ (offer size items x).1)
  push_refines {items} x h = elim (ℕ_discrete (length items) size) [
    | yes full ↦ rw (push-full x h full, (==_iff (length items) size).1 full) (h, refl)
    | no room ↦
        rw (push-room x h room, ne→== (length items) size room)
          (pushed-Holds s x h (omega (arith, h.fits)), refl)
  ]

  -- `pop` answers as the list does, never reads raw storage, and leaves the queue holding the rest.
  pub pop_refines :
      {q : SpscQueue A} {items : List A}
      → Holds size q items
      → Holds size (pop size q).0 (poll items).0 × ((pop size q).1 ≡ (poll items).1)
  unfolding pop
  pop_refines {q} {items = []} h =
      rw ((==_iff q.read_index q.write_index).1 (omega arith)) (h, refl)
  pop_refines {q} {items = x ∷ items} h =
      rw
        (
          ne→== q.read_index q.write_index (omega (arith, IsSize-le s)),
          ap (get_elem? q.buffer) (read_slot s x h) ∙ h.live 0 x refl,
        )
        (popped-Holds s x h, refl)

  -- From a queue that holds given items, every sequence of `push` and `pop` gets the replies that the
  -- bounded list of those items gives.
  pub run_refines :
      (ops : List (Op A)) {q : SpscQueue A} {items : List A}
      → Holds size q items
      → run size q ops ≡ run_list size items ops
  unfolding run run_list
  run_refines [] h = refl
  run_refines (put x ∷ ops) h = let (h', e) = push_refines x h in rw (e, run_refines ops h')
  run_refines (get ∷ ops) h = let (h', e) = pop_refines h in rw (e, run_refines ops h')
