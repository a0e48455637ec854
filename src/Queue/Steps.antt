-- ===== src/Queue/Steps.antt =====
-- What `push` and `pop` of `SpscQueue` do to the slots of a queue that holds given items.
use native.Mathlib.Decide.{dec_lt}
use native.Mathlib.Nat.{mod-lt, add-mod_right}
use low_latency_prediction_m.Base.{
  ℕ, suc, ◌+◌, ◌%◌, ◌≤◌, ◌<◌, ◌≡◌, ◌≢◌, refl, sym, ◌∙◌, ap, Option, none, some, List, [], ◌∷◌, ◌++◌,
  arith, length, get_elem?, set, length-append, length-set, length-replicate, get_elem?-set_self,
  get_elem?-set_ne, get_elem?-replicate, get_elem?-append_left, get_elem?-append_end,
  lt_of_get_elem?,
}
use low_latency_prediction_m.Base.Words.{add_size, sub_size}
use low_latency_prediction_m.Queue.{SpscQueue, slot, empty}
use low_latency_prediction_m.Queue.Invariant.{
  IsSize, Holds, IsSize-pos, IsSize-le, slot-eq-mod, slot_of_wrapped, wrapped-add-mod, slots_differ,
}

module _ {ℓ} {A : Type ℓ} {size : ℕ} (s : IsSize size) where
  pub empty-Holds : Holds {A = A} size (empty size) []
  unfolding empty
  empty-Holds = record {
    slots = length-replicate size none;
    read_small = omega arith;
    write_at = refl;
    fits = omega arith;
    live = λ i a e. cc;
    free = λ i lo hi. get_elem?-replicate size ((0 + i) % size) none (mod-lt (0 + i) (omega arith));
  }

  -- The distance of the indices is the number of items.
  pub distance :
      {q : SpscQueue A} {items : List A}
      → Holds size q items
      → sub_size q.write_index q.read_index ≡ length items
  distance h = omega (arith, IsSize-le s, h.write_at, h.read_small, h.fits)

  pub write_slot :
      {q : SpscQueue A} {items : List A}
      → Holds size q items
      → slot size q.write_index ≡ (q.read_index + length items) % size
  write_slot {q} {items} h =
      ap (slot size) h.write_at ∙ slot_of_wrapped s q.read_index (length items)

  abbrev pub pushed : SpscQueue A → A → SpscQueue A
  pushed q x = record q {
    buffer = set q.buffer (slot size q.write_index) (some x);
    write_index = add_size q.write_index 1;
  }

  module _ {q : SpscQueue A} {items : List A} (x : A) (h : Holds size q items) where
    -- A write to the slot of offset `j` leaves every other slot alone.
    elsewhere :
        (i j : ℕ) (v : Option A)
        → i ≢ j
        → i < size
        → j < size
        → get_elem? (set q.buffer ((q.read_index + j) % size) v) ((q.read_index + i) % size)
          ≡ get_elem? q.buffer ((q.read_index + i) % size)
    elsewhere i j v ne hi hj =
        get_elem?-set_ne q.buffer ((q.read_index + j) % size) ((q.read_index + i) % size) v
          (slots_differ q.read_index i j ne hi hj)

    written :
        (j : ℕ) (v : Option A)
        → get_elem? (set q.buffer ((q.read_index + j) % size) v) ((q.read_index + j) % size)
          ≡ some v
    written j v =
        get_elem?-set_self q.buffer ((q.read_index + j) % size) v (
          omega
            (arith, h.slots, mod-lt (q.read_index + j) {m = size} (omega (arith, IsSize-pos s))))

    pushed-live :
        length items < size
        → (i : ℕ) (a : A) → get_elem? (items ++ x ∷ []) i ≡ some a
        → get_elem? (pushed q x).buffer ((q.read_index + i) % size) ≡ some (some a)
    pushed-live room i a e = rw (write_slot h) (elim (dec_lt i (length items)) [
      | yes old ↦
          elsewhere i (length items) (some x) (omega arith) (omega arith) room
          ∙ h.live i a (sym (get_elem?-append_left items (x ∷ []) i old) ∙ e)
      | no new ↦
          let here : i ≡ length items =
            omega (arith, lt_of_get_elem? (items ++ x ∷ []) i a e, length-append items (x ∷ [])) in
          let same : some x ≡ some a = sym (get_elem?-append_end items x) ∙ (rw here at e) in
          rw here (written (length items) (some x) ∙ ap some same)
    ])

    pub pushed-Holds : length items < size → Holds size (pushed q x) (items ++ x ∷ [])
    pushed-Holds room = record {
      slots = length-set q.buffer (slot size q.write_index) (some x) ∙ h.slots;
      read_small = h.read_small;
      write_at = omega (arith, h.write_at, length-append items (x ∷ []));
      fits = omega (arith, length-append items (x ∷ []));
      live = pushed-live room;
      free = λ i lo hi. rw (write_slot h) (
          let lo' : length items < i = omega (arith, length-append items (x ∷ [])) in
          elsewhere i (length items) (some x) (omega arith) hi room ∙ h.free i (omega arith) hi);
    }

  -- What `pop` leaves.
  abbrev pub popped : SpscQueue A → SpscQueue A
  popped q = record q {
    buffer = set q.buffer (slot size q.read_index) none;
    read_index = add_size q.read_index 1;
  }

  module _ {q : SpscQueue A} {items : List A} (x : A) (h : Holds size q (x ∷ items)) where
    pub read_slot : slot size q.read_index ≡ (q.read_index + 0) % size
    read_slot = slot-eq-mod s q.read_index ∙ ap (λ t. t % size) (omega arith)

    -- The slot of offset `i` after the call is that of offset `i + 1` before.
    next_slot : (i : ℕ) → (add_size q.read_index 1 + i) % size ≡ (q.read_index + suc i) % size
    next_slot i =
        wrapped-add-mod s q.read_index 1 i ∙ ap (λ t. (q.read_index + t) % size) (omega arith)

    popped-free :
        (i : ℕ)
        → length items ≤ i
        → i < size
        → get_elem? (popped q).buffer (((popped q).read_index + i) % size) ≡ some none
    popped-free i lo hi =
        rw (next_slot i, read_slot)
          (elim (dec_lt (suc i) size) [
            | yes inside ↦
                elsewhere x h (suc i) 0 none (omega arith) inside (omega arith)
                ∙ h.free (suc i) (omega arith) inside
            | no last ↦
                let round : (q.read_index + suc i) % size ≡ (q.read_index + 0) % size =
                  ap (λ t. t % size) (omega arith) ∙ add-mod_right (q.read_index + 0) size in
                rw round (written x h 0 none)
          ])

    pub popped-Holds : Holds size (popped q) items
    popped-Holds = record {
      slots = length-set q.buffer (slot size q.read_index) none ∙ h.slots;
      read_small = omega arith;
      write_at = omega (arith, h.write_at);
      fits = omega (arith, h.fits);
      live = λ i a e.
          rw (next_slot i, read_slot)
            (let small : suc i < size = omega (arith, lt_of_get_elem? items i a e, h.fits) in
              elsewhere x h (suc i) 0 none (omega arith) small (omega arith) ∙ h.live (suc i) a e);
      free = popped-free;
    }
