-- ===== src/Queue/Destroy.antt =====
-- The destructor of `SpscQueue`.
use native.Mathlib.Nat.{mod-lt, mod-eq_of_lt, add-mod-mod, mod-add-mod, add-mod_right}
use low_latency_prediction_m.Base.{
  ℕ, zero, suc, ◌+◌, ◌-◌, ◌%◌, ◌<◌, ◌≡◌, refl, ◌∙◌, ap, Option, none, some, List, [], ◌∷◌, arith,
  length, get_elem?, ◌≢◌,
}
use low_latency_prediction_m.Queue.{SpscQueue, slot, destroy}
use low_latency_prediction_m.Queue.Invariant.{IsSize, Holds, IsSize-le}
use low_latency_prediction_m.Queue.Steps.{read_slot, popped, popped-Holds}

-- Every slot is raw storage.
abbrev pub IsRaw {ℓ} : {A : Type ℓ} → ℕ → List (Option A) → Type ℓ
IsRaw size buffer = (i : ℕ) → i < size → get_elem? buffer i ≡ some none

-- Going round from `r`, every slot has an offset.
offset_of : (size r j : ℕ) → j < size → (i : ℕ) × (i < size) × ((r + i) % size ≡ j)
offset_of size r j lt = (i, mod-lt _ (omega arith), back)
  where
    i : ℕ
    i = (j + (size - r % size)) % size

    back : (r + i) % size ≡ j
    back =
        add-mod-mod r (j + (size - r % size)) size
        ∙ (rw (← mod-add-mod r size (j + (size - r % size))) (
            ap (λ t. t % size) (omega (arith, mod-lt r {m = size} (omega arith)))
            ∙ add-mod_right j size
            ∙ mod-eq_of_lt lt))

module _ {ℓ} {A : Type ℓ} {size : ℕ} (s : IsSize size) where
  empty-Holds-IsRaw : {q : SpscQueue A} → Holds size q [] → IsRaw size q.buffer
  empty-Holds-IsRaw {q} h j lt =
      let (i, small, e) = offset_of size q.read_index j lt in rw e at (h.free i (omega arith) small)

  destroy-step :
      (q : SpscQueue A) (x : A) (fuel : ℕ)
      → q.read_index ≢ q.write_index
      → get_elem? q.buffer (slot size q.read_index) ≡ some (some x)
      → destroy size (suc fuel) q ≡ destroy size fuel (popped s q)
  unfolding destroy
  destroy-step q x fuel ne e = ground arith

  -- With one round of fuel more than there are items, the destructor destroys each object that lives
  -- in the queue and nothing else, and every slot is raw storage at its end.
  pub destroy-IsRaw :
      (items : List A) (fuel : ℕ) {q : SpscQueue A}
      → Holds size q items
      → length items < fuel
      → (buffer : List (Option A)) × (destroy size fuel q ≡ some buffer) × IsRaw size buffer
  unfolding destroy
  destroy-IsRaw items zero h enough = elim enough [ ]
  destroy-IsRaw [] (suc fuel) {q} h enough =
      (q.buffer, ground (arith, h.write_at, h.read_small), empty-Holds-IsRaw h)
  destroy-IsRaw (x ∷ items) (suc fuel) {q} h enough =
      let (buffer, e, raw) = destroy-IsRaw items fuel (popped-Holds s x h) (omega arith) in
      (
        buffer,
        destroy-step q x fuel (omega (arith, IsSize-le s, h.fits, h.write_at, h.read_small))
              (ap (get_elem? q.buffer) (read_slot s x h) ∙ h.live 0 x refl)
            ∙ e,
        raw,
      )
