-- ===== src/Queue.antt =====
-- `SpscQueue` of include/spsc_queue.hpp: a ring of `Size` slots of raw storage with two free-running
-- 64-bit indices. This file holds the calls as whole steps; what they do is proved in the children.
pub mod Invariant
pub mod Steps
pub mod Fifo
pub mod Destroy
pub mod Threads
use Prim.Native.Nat.{bit_and}
use low_latency_prediction_m.Base.{
  ℕ, zero, suc, ◌-◌, Bool, true, false, Option, none, some, List, [], ◌∷◌, ◌==◌, if◌then◌else◌,
  get_elem?, set, replicate,
}
use low_latency_prediction_m.Base.Words.{add_size, sub_size}

-- A slot is `none` while it is raw storage, and `some` while an object lives in it.
pub record SpscQueue {ℓ} (A : Type ℓ) : Type ℓ where
  pub buffer : List (Option A)
  pub write_index : ℕ
  pub read_index : ℕ

-- What `pop` does: the queue was empty, an item was moved out, or a slot was read in which no object
-- lives, which is undefined behaviour.
pub data Popped {ℓ} (A : Type ℓ) : Type ℓ where
  nothing : Popped A
  item : A → Popped A
  undefined : Popped A

-- `index & kMask`
abbrev pub slot : ℕ → ℕ → ℕ
slot size index = bit_and index (size - 1)

-- `size` is the template parameter `Size`.
module _ {ℓ} {A : Type ℓ} (size : ℕ) where
  unfoldable pub empty : SpscQueue A
  empty = record { buffer = replicate size none; write_index = 0; read_index = 0 }

  unfoldable pub push : SpscQueue A → A → SpscQueue A × Bool
  push q x =
      let write = q.write_index in
      let read = q.read_index in
      if sub_size write read == size then (q, false) else (
        record q {
          buffer = set q.buffer (slot size write) (some x);
          write_index = add_size write 1;
        },
        true,
      )

  -- The move out of the slot, with the object in it destroyed.
  take_slot : SpscQueue A → ℕ → Option (Option A) → SpscQueue A × Popped A
  take_slot q i (some (some x)) =
      (record q { buffer = set q.buffer i none; read_index = add_size q.read_index 1 }, item x)
  take_slot q i _ = (q, undefined)

  unfoldable pub pop : SpscQueue A → SpscQueue A × Popped A
  unfolding take_slot
  pop q =
      let read = q.read_index in
      let write = q.write_index in
      if read == write
      then (q, nothing)
      else take_slot q (slot size read) (get_elem? q.buffer (slot size read))

  -- `std::destroy_at` needs an object in the slot.
  destroy_slot : List (Option A) → ℕ → Option (Option A) → Option (List (Option A))
  destroy_slot buffer i (some (some x)) = some (set buffer i none)
  destroy_slot buffer i _ = none

  -- The loop of `~SpscQueue`, from `read` up to `write`. `none`: the fuel, which bounds the rounds,
  -- ran out, or a slot with no object in it was destroyed.
  destroy_from : ℕ → ℕ → ℕ → List (Option A) → Option (List (Option A))
  unfolding destroy_slot
  destroy_from zero read write buffer = none
  destroy_from (suc fuel) read write buffer = elim (read == write) [
    | true ↦ some buffer
    | false ↦ elim (destroy_slot buffer (slot size read) (get_elem? buffer (slot size read))) [
      | none ↦ none
      | some buffer' ↦ destroy_from fuel (add_size read 1) write buffer'
    ]
  ]

  pub destroy : ℕ → SpscQueue A → Option (List (Option A))
  unfolding destroy_from
  destroy fuel q = destroy_from fuel q.read_index q.write_index q.buffer
