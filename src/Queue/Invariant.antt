-- ===== src/Queue/Invariant.antt =====
-- The representation invariant of `SpscQueue`, and what it says of the slots.
use Prim.Native.Nat.{◌∣◌}
use native.Mathlib.Nat.{mod-mod_of_dvd, mod-add-mod, pow-le-pow_right}
use native.Mathlib.Decide.{dec_lt}
use low_latency_prediction_m.Base.{
  ℕ, ◌+◌, ◌-◌, ◌%◌, ◌^◌, ◌≤◌, ◌<◌, ◌≡◌, ◌≢◌, sym, ◌∙◌, ap, none, some, List, arith, length,
  get_elem?,
}
use low_latency_prediction_m.Base.Words.{add_size, bit_and-mask, pow-dvd, add-mod-ne}
use low_latency_prediction_m.Queue.{SpscQueue, slot}

-- The two `static_assert`s, for a `std::size_t`.
pub record IsSize (size : ℕ) : Type 0 where
  pub exponent : ℕ
  pub at_least_two : 1 ≤ exponent
  pub representable : exponent ≤ 63
  pub power : size ≡ 2 ^ exponent

-- The queue holds exactly `items`, oldest first: they live in consecutive slots from `read_index` on,
-- and every other slot is raw storage.
pub record Holds {ℓ} {A : Type ℓ} (size : ℕ) (q : SpscQueue A) (items : List A) : Type ℓ where
  pub slots : length q.buffer ≡ size
  pub read_small : q.read_index < 2 ^ 64
  pub write_at : q.write_index ≡ add_size q.read_index (length items)
  pub fits : length items ≤ size
  pub live :
      (i : ℕ) (a : A)
      → get_elem? items i ≡ some a
      → get_elem? q.buffer ((q.read_index + i) % size) ≡ some (some a)
  pub free :
      (i : ℕ)
      → length items ≤ i
      → i < size
      → get_elem? q.buffer ((q.read_index + i) % size) ≡ some none

pub IsSize-pos : {size : ℕ} → IsSize size → 2 ≤ size
IsSize-pos {size} s = rw s.power (pow-le-pow_right {n = 2} (omega arith) s.at_least_two)

pub IsSize-le : {size : ℕ} → IsSize size → size ≤ 2 ^ 63
IsSize-le s = rw s.power (pow-le-pow_right {n = 2} (omega arith) s.representable)

IsSize-dvd : {size : ℕ} → IsSize size → size ∣ 2 ^ 64
IsSize-dvd s = rw s.power (pow-dvd s.exponent (64 - s.exponent) 64 (omega (arith, s.representable)))

-- `index & kMask` is the index modulo the size.
pub slot-eq-mod : {size : ℕ} → IsSize size → (i : ℕ) → slot size i ≡ i % size
slot-eq-mod s i = rw s.power (bit_and-mask s.exponent i)

-- The wrap of the 64-bit index does not disturb the slot, since the size divides 2 ^ 64.
pub slot_of_wrapped :
    {size : ℕ} → IsSize size → (r i : ℕ) → slot size (add_size r i) ≡ (r + i) % size
slot_of_wrapped s r i = slot-eq-mod s (add_size r i) ∙ mod-mod_of_dvd _ (r + i) (IsSize-dvd s)

pub wrapped-add-mod :
    {size : ℕ} → IsSize size → (r j i : ℕ) → (add_size r j + i) % size ≡ (r + (j + i)) % size
wrapped-add-mod {size} s r j i =
    rw
      (← mod-add-mod (add_size r j) size i, mod-mod_of_dvd size (r + j) (IsSize-dvd s), mod-add-mod)
      (ap (λ t. t % size) (omega arith))

-- Two offsets below the size name different slots.
slots_ordered : {size : ℕ} (r i j : ℕ) → i < j → j < size → (r + j) % size ≢ (r + i) % size
slots_ordered {size} r i j lt small e =
    add-mod-ne size (r + i) (j - i) (omega arith) (omega arith)
      (ap (λ t. t % size) (omega arith) ∙ e)

pub slots_differ :
    {size : ℕ} (r i j : ℕ) → i ≢ j → i < size → j < size → (r + j) % size ≢ (r + i) % size
slots_differ r i j ne hi hj e = elim (dec_lt i j) [
  | yes lt ↦ slots_ordered r i j lt hj e
  | no ge ↦ slots_ordered r j i (omega arith) hi (sym e)
]
