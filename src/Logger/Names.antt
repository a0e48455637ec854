-- ===== src/Logger/Names.antt =====
-- The name in the event that `log_active_strategy` logs.
use mathlib.Core.List.{append_assoc}
use low_latency_prediction_m.Base.{
  ℕ, zero, suc, ◌+◌, ◌-◌, ◌≤◌, ◌<◌, ◌≡◌, ◌≢◌, refl, sym, ◌∙◌, ap, [], ◌∷◌, ◌++◌, ltb, ne→==, Bytes,
  length, set, replicate, take, All, All-take, length-append, Bool-cases, inl, inr, arith,
}
use low_latency_prediction_m.Logger.{name_size, copy_name, name_field, c_string}

set-end : (pre rest : Bytes) (x v : ℕ) → set (pre ++ x ∷ rest) (length pre) v ≡ pre ++ v ∷ rest
set-end [] rest x v = refl
set-end (p ∷ pre) rest x v = ap (◌∷◌ p) (set-end pre rest x v)

-- `room` is the rest of the array.
copy_name_lem :
    (n m room : ℕ) (name pre : Bytes)
    → room ≡ n + m
    → n ≤ length name
    → copy_name n (length pre) name (pre ++ replicate room 0)
      ≡ pre ++ (take n name ++ replicate m 0)
unfolding copy_name
copy_name_lem zero m room name pre e le = ap (λ k. pre ++ replicate k 0) (omega arith)
copy_name_lem (suc n) m room [] pre e le = absurd (omega arith)
copy_name_lem (suc n) m zero (c ∷ name) pre e le = absurd (omega arith)
copy_name_lem (suc n) m (suc room) (c ∷ name) pre e le =
    ap (copy_name n (length pre + 1) name)
      (set-end pre (replicate room 0) 0 c ∙ sym (append_assoc pre (c ∷ []) _))
    ∙ ap (λ i. copy_name n i name ((pre ++ c ∷ []) ++ replicate room 0))
        (sym (length-append pre (c ∷ [])))
    ∙ copy_name_lem n m room name (pre ++ c ∷ []) (omega arith) (omega arith)
    ∙ append_assoc pre (c ∷ []) _

length-take : (n : ℕ) (xs : Bytes) → n ≤ length xs → length (take n xs) ≡ n
length-take zero xs le = refl
length-take (suc n) [] le = absurd (omega arith)
length-take (suc n) (x ∷ xs) le = ap suc (length-take n xs (omega arith))

take-all : (n : ℕ) (xs : Bytes) → length xs ≤ n → take n xs ≡ xs
take-all zero [] le = refl
take-all zero (x ∷ xs) le = absurd (omega arith)
take-all (suc n) [] le = refl
take-all (suc n) (x ∷ xs) le = ap (◌∷◌ x) (take-all n xs (omega arith))

c_string-stop : (xs ys : Bytes) → All (λ c. c ≢ 0) xs → c_string (xs ++ 0 ∷ ys) ≡ xs
unfolding c_string
c_string-stop [] ys h = refl
c_string-stop (x ∷ xs) ys h = rw (ne→== x 0 h.0) (ap (◌∷◌ x) (c_string-stop xs ys h.1))

-- The array after the copy of `n` characters.
filled :
    (n : ℕ) (name : Bytes)
    → n ≤ length name
    → n < name_size
    → All (λ c. c ≢ 0) name
    → c_string (set (copy_name n 0 name (replicate name_size 0)) n 0) ≡ take n name
filled n name le small h =
    let m : ℕ = name_size - n - 1 in
    ap (λ s. c_string (set s n 0)) (copy_name_lem n (suc m) name_size name [] (omega arith) le)
    ∙ ap (λ i. c_string (set (take n name ++ replicate (suc m) 0) i 0))
        (sym (length-take n name le))
    ∙ ap c_string (set-end (take n name) (replicate m 0) 0 0)
    ∙ c_string-stop (take n name) (replicate m 0) (All-take (λ c. c ≢ 0) n name h)

-- A name without a zero byte is printed back as its first 15 characters, so that a name of up to 15 is
-- printed whole.
pub c_string-name_field :
    (name : Bytes) → All (λ c. c ≢ 0) name → c_string (name_field name) ≡ take 15 name
unfolding name_field
c_string-name_field name h = elim (Bool-cases (ltb (length name) 15)) [
  | inl short ↦ rw short (
      filled (length name) name (omega arith) (ground arith) h
      ∙ take-all (length name) name (omega arith)
      ∙ sym (take-all 15 name (ground arith)))
  | inr long ↦ rw long (filled 15 name (ground arith) (omega arith) h)
]
