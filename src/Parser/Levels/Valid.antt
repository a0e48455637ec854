-- ===== src/Parser/Levels/Valid.antt =====
-- The ticks of one level lie on the grid and fit their types.
use low_latency_prediction_m.Base.{
  ℕ, ◌^◌, ◌<◌, ◌≡◌, refl, Bool, true, false, not, ◌&&◌, Option, none, some, List, [], ◌∷◌, ◌++◌,
  arith, Bytes, codes, same_text, Bool-cases, Option-cases, inl, inr, All, All-append,
}
use low_latency_prediction_m.Book.Levels.{IsTick}
use low_latency_prediction_m.Parser.Json.{Simdjson}
use low_latency_prediction_m.Parser.Numbers.{parse_price_cents, parse_size_u32, in_price_range}
use low_latency_prediction_m.Parser.Numbers.Range.{in_price_range_iff}
use low_latency_prediction_m.Parser.Numbers.Size.{parse_size_u32-lt}
use low_latency_prediction_m.Parser.Levels.{
  Level, push, skip, refuse, throw, make_tick, with_size, with_price, level_of_texts, string_field,
  level_of_rest, level_of_pair, level_of_object, hint_of_text, with_hints, change_of_side,
  change_of_object, element_string, read_pair, read_object, read_change,
}

abbrev pub LevelIsValid : Level → Type 0
LevelIsValid (push ticks) = All IsTick ticks
LevelIsValid _ = Unit

make_tick-IsTick :
    (cents size : ℕ) (is_bid : Bool)
    → in_price_range cents ≡ true
    → size < 2 ^ 32
    → IsTick (make_tick cents size is_bid)
unfolding make_tick
make_tick-IsTick cents size is_bid grid fits = ground (arith, in_price_range_iff cents)

with_size-valid :
    (is_bid : Bool) (cents : ℕ) (o : Option ℕ)
    → in_price_range cents ≡ true
    → ((n : ℕ) → o ≡ some n → n < 2 ^ 32)
    → LevelIsValid (with_size is_bid cents o)
unfolding with_size
with_size-valid is_bid cents none grid fits = tt
with_size-valid is_bid cents (some n) grid fits =
    (make_tick-IsTick cents n is_bid grid (fits n refl), tt)

with_price-valid :
    (is_bid : Bool) (size_sv : Bytes) (o : Option ℕ) → LevelIsValid (with_price is_bid size_sv o)
unfolding with_price
with_price-valid is_bid size_sv none = tt
with_price-valid is_bid size_sv (some cents) = elim (Bool-cases (in_price_range cents)) [
  | inr off ↦ rw off tt
  | inl on ↦
      rw on (with_size-valid is_bid cents (parse_size_u32 size_sv) on (parse_size_u32-lt size_sv))
]

level_of_texts-valid :
    (is_bid : Bool) (price_sv size_sv : Bytes)
    → LevelIsValid (level_of_texts is_bid price_sv size_sv)
unfolding level_of_texts
level_of_texts-valid is_bid price_sv size_sv =
    with_price-valid is_bid size_sv (parse_price_cents price_sv)

-- A match on an option, one case at a time.
on_option :
    {A : Type 0} (o : Option A) (l : Level) (f : A → Level)
    → LevelIsValid l
    → ((a : A) → LevelIsValid (f a))
    → LevelIsValid (elim o [ none ↦ l | some a ↦ f a ])
on_option none l f hl hf = hl
on_option (some a) l f hl hf = hf a

module _ (j : Simdjson) where
  open j use {Value, Object, Array, get_array, get_object, elements}

  hint_of_text-valid : (is_bid : Bool) (o : Option Bytes) → All IsTick (hint_of_text j is_bid o)
  unfolding hint_of_text
  hint_of_text-valid is_bid none = tt
  hint_of_text-valid is_bid (some sv) = elim (Option-cases (parse_price_cents sv)) [
    | inl bad ↦ ground arith
    | inr (cents, good) ↦ ground (arith, make_tick-IsTick cents 1 is_bid)
  ]

  with_hints-valid : (obj : Object) (l : Level) → LevelIsValid l → LevelIsValid (with_hints j obj l)
  unfolding with_hints
  with_hints-valid obj (push ticks) h =
      All-append IsTick (ticks ++ hint_of_text j true (string_field j obj (codes "best_bid"))) _
        (All-append IsTick ticks _ h (hint_of_text-valid true _)) (hint_of_text-valid false _)
  with_hints-valid obj skip h = tt
  with_hints-valid obj refuse h = tt
  with_hints-valid obj throw h = tt

  level_of_rest-valid :
      (is_bid : Bool) (price_sv : Bytes) (es : List (Option Value))
      → LevelIsValid (level_of_rest j is_bid price_sv es)
  unfolding level_of_rest
  level_of_rest-valid is_bid price_sv [] = tt
  level_of_rest-valid is_bid price_sv (e ∷ []) =
      on_option (element_string j e) skip _ tt (level_of_texts-valid is_bid price_sv)
  level_of_rest-valid is_bid price_sv (e ∷ x ∷ xs) =
      on_option (element_string j e) skip _ tt (λ size_sv. tt)

  level_of_pair-valid :
      (is_bid : Bool) (es : List (Option Value)) → LevelIsValid (level_of_pair j is_bid es)
  unfolding level_of_pair
  level_of_pair-valid is_bid [] = tt
  level_of_pair-valid is_bid (e ∷ rest) =
      on_option (element_string j e) skip _ tt
        (λ price_sv. level_of_rest-valid is_bid price_sv rest)

  pub read_pair-valid : (is_bid : Bool) (e : Option Value) → LevelIsValid (read_pair j is_bid e)
  unfolding read_pair
  read_pair-valid is_bid none = tt
  read_pair-valid is_bid (some v) =
      on_option (get_array v) refuse _ tt (λ pair. level_of_pair-valid is_bid (elements pair))

  level_of_object-valid :
      (is_bid : Bool) (obj : Object) → LevelIsValid (level_of_object j is_bid obj)
  unfolding level_of_object
  level_of_object-valid is_bid obj =
      on_option (string_field j obj (codes "price")) skip _ tt λ price_sv.
        on_option (string_field j obj (codes "size")) skip _ tt
          (level_of_texts-valid is_bid price_sv)

  pub read_object-valid : (is_bid : Bool) (e : Option Value) → LevelIsValid (read_object j is_bid e)
  unfolding read_object
  read_object-valid is_bid none = tt
  read_object-valid is_bid (some v) =
      on_option (get_object v) refuse _ tt (level_of_object-valid is_bid)

  change_of_side-valid :
      (obj : Object) (price_sv size_sv side_sv : Bytes)
      → LevelIsValid (change_of_side j obj price_sv size_sv side_sv)
  unfolding change_of_side
  change_of_side-valid obj price_sv size_sv side_sv =
      let is_bid = same_text side_sv (codes "BUY") in
      let hinted =
        with_hints-valid obj (level_of_texts is_bid price_sv size_sv)
          (level_of_texts-valid is_bid price_sv size_sv) in
      elim (Bool-cases (not is_bid && not (same_text side_sv (codes "SELL")))) [
        | inl neither ↦ rw neither tt
        | inr one ↦ rw one hinted
      ]

  change_of_object-valid : (obj : Object) → LevelIsValid (change_of_object j obj)
  unfolding change_of_object
  change_of_object-valid obj = on_option (string_field j obj (codes "price")) skip _ tt λ price_sv.
      on_option (string_field j obj (codes "size")) skip _ tt λ size_sv.
        on_option (string_field j obj (codes "side")) skip _ tt
          λ side_sv. change_of_side-valid obj price_sv size_sv side_sv

  pub read_change-valid : (e : Option Value) → LevelIsValid (read_change j e)
  unfolding read_change
  read_change-valid none = tt
  read_change-valid (some v) = on_option (get_object v) refuse _ tt change_of_object-valid
