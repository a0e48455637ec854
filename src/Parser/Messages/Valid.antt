-- ===== src/Parser/Messages/Valid.antt =====
-- Every tick that the parser emits is one that `LimitOrderBook` takes as it is.
use low_latency_prediction_m.Base.{
  Bool, true, false, Option, none, some, List, [], ◌∷◌, if◌then◌else◌, Bytes, codes, same_text, All,
  All-append,
}
use low_latency_prediction_m.Book.Levels.{IsTick}
use low_latency_prediction_m.Parser.Json.{Simdjson, Found, found, no_such_field, failed}
use low_latency_prediction_m.Parser.Levels.Valid.{
  LevelIsValid, read_pair-valid, read_object-valid, read_change-valid,
}
use low_latency_prediction_m.Parser.Levels.{
  Level, push, skip, refuse, throw, read_pair, read_object, read_change,
}
use low_latency_prediction_m.Parser.Messages.Emitted.{
  Emission, followed_by, forgiven, levels_emission, field_emission, sides_emission, event_emission,
  typed_emission, message_emission, batch_emission, document_emission,
}
use low_latency_prediction_m.Parser.Messages.{accepted, refused, terminated}

abbrev EmissionIsValid : Emission → Type 0
EmissionIsValid e = All IsTick e.1

followed_by-valid :
    (a b : Emission) → EmissionIsValid a → EmissionIsValid b → EmissionIsValid (followed_by a b)
followed_by-valid (accepted, ticks) b ha hb = All-append IsTick ticks b.1 ha hb
followed_by-valid (refused, ticks) b ha hb = ha
followed_by-valid (terminated, ticks) b ha hb = ha

forgiven-valid : (a : Emission) → EmissionIsValid a → EmissionIsValid (forgiven a)
forgiven-valid (accepted, ticks) h = h
forgiven-valid (refused, ticks) h = h
forgiven-valid (terminated, ticks) h = h

on_option :
    {A : Type 0} (o : Option A) (e : Emission) (f : A → Emission)
    → EmissionIsValid e
    → ((a : A) → EmissionIsValid (f a))
    → EmissionIsValid (elim o [ none ↦ e | some a ↦ f a ])
on_option none e f he hf = he
on_option (some a) e f he hf = hf a

on_test :
    (b : Bool) (x y : Emission)
    → EmissionIsValid x
    → EmissionIsValid y
    → EmissionIsValid (if b then x else y)
on_test true x y hx hy = hx
on_test false x y hx hy = hy

-- The four ways on from a level.
on_level :
    (l : Level) (rest : Emission)
    → LevelIsValid l
    → EmissionIsValid rest
    → EmissionIsValid (elim l [
      | push ticks ↦ followed_by (accepted, ticks) rest
      | skip ↦ rest
      | refuse ↦ (refused, [])
      | throw ↦ (terminated, [])
    ])
on_level (push ticks) rest hl h = followed_by-valid (accepted, ticks) rest hl h
on_level skip rest hl h = h
on_level refuse rest hl h = tt
on_level throw rest hl h = tt

module _ (j : Simdjson) where
  open j use {
    Document, Value, Object, Array, elements, find_field_unordered, get_string, get_array,
    get_object, document_object, document_array,
  }

  levels_emission-valid :
      (read : Option Value → Level)
      → ((e : Option Value) → LevelIsValid (read e))
      → (es : List (Option Value)) → EmissionIsValid (levels_emission j read es)
  unfolding levels_emission
  levels_emission-valid read h [] = tt
  levels_emission-valid read h (e ∷ es) =
      on_level (read e) (levels_emission j read es) (h e) (levels_emission-valid read h es)

  field_emission-valid :
      (read : Option Value → Level)
      → ((e : Option Value) → LevelIsValid (read e))
      → (f : Found Value) → EmissionIsValid (field_emission j read f)
  unfolding field_emission
  field_emission-valid read h no_such_field = tt
  field_emission-valid read h failed = tt
  field_emission-valid read h (found v) =
      on_option (get_array v) (refused, []) _ tt
        λ levels. levels_emission-valid read h (elements levels)

  sides_emission-valid :
      (read : Bool → Option Value → Level)
      → ((b : Bool) (e : Option Value) → LevelIsValid (read b e))
      → (obj : Object) → EmissionIsValid (sides_emission j read obj)
  unfolding sides_emission
  sides_emission-valid read h obj =
      followed_by-valid _ _ (field_emission-valid (read true) (h true) _)
        (field_emission-valid (read false) (h false) _)

  event_emission-valid :
      (obj : Object) (event_type : Bytes) → EmissionIsValid (event_emission j obj event_type)
  unfolding event_emission
  event_emission-valid obj event_type =
      on_test (same_text event_type (codes "book")) _ _
        (sides_emission-valid (read_object j) (read_object-valid j) obj)
        (on_test (same_text event_type (codes "price_change")) _ _
          (field_emission-valid (read_change j) (read_change-valid j) _) tt)

  typed_emission-valid : (obj : Object) (f : Found Value) → EmissionIsValid (typed_emission j obj f)
  unfolding typed_emission
  typed_emission-valid obj no_such_field =
      sides_emission-valid (read_pair j) (read_pair-valid j) obj
  typed_emission-valid obj failed = tt
  typed_emission-valid obj (found v) =
      on_option (get_string v) _ _ (sides_emission-valid (read_pair j) (read_pair-valid j) obj)
        (event_emission-valid obj)

  message_emission-valid : (obj : Object) → EmissionIsValid (message_emission j obj)
  unfolding message_emission
  message_emission-valid obj = typed_emission-valid obj _

  batch_emission-valid : (es : List (Option Value)) → EmissionIsValid (batch_emission j es)
  unfolding batch_emission
  batch_emission-valid [] = tt
  batch_emission-valid (none ∷ es) = tt
  batch_emission-valid (some v ∷ es) = on_option (get_object v) _ _ (batch_emission-valid es) λ obj.
      followed_by-valid (forgiven (message_emission j obj)) (batch_emission j es)
        (forgiven-valid (message_emission j obj) (message_emission-valid obj))
        (batch_emission-valid es)

  -- Every tick that a document makes the parser emit has a price of the grid and a size of 32 bits.
  pub document_emission-valid : (doc : Option Document) → All IsTick (document_emission j doc).1
  unfolding document_emission
  document_emission-valid none = tt
  document_emission-valid (some doc) =
      on_option (document_object doc) _ _
        (on_option (document_array doc) _ _ tt λ arr. batch_emission-valid (elements arr))
        message_emission-valid
