-- ===== src/Parser/Messages/Play.antt =====
-- The parser with the queue passed along is the emission of the message played into the queue.
use low_latency_prediction_m.Base.{
  ℕ, ◌≡◌, refl, ◌∙◌, ap, sym, Bool, true, false, Option, none, some, List, [], ◌∷◌, ◌++◌, arith,
  Bytes, codes, Option-cases, inl, inr,
}
use low_latency_prediction_m.Book.{MarketTick}
use low_latency_prediction_m.Queue as Spsc
use low_latency_prediction_m.Parser.Json.{Simdjson, Found, found, no_such_field, failed}
use low_latency_prediction_m.Parser.Levels.{
  Level, push, skip, refuse, throw, read_pair, read_object, read_change,
}
use low_latency_prediction_m.Parser.Messages.Emitted.{
  Emission, followed_by, levels_emission, field_emission, sides_emission, event_emission,
  typed_emission, message_emission, batch_emission, document_emission,
}
use low_latency_prediction_m.Parser.Messages.{
  Outcome, accepted, refused, terminated, Queue, push_all, and_then, read_levels, read_found,
  parse_book, parse_mock, parse_event, parse_typed, parse_message_object, parse_batch,
  parse_document,
}

module _ (j : Simdjson) (size : ℕ) where
  open j use {
    Document, Value, Object, elements, find_field_unordered, get_string, get_array, get_object,
    document_object, document_array,
  }

  -- An emission played into a queue.
  abbrev pub play : Emission → Queue → Outcome × Queue
  play e q = (e.0, push_all size e.1 q)

  pub push_all-append :
      (ts us : List MarketTick) (q : Queue)
      → push_all size (ts ++ us) q ≡ push_all size us (push_all size ts q)
  unfolding push_all
  push_all-append [] us q = refl
  push_all-append (t ∷ ts) us q = push_all-append ts us (Spsc.push size q t).0

  read_levels-play :
      (read : Option Value → Level) (es : List (Option Value)) (q : Queue)
      → read_levels j size read es q ≡ play (levels_emission j read es) q
  unfolding read_levels levels_emission push_all
  read_levels-play read [] q = refl
  read_levels-play read (e ∷ es) q = go (read e) refl (read_levels-play read es)
    where
      go :
          (l : Level)
          → read e ≡ l
          → ((q : Queue) → read_levels j size read es q ≡ play (levels_emission j read es) q)
          → read_levels j size read (e ∷ es) q ≡ play (levels_emission j read (e ∷ es)) q
      go (push ts) r ih =
          ground
            (arith, ih (push_all size ts q), push_all-append ts (levels_emission j read es).1 q)
      go skip r ih = ground (arith, ih q)
      go refuse r ih = ground arith
      go throw r ih = ground arith

  read_found-play :
      (read : Option Value → Level) (f : Found Value) (q : Queue)
      → read_found j size read f q ≡ play (field_emission j read f) q
  unfolding read_found field_emission push_all
  read_found-play read no_such_field q = refl
  read_found-play read failed q = refl
  read_found-play read (found v) q = elim (Option-cases (get_array v)) [
    | inl e ↦ ground arith
    | inr (levels, e) ↦ ground (arith, read_levels-play read (elements levels) q)
  ]

  and_then-play :
      (a b : Emission) (f : Queue → Outcome × Queue) (q : Queue)
      → ((q : Queue) → f q ≡ play b q)
      → and_then (play a q) f ≡ play (followed_by a b) q
  and_then-play (accepted, ts) b f q h =
      h (push_all size ts q) ∙ ap (λ q'. (b.0, q')) (sym (push_all-append ts b.1 q))
  and_then-play (refused, ts) b f q h = refl
  and_then-play (terminated, ts) b f q h = refl

  sides-play :
      (read : Bool → Option Value → Level) (obj : Object) (q : Queue)
      → and_then
          (read_found j size (read true) (find_field_unordered obj (codes "bids")) q)
          (read_found j size (read false) (find_field_unordered obj (codes "asks")))
        ≡ play (sides_emission j read obj) q
  unfolding sides_emission
  sides-play read obj q =
      rw (read_found-play (read true) (find_field_unordered obj (codes "bids")) q) (
        and_then-play (field_emission j (read true) (find_field_unordered obj (codes "bids")))
          (field_emission j (read false) (find_field_unordered obj (codes "asks"))) _ q
          (read_found-play (read false) (find_field_unordered obj (codes "asks"))))

  parse_book-play :
      (obj : Object) (q : Queue)
      → parse_book j size obj q ≡ play (sides_emission j (read_object j) obj) q
  unfolding parse_book
  parse_book-play obj q = sides-play (read_object j) obj q

  parse_mock-play :
      (obj : Object) (q : Queue)
      → parse_mock j size obj q ≡ play (sides_emission j (read_pair j) obj) q
  unfolding parse_mock
  parse_mock-play obj q = sides-play (read_pair j) obj q

  parse_event-play :
      (obj : Object) (event_type : Bytes) (q : Queue)
      → parse_event j size obj event_type q ≡ play (event_emission j obj event_type) q
  unfolding parse_event event_emission push_all
  parse_event-play obj event_type q = ground (
    arith,
    parse_book-play obj q,
    read_found-play (read_change j) (find_field_unordered obj (codes "price_changes")) q,
  )

  parse_typed-play :
      (obj : Object) (f : Found Value) (q : Queue)
      → parse_typed j size obj f q ≡ play (typed_emission j obj f) q
  unfolding parse_typed typed_emission push_all
  parse_typed-play obj no_such_field q = parse_mock-play obj q
  parse_typed-play obj failed q = refl
  parse_typed-play obj (found v) q = elim (Option-cases (get_string v)) [
    | inl e ↦ ground (arith, parse_mock-play obj q)
    | inr (event_type, e) ↦ ground (arith, parse_event-play obj event_type q)
  ]

  -- A message emits its ticks into the queue in order, and ends as the message alone decides.
  pub parse_message_object-play :
      (obj : Object) (q : Queue)
      → parse_message_object j size obj q ≡ play (message_emission j obj) q
  unfolding parse_message_object message_emission
  parse_message_object-play obj q =
      parse_typed-play obj (find_field_unordered obj (codes "event_type")) q

  parse_batch-play :
      (es : List (Option Value)) (q : Queue)
      → parse_batch j size es q ≡ play (batch_emission j es) q
  unfolding parse_batch batch_emission push_all
  parse_batch-play [] q = refl
  parse_batch-play (none ∷ es) q = refl
  parse_batch-play (some v ∷ es) q = elim (Option-cases (get_object v)) [
    | inl e ↦ ground (arith, parse_batch-play es q)
    | inr (obj, e) ↦ ground (
      arith,
      parse_message_object-play obj q,
      parse_batch-play es (push_all size (message_emission j obj).1 q),
      push_all-append (message_emission j obj).1 (batch_emission j es).1 q,
    )
  ]

  -- What a document does to the queue is its emission, which the queue has no part in: the ticks are
  -- offered to the queue in order, and the outcome is the same whatever the queue held.
  pub parse_document-play :
      (doc : Option Document) (q : Queue)
      → parse_document j size doc q ≡ play (document_emission j doc) q
  unfolding parse_document document_emission push_all
  parse_document-play none q = refl
  parse_document-play (some doc) q = elim (Option-cases (document_object doc)) [
    | inr (obj, e) ↦ ground (arith, parse_message_object-play obj q)
    | inl e ↦ elim (Option-cases (document_array doc)) [
      | inl e' ↦ ground arith
      | inr (arr, e') ↦ ground (arith, parse_batch-play (elements arr) q)
    ]
  ]
