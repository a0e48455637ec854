-- ===== src/Parser/Messages/Delivery.antt =====
-- What a payload leaves in the queue.
use mathlib.Core.List.{append-nil, append_assoc}
use native.Mathlib.Decide.{ℕ_discrete, dec_lt}
use low_latency_prediction_m.Base.{
  ℕ, suc, ◌-◌, ◌≤◌, ◌<◌, ◌≡◌, refl, ◌∙◌, ap, sym, true, false, Option, List, [], ◌∷◌, ◌++◌, arith,
  Bytes, Bool-cases, inl, inr, ◌⊎◌, All, All-append, All-take, take, length, length-append,
  take-nil, ==_iff, ne→==,
}
use low_latency_prediction_m.Book.{MarketTick}
use low_latency_prediction_m.Book.Levels.{IsTick}
use low_latency_prediction_m.Queue.Invariant.{IsSize, Holds}
use low_latency_prediction_m.Queue.Fifo.{offer, push_refines}
use low_latency_prediction_m.Parser.Json.{Simdjson, ReadsLength}
use low_latency_prediction_m.Parser.Messages.Emitted.{document_emission}
use low_latency_prediction_m.Parser.Messages.Valid.{document_emission-valid}
use low_latency_prediction_m.Parser.Messages.Play.{parse_document-play}
use low_latency_prediction_m.Parser.Messages.{
  refused, Queue, MarketParser, max_payload_bytes, push_all, parse_document, fill, parse_tick,
}

offer-take :
    {A : Type 0} (size : ℕ) (items more : List A) (x : A)
    → length items ≤ size
    → let kept = (offer size items x).0 in
      kept ++ take (size - length kept) more ≡ items ++ take (size - length items) (x ∷ more)
offer-take size items more x fits = elim (ℕ_discrete (length items) size) [
  | yes full ↦
      let none_left : size - length items ≡ 0 = omega arith in
      rw ((==_iff (length items) size).1 full, none_left)
  | no room ↦
      let one_more : size - length items ≡ suc (size - length (items ++ x ∷ [])) =
        omega (arith, length-append items (x ∷ [])) in
      rw (ne→== (length items) size room, one_more) (append_assoc items (x ∷ []) _)
]

-- A queue that holds `items` takes as many of the ticks as it has room for, in order, and drops the
-- rest.
pub push_all-Holds :
    {size : ℕ} (s : IsSize size) (ticks : List MarketTick) {q : Queue} {items : List MarketTick}
    → Holds size q items
    → Holds size (push_all size ticks q) (items ++ take (size - length items) ticks)
unfolding push_all
push_all-Holds {size} s [] {q} {items} h = rw (take-nil (size - length items), append-nil) h
push_all-Holds {size} s (t ∷ ticks) {q} {items} h =
    rw (← offer-take size items ticks t h.fits) (push_all-Holds s ticks (push_refines s t h).0)

module _ (j : Simdjson) where
  -- The document that a payload stands for.
  abbrev pub document_of : MarketParser → Bytes → Option j.Document
  document_of p payload = j.iterate (fill j payload p.buffer) (length payload)

  -- The length of a payload that `parse_tick` reads.
  abbrev pub IsReadable : Bytes → Type 0
  IsReadable payload = (0 < length payload) × (length payload ≤ max_payload_bytes)

  -- What `parse_tick` returns without reading the payload.
  abbrev pub IsTurnedAway : MarketParser → Bytes → Type 0
  IsTurnedAway p payload =
      (p.initialized ≡ false) ⊎ (length payload ≡ 0) ⊎ (max_payload_bytes < length payload)

  pub IsTurnedAway-or_read :
      (p : MarketParser) (payload : Bytes)
      → IsTurnedAway p payload ⊎ ((p.initialized ≡ true) × IsReadable payload)
  IsTurnedAway-or_read p payload = elim (Bool-cases p.initialized) [
    | inr off ↦ inl (inl off)
    | inl on ↦ elim (dec_lt 0 (length payload)) [
      | no nothing ↦ inl (inr (inl (omega arith)))
      | yes some_byte ↦ elim (dec_lt max_payload_bytes (length payload)) [
        | yes long ↦ inl (inr (inr long))
        | no fits ↦ inr (on, (some_byte, omega arith))
      ]
    ]
  ]

  -- A parser that failed to initialise, an empty payload and one over 65536 bytes are refused, with
  -- the parser and the queue as they were.
  pub parse_tick-refused :
      (size : ℕ) (p : MarketParser) (payload : Bytes) (q : Queue)
      → IsTurnedAway p payload
      → parse_tick j size p payload q ≡ (p, refused, q)
  unfolding parse_tick
  parse_tick-refused size p payload q h = ground arith

  pub parse_tick-read :
      (size : ℕ) (p : MarketParser) (payload : Bytes) (q : Queue)
      → p.initialized ≡ true
      → IsReadable payload
      → parse_tick j size p payload q ≡ (
        record p { buffer = fill j payload p.buffer },
        (parse_document j size (document_of p payload) q).0,
        (parse_document j size (document_of p payload) q).1,
      )
  unfolding parse_tick
  parse_tick-read size p payload q ready fits = ground arith

  module _ {size : ℕ} (s : IsSize size) (p : MarketParser) (payload : Bytes) where
    -- An initialised parser, on a payload of 1 to 65536 bytes, ends as the document decides, and the
    -- queue takes the document's ticks in order after what it held, as many as it has room for.
    pub parse_tick-delivers :
        {q : Queue} {items : List MarketTick}
        → Holds size q items
        → p.initialized ≡ true
        → IsReadable payload
        → let e = document_emission j (document_of p payload) in
          let (p', o, q') = parse_tick j size p payload q in
          (o ≡ e.0) × Holds size q' (items ++ take (size - length items) e.1)
    parse_tick-delivers {q} {items} h ready fits =
        rw
          (
            parse_tick-read size p payload q ready fits,
            parse_document-play j size (document_of p payload) q,
          )
          (refl, push_all-Holds s (document_emission j (document_of p payload)).1 h)

    -- Whatever the payload and the state of the parser, a queue of valid ticks stays one.
    pub parse_tick-IsTick :
        {q : Queue} {items : List MarketTick}
        → Holds size q items
        → All IsTick items
        → (items' : List MarketTick) × Holds size (parse_tick j size p payload q).2 items'
          × All IsTick items'
    parse_tick-IsTick {q} {items} h valid = elim (IsTurnedAway-or_read p payload) [
      | inl away ↦ (items, rw (parse_tick-refused size p payload q away) h, valid)
      | inr (ready, fits) ↦ (
        _,
        (parse_tick-delivers h ready fits).1,
        All-append IsTick items _ valid
            (All-take IsTick _ _ (document_emission-valid j (document_of p payload))),
      )
    ]

  take-append : (xs ys : Bytes) → take (length xs) (xs ++ ys) ≡ xs
  take-append [] ys = refl
  take-append (x ∷ xs) ys = ap (◌∷◌ x) (take-append xs ys)

  pub document_of_lem :
      (p p' : MarketParser) (payload : Bytes)
      → ReadsLength j
      → document_of p payload ≡ document_of p' payload
  unfolding fill
  document_of_lem p p' payload reads =
      reads _ _ _ (take-append payload _ ∙ sym (take-append payload _))

  -- What earlier messages left in the buffer plays no part in a later one: two parsers that are both
  -- initialised, or both not, end alike and leave the queue alike.
  pub parse_tick-no_stale :
      (size : ℕ) (p p' : MarketParser) (payload : Bytes) (q : Queue)
      → ReadsLength j
      → p.initialized ≡ p'.initialized
      → ((parse_tick j size p payload q).1 ≡ (parse_tick j size p' payload q).1)
        × ((parse_tick j size p payload q).2 ≡ (parse_tick j size p' payload q).2)
  parse_tick-no_stale size p p' payload q reads same = elim (IsTurnedAway-or_read p payload) [
    | inl away ↦
        let away' : IsTurnedAway p' payload = elim away [
          | inl off ↦ inl (sym same ∙ off)
          | inr length_bad ↦ inr length_bad
        ] in
        rw (parse_tick-refused size p payload q away, parse_tick-refused size p' payload q away')
          (refl, refl)
    | inr (ready, fits) ↦
        rw
          (
            parse_tick-read size p payload q ready fits,
            parse_tick-read size p' payload q (sym same ∙ ready) fits,
            document_of_lem p p' payload reads,
          )
          (refl, refl)
  ]
