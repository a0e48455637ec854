-- ===== src/Parser/Sample.antt =====
-- A concrete stand-in for simdjson, for the tests: documents are trees, and one text is known to the
-- reader of documents.
use low_latency_prediction_m.Base.{
  true, Option, none, some, List, [], ◌∷◌, if◌then◌else◌, Bytes, same_text, take,
}
use low_latency_prediction_m.Parser.Json.{Simdjson, Found, found, no_such_field, ReadsLength}

mutual
  pub data Node : Type 0 where
    text : Bytes → Node
    arr : Items → Node
    obj : Fields → Node

  -- `bad` is an element with an error.
  pub data Items : Type 0 where
    nil : Items
    cons : Node → Items → Items
    bad : Items → Items

  pub data Fields : Type 0 where
    end : Fields
    field : Bytes → Node → Fields → Fields

abbrev pub elements_of : Items → List (Option Node)
elements_of nil = []
elements_of (cons n ns) = some n ∷ elements_of ns
elements_of (bad ns) = none ∷ elements_of ns

abbrev pub find : Fields → Bytes → Found Node
find end key = no_such_field
find (field k n fs) key = if same_text k key then found n else find fs key

abbrev pub as_text : Node → Option Bytes
as_text (text s) = some s
as_text _ = none

abbrev pub as_array : Node → Option Items
as_array (arr ns) = some ns
as_array _ = none

abbrev pub as_object : Node → Option Fields
as_object (obj fs) = some fs
as_object _ = none

-- The reader knows the text `known`, which stands for `node`.
module _ (known : Bytes) (node : Node) where
  abbrev pub sample_json : Simdjson
  sample_json = record {
    Document = Node;
    Value = Node;
    Object = Fields;
    Array = Items;
    padding = 64;
    allocate = λ n. true;
    iterate = λ buffer len. if same_text (take len buffer) known then some node else none;
    document_object = as_object;
    document_array = as_array;
    find_field_unordered = find;
    get_string = as_text;
    get_array = as_array;
    get_object = as_object;
    elements = elements_of;
  }

  pub sample_json-ReadsLength : ReadsLength sample_json
  sample_json-ReadsLength a b len e = rw e
