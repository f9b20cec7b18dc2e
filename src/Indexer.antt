-- ===== src/Indexer.antt =====
-- crates/contexide-indexer/src/lib.rs. The traits `EmbeddingsProvider` and `VectorSink` are the
-- parameters `provider` and `sink`; a coordinate of a vector is of any type. `index` gives the calls
-- of `upsert` with its result.
pub mod Payload
pub mod Upserted
mod Samples
use contexide.Prelude.{
  ℕ, ◌+◌, String, Bool, true, false, not, ◌||◌, Option, none, some, List, [], ◌∷◌, map, Result, ok,
  err, length, eqb, ◌==◌, string_eq, if◌then◌else◌,
}
use contexide.HashMap
use contexide.HashMap.{HashMap}
use contexide.Executor.Json.{Json}

pub record ChunkForIndex (Value : Type 0) : Type 0 where
  pub chunk_id : ℕ
  pub text : String
  pub payload : Option (HashMap String Value)

pub record IndexRequest (Value : Type 0) : Type 0 where
  pub tenant_id : ℕ
  pub document_id : ℕ
  pub collection : String
  pub inputs : List (ChunkForIndex Value)

pub record IndexStats : Type 0 where
  pub requested : ℕ
  pub embedded : ℕ
  pub upserted : ℕ
  pub dim : ℕ

pub record VectorPoint (Value Coordinate : Type 0) : Type 0 where
  pub id : ℕ
  pub vector : List Coordinate
  pub payload : HashMap String Value

pub data Error : Type 0 where
  unknown_dimension : Error
  wrong_count : ℕ → ℕ → Error
  wrong_dimension : ℕ → ℕ → ℕ → Error
  foreign : String → Error

pub record EmbeddingsProvider (Coordinate : Type 0) : Type 0 where
  pub dims : ℕ
  pub embed : List String → Result Error (List (List Coordinate))

pub record VectorSink (Value Coordinate : Type 0) : Type 0 where
  pub ensure_collection : String → ℕ → Result Error Unit
  pub upsert : String → List (VectorPoint Value Coordinate) → Result Error ℕ

-- `matches!(k.as_str(), "tenant_id" | "document_id" | "chunk_id")`
unfoldable pub is_canonical : String → Bool
is_canonical k = k == "tenant_id" || k == "document_id" || k == "chunk_id"

-- The loop over the entries of the base.
unfoldable pub add_extra :
    {Value : Type 0} → HashMap String Value → HashMap String Value → HashMap String Value
add_extra [] p = p
add_extra ((k, v) ∷ extra) p = add_extra extra (if is_canonical k then p else HashMap.insert k v p)

-- The loop that tests the vectors, from number `i` on.
abbrev pub wrong_vector : {Coordinate : Type 0} → ℕ → ℕ → List (List Coordinate) → Option Error
wrong_vector i dims [] = none
wrong_vector i dims (v ∷ vectors) =
    let rest = wrong_vector (i + 1) dims vectors in
    if eqb (length v) dims then rest else some (wrong_dimension i (length v) dims)

module _ (json : Json) where
  open json use {Value}

  abbrev pub canonical_ids : ℕ → ℕ → ℕ → HashMap String Value
  canonical_ids tenant_id document_id chunk_id = HashMap.insert "chunk_id" (json.uuid chunk_id) (
      HashMap.insert "document_id" (json.uuid document_id)
        (HashMap.insert "tenant_id" (json.uuid tenant_id) []))

  unfoldable pub build_payload : Option (HashMap String Value) → ℕ → ℕ → ℕ → HashMap String Value
  build_payload none tenant_id document_id chunk_id = canonical_ids tenant_id document_id chunk_id
  build_payload (some extra) tenant_id document_id chunk_id =
      add_extra extra (canonical_ids tenant_id document_id chunk_id)

  module _ {Coordinate : Type 0} where
    abbrev pub point :
        IndexRequest Value → ChunkForIndex Value → List Coordinate → VectorPoint Value Coordinate
    point req c vec = record {
      id = c.chunk_id;
      vector = vec;
      payload = build_payload c.payload req.tenant_id req.document_id c.chunk_id;
    }

    -- The loop over `req.inputs.iter().zip(vectors)`.
    abbrev pub points_of :
        IndexRequest Value
        → List (ChunkForIndex Value)
        → List (List Coordinate)
        → List (VectorPoint Value Coordinate)
    points_of req (c ∷ inputs) (vec ∷ vectors) = point req c vec ∷ points_of req inputs vectors
    points_of req [] vectors = []
    points_of req (c ∷ inputs) [] = []

  module _ {Coordinate : Type 0} (provider : EmbeddingsProvider Coordinate)
      (sink : VectorSink Value Coordinate) where
    abbrev pub Indexed : Type 0
    Indexed = List (List (VectorPoint Value Coordinate)) × Result Error IndexStats

    abbrev pub stats : ℕ → Result Error ℕ → Result Error IndexStats
    stats requested (ok upserted) = ok (record {
      requested = requested;
      embedded = requested;
      upserted = upserted;
      dim = provider.dims;
    })
    stats requested (err e) = err e

    -- From the vectors on.
    abbrev pub index_vectors : IndexRequest Value → List (List Coordinate) → Indexed
    index_vectors req vectors =
        if not (eqb (length vectors) (length req.inputs))
        then ([], err (wrong_count (length vectors) (length req.inputs)))
        else elim (wrong_vector 0 provider.dims vectors) [
          | some e ↦ ([], err e)
          | none ↦
              let points = points_of req req.inputs vectors in
              (points ∷ [], stats (length req.inputs) (sink.upsert req.collection points))
        ]

    unfoldable pub index : IndexRequest Value → Indexed
    index req =
        if eqb (length req.inputs) 0
        then ([], ok (record { requested = 0; embedded = 0; upserted = 0; dim = 0 }))
        else if eqb provider.dims 0
        then ([], err unknown_dimension)
        else elim (sink.ensure_collection req.collection provider.dims) [
          | err e ↦ ([], err e)
          | ok u ↦ elim (provider.embed (map (λ c. c.text) req.inputs)) [
            | err e ↦ ([], err e)
            | ok vectors ↦ index_vectors req vectors
          ]
        ]
