-- ===== src/Indexer/Samples.antt =====
-- One chunk, whose payload claims another tenant.
use contexide.Prelude.{
  string_eq, ◌≡◌, ◌⊎◌, ◌≢◌, refl, String, Bool, true, false, some, List, [], ◌∷◌, map, ok, err,
  length,
}
use contexide.HashMap
use contexide.HashMap.{HashMap}
use contexide.Executor.Samples.{texts}
use contexide.Indexer.{
  IndexRequest, Error, EmbeddingsProvider, VectorSink, is_canonical, build_payload, points_of,
  stats, index,
}
use contexide.Indexer.Payload.{build_payload_lem}
use contexide.Indexer.Upserted.{Embeds, Fails, index_cases}

abbrev extra : HashMap String (List String)
extra = ("tenant_id", "other" ∷ []) ∷ ("page", "3" ∷ []) ∷ []

abbrev req : IndexRequest (List String)
req = record {
  tenant_id = 2;
  document_id = 3;
  collection = "chunks";
  inputs = record { chunk_id = 7; text = "words"; payload = some extra } ∷ [];
}

abbrev provider : EmbeddingsProvider Bool
provider = record { dims = 2; embed = λ inputs. ok (map (λ s. true ∷ false ∷ []) inputs) }

abbrev sink : VectorSink (List String) Bool
sink = record {
  ensure_collection = λ collection dim. ok tt;
  upsert = λ collection points. ok (length points);
}

index_cases_example :
    ((length req.inputs ≡ 0)
      × (index texts provider sink req
          ≡ ([], ok (record { requested = 0; embedded = 0; upserted = 0; dim = 0 }))))
    ⊎ ((vectors : List (List Bool)) × Embeds texts provider sink req vectors
        × (index texts provider sink req ≡ (
          points_of texts req req.inputs vectors ∷ [],
          stats texts provider sink 1
              (sink.upsert "chunks" (points_of texts req req.inputs vectors)),
        )))
    ⊎ ((length req.inputs ≢ 0)
        × ((vectors : List (List Bool)) → ¬ Embeds texts provider sink req vectors)
        × ((e : Error) × Fails texts provider sink req e
            × (index texts provider sink req ≡ ([], err e))))
index_cases_example = index_cases texts provider sink req

build_payload_lem_example :
    let p = build_payload texts (some extra) 2 3 7 in
    (HashMap.get "tenant_id" p ≡ some (texts.uuid 2))
    × (HashMap.get "document_id" p ≡ some (texts.uuid 3))
    × (HashMap.get "chunk_id" p ≡ some (texts.uuid 7))
    × ((j : String) → is_canonical j ≡ false → HashMap.get j p ≡ HashMap.get j extra)
unfolding HashMap.get
build_payload_lem_example = build_payload_lem texts 2 3 7 extra (refl, (refl, tt))
