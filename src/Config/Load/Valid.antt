-- ===== src/Config/Load/Valid.antt =====
-- When a configuration is loaded, and what holds of it.
use contexide.Prelude.{
  is_empty, ◌≡◌, ◌≢◌, ◌⊎◌, refl, inl, inr, String, true, false, Option, ok, err, List, Option-cases,
  Bool-cases, eqb, eqb_iff,
}
use contexide.Config.{AppConfig}
use contexide.Config.Env.{env_scoped_s}
use contexide.Config.Env.Picked.{env_scoped_s-is_empty}
use contexide.Config.Load.{
  overridden, is_http, storage_cfg, blob_storage_cfg, vector_cfg, embeddings_cfg, load_storage,
  load_blob_storage, load_vector, load_embeddings, load_api, load_workers, load_messaging,
  load_workflow, load_app, run_env, loading, blob_endpoint, vector_endpoint, vector_dim,
}

module _ (env : String → Option String) where
  overridden-is_empty :
      (default scope key : String) (plain_fallbacks : List String)
      → is_empty default ≡ false
      → is_empty (overridden default (env_scoped_s env scope key plain_fallbacks)) ≡ false
  overridden-is_empty default scope key plain_fallbacks full =
      elim (Option-cases (env_scoped_s env scope key plain_fallbacks)) [
        | inl e ↦ rw e full
        | inr (v, e) ↦ rw e (env_scoped_s-is_empty env scope key plain_fallbacks v e)
      ]

  database_url-is_empty : is_empty (storage_cfg env).database_url ≡ false
  database_url-is_empty = overridden-is_empty _ "STORAGE" "DATABASE_URL" _ refl

  bucket-is_empty : is_empty (blob_storage_cfg env).bucket ≡ false
  bucket-is_empty = overridden-is_empty _ "BLOB_STORAGE" "S3_BUCKET" _ refl

  model-is_empty : is_empty (embeddings_cfg env).model ≡ false
  model-is_empty = overridden-is_empty _ "EMBEDDINGS" "EMBEDDINGS_MODEL" _ refl

  load_storage-eq-ok : load_storage env ≡ ok (storage_cfg env)
  unfolding load_storage
  load_storage-eq-ok = rw database_url-is_empty refl

  load_embeddings-eq-ok : load_embeddings env ≡ ok (embeddings_cfg env)
  unfolding load_embeddings
  load_embeddings-eq-ok = rw model-is_empty refl

  -- The two endpoints begin with http:// or https://, and the dimension is 1024.
  abbrev pub IsLoadable : Type 0
  IsLoadable =
      (is_http (blob_storage_cfg env).endpoint ≡ true)
      × (is_http (vector_cfg env).endpoint ≡ true)
      × ((vector_cfg env).dim ≡ 1024)

  load_blob_storage-eq-ok :
      is_http (blob_storage_cfg env).endpoint ≡ true
      → load_blob_storage env ≡ ok (blob_storage_cfg env)
  unfolding load_blob_storage
  load_blob_storage-eq-ok http = rw http (rw bucket-is_empty refl)

  load_vector-eq-ok :
      is_http (vector_cfg env).endpoint ≡ true
      → (vector_cfg env).dim ≡ 1024
      → load_vector env ≡ ok (vector_cfg env)
  unfolding load_vector
  load_vector-eq-ok http dim = rw http (rw ((eqb_iff (vector_cfg env).dim 1024).1 dim) refl)

  load_blob_storage-fails :
      is_http (blob_storage_cfg env).endpoint ≡ false → load_blob_storage env ≡ err blob_endpoint
  unfolding load_blob_storage
  load_blob_storage-fails other = rw other refl

  load_vector-fails :
      is_http (vector_cfg env).endpoint ≡ false → load_vector env ≡ err vector_endpoint
  unfolding load_vector
  load_vector-fails other = rw other refl

  load_vector-fails_dim :
      is_http (vector_cfg env).endpoint ≡ true
      → eqb (vector_cfg env).dim 1024 ≡ false
      → load_vector env ≡ err (vector_dim (vector_cfg env).dim)
  unfolding load_vector
  load_vector-fails_dim http other = rw http (rw other refl)

  -- What is loaded, part by part.
  abbrev pub Loads : AppConfig → Type 0
  Loads cfg =
      (load_storage env ≡ ok cfg.storage)
      × (load_blob_storage env ≡ ok cfg.blob_storage)
      × (load_vector env ≡ ok cfg.vector)
      × (load_embeddings env ≡ ok cfg.embeddings)
      × (load_api env ≡ ok cfg.api)
      × (load_workers env ≡ ok cfg.workers)
      × (load_messaging env ≡ ok cfg.messaging)
      × (load_workflow env ≡ ok cfg.workflow)
      × (cfg.env ≡ run_env env)

  load_app_loadable : IsLoadable → (cfg : AppConfig) × (load_app env ≡ ok cfg) × Loads cfg
  unfolding load_app load_api load_workers load_messaging load_workflow
  load_app_loadable (blob, http, dim) =
      let s = load_storage-eq-ok in
      let b = load_blob_storage-eq-ok blob in
      let v = load_vector-eq-ok http dim in
      let e = load_embeddings-eq-ok in
      (_, rw s (rw b (rw v (rw e refl))), (s, b, v, e, refl, refl, refl, refl, refl))

  -- The application's configuration is loaded exactly if both endpoints begin with http:// or
  -- https:// and the dimension is 1024. The tests for an empty URL of the database, bucket or model
  -- never refuse, since no setting is the empty text. What is loaded is what the loaders of the parts
  -- give; where it is refused, the endpoint of the blob storage is named first, then that of the
  -- vectors, then the dimension.
  pub load_app_cases :
      (IsLoadable × ((cfg : AppConfig) × (load_app env ≡ ok cfg) × Loads cfg))
      ⊎ ((is_http (blob_storage_cfg env).endpoint ≡ false)
          × (load_app env ≡ err (loading "loading BLOB_STORAGE config" blob_endpoint)))
      ⊎ ((is_http (blob_storage_cfg env).endpoint ≡ true)
          × (is_http (vector_cfg env).endpoint ≡ false)
          × (load_app env ≡ err (loading "loading VECTOR config" vector_endpoint)))
      ⊎ ((is_http (blob_storage_cfg env).endpoint ≡ true)
          × (is_http (vector_cfg env).endpoint ≡ true)
          × ((vector_cfg env).dim ≢ 1024)
          × (load_app env
              ≡ err (loading "loading VECTOR config" (vector_dim (vector_cfg env).dim))))
  unfolding load_app
  load_app_cases = elim (Bool-cases (is_http (blob_storage_cfg env).endpoint)) [
    | inr other ↦ inr (inl (other, rw load_storage-eq-ok (rw (load_blob_storage-fails other) refl)))
    | inl blob ↦
        let s = load_storage-eq-ok in
        let b = load_blob_storage-eq-ok blob in
        elim (Bool-cases (is_http (vector_cfg env).endpoint)) [
          | inr other ↦
              inr (inr (inl (blob, other, rw s (rw b (rw (load_vector-fails other) refl)))))
          | inl http ↦ elim (Bool-cases (eqb (vector_cfg env).dim 1024)) [
            | inl same ↦
                let dim = (eqb_iff (vector_cfg env).dim 1024).0 same in
                inl ((blob, http, dim), load_app_loadable (blob, http, dim))
            | inr other ↦ inr (
                inr (
                  inr (
                    blob,
                    http,
                    λ dim. let same = (eqb_iff (vector_cfg env).dim 1024).1 dim in absurd (cc),
                    rw s (rw b (rw (load_vector-fails_dim http other) refl)),
                  )))
          ]
        ]
  ]
