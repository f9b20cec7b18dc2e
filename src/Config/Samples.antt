-- ===== src/Config/Samples.antt =====
-- An environment of three variables.
use contexide.Prelude.{
  ◌≡◌, ◌≢◌, ◌↔◌, ◌⊎◌, String, false, true, Option, none, some, [], ◌∷◌, ok, err, ◌==◌, string_eq,
  if◌then◌else◌,
}
use contexide.Config.{AppConfig}
use contexide.Config.Env.{env_scoped_s}
use contexide.Config.Env.Picked.{IsFirst, env_scoped_s_iff}
use contexide.Config.Load.{
  is_http, blob_storage_cfg, vector_cfg, load_app, loading, blob_endpoint, vector_endpoint,
  vector_dim,
}
use contexide.Config.Load.Valid.{IsLoadable, Loads, load_app_cases}

abbrev env : String → Option String
env name =
    if name == "CONTEXIDE_STORAGE_DATABASE_URL"
    then some ""
    else if name == "DATABASE_URL"
    then some "postgres://db/contexide"
    else if name == "VECTOR_DIM"
    then some "+768"
    else none

env_scoped_s_iff_example :
    (env_scoped_s env "STORAGE" "DATABASE_URL" ("DATABASE_URL" ∷ [])
      ≡ some "postgres://db/contexide")
    ↔ IsFirst env
        ("CONTEXIDE_STORAGE_DATABASE_URL" ∷ "CONTEXIDE_DATABASE_URL" ∷ "DATABASE_URL" ∷ [])
        "postgres://db/contexide"
env_scoped_s_iff_example =
    env_scoped_s_iff env "STORAGE" "DATABASE_URL" ("DATABASE_URL" ∷ []) "postgres://db/contexide"

load_app_cases_example :
    (IsLoadable env × ((cfg : AppConfig) × (load_app env ≡ ok cfg) × Loads env cfg))
    ⊎ ((is_http (blob_storage_cfg env).endpoint ≡ false)
        × (load_app env ≡ err (loading "loading BLOB_STORAGE config" blob_endpoint)))
    ⊎ ((is_http (blob_storage_cfg env).endpoint ≡ true)
        × (is_http (vector_cfg env).endpoint ≡ false)
        × (load_app env ≡ err (loading "loading VECTOR config" vector_endpoint)))
    ⊎ ((is_http (blob_storage_cfg env).endpoint ≡ true)
        × (is_http (vector_cfg env).endpoint ≡ true)
        × ((vector_cfg env).dim ≢ 1024)
        × (load_app env ≡ err (loading "loading VECTOR config" (vector_dim (vector_cfg env).dim))))
load_app_cases_example = load_app_cases env
