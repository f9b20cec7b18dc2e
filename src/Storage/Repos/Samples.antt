-- ===== src/Storage/Repos/Samples.antt =====
-- Small histories, and the theorems of the repositories after them.
use contexide.Prelude.{
  ℕ, ◌≡◌, ◌↔◌, ◌⊎◌, refl, none, some, List, [], ◌∷◌, pos, nat_eq, string_eq, ok, pair_eq, take, ◌-◌,
}
use contexide.HashMap
use contexide.Core.Entities.{Block, Chunk}
use contexide.Core.Entities.JobKind.{embed, kind_eq}
use contexide.Core.Entities.JobStatus.{pending, running, status_eq}
use contexide.Core.Types.BlockModality.{BlockModality}
use contexide.Storage.Buckets.{vec, hash_set}
use contexide.Storage.Indexed.{index_add, put_back, index_remove, list, new, save, delete}
use contexide.Storage.Indexed.History.{Op, saved, deleted, apply, after, Enumerates}
use contexide.Storage.Repos.Blocks.{blocks}
use contexide.Storage.Repos.Chunks
use contexide.Storage.Repos.Chunks.{chunks}
use contexide.Storage.Repos.Jobs
use contexide.Storage.Repos.Jobs.{jobs, list_by_kind_status}
use contexide.Storage.Repos.Jobs.Listed
use contexide.Storage.Repos.Jobs.Listed.{Call, list_by_kind_status-Enumerates}
use contexide.Storage.Repos.Tenants
use contexide.Storage.Repos.Tenants.{MemTenantsRepo, create}
use contexide.Storage.Repos.Tenants.Unique.{
  start, created, Named, Reached, IsFree, registered, create_iff,
}
use contexide.Storage.Repos.Listing.{list_by_set-Enumerates}

abbrev chunk : ℕ → ℕ → Chunk
chunk id set = record {
  id = id;
  chunk_set_id = set;
  tenant_id = 1;
  order_no = pos (9 - id);
  byte_start = pos 0;
  byte_end = pos 3;
  text = "abc";
  meta_json = none;
}

-- The second chunk moves to the other set, and the third goes.
abbrev chunk_history : List (Op vec chunks)
chunk_history =
    saved (chunk 1 5)
    ∷ saved (chunk 2 5)
    ∷ saved (chunk 3 5)
    ∷ saved (chunk 2 6)
    ∷ deleted 3
    ∷ saved (chunk 4 5)
    ∷ []

chunks_listed :
    Chunks.list_by_set (after vec chunks new chunk_history) 5 ≡ chunk 4 5 ∷ chunk 1 5 ∷ []
unfolding after apply save delete list HashMap.get HashMap.insert HashMap.remove index_add
    index_remove put_back
chunks_listed = refl

list_by_set-Enumerates_example :
    Enumerates vec chunks Chunks.by_order
      (after vec chunks new chunk_history)
      5
      (Chunks.list_by_set (after vec chunks new chunk_history) 5)
list_by_set-Enumerates_example = list_by_set-Enumerates chunk_history 5

abbrev block : ℕ → ℕ → Block
block id asset = record {
  id = id;
  tenant_id = 1;
  asset_id = asset;
  modality = BlockModality.text;
  order_no = pos 0;
  text = none;
  meta_json = none;
}

abbrev block_history : List (Op vec blocks)
block_history = saved (block 1 5) ∷ saved (block 2 6) ∷ saved (block 3 5) ∷ []

abbrev job_history : List Call
job_history =
    Listed.created 3 1 embed pending none
    ∷ Listed.created 2 1 embed pending none
    ∷ Listed.created 1 1 embed running none
    ∷ Listed.status_set 1 pending
    ∷ Listed.status_set 3 running
    ∷ []

list_by_kind_status-Enumerates_example :
    let repo = Listed.after new job_history in
    Enumerates hash_set jobs Jobs.by_id repo
      (embed, pending)
      (list_by_kind_status repo embed pending none)
    × (list_by_kind_status repo embed pending (some 1)
        ≡ take 1 (list_by_kind_status repo embed pending none))
list_by_kind_status-Enumerates_example = list_by_kind_status-Enumerates job_history embed pending 1

abbrev acme : MemTenantsRepo
acme = (create Tenants.new 7 "acme" "ops@acme.io").0

no_tenant : Tenants.get Tenants.new 7 ≡ none
unfolding HashMap.get
no_tenant = refl

create_iff_example :
    ((id : ℕ)
      → ((create acme 8 "acme" "other@acme.io").1 ≡ ok id) ↔ (
          (Named acme "acme" id × Reached acme "other@acme.io" id)
          ⊎ (IsFree acme "acme" "other@acme.io" × (id ≡ 8))))
    × (((create acme 8 "acme" "other@acme.io").0 ≡ acme)
        ⊎ (create acme 8 "acme" "other@acme.io" ≡ registered acme 8 "acme" "other@acme.io"))
create_iff_example =
    create_iff acme 8 "acme" "other@acme.io" (created 7 "acme" "ops@acme.io" start no_tenant)
