-- ===== src/Indexer/Payload.antt =====
-- What a point's payload holds.
use contexide.Prelude.{
  ◌≡◌, refl, sym, ap, ◌∙◌, inl, inr, String, Bool, false, Option, none, some, [], ◌∷◌, Bool-cases,
  ◌==◌, ==_iff, string_eq, if◌then◌else◌, arith, ℕ,
}
use contexide.HashMap
use contexide.HashMap.{HashMap, get-insert}
use contexide.Executor.Json.{Json}
use contexide.Indexer.{is_canonical, add_extra, build_payload, canonical_ids}

abbrev pub or_else : {A : Type 0} → Option A → Option A → Option A
or_else none b = b
or_else (some a) b = some a

or_else-none : {A : Type 0} (a : Option A) → or_else a none ≡ a
or_else-none none = refl
or_else-none (some a) = refl

-- Each key stands once, as in a JSON object.
abbrev pub IsDistinct : {Value : Type 0} → HashMap String Value → Type 0
IsDistinct [] = Unit
IsDistinct ((k, v) ∷ extra) = (HashMap.get k extra ≡ none) × IsDistinct extra

-- One turn of the loop.
get-extra :
    {Value : Type 0} (j k : String) (v : Value) (p : HashMap String Value) (later : Option Value)
    → (k ≡ j → later ≡ none)
    → (if is_canonical j
        then HashMap.get j (if is_canonical k then p else HashMap.insert k v p)
        else or_else later (HashMap.get j (if is_canonical k then p else HashMap.insert k v p)))
      ≡ (if is_canonical j
          then HashMap.get j p
          else or_else (if k == j then some v else later) (HashMap.get j p))
get-extra j k v p later once = elim (Bool-cases (k == j)) [
  | inl same ↦
      let e = (==_iff k j).0 same in
      ground (arith, same, once e, ap is_canonical e, get-insert k j v p)
  | inr apart ↦ ground (arith, apart, get-insert k j v p)
]

get-add_extra :
    {Value : Type 0} (j : String) (extra p : HashMap String Value)
    → IsDistinct extra
    → HashMap.get j (add_extra extra p) ≡ (
        if is_canonical j then HashMap.get j p else or_else (HashMap.get j extra) (HashMap.get j p))
unfolding add_extra HashMap.get
get-add_extra j [] p distinct = ground arith
get-add_extra j ((k, v) ∷ extra) p (once, distinct) =
    get-add_extra j extra (if is_canonical k then p else HashMap.insert k v p) distinct
    ∙ get-extra j k v p (HashMap.get j extra) (λ e. ap (λ i. HashMap.get i extra) (sym e) ∙ once)

module _ (json : Json) (tenant_id document_id chunk_id : ℕ) where
  open json use {Value}

  extra-canonical_ids :
      (j : String)
      → is_canonical j ≡ false
      → HashMap.get j (canonical_ids json tenant_id document_id chunk_id) ≡ none
  unfolding is_canonical HashMap.get HashMap.insert
  extra-canonical_ids j other = ground (
    arith,
    other,
    ==_iff j "tenant_id",
    ==_iff j "document_id",
    ==_iff j "chunk_id",
    ==_iff "tenant_id" j,
    ==_iff "document_id" j,
    ==_iff "chunk_id" j,
  )

  get-extra_key :
      (extra : HashMap String Value)
      → IsDistinct extra
      → (j : String) → is_canonical j ≡ false
      → HashMap.get j (add_extra extra (canonical_ids json tenant_id document_id chunk_id))
        ≡ HashMap.get j extra
  get-extra_key extra distinct j other =
      let ids = canonical_ids json tenant_id document_id chunk_id in
      get-add_extra j extra ids distinct
      ∙ ap
          (λ (b : Bool).
            if b then HashMap.get j ids else or_else (HashMap.get j extra) (HashMap.get j ids))
          other
      ∙ ap (or_else (HashMap.get j extra)) (extra-canonical_ids j other)
      ∙ or_else-none (HashMap.get j extra)

  -- A point's payload has the ids of the tenant, the document and the chunk, whatever the chunk's own
  -- payload says of them, and all other entries of that payload, if each key stands there once.
  pub build_payload_lem :
      (extra : HashMap String Value)
      → IsDistinct extra
      → let p = build_payload json (some extra) tenant_id document_id chunk_id in
        (HashMap.get "tenant_id" p ≡ some (json.uuid tenant_id))
        × (HashMap.get "document_id" p ≡ some (json.uuid document_id))
        × (HashMap.get "chunk_id" p ≡ some (json.uuid chunk_id))
        × ((j : String) → is_canonical j ≡ false → HashMap.get j p ≡ HashMap.get j extra)
  unfolding build_payload is_canonical HashMap.get HashMap.insert
  build_payload_lem extra distinct =
      let ids = canonical_ids json tenant_id document_id chunk_id in
      (
        get-add_extra "tenant_id" extra ids distinct,
        get-add_extra "document_id" extra ids distinct,
        get-add_extra "chunk_id" extra ids distinct,
        λ j other. get-extra_key extra distinct j other,
      )
