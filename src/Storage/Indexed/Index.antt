-- ===== src/Storage/Indexed/Index.antt =====
-- The buckets after a change of the index.
use contexide.Prelude.{
  ◌≡◌, inl, inr, List, [], ◌∷◌, arith, Eq, ◌==◌, ==_iff, if◌then◌else◌, Option-cases,
}
use contexide.HashMap
use contexide.HashMap.{HashMap, get-insert, get-remove}
use contexide.Storage.Buckets.{Bucket, swap_remove}
use contexide.Storage.Indexed.{or_default, index_add, put_back, index_remove}

module _ {K G : Type 0} ⦃e : Eq K⦄ ⦃d : Eq G⦄ where
  abbrev pub bucket_of : G → HashMap G (List K) → List K
  bucket_of g m = or_default (HashMap.get g m)

  pub bucket-index_add :
      (kind : Bucket K) (g h : G) (id : K) (m : HashMap G (List K))
      → bucket_of h (index_add kind g id m)
        ≡ (if g == h then kind.add id (bucket_of g m) else bucket_of h m)
  unfolding index_add
  bucket-index_add kind g h id m = ground (arith, get-insert g h (kind.add id (bucket_of g m)) m)

  bucket-put_back :
      (g h : G) (ks : List K) (m : HashMap G (List K))
      → bucket_of h (put_back g ks m) ≡ (if g == h then ks else bucket_of h m)
  unfolding put_back
  bucket-put_back g h [] m = ground (arith, get-remove g h m)
  bucket-put_back g h (k ∷ ks) m = ground (arith, get-insert g h (k ∷ ks) m)

  pub bucket-index_remove :
      (g h : G) (id : K) (m : HashMap G (List K))
      → bucket_of h (index_remove g id m)
        ≡ (if g == h then swap_remove id (bucket_of g m) else bucket_of h m)
  unfolding index_remove
  bucket-index_remove g h id m = elim (Option-cases (HashMap.get g m)) [
    | inl absent ↦ rw (absent, index_remove) (ground (arith, ==_iff g h))
    | inr (ks, found) ↦ rw (found, index_remove) (bucket-put_back g h (swap_remove id ks) m)
  ]
