-- ===== src/BlobStore/Samples.antt =====
-- A store whose namespace begins with a slash, and one whose namespace does not.
use contexide.Prelude.{◌≡◌, refl, String, none, some, ok, if◌then◌else◌, string_eq, ℕ}
use contexide.HashMap
use contexide.BlobStore.{MemStore, new, normalize_key, put_reader, put_bytes, get_bytes}
use contexide.BlobStore.Keys.{begins_bare, get_bytes-put_reader}

abbrev store : MemStore ℕ
store = new "/tenant"

-- A key with slashes at its front leads to the blob that was put without them.
get_bytes-slashes : get_bytes (put_bytes store "a" 7 none) "//a" ≡ ok 7
unfolding get_bytes put_bytes normalize_key HashMap.get HashMap.insert
get_bytes-slashes = refl

get_bytes-put_reader_example :
    (key : String) × (next : MemStore ℕ) × (put_reader store "1" (some 7) none ≡ ok (key, next))
    × (get_bytes next key ≡ (if begins_bare "/tenant" then get_bytes store key else ok 7))
get_bytes-put_reader_example = get_bytes-put_reader store "1" 7 none
