-- ===== src/BlobStore.antt =====
-- crates/contexide-blob-storage-s3/src/mem.rs: the store of blobs in memory. Bytes are of any type;
-- the text of a new UUID and what `read_to_end` gives are arguments. The lock is not poisoned, since
-- no call panics while it holds it.
pub mod Keys
mod Samples
use Prim.Native.Char.{code}
use Prim.Native.String.{◌++◌ as ◌<>◌}
use contexide.Prelude.{
  String, Bool, Option, none, some, [], Result, ok, err, eqb, if◌then◌else◌, string_eq, is_some,
}
use contexide.HashMap
use contexide.HashMap.{HashMap}

pub record Entry (Bytes : Type 0) : Type 0 where
  pub bytes : Bytes
  pub content_type : Option String

pub record MemStore (Bytes : Type 0) : Type 0 where
  pub blobs : HashMap String (Entry Bytes)
  pub namespace : String

pub data Error : Type 0 where
  not_found : Error
  read_to_end_failed : Error

-- `key.trim_start_matches('/')`
unfoldable pub normalize_key : String → String
normalize_key String.[] = ""
normalize_key (String.◌∷◌ c s) =
    let rest = normalize_key s in if eqb (code c) 47 then rest else String.◌∷◌ c s

module _ {Bytes : Type 0} where
  abbrev pub new : String → MemStore Bytes
  new namespace = record { blobs = []; namespace = namespace }

  abbrev pub stored : MemStore Bytes → String → Bytes → Option String → MemStore Bytes
  stored store key bytes content_type = record store {
    blobs = HashMap.insert key (record { bytes = bytes; content_type = content_type }) store.blobs;
  }

  unfoldable pub put_bytes : MemStore Bytes → String → Bytes → Option String → MemStore Bytes
  put_bytes store key bytes content_type = stored store (normalize_key key) bytes content_type

  -- The key and the store after it.
  unfoldable pub put_reader :
      MemStore Bytes
      → String
      → Option Bytes
      → Option String
      → Result Error (String × MemStore Bytes)
  put_reader store uuid none content_type = err read_to_end_failed
  put_reader store uuid (some buf) content_type =
      let key = store.namespace <> "/" <> uuid in ok (key, stored store key buf content_type)

  abbrev bytes_or_not_found : Option (Entry Bytes) → Result Error Bytes
  bytes_or_not_found none = err not_found
  bytes_or_not_found (some e) = ok e.bytes

  unfoldable pub get_bytes : MemStore Bytes → String → Result Error Bytes
  get_bytes store key = bytes_or_not_found (HashMap.get (normalize_key key) store.blobs)

  unfoldable pub exists : MemStore Bytes → String → Bool
  exists store key = is_some (HashMap.get (normalize_key key) store.blobs)

  -- Whether there was such a blob, and the store without it.
  unfoldable pub delete : MemStore Bytes → String → Bool × MemStore Bytes
  delete store key = (
    is_some (HashMap.get (normalize_key key) store.blobs),
    record store { blobs = HashMap.remove (normalize_key key) store.blobs },
  )
