-- ===== src/Core/Idempo.antt =====
-- crates/contexide-core/src/idempo.rs: the idempotency keys. The text of an id is that of the crate
-- `uuid`, a parameter.
pub mod Parts
use contexide.Prelude.{
  ℕ, ◌+◌, Bool, true, false, ◌&&◌, ◌||◌, List, [], ◌∷◌, ◌++◌, eqb, leb, if◌then◌else◌, map, Chars,
  chars,
}
use contexide.Core.Types.{ExtractorKind, as_str}

abbrev pub colon : ℕ
colon = 58

abbrev pub hyphen : ℕ
hyphen = 45

-- `char::to_ascii_lowercase`
abbrev pub to_ascii_lowercase : ℕ → ℕ
to_ascii_lowercase ch = if leb 65 ch && leb ch 90 then ch + 32 else ch

-- `'a'..='z' | '0'..='9' | '.' | '_' | '-'`
abbrev pub is_safe : ℕ → Bool
is_safe c =
    (leb 97 c && leb c 122) || (leb 48 c && leb c 57) || eqb c 46 || eqb c 95 || eqb c hyphen

-- One turn of the loop in `sanitize_token`.
abbrev pub sanitize_char : ℕ → ℕ
sanitize_char ch = let c = to_ascii_lowercase ch in if is_safe c then c else hyphen

unfoldable pub sanitize_token : Chars → Chars
sanitize_token s = map sanitize_char s

-- The loop over the parts in `join`: what it pushes.
unfoldable pub join_parts : List Chars → Chars
join_parts [] = []
join_parts (p ∷ parts) = colon ∷ sanitize_token p ++ join_parts parts

unfoldable pub join : Chars → List Chars → Chars
join stage parts = stage ++ join_parts parts

-- `asset_id.0.to_string()` is `uuid asset_id`.
module _ (uuid : ℕ → Chars) where
  pub fetch : ℕ → Chars → Chars
  fetch asset_id worker_version = join (chars "fetch") (uuid asset_id ∷ worker_version ∷ [])

  pub extract : ℕ → ExtractorKind → Chars → Chars
  extract asset_id kind version =
      join (chars "extract") (uuid asset_id ∷ chars (as_str kind) ∷ version ∷ [])

  pub clean : ℕ → Chars → Chars
  clean asset_id profile_hash = join (chars "clean") (uuid asset_id ∷ profile_hash ∷ [])

  pub chunk : ℕ → Chars → Chars
  chunk chunk_set_id profile_hash = join (chars "chunk") (uuid chunk_set_id ∷ profile_hash ∷ [])

  pub embed : ℕ → Chars → Chars
  embed embedding_set_id model_id = join (chars "embed") (uuid embedding_set_id ∷ model_id ∷ [])

  pub persist : ℕ → ℕ → ℕ → Chars
  persist document_id chunk_set_id embedding_set_id =
      join (chars "persist") (uuid document_id ∷ uuid chunk_set_id ∷ uuid embedding_set_id ∷ [])
