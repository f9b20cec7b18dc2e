-- ===== src/Extractor/Router.antt =====
-- crates/contexide-extractor/src/router.rs.
pub mod Sourced
pub mod Shape
use contexide.Prelude.{
  ℕ, Bool, true, false, ◌||◌, ◌&&◌, Option, none, some, List, [], ◌∷◌, Result, ok, err, ◌>>=◌, eqb,
  leb, ◌+◌, if◌then◌else◌, Chars, chars,
}
use contexide.Core.Types.{ExtractorKind}
use contexide.Extractor.{
  AssetInput, ExtractedBlock, Error, Outside, starts_with, same_chars, is_http, http_extract,
  file_extract, pdf_extract,
}

pub data Route : Type 0 where
  pdf : Route
  http : Route
  file : Route

abbrev to_ascii_lowercase : Chars → Chars
to_ascii_lowercase [] = []
to_ascii_lowercase (c ∷ s) = (if leb 65 c && leb c 90 then c + 32 else c) ∷ to_ascii_lowercase s

abbrev contains : Chars → Chars → Bool
contains [] p = starts_with [] p
contains (c ∷ s) p = starts_with (c ∷ s) p || contains s p

abbrev ends_with : Chars → Chars → Bool
ends_with [] p = same_chars [] p
ends_with (c ∷ s) p = same_chars (c ∷ s) p || ends_with s p

abbrev pdf_type : Option Chars → Bool
pdf_type none = false
pdf_type (some ct) = contains (to_ascii_lowercase ct) (chars "pdf")

abbrev pdf_key : Option Chars → Bool
pdf_key none = false
pdf_key (some k) =
    let lower = to_ascii_lowercase k in
    ends_with lower (chars ".pdf") || contains lower (chars ".pdf?")

unfoldable pub is_likely_pdf : AssetInput → Bool
is_likely_pdf asset = pdf_type asset.content_type || pdf_key asset.storage_key

abbrev pub is_url : Option Chars → Bool
is_url none = false
is_url (some k) = is_http k

unfoldable pub choose : AssetInput → Route
choose asset = if is_likely_pdf asset then pdf else if is_url asset.storage_key then http else file

abbrev pub chosen_kind : AssetInput → ExtractorKind
chosen_kind asset = elim (choose asset) [
  | pdf ↦ ExtractorKind.pdf
  | http ↦ ExtractorKind.html
  | file ↦ ExtractorKind.file
]

module _ {Bytes : Type 0} (out : Outside Bytes) where
  -- What is tried where the PDF extractor gives nothing.
  abbrev pub fallback : AssetInput → Result Error (List (ExtractedBlock Bytes))
  fallback asset =
      if is_url asset.storage_key then http_extract out asset else file_extract out asset

  abbrev pub or_fallback :
      AssetInput → List (ExtractedBlock Bytes) → Result Error (List (ExtractedBlock Bytes))
  or_fallback asset [] = fallback asset
  or_fallback asset (b ∷ blocks) = ok (b ∷ blocks)

  unfoldable pub extract : AssetInput → Result Error (List (ExtractedBlock Bytes))
  extract asset = elim (choose asset) [
    | pdf ↦ pdf_extract out asset >>= λ blocks. or_fallback asset blocks
    | http ↦ http_extract out asset
    | file ↦ file_extract out asset
  ]
