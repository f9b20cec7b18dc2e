-- ===== src/Extractor.antt =====
-- crates/contexide-extractor/src, with the blocks of crates/contexide-core/src/extractor.rs: file.rs,
-- http.rs and pdf.rs here, router.rs in Router.antt. A text is the list of its code points. What
-- other crates, the network, the store of blobs and the Unicode tables answer is `Outside`.
pub mod Router
mod Samples
use contexide.Prelude.{
  ℕ, String, Bool, true, false, not, ◌&&◌, ◌||◌, Option, none, some, List, [], ◌∷◌, Result, ok, err,
  ◌>>=◌, eqb, ltb, leb, if◌then◌else◌, Chars, chars, trim,
}
use contexide.Core.Types.AssetSource.{AssetSource}
use contexide.Core.Types.BlockModality.{BlockModality}

pub record AssetInput : Type 0 where
  pub tenant_id : ℕ
  pub document_id : ℕ
  pub asset_id : ℕ
  pub source : AssetSource
  pub storage_key : Option Chars
  pub content_type : Option Chars

-- A value of the metadata, which are the entries of a JSON object.
pub data Meta : Type 0 where
  number : ℕ → Meta
  string : Chars → Meta

pub record ExtractedBlock (Bytes : Type 0) : Type 0 where
  pub tenant_id : ℕ
  pub document_id : ℕ
  pub asset_id : ℕ
  pub modality : BlockModality
  pub mime : Option Chars
  pub text : Option Chars
  pub blob : Option Bytes
  pub metadata : List (String × Meta)

pub data Error : Type 0 where
  not_found : String → Error
  get_failed : Chars → Error
  bad_status : Chars → ℕ → Error
  body_failed : Chars → Error
  not_url : Chars → Error
  pdf_failed : Error

pub record Response (Bytes : Type 0) : Type 0 where
  pub status : ℕ
  pub content_type : Option Chars
  pub body : Option Bytes

pub record Outside (Bytes : Type 0) : Type 0 where
  pub is_empty : Bytes → Bool
  pub len : Bytes → ℕ
  pub to_lowercase : Chars → Chars
  pub from_utf8_lossy : Bytes → Chars
  pub infer : Bytes → Option Chars
  pub from_read : Chars → ℕ → Option Chars
  pub extract_text_from_mem : Bytes → Option Chars
  pub get : Chars → Option (Response Bytes)
  pub get_bytes : Chars → Result Error Bytes

abbrev pub starts_with : Chars → Chars → Bool
starts_with s [] = true
starts_with [] (d ∷ p) = false
starts_with (c ∷ s) (d ∷ p) = eqb c d && starts_with s p

abbrev pub same_chars : Chars → Chars → Bool
same_chars [] [] = true
same_chars (c ∷ s) (d ∷ t) = eqb c d && same_chars s t
same_chars _ _ = false

abbrev pub is_blank : Chars → Bool
is_blank [] = true
is_blank (c ∷ s) = false

-- `starts_with("http://") || starts_with("https://")`
unfoldable pub is_http : Chars → Bool
is_http key = starts_with key (chars "http://") || starts_with key (chars "https://")

unfoldable pub is_textual : Chars → Bool
is_textual mime =
    starts_with mime (chars "text/")
    || same_chars mime (chars "application/json")
    || same_chars mime (chars "application/xml")

unfoldable pub modality_for_mime : Chars → BlockModality
modality_for_mime mime =
    if is_textual mime
    then BlockModality.text
    else if starts_with mime (chars "image/")
    then BlockModality.image
    else BlockModality.binary

-- `if s.is_empty() { None } else { Some(s) }`
abbrev pub some_if_full : Chars → Option Chars
some_if_full [] = none
some_if_full (c ∷ s) = some (c ∷ s)

abbrev pub unwrap_or_default : Option Chars → Chars
unwrap_or_default none = []
unwrap_or_default (some s) = s

abbrev pub http_meta : Chars → ℕ → List (String × Meta)
http_meta url status = ("source_url", string url) ∷ ("http_status", number status) ∷ []

abbrev pub is_pdf : Chars → Bool
is_pdf mime =
    same_chars mime (chars "application/pdf") || same_chars mime (chars "application/x-pdf")

abbrev status_meta : Option ℕ → List (String × Meta) → List (String × Meta)
status_meta none meta = meta
status_meta (some status) meta = ("http_status", number status) ∷ meta

abbrev url_meta : Option Chars → List (String × Meta)
url_meta none = []
url_meta (some key) = if starts_with key (chars "http") then ("source_url", string key) ∷ [] else []

module _ {Bytes : Type 0} (out : Outside Bytes) where
  abbrev sniffed : Bytes → Chars
  sniffed bytes = elim (out.infer bytes) [
    | some mime_type ↦ out.to_lowercase mime_type
    | none ↦ chars "application/octet-stream"
  ]

  unfoldable pub detect_mime : Option Chars → Bytes → Chars
  detect_mime none bytes = sniffed bytes
  detect_mime (some ct) bytes =
      if is_blank (trim ct) then sniffed bytes else out.to_lowercase (trim ct)

  unfoldable pub to_text : Chars → Bytes → Option Chars
  to_text mime bytes =
      if same_chars mime (chars "text/html")
      then some_if_full (trim (unwrap_or_default (out.from_read (out.from_utf8_lossy bytes) 80)))
      else if is_textual mime
      then some_if_full (trim (out.from_utf8_lossy bytes))
      else none

  abbrev pub as_text_block :
      AssetInput → Option Chars → Chars → Bytes → List (String × Meta) → ExtractedBlock Bytes
  as_text_block asset mime text bytes meta = record {
    tenant_id = asset.tenant_id;
    document_id = asset.document_id;
    asset_id = asset.asset_id;
    modality = BlockModality.text;
    mime = mime;
    text = some text;
    blob = none;
    metadata = ("bytes_len", number (out.len bytes)) ∷ meta;
  }

  abbrev pub as_blob_block :
      AssetInput
      → BlockModality
      → Option Chars
      → Bytes
      → List (String × Meta)
      → ExtractedBlock Bytes
  as_blob_block asset modality mime bytes meta = record {
    tenant_id = asset.tenant_id;
    document_id = asset.document_id;
    asset_id = asset.asset_id;
    modality = modality;
    mime = mime;
    text = none;
    blob = some bytes;
    metadata = meta;
  }

  -- The end of file.rs and http.rs.
  unfoldable pub block_of : AssetInput → Chars → Bytes → List (String × Meta) → ExtractedBlock Bytes
  block_of asset mime bytes meta = elim (to_text mime bytes) [
    | some text ↦ as_text_block asset (some mime) text bytes meta
    | none ↦ as_blob_block asset (modality_for_mime mime) (some mime) bytes meta
  ]

  -- A GET with its tests: the body, the header of the content type and the status.
  abbrev pub get_ok : Chars → Result Error (Bytes × Option Chars × ℕ)
  get_ok url = elim (out.get url) [
    | none ↦ err (get_failed url)
    | some resp ↦
        if not (leb 200 resp.status && ltb resp.status 300)
        then err (bad_status url resp.status)
        else elim resp.body [
          | none ↦ err (body_failed url)
          | some body ↦ ok (body, resp.content_type, resp.status)
        ]
  ]

  abbrev pub http_block :
      AssetInput → Chars → Bytes × Option Chars × ℕ → List (ExtractedBlock Bytes)
  http_block asset url (bytes, ct_hdr, status) =
      block_of asset (detect_mime ct_hdr bytes) bytes (http_meta url status) ∷ []

  -- `HttpExtractor::extract`
  unfoldable pub http_extract : AssetInput → Result Error (List (ExtractedBlock Bytes))
  http_extract asset = elim asset.storage_key [
    | none ↦ err (not_found "asset.storage_key")
    | some url ↦
        if is_http url
        then (get_ok url >>= λ got. ok (http_block asset url got))
        else err (not_url url)
  ]

  abbrev pub file_block : AssetInput → Bytes → List (ExtractedBlock Bytes)
  file_block asset bytes =
      if out.is_empty bytes
      then []
      else block_of asset (detect_mime asset.content_type bytes) bytes [] ∷ []

  -- `BlobFileExtractor::extract`
  unfoldable pub file_extract : AssetInput → Result Error (List (ExtractedBlock Bytes))
  file_extract asset = elim asset.storage_key [
    | none ↦ err (not_found "asset.storage_key")
    | some key ↦ out.get_bytes key >>= λ bytes. ok (file_block asset bytes)
  ]

  -- `PdfExtractor::fetch_bytes`
  unfoldable pub fetch_bytes : AssetInput → Result Error (Bytes × Option Chars × Option ℕ)
  fetch_bytes asset = elim asset.storage_key [
    | none ↦ err (not_found "asset.storage_key")
    | some key ↦
        if is_http key
        then (get_ok key >>= λ (bytes, ct_hdr, status). ok (bytes, ct_hdr, some status))
        else out.get_bytes key >>= λ bytes. ok (bytes, asset.content_type, none)
  ]

  abbrev pub pdf_block : AssetInput → Chars → Bytes → Option ℕ → Chars → ExtractedBlock Bytes
  pdf_block asset mime bytes http_status text =
      let meta =
        ("content_type", string mime) ∷ status_meta http_status (url_meta asset.storage_key) in
      let pdf = some (chars "application/pdf") in
      if is_blank text
      then as_blob_block asset BlockModality.binary pdf bytes meta
      else as_text_block asset pdf text bytes meta

  -- From the bytes on.
  unfoldable pub pdf_of :
      AssetInput → Bytes × Option Chars × Option ℕ → Result Error (List (ExtractedBlock Bytes))
  pdf_of asset (bytes, ct_hint, http_status) =
      let mime = detect_mime ct_hint bytes in
      if out.is_empty bytes || not (is_pdf mime)
      then ok []
      else elim (out.extract_text_from_mem bytes) [
        | none ↦ err pdf_failed
        | some text ↦ ok (pdf_block asset mime bytes http_status (trim text) ∷ [])
      ]

  -- `PdfExtractor::extract`
  abbrev pub pdf_extract : AssetInput → Result Error (List (ExtractedBlock Bytes))
  pdf_extract asset = fetch_bytes asset >>= λ got. pdf_of asset got
