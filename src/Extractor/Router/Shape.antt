-- ===== src/Extractor/Router/Shape.antt =====
-- What the extraction of an asset gives.
use contexide.Prelude.{
  ℕ, String, ◌≡◌, ◌⊎◌, refl, sym, ap, inl, inr, true, false, ◌||◌, not, Option, none, some, List,
  [], ◌∷◌, Result, ok, err, ◌>>=◌, Bool-cases, Option-cases, Chars, chars, trim, arith,
}
use contexide.Core.Types.BlockModality.{BlockModality}
use contexide.Extractor.{
  AssetInput, ExtractedBlock, Meta, Error, not_found, not_url, pdf_failed, Outside, is_http,
  is_blank, is_textual, same_chars, as_blob_block, as_text_block, modality_for_mime, some_if_full,
  unwrap_or_default, detect_mime, to_text, block_of, get_ok, http_block, file_block, http_extract,
  file_extract, fetch_bytes, is_pdf, pdf_block, pdf_of, pdf_extract,
}
use contexide.Extractor.Router.{is_url, is_likely_pdf, fallback, or_fallback, extract}
use contexide.Extractor.Router.Sourced.{extract-eq}

-- A block of the asset, that is either a text that is not empty or bytes.
abbrev pub IsBlockOf : {Bytes : Type 0} → AssetInput → ExtractedBlock Bytes → Type 0
IsBlockOf {Bytes} asset b =
    (b.tenant_id ≡ asset.tenant_id)
    × (b.document_id ≡ asset.document_id)
    × (b.asset_id ≡ asset.asset_id)
    × (((t : Chars) × (b.text ≡ some t)
          × (is_blank t ≡ false)
          × (b.blob ≡ none)
          × (b.modality ≡ BlockModality.text))
        ⊎ ((bytes : Bytes) × (b.blob ≡ some bytes) × (b.text ≡ none)))

-- One such block at most.
abbrev pub AtMostOne : {Bytes : Type 0} → AssetInput → List (ExtractedBlock Bytes) → Type 0
AtMostOne asset [] = Unit
AtMostOne asset (b ∷ []) = IsBlockOf asset b
AtMostOne asset (b ∷ c ∷ blocks) = ⊥

-- Where the blocks are given at all.
abbrev pub Gives :
    {Bytes : Type 0} → AssetInput → Result Error (List (ExtractedBlock Bytes)) → Type 0
Gives asset (ok blocks) = AtMostOne asset blocks
Gives asset (err e) = Unit

full_if_some : (s t : Chars) → some_if_full s ≡ some t → is_blank t ≡ false
full_if_some [] t e = cc
full_if_some (c ∷ s) t e = let same : c ∷ s ≡ t = cc in ap is_blank (sym same)

module _ {Bytes : Type 0} (out : Outside Bytes) (asset : AssetInput) where
  Gives-bind :
      {A : Type 0} (r : Result Error A) (f : A → Result Error (List (ExtractedBlock Bytes)))
      → ((a : A) → Gives asset (f a))
      → Gives asset (r >>= f)
  Gives-bind (ok a) f gives = gives a
  Gives-bind (err e) f gives = tt

  to_text-is_blank :
      (mime : Chars) (bytes : Bytes) (t : Chars)
      → to_text out mime bytes ≡ some t
      → is_blank t ≡ false
  unfolding to_text
  to_text-is_blank mime bytes t e = elim (Bool-cases (same_chars mime (chars "text/html"))) [
    | inl page ↦
        full_if_some (trim (unwrap_or_default (out.from_read (out.from_utf8_lossy bytes) 80))) t
          (ground (arith, e, page))
    | inr other ↦ elim (Bool-cases (is_textual mime)) [
      | inl textual ↦
          full_if_some (trim (out.from_utf8_lossy bytes)) t (ground (arith, e, other, textual))
      | inr binary ↦ absurd (ground (arith, e, other, binary))
    ]
  ]

  block_of-blob :
      (mime : Chars) (bytes : Bytes) (meta : List (String × Meta))
      → to_text out mime bytes ≡ none
      → block_of out asset mime bytes meta
        ≡ as_blob_block out asset (modality_for_mime mime) (some mime) bytes meta
  unfolding block_of
  block_of-blob mime bytes meta e = ground (arith, e)

  block_of-text :
      (mime : Chars) (bytes : Bytes) (meta : List (String × Meta)) (t : Chars)
      → to_text out mime bytes ≡ some t
      → block_of out asset mime bytes meta ≡ as_text_block out asset (some mime) t bytes meta
  unfolding block_of
  block_of-text mime bytes meta t e = ground (arith, e)

  IsBlockOf-block_of :
      (mime : Chars) (bytes : Bytes) (meta : List (String × Meta))
      → IsBlockOf asset (block_of out asset mime bytes meta)
  IsBlockOf-block_of mime bytes meta = elim (Option-cases (to_text out mime bytes)) [
    | inl e ↦ rw (block_of-blob mime bytes meta e) (refl, refl, refl, inr (bytes, refl, refl))
    | inr (t, e) ↦
        let full = to_text-is_blank mime bytes t e in
        rw (block_of-text mime bytes meta t e) (refl, refl, refl, inl (t, refl, full, refl, refl))
  ]

  no_key_http :
      asset.storage_key ≡ none → http_extract out asset ≡ err (not_found "asset.storage_key")
  unfolding http_extract
  no_key_http e = ground (arith, e)

  url_http :
      (url : Chars)
      → asset.storage_key ≡ some url
      → is_http url ≡ true
      → http_extract out asset ≡ (get_ok out url >>= λ got. ok (http_block out asset url got))
  unfolding http_extract
  url_http url e http = ground (arith, e, http)

  other_http :
      (url : Chars)
      → asset.storage_key ≡ some url
      → is_http url ≡ false
      → http_extract out asset ≡ err (not_url url)
  unfolding http_extract
  other_http url e other = ground (arith, e, other)

  Gives-http_extract : Gives asset (http_extract out asset)
  Gives-http_extract = elim (Option-cases asset.storage_key) [
    | inl e ↦ rw (no_key_http e) tt
    | inr (url, e) ↦ elim (Bool-cases (is_http url)) [
      | inl http ↦ rw (url_http url e http) (
          Gives-bind (get_ok out url) (λ got. ok (http_block out asset url got))
            (λ (bytes, ct_hdr, status). IsBlockOf-block_of (detect_mime out ct_hdr bytes) bytes _))
      | inr other ↦ rw (other_http url e other) tt
    ]
  ]

  no_key_file :
      asset.storage_key ≡ none → file_extract out asset ≡ err (not_found "asset.storage_key")
  unfolding file_extract
  no_key_file e = ground (arith, e)

  key_file :
      (key : Chars)
      → asset.storage_key ≡ some key
      → file_extract out asset ≡ (out.get_bytes key >>= λ bytes. ok (file_block out asset bytes))
  unfolding file_extract
  key_file key e = ground (arith, e)

  AtMostOne-file_block : (bytes : Bytes) → AtMostOne asset (file_block out asset bytes)
  AtMostOne-file_block bytes = elim (Bool-cases (out.is_empty bytes)) [
    | inl empty ↦ rw empty tt
    | inr full ↦ rw full (IsBlockOf-block_of (detect_mime out asset.content_type bytes) bytes [])
  ]

  Gives-file_extract : Gives asset (file_extract out asset)
  Gives-file_extract = elim (Option-cases asset.storage_key) [
    | inl e ↦ rw (no_key_file e) tt
    | inr (key, e) ↦ rw (key_file key e) (
        Gives-bind (out.get_bytes key) (λ bytes. ok (file_block out asset bytes))
          AtMostOne-file_block)
  ]

  IsBlockOf-pdf_block :
      (mime : Chars) (bytes : Bytes) (http_status : Option ℕ) (text : Chars)
      → IsBlockOf asset (pdf_block out asset mime bytes http_status text)
  IsBlockOf-pdf_block mime bytes http_status text = elim (Bool-cases (is_blank text)) [
    | inl blank ↦ rw blank (refl, refl, refl, inr (bytes, refl, refl))
    | inr full ↦ rw full (refl, refl, refl, inl (text, refl, full, refl, refl))
  ]

  Gives-pdf_of :
      (bytes : Bytes) (ct_hint : Option Chars) (http_status : Option ℕ)
      → Gives asset (pdf_of out asset (bytes, ct_hint, http_status))
  unfolding pdf_of
  Gives-pdf_of bytes ct_hint http_status =
      let mime = detect_mime out ct_hint bytes in
      elim (Bool-cases (out.is_empty bytes || not (is_pdf mime))) [
        | inl passed ↦ rw passed tt
        | inr tried ↦
            rw tried
              (elim (out.extract_text_from_mem bytes)
                as (λ r. Gives asset (elim r [
                  | none ↦ err pdf_failed
                  | some text ↦ ok (pdf_block out asset mime bytes http_status (trim text) ∷ [])
                ])) [
                  | none ↦ tt
                  | some text ↦ IsBlockOf-pdf_block mime bytes http_status (trim text)
                ])
      ]

  Gives-pdf_extract : Gives asset (pdf_extract out asset)
  Gives-pdf_extract =
      Gives-bind (fetch_bytes out asset) (pdf_of out asset)
        (λ (bytes, ct_hint, http_status). Gives-pdf_of bytes ct_hint http_status)

  Gives-fallback : Gives asset (fallback out asset)
  Gives-fallback = elim (Bool-cases (is_url asset.storage_key)) [
    | inl url ↦ rw url Gives-http_extract
    | inr key ↦ rw key Gives-file_extract
  ]

  Gives-or_fallback :
      (blocks : List (ExtractedBlock Bytes))
      → AtMostOne asset blocks
      → Gives asset (or_fallback out asset blocks)
  Gives-or_fallback [] one = Gives-fallback
  Gives-or_fallback (b ∷ blocks) one = one

  Gives-pdf_or_fallback :
      (r : Result Error (List (ExtractedBlock Bytes)))
      → Gives asset r
      → Gives asset (r >>= or_fallback out asset)
  Gives-pdf_or_fallback (ok blocks) one = Gives-or_fallback blocks one
  Gives-pdf_or_fallback (err e) one = tt

  -- Whatever extractors are tried, an asset gives an error or at most one block; this has the ids of
  -- the asset and holds either a text, which is not empty and of modality text, or bytes.
  pub Gives-extract : Gives asset (extract out asset)
  Gives-extract = elim (Bool-cases (is_likely_pdf asset)) [
    | inl likely ↦
        rw (extract-eq out asset)
          (rw likely (Gives-pdf_or_fallback (pdf_extract out asset) Gives-pdf_extract))
    | inr unlikely ↦ rw (extract-eq out asset) (rw unlikely Gives-fallback)
  ]
