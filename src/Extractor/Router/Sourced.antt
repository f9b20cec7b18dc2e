-- ===== src/Extractor/Router/Sourced.antt =====
-- What the extraction of an asset reads.
use contexide.Prelude.{
  ◌≡◌, refl, sym, ap, ◌∙◌, inl, inr, Bool, true, false, Option, List, [], ◌∷◌, Result, ok, err,
  ◌>>=◌, Bool-cases, Option-cases, Chars, arith, if◌then◌else◌,
}
use contexide.Extractor.{
  AssetInput, ExtractedBlock, Error, Response, Outside, detect_mime, to_text, block_of,
  http_extract, file_extract, fetch_bytes, pdf_of, pdf_extract,
}
use contexide.Extractor.Router.{is_url, choose, is_likely_pdf, fallback, or_fallback, extract}

bind_ext :
    {A B : Type 0} (r : Result Error A) (f g : A → Result Error B)
    → ((a : A) → f a ≡ g a)
    → (r >>= f) ≡ (r >>= g)
bind_ext (ok a) f g same = same a
bind_ext (err e) f g same = refl

-- The routes as one test.
pub extract-eq :
    {Bytes : Type 0} (o : Outside Bytes) (asset : AssetInput)
    → extract o asset ≡ (
        if is_likely_pdf asset
        then pdf_extract o asset >>= or_fallback o asset
        else fallback o asset)
unfolding extract choose
extract-eq o asset = elim (Bool-cases (is_likely_pdf asset)) [
  | inl likely ↦ ground (arith, likely)
  | inr unlikely ↦ elim (Bool-cases (is_url asset.storage_key)) [
    | inl url ↦ ground (arith, unlikely, url)
    | inr key ↦ ground (arith, unlikely, key)
  ]
]

module _ {Bytes : Type 0} (out : Outside Bytes) (asset : AssetInput)
    (store : Chars → Result Error Bytes) (network : Chars → Option (Response Bytes)) where
  abbrev pub off_store : Outside Bytes
  off_store = record out { get_bytes = store }

  fetch-url : is_url asset.storage_key ≡ true → fetch_bytes off_store asset ≡ fetch_bytes out asset
  unfolding fetch_bytes
  fetch-url url = elim (Option-cases asset.storage_key) [
    | inl e ↦ absurd (ground (arith, url, e))
    | inr (k, e) ↦ ground (arith, url, e)
  ]

  abbrev pub off_network : Outside Bytes
  off_network = record out { get = network }

  fetch-key :
      is_url asset.storage_key ≡ false → fetch_bytes off_network asset ≡ fetch_bytes out asset
  unfolding fetch_bytes
  fetch-key key = elim (Option-cases asset.storage_key) [
    | inl e ↦ ground (arith, e)
    | inr (k, e) ↦ ground (arith, key, e)
  ]

  fallback-url : is_url asset.storage_key ≡ true → fallback off_store asset ≡ fallback out asset
  unfolding http_extract block_of detect_mime to_text
  fallback-url url =
      ap (λ (b : Bool). if b then http_extract off_store asset else file_extract off_store asset)
        url
      ∙ ap (λ (b : Bool). if b then http_extract out asset else file_extract out asset) (sym url)

  fallback-key : is_url asset.storage_key ≡ false → fallback off_network asset ≡ fallback out asset
  unfolding file_extract block_of detect_mime to_text
  fallback-key key =
      ap
        (λ (b : Bool). if b then http_extract off_network asset else file_extract off_network asset)
        key
      ∙ ap (λ (b : Bool). if b then http_extract out asset else file_extract out asset) (sym key)

  or_fallback-eq :
      (o : Outside Bytes) (blocks : List (ExtractedBlock Bytes))
      → fallback o asset ≡ fallback out asset
      → or_fallback o asset blocks ≡ or_fallback out asset blocks
  or_fallback-eq o [] same = same
  or_fallback-eq o (b ∷ blocks) same = refl

  same_extract :
      (o : Outside Bytes)
      → pdf_of o asset ≡ pdf_of out asset
      → fetch_bytes o asset ≡ fetch_bytes out asset
      → fallback o asset ≡ fallback out asset
      → extract o asset ≡ extract out asset
  same_extract o same_pdf fetched fell =
      extract-eq o asset
      ∙ ap (λ rest. if is_likely_pdf asset then rest else fallback o asset)
          (bind_ext (pdf_extract o asset) (or_fallback o asset) (or_fallback out asset)
              (λ blocks. or_fallback-eq o blocks fell)
            ∙ ap (λ r. (r >>= pdf_of o asset) >>= or_fallback out asset) fetched
            ∙ ap (λ f. (fetch_bytes out asset >>= f) >>= or_fallback out asset) same_pdf)
      ∙ ap
          (λ rest.
            if is_likely_pdf asset then pdf_extract out asset >>= or_fallback out asset else rest)
          fell
      ∙ sym (extract-eq out asset)

  -- An asset is read from where its key points, whatever its type and whichever extractors are tried:
  -- the store of blobs has no say in the extraction of an http(s) URL, and the network none in that of
  -- any other asset.
  pub extract_sourced :
      extract (if is_url asset.storage_key then off_store else off_network) asset
      ≡ extract out asset
  unfolding pdf_of detect_mime
  extract_sourced = elim (Bool-cases (is_url asset.storage_key)) [
    | inl url ↦
        ap (λ (b : Bool). extract (if b then off_store else off_network) asset) url
        ∙ same_extract off_store refl (fetch-url url) (fallback-url url)
    | inr key ↦
        ap (λ (b : Bool). extract (if b then off_store else off_network) asset) key
        ∙ same_extract off_network refl (fetch-key key) (fallback-key key)
  ]
