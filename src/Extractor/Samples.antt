-- ===== src/Extractor/Samples.antt =====
-- A page behind a URL, with bytes that are texts.
use contexide.Prelude.{
  ◌≡◌, refl, none, some, [], ok, err, if◌then◌else◌, Chars, chars, trim, trim_start_matches,
  trim_end_matches, is_whitespace, reversed,
}
use contexide.Core.Types.AssetSource
use contexide.Extractor.{AssetInput, not_found, Outside, is_blank, is_textual, to_text}
use contexide.Extractor.Router.{is_url, extract}
use contexide.Extractor.Router.Shape.{Gives, Gives-extract}
use contexide.Extractor.Router.Sourced.{off_store, off_network, extract_sourced}

abbrev page : AssetInput
page = record {
  tenant_id = 1;
  document_id = 2;
  asset_id = 3;
  source = AssetSource.url;
  storage_key = some (chars "https://host/a");
  content_type = none;
}

abbrev out : Outside Chars
out = record {
  is_empty = is_blank;
  len = λ bytes. 1;
  to_lowercase = λ s. s;
  from_utf8_lossy = λ bytes. bytes;
  infer = λ bytes. none;
  from_read = λ html width. some [];
  extract_text_from_mem = λ bytes. none;
  get = λ url. some (record {
    status = 200;
    content_type = some (chars "text/html; charset=utf-8");
    body = some (chars "<p>");
  });
  get_bytes = λ key. err (not_found "blob");
}

-- With a parameter behind its name the type is not taken for HTML, and the markup is kept.
to_text-charset : to_text out (chars "text/html; charset=utf-8") (chars "<p>") ≡ some (chars "<p>")
unfolding to_text is_textual chars trim trim_start_matches trim_end_matches is_whitespace reversed
to_text-charset = refl

Gives-extract_example : Gives page (extract out page)
Gives-extract_example = Gives-extract out page

extract_sourced_example :
    extract
      (if is_url page.storage_key
        then off_store out page (λ key. ok []) (λ url. none)
        else off_network out page (λ key. ok []) (λ url. none))
      page
    ≡ extract out page
extract_sourced_example = extract_sourced out page (λ key. ok []) (λ url. none)
