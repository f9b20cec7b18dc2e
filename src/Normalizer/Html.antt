-- ===== src/Normalizer/Html.antt =====
-- crates/contexide-normalizer/src/html.rs. The conversion of the crate `html2text` at a width, which
-- may fail, is the parameter `from_read`.
use contexide.Prelude.{ℕ, Option, none, some, [], Chars}
use contexide.Normalizer.{NormalizedText, normalize}

pub record HtmlOptions : Type 0 where
  pub wrap_width : ℕ

abbrev pub default_options : HtmlOptions
default_options = record { wrap_width = 120 }

abbrev unwrap_or_default : Option Chars → Chars
unwrap_or_default none = []
unwrap_or_default (some plain) = plain

module _ (from_read : Chars → ℕ → Option Chars) (nfkc : Chars → Chars) where
  abbrev pub normalize_html_with : Chars → HtmlOptions → NormalizedText
  normalize_html_with input_html opts =
      normalize nfkc (unwrap_or_default (from_read input_html opts.wrap_width))

  abbrev pub normalize_html : Chars → NormalizedText
  normalize_html input_html = normalize_html_with input_html default_options
