-- ===== src/Core/Types.antt =====
-- `ExtractorKind` of crates/contexide-core/src/traits.rs, and the enums of
-- crates/contexide-core/src/types with their names.
use contexide.Prelude.{String}
pub mod AssetSource
pub mod BlockModality
pub mod DocumentStatus
pub mod Names

pub data ExtractorKind : Type 0 where
  pdf html docx image_ocr audio_asr video file : ExtractorKind

pub as_str : ExtractorKind → String
as_str pdf = "pdf"
as_str html = "html"
as_str docx = "docx"
as_str image_ocr = "image-ocr"
as_str audio_asr = "audio-asr"
as_str video = "video"
as_str file = "file"
