-- ===== src/Core/Types/BlockModality.antt =====
-- crates/contexide-core/src/types/block_modality.rs.
use contexide.Prelude.{
  String, ◌≡◌, ◌↔◌, refl, Result, ok, err, string_eq, ◌==◌, ==_iff, arith, if◌then◌else◌,
}

pub data BlockModality : Type 0 where
  text image audio video table binary : BlockModality

pub data BlockModalityParsedError : Type 0 where
  invalid_block_modality : BlockModalityParsedError

-- `From<BlockModality> for &'static str`
pub name : BlockModality → String
name text = "text"
name image = "image"
name audio = "audio"
name video = "video"
name table = "table"
name binary = "binary"

pub from_str : String → Result BlockModalityParsedError BlockModality
from_str s =
    if s == "text"
    then ok text
    else if s == "image"
    then ok image
    else if s == "audio"
    then ok audio
    else if s == "video"
    then ok video
    else if s == "table"
    then ok table
    else if s == "binary"
    then ok binary
    else err invalid_block_modality

from_str-name : (modality : BlockModality) → from_str (name modality) ≡ ok modality
unfolding from_str name
from_str-name text = refl
from_str-name image = refl
from_str-name audio = refl
from_str-name video = refl
from_str-name table = refl
from_str-name binary = refl

-- A text is parsed exactly if it is the name of a modality, and as that modality.
pub from_str_iff :
    (s : String) (modality : BlockModality) → (from_str s ≡ ok modality) ↔ (s ≡ name modality)
unfolding from_str name
from_str_iff s modality = (
  λ h. ground (
    arith,
    ==_iff s "text",
    ==_iff s "image",
    ==_iff s "audio",
    ==_iff s "video",
    ==_iff s "table",
    ==_iff s "binary",
  ),
  λ h. rw h (from_str-name modality),
)
