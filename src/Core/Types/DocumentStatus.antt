-- ===== src/Core/Types/DocumentStatus.antt =====
-- crates/contexide-core/src/types/document_status.rs.
use contexide.Prelude.{
  String, ◌≡◌, ◌↔◌, refl, Result, ok, err, string_eq, ◌==◌, ==_iff, arith, if◌then◌else◌,
}

pub data DocumentStatus : Type 0 where
  draft processing ready failed archived : DocumentStatus

pub data ParseDocumentStatusError : Type 0 where
  invalid_document_status : ParseDocumentStatusError

-- `From<DocumentStatus> for &'static str`
pub name : DocumentStatus → String
name draft = "draft"
name processing = "processing"
name ready = "ready"
name failed = "failed"
name archived = "archived"

pub from_str : String → Result ParseDocumentStatusError DocumentStatus
from_str s =
    if s == "draft"
    then ok draft
    else if s == "processing"
    then ok processing
    else if s == "ready"
    then ok ready
    else if s == "failed"
    then ok failed
    else if s == "archived"
    then ok archived
    else err invalid_document_status

from_str-name : (status : DocumentStatus) → from_str (name status) ≡ ok status
unfolding from_str name
from_str-name draft = refl
from_str-name processing = refl
from_str-name ready = refl
from_str-name failed = refl
from_str-name archived = refl

-- A text is parsed exactly if it is the name of a status, and as that status.
pub from_str_iff :
    (s : String) (status : DocumentStatus) → (from_str s ≡ ok status) ↔ (s ≡ name status)
unfolding from_str name
from_str_iff s status = (
  λ h. ground (
    arith,
    ==_iff s "draft",
    ==_iff s "processing",
    ==_iff s "ready",
    ==_iff s "failed",
    ==_iff s "archived",
  ),
  λ h. rw h (from_str-name status),
)
