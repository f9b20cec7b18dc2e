-- ===== src/Core/Types/Names.antt =====
-- The names of the enums, read back.
use contexide.Prelude.{String, ◌≡◌, ◌↔◌, ok}
use contexide.Core.Types.DocumentStatus
use contexide.Core.Types.DocumentStatus.{DocumentStatus}
use contexide.Core.Types.BlockModality
use contexide.Core.Types.BlockModality.{BlockModality}

-- A text is parsed exactly if it is the name of a status, or of a modality, and as that one.
pub parse_names_iff :
    (s m : String) (status : DocumentStatus) (modality : BlockModality)
    → ((DocumentStatus.from_str s ≡ ok status) ↔ (s ≡ DocumentStatus.name status))
      × ((BlockModality.from_str m ≡ ok modality) ↔ (m ≡ BlockModality.name modality))
parse_names_iff s m status modality =
    (DocumentStatus.from_str_iff s status, BlockModality.from_str_iff m modality)
