-- ===== src/Core/Types/AssetSource.antt =====
-- crates/contexide-core/src/types/asset_source.rs.
use contexide.Prelude.{String, Result, ok, err, string_eq, ◌==◌, if◌then◌else◌}

pub data AssetSource : Type 0 where
  upload url s3 : AssetSource

pub data AssetSourceError : Type 0 where
  invalid_asset_source : AssetSourceError

-- `From<AssetSource> for &'static str`
pub name : AssetSource → String
name upload = "upload"
name url = "url"
name s3 = "s3"

pub from_str : String → Result AssetSourceError AssetSource
from_str s =
    if s == "upload"
    then ok upload
    else if s == "url"
    then ok url
    else if s == "s3"
    then ok s3
    else err invalid_asset_source
