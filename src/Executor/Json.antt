-- ===== src/Executor/Json.antt =====
-- What the executor uses of the crates `serde_json` and `uuid`: a type of values with some of its
-- constructors and accessors, and the parser of UUIDs. They are not of this repository, so they are
-- a parameter, with no law but those that a theorem names.
use contexide.Prelude.{ℕ, String, Bool, Option, List}

pub record Json : Type 1 where
  pub Value : Type 0
  pub null : Value
  pub bool : Bool → Value
  pub string : String → Value
  pub uuid : ℕ → Value
  pub array : List Value → Value
  pub object : List (String × Value) → Value
  pub get : Value → String → Option Value
  pub as_array : Value → Option (List Value)
  pub as_str : Value → Option String
  pub as_u64 : Value → Option ℕ
  pub parse_uuid : String → Option ℕ
