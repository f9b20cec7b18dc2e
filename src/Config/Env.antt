-- ===== src/Config/Env.antt =====
-- The helpers of crates/contexide-config/src/lib.rs that read the environment, `env`, as
-- `std::env::var` gives it after `dotenv`; and `str::parse` for unsigned numbers.
pub mod Picked
use Prim.Native.Char.{code}
use Prim.Native.String.{◌++◌ as ◌<>◌}
use contexide.Prelude.{
  ℕ, ◌+◌, ◌-◌, ◌*◌, String, Bool, true, false, ◌&&◌, ◌||◌, Option, none, some, List, [], ◌∷◌, eqb,
  leb, ◌==◌, string_eq, if◌then◌else◌, Chars, chars, is_empty,
}

abbrev pub starts_with : String → String → Bool
starts_with s String.[] = true
starts_with String.[] (String.◌∷◌ d p) = false
starts_with (String.◌∷◌ c s) (String.◌∷◌ d p) = eqb (code c) (code d) && starts_with s p

abbrev is_digit : ℕ → Bool
is_digit c = leb 48 c && leb c 57

-- The digits after a number `acc`, refused where the number gets over `max`.
abbrev digits_from : ℕ → ℕ → Chars → Option ℕ
digits_from max acc [] = some acc
digits_from max acc (c ∷ cs) =
    let rest = digits_from max (acc * 10 + (c - 48)) cs in
    if is_digit c && leb (acc * 10 + (c - 48)) max then rest else none

abbrev digits : ℕ → Chars → Option ℕ
digits max [] = none
digits max (c ∷ cs) = digits_from max 0 (c ∷ cs)

abbrev parse_chars : ℕ → Chars → Option ℕ
parse_chars max [] = none
parse_chars max (c ∷ cs) = if eqb c 43 then digits max cs else digits max (c ∷ cs)

-- `s.parse()` into an unsigned type with this largest number.
unfoldable pub parse : ℕ → String → Option ℕ
parse max s = parse_chars max (chars s)

abbrev pub u32_max : ℕ
u32_max = 4294967295

abbrev pub u64_max : ℕ
u64_max = 18446744073709551615

module _ (env : String → Option String) where
  unfoldable pub pick_env : List String → Option String
  pick_env [] = none
  pick_env (k ∷ names) = elim (env k) [
    | some v ↦ if is_empty v then pick_env names else some v
    | none ↦ pick_env names
  ]

  unfoldable pub env_scoped_s : String → String → List String → Option String
  env_scoped_s scope key plain_fallbacks =
      let scoped = "CONTEXIDE_" <> scope <> "_" <> key in
      let global = "CONTEXIDE_" <> key in
      elim (pick_env (scoped ∷ [])) [
        | some v ↦ some v
        | none ↦ elim (pick_env (global ∷ [])) [ some v ↦ some v | none ↦ pick_env plain_fallbacks ]
      ]

  abbrev parsed : ℕ → Option String → Option ℕ
  parsed max none = none
  parsed max (some s) = parse max s

  unfoldable pub env_scoped_u32 : String → String → List String → Option ℕ
  env_scoped_u32 scope key plain_fallbacks = parsed u32_max (env_scoped_s scope key plain_fallbacks)

  -- A `usize` has 64 bits.
  unfoldable pub env_scoped_usize : String → String → List String → Option ℕ
  env_scoped_usize scope key plain_fallbacks =
      parsed u64_max (env_scoped_s scope key plain_fallbacks)

  abbrev flag : String → Option Bool
  flag v =
      if v == "1" || v == "true" || v == "TRUE"
      then some true
      else if v == "0" || v == "false" || v == "FALSE"
      then some false
      else none

  unfoldable pub env_scoped_bool : String → String → List String → Option Bool
  env_scoped_bool scope key plain_fallbacks = elim (env_scoped_s scope key plain_fallbacks) [
    | some v ↦ flag v
    | none ↦ none
  ]
