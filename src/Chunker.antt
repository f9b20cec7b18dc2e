-- ===== src/Chunker.antt =====
-- crates/contexide-core/src/chunker.rs: how a text is cut in chunks, and what a tokenizer does for
-- it. A text is the list of its code points; the tokenizer is a parameter of the chunkers.
pub mod SlidingWindow
pub mod Text
pub mod Windows
pub mod Pieces
pub mod Spacing
mod Samples
use contexide.Prelude.{
  Chars, ℕ, String, Bool, Option, List, ◌||◌, Result, ok, err, eqb, leb, ltb, take, drop, ◌-◌,
  if◌then◌else◌,
}

pub record ChunkSpec : Type 0 where
  pub window_tokens : ℕ
  pub overlap_tokens : ℕ
  pub min_chunk_tokens : ℕ

unfoldable pub validate : ChunkSpec → Result String Unit
validate spec =
    if eqb spec.window_tokens 0
    then err "window_tokens must be > 0"
    else if leb spec.window_tokens spec.overlap_tokens
    then err "overlap_tokens must be < window_tokens"
    else if eqb spec.min_chunk_tokens 0 || ltb spec.window_tokens spec.min_chunk_tokens
    then err "min_chunk_tokens must be in 1..=window_tokens"
    else ok tt

pub record ChunkInput : Type 0 where
  pub block_id : Option ℕ
  pub text : Chars

pub record ChunkPiece : Type 0 where
  pub block_id : Option ℕ
  pub text : Chars
  pub start_token : ℕ
  pub end_token : ℕ
  pub token_count : ℕ

pub record Tokenizer : Type 0 where
  pub encode : Chars → List ℕ
  pub decode : List ℕ → Chars

-- How `chunk` does not return: `expect` panics on a spec that is not valid, and the model of a loop
-- may be given too few steps.
pub data Stop : Type 0 where
  panicked : String → Stop
  out_of_fuel : Stop

-- `expect`
abbrev pub expect : {A : Type 0} → Result String A → Result Stop A
expect (ok a) = ok a
expect (err e) = err (panicked e)

-- `&ids[start..end]`, where `start <= end <= ids.len()`.
abbrev pub slice {ℓ} : {A : Type ℓ} → List A → ℕ → ℕ → List A
slice ids start end = take (end - start) (drop start ids)
