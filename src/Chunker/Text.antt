-- ===== src/Chunker/Text.antt =====
-- crates/contexide-chunker-impl/src/text.rs: the chunker that trims what it decodes.
use contexide.Prelude.{
  Chars, reversed, trim_end_matches, trim, ℕ, suc, zero, ◌+◌, ◌-◌, min, Bool, ◌&&◌, ◌||◌, List, [],
  ◌∷◌, ◌++◌, Result, ok, err, ◌>>=◌, ◌>>◌, eqb, leb, ltb, if◌then◌else◌, length,
}
use contexide.Chunker.{
  ChunkSpec, validate, ChunkInput, ChunkPiece, Tokenizer, Stop, out_of_fuel, expect, slice,
}

abbrev line_feed : ℕ
line_feed = 10

-- The `[' ', '\t']` of `trim_end_matches`.
is_blank : ℕ → Bool
is_blank c = eqb c 32 || eqb c 9

-- A line, held in reverse, without the carriage return before its line feed.
without_return : Chars → Chars
without_return [] = []
without_return (c ∷ cs) = if eqb c 13 then cs else c ∷ cs

-- `str::lines`, with the characters of the line so far in reverse.
lines_from : Chars → Chars → List Chars
lines_from [] [] = []
lines_from (l ∷ ls) [] = reversed (l ∷ ls) [] ∷ []
lines_from line (c ∷ cs) =
    if eqb c line_feed
    then reversed (without_return line) [] ∷ lines_from [] cs
    else lines_from (c ∷ line) cs

-- The loop over the lines: each is trimmed, and a line feed stands before all but the first.
trim_lines : List Chars → Chars
trim_lines [] = []
trim_lines (line ∷ []) = trim_end_matches is_blank line
trim_lines (line ∷ next ∷ lines) =
    trim_end_matches is_blank line ++ line_feed ∷ trim_lines (next ∷ lines)

pub trim_multiline : Chars → Chars
trim_multiline input = trim (trim_lines (lines_from [] input))

pub record SlidingWindowChunker : Type 0 where
  pub trim_whitespace : Bool

unfoldable pub maybe_trim : SlidingWindowChunker → Chars → Chars
maybe_trim self s = if self.trim_whitespace then trim_multiline s else s

module _ (self : SlidingWindowChunker) (tokenizer : Tokenizer) where
  -- `while start < n`, from a value of `start` on: the pieces it pushes.
  unfoldable pub chunk_from :
      ChunkSpec → ChunkInput → List ℕ → ℕ → ℕ → Result Stop (List ChunkPiece)
  chunk_from spec inp ids zero start = err out_of_fuel
  chunk_from spec inp ids (suc fuel) start =
      let n = length ids in
      let end = min (start + spec.window_tokens) n in
      let token_len = end - start in
      let piece : ChunkPiece = record {
        block_id = inp.block_id;
        text = maybe_trim self (tokenizer.decode (slice ids start end));
        start_token = start;
        end_token = end;
        token_count = token_len;
      } in
      let rest =
        chunk_from spec inp ids fuel (start + (spec.window_tokens - spec.overlap_tokens)) in
      if ltb start n
      then ((if eqb end n then ok [] else rest) >>= λ pieces. ok (
          if leb spec.min_chunk_tokens token_len || (eqb start 0 && eqb end n)
          then piece ∷ pieces
          else pieces))
      else ok []

  unfoldable pub chunk_block : ChunkSpec → ChunkInput → Result Stop (List ChunkPiece)
  chunk_block spec inp =
      let ids = tokenizer.encode inp.text in
      if eqb (length ids) 0 then ok [] else chunk_from spec inp ids (length ids) 0

  unfoldable pub chunk_blocks : ChunkSpec → List ChunkInput → Result Stop (List ChunkPiece)
  chunk_blocks spec [] = ok []
  chunk_blocks spec (inp ∷ inputs) =
      chunk_block spec inp >>= λ out. chunk_blocks spec inputs >>= λ rest. ok (out ++ rest)

  unfoldable pub chunk : List ChunkInput → ChunkSpec → Result Stop (List ChunkPiece)
  chunk inputs spec = expect (validate spec) >> chunk_blocks spec inputs
