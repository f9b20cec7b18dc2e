-- ===== src/Chunker/SlidingWindow.antt =====
-- crates/contexide-chunker-impl/src/sliding_window.rs: the loop over the windows of one block runs on
-- fuel, of which one more step than the block has tokens is enough.
use contexide.Prelude.{
  ℕ, suc, zero, ◌+◌, ◌-◌, min, true, ◌&&◌, List, [], ◌∷◌, ◌++◌, Result, ok, err, ◌>>=◌, ◌>>◌, eqb,
  leb, ltb, if◌then◌else◌, length,
}
use contexide.Chunker.{
  ChunkSpec, validate, ChunkInput, ChunkPiece, Tokenizer, Stop, out_of_fuel, expect, slice,
}

module _ (tokenizer : Tokenizer) where
  -- `while start < n`, from a value of `start` and of `emitted_for_block` on: the pieces it pushes.
  unfoldable pub chunk_from :
      ChunkSpec → ChunkInput → List ℕ → ℕ → ℕ → ℕ → Result Stop (List ChunkPiece)
  chunk_from spec inp ids zero start emitted_for_block = err out_of_fuel
  chunk_from spec inp ids (suc fuel) start emitted_for_block =
      let n = length ids in
      let end = min (start + spec.window_tokens) n in
      let len = end - start in
      let keep =
        if eqb emitted_for_block 0 && eqb end n then true else leb spec.min_chunk_tokens len in
      let piece : ChunkPiece = record {
        block_id = inp.block_id;
        text = tokenizer.decode (slice ids start end);
        start_token = start;
        end_token = end;
        token_count = len;
      } in
      let rest =
        chunk_from spec inp ids fuel (start + (spec.window_tokens - spec.overlap_tokens))
          (if keep then emitted_for_block + 1 else emitted_for_block) in
      if ltb start n
      then ((if eqb end n then ok [] else rest) >>= λ pieces.
          ok (if keep then piece ∷ pieces else pieces))
      else ok []

  unfoldable pub chunk_block : ChunkSpec → ChunkInput → Result Stop (List ChunkPiece)
  chunk_block spec inp =
      let ids = tokenizer.encode inp.text in
      if eqb (length ids) 0 then ok [] else chunk_from spec inp ids (length ids) 0 0

  unfoldable pub chunk_blocks : ChunkSpec → List ChunkInput → Result Stop (List ChunkPiece)
  chunk_blocks spec [] = ok []
  chunk_blocks spec (inp ∷ inputs) =
      chunk_block spec inp >>= λ out. chunk_blocks spec inputs >>= λ rest. ok (out ++ rest)

  unfoldable pub chunk : List ChunkInput → ChunkSpec → Result Stop (List ChunkPiece)
  chunk inputs spec = expect (validate spec) >> chunk_blocks spec inputs
