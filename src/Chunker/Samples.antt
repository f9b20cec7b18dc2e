-- ===== src/Chunker/Samples.antt =====
-- A tokenizer of one token for each code point, a block of ten tokens, and the theorems at it.
use contexide.Prelude.{
  ℕ, ◌-◌, ◌≡◌, ◌↔◌, refl, true, false, none, List, [], ◌∷◌, Result, ok, err, map, arith,
}
use contexide.Chunker.{ChunkSpec, validate, ChunkInput, ChunkPiece, Tokenizer, Stop}
use contexide.Chunker.SlidingWindow
use contexide.Chunker.Text
use contexide.Chunker.Text.{SlidingWindowChunker}
use contexide.Chunker.Windows.{IsValid, chunk-eq-text}
use contexide.Chunker.Pieces.{IsCut, chunk_block-IsCut, chunk-returns_iff}

abbrev letters : Tokenizer
letters = record { encode = λ s. s; decode = λ s. s }

abbrev spec : ChunkSpec
spec = record { window_tokens = 5; overlap_tokens = 2; min_chunk_tokens = 1 }

abbrev ten : ChunkInput
ten = record { block_id = none; text = 1 ∷ 2 ∷ 3 ∷ 4 ∷ 5 ∷ 6 ∷ 7 ∷ 8 ∷ 9 ∷ 10 ∷ [] }

abbrev trimming : SlidingWindowChunker
trimming = record { trim_whitespace = true }

abbrev spans : Result Stop (List ChunkPiece) → List (ℕ × ℕ)
spans (ok pieces) = map (λ p. (p.start_token, p.end_token)) pieces
spans (err e) = []

-- The windows of the test `slides_with_overlap`.
spans-ten : spans (SlidingWindow.chunk letters (ten ∷ []) spec) ≡ (0, 5) ∷ (3, 8) ∷ (6, 10) ∷ []
unfolding SlidingWindow.chunk SlidingWindow.chunk_blocks SlidingWindow.chunk_block
    SlidingWindow.chunk_from validate
spans-ten = refl

spec-IsValid : IsValid spec
spec-IsValid = (omega arith, omega arith, omega arith)

chunk-eq-text_example :
    SlidingWindow.chunk letters (ten ∷ []) spec
    ≡ Text.chunk (record { trim_whitespace = false }) letters (ten ∷ []) spec
chunk-eq-text_example = chunk-eq-text letters (ten ∷ []) spec

chunk_block-IsCut_example :
    (pieces : List ChunkPiece) × (Text.chunk_block trimming letters spec ten ≡ ok pieces)
    × IsCut trimming letters spec ten ten.text 0 pieces
chunk_block-IsCut_example = chunk_block-IsCut trimming letters spec ten spec-IsValid

chunk-returns_iff_example :
    ((pieces : List ChunkPiece) × (Text.chunk trimming letters (ten ∷ []) spec ≡ ok pieces))
    ↔ IsValid spec
chunk-returns_iff_example = chunk-returns_iff trimming letters spec (ten ∷ [])

abbrev plain : SlidingWindowChunker
plain = record { trim_whitespace = false }

abbrev piece : ℕ → ℕ → List ℕ → ChunkPiece
piece start end text = record {
  block_id = none;
  text = text;
  start_token = start;
  end_token = end;
  token_count = end - start;
}

abbrev cut : List ChunkPiece
cut =
    piece 0 5 (1 ∷ 2 ∷ 3 ∷ 4 ∷ 5 ∷ [])
    ∷ piece 3 8 (4 ∷ 5 ∷ 6 ∷ 7 ∷ 8 ∷ [])
    ∷ piece 6 10 (7 ∷ 8 ∷ 9 ∷ 10 ∷ [])
    ∷ []

chunk_block-ten : Text.chunk_block plain letters spec ten ≡ ok cut
unfolding Text.chunk_block Text.chunk_from Text.maybe_trim
chunk_block-ten = refl
