-- ===== src/Chunker/Windows.antt =====
-- What the windows of the two chunkers are.
use contexide.Prelude.{
  ℕ, suc, zero, ◌+◌, ◌-◌, ◌≤◌, ◌<◌, ◌≡◌, refl, ap, inl, inr, false, List, [], ◌∷◌, ok, eqb,
  if◌then◌else◌, length, arith, Result-cases, ◌↔◌,
}
use contexide.Chunker.{ChunkSpec, validate, ChunkInput, Tokenizer}
use contexide.Chunker.SlidingWindow
use contexide.Chunker.Text
use contexide.Chunker.Text.{SlidingWindowChunker, maybe_trim}

-- What `validate` accepts.
abbrev pub IsValid : ChunkSpec → Type 0
IsValid spec =
    (spec.overlap_tokens < spec.window_tokens)
    × (0 < spec.min_chunk_tokens)
    × (spec.min_chunk_tokens ≤ spec.window_tokens)

-- `validate` accepts exactly the specs with 0 <= overlap < window and 1 <= min <= window.
pub validate_iff : (spec : ChunkSpec) → (validate spec ≡ ok tt) ↔ IsValid spec
unfolding validate
validate_iff spec = (λ h. ground arith, λ (a, b, c). ground arith)

abbrev untrimmed : SlidingWindowChunker
untrimmed = record { trim_whitespace = false }

module _ (tokenizer : Tokenizer) (spec : ChunkSpec) (inp : ChunkInput) (ids : List ℕ) where
  -- Past the first window both loops keep the same pieces.
  same-later :
      (fuel start emitted : ℕ)
      → 0 < start
      → 0 < emitted
      → SlidingWindow.chunk_from tokenizer spec inp ids fuel start emitted
        ≡ Text.chunk_from untrimmed tokenizer spec inp ids fuel start
  unfolding SlidingWindow.chunk_from Text.chunk_from maybe_trim
  same-later zero start emitted s e = refl
  same-later (suc fuel) start emitted s e = ground (
    arith,
    same-later fuel (start + (spec.window_tokens - spec.overlap_tokens)) (emitted + 1),
    same-later fuel (start + (spec.window_tokens - spec.overlap_tokens)) emitted,
  )

  -- From the first window on.
  pub same-first :
      (fuel : ℕ)
      → IsValid spec
      → SlidingWindow.chunk_from tokenizer spec inp ids fuel 0 0
        ≡ Text.chunk_from untrimmed tokenizer spec inp ids fuel 0
  unfolding SlidingWindow.chunk_from Text.chunk_from maybe_trim
  same-first zero valid = refl
  same-first (suc fuel) valid =
      ground (arith, same-later fuel (spec.window_tokens - spec.overlap_tokens) 1)

module _ (tokenizer : Tokenizer) (spec : ChunkSpec) (valid : IsValid spec) where
  same_block :
      (inp : ChunkInput)
      → SlidingWindow.chunk_block tokenizer spec inp ≡ Text.chunk_block untrimmed tokenizer spec inp
  unfolding SlidingWindow.chunk_block Text.chunk_block
  same_block inp =
      let ids = tokenizer.encode inp.text in
      ap (λ r. if eqb (length ids) 0 then ok [] else r)
        (same-first tokenizer spec inp ids (length ids) valid)

  same_blocks :
      (inputs : List ChunkInput)
      → SlidingWindow.chunk_blocks tokenizer spec inputs
        ≡ Text.chunk_blocks untrimmed tokenizer spec inputs
  unfolding SlidingWindow.chunk_blocks Text.chunk_blocks
  same_blocks [] = refl
  same_blocks (inp ∷ inputs) = rw (same_block inp, same_blocks inputs) refl

-- The chunker of sliding_window.rs gives what that of text.rs gives when it does not trim, on every
-- spec, one that `validate` refuses included: where it is valid, that no piece was pushed yet is the
-- same test as that the window is the first.
pub chunk-eq-text :
    (tokenizer : Tokenizer) (inputs : List ChunkInput) (spec : ChunkSpec)
    → SlidingWindow.chunk tokenizer inputs spec
      ≡ Text.chunk (record { trim_whitespace = false }) tokenizer inputs spec
unfolding SlidingWindow.chunk Text.chunk
chunk-eq-text tokenizer inputs spec = elim (Result-cases (validate spec)) [
  | inl (tt, e) ↦ rw e (same_blocks tokenizer spec ((validate_iff spec).0 e) inputs)
  | inr (_, e) ↦ rw e refl
]
