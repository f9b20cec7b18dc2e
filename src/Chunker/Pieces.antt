-- ===== src/Chunker/Pieces.antt =====
-- What the pieces of a block are, for the chunker of text.rs.
use contexide.Prelude.{
  ℕ, suc, zero, ◌+◌, ◌-◌, ◌≤◌, ◌<◌, min, ◌≡◌, refl, ap, ◌∙◌, inl, inr, List, [], ◌∷◌, ◌++◌, ◌⊎◌, ok,
  err, ◌>>=◌, eqb, ltb, if◌then◌else◌, length, arith, Bool-cases, Memᴰ, ◌↔◌, Result-cases, String,
}
use mathlib.Core.List.Memᴰ
use contexide.Chunker.{ChunkSpec, validate, ChunkInput, ChunkPiece, Tokenizer, slice}
use contexide.Chunker.Text.{
  SlidingWindowChunker, maybe_trim, chunk_from, chunk_block, chunk_blocks, chunk,
}
use contexide.Chunker.Windows.{IsValid, validate_iff}

module _ (self : SlidingWindowChunker) (tokenizer : Tokenizer) (spec : ChunkSpec) (inp : ChunkInput)
    (ids : List ℕ) where
  -- The piece of the window at `start`.
  abbrev pub piece_at : ℕ → ℕ → ChunkPiece
  piece_at start end = record {
    block_id = inp.block_id;
    text = maybe_trim self (tokenizer.decode (slice ids start end));
    start_token = start;
    end_token = end;
    token_count = end - start;
  }

  abbrev pub step : ℕ
  step = spec.window_tokens - spec.overlap_tokens

  -- The last window, and one before it.
  pub last_window :
      (fuel start : ℕ)
      → start < length ids
      → length ids ≤ start + spec.window_tokens
      → (chunk_from self tokenizer spec inp ids (suc fuel) start
          ≡ ok (piece_at start (length ids) ∷ []))
        ⊎ ((chunk_from self tokenizer spec inp ids (suc fuel) start ≡ ok [])
            × (length ids < start + spec.min_chunk_tokens))
  unfolding chunk_from
  last_window fuel start inside near =
      let e : min (start + spec.window_tokens) (length ids) ≡ length ids = omega arith in
      ground arith

  pub next_window :
      (fuel start : ℕ)
      → IsValid spec
      → start + spec.window_tokens < length ids
      → chunk_from self tokenizer spec inp ids (suc fuel) start ≡ (
          chunk_from self tokenizer spec inp ids fuel (start + step) >>= λ pieces.
          ok (piece_at start (start + spec.window_tokens) ∷ pieces))
  unfolding chunk_from
  next_window fuel start valid far =
      let e : min (start + spec.window_tokens) (length ids) ≡ start + spec.window_tokens =
        omega arith in
      ground arith

  -- Where a window lies in the block of `n` tokens, and how long it may be.
  pub IsFitting : ℕ → ChunkPiece → Type 0
  IsFitting from p =
      (from ≤ p.start_token)
      × (p.start_token < p.end_token)
      × (p.end_token ≤ length ids)
      × (p.token_count ≡ p.end_token - p.start_token)
      × (p.token_count ≤ spec.window_tokens)
      × (p.text ≡ maybe_trim self (tokenizer.decode (slice ids p.start_token p.end_token)))

  -- The pieces that the loop pushes from `start` on: they fit, and hold each token from there but for
  -- fewer than `min_chunk_tokens` at the end of the block.
  pub IsCut : ℕ → List ChunkPiece → Type 0
  IsCut start pieces =
      ((p : ChunkPiece) → Memᴰ p pieces → IsFitting start p)
      × ((j : ℕ)
          → start ≤ j
          → j < length ids
          → ((p : ChunkPiece) × Memᴰ p pieces × (p.start_token ≤ j) × (j < p.end_token))
            ⊎ (length ids < j + spec.min_chunk_tokens))

  last-IsCut :
      (start : ℕ)
      → start < length ids
      → length ids ≤ start + spec.window_tokens
      → IsCut start (piece_at start (length ids) ∷ [])
  unfolding IsCut IsFitting
  last-IsCut start inside near = (
    λ p m. elim (Memᴰ.cases_cons m) [
      | inl here ↦ rw here (omega arith, inside, omega arith, refl, omega arith, refl)
      | inr later ↦ absurd (Memᴰ.not-nil later)
    ],
    λ j after before. inl (piece_at start (length ids), Memᴰ.head refl, after, before),
  )

  next-IsCut :
      (start : ℕ) (pieces : List ChunkPiece)
      → IsValid spec
      → start + spec.window_tokens < length ids
      → IsCut (start + step) pieces
      → IsCut start (piece_at start (start + spec.window_tokens) ∷ pieces)
  unfolding IsCut IsFitting
  next-IsCut start pieces valid far (fits, covers) = (
    λ p m. elim (Memᴰ.cases_cons m) [
      | inl here ↦ rw here (omega arith, omega arith, omega arith, refl, omega arith, refl)
      | inr later ↦ let (a, b, c, d, e, f) = fits p later in (omega arith, b, c, d, e, f)
    ],
    λ j after before. elim (Bool-cases (ltb j (start + spec.window_tokens))) [
      | inl here ↦
          inl (piece_at start (start + spec.window_tokens), Memᴰ.head refl, after, ground arith)
      | inr past ↦ elim (covers j (ground arith) before) [
        | inl (p, m, r, t) ↦ inl (p, Memᴰ.tail m, r, t)
        | inr short ↦ inr short
      ]
    ],
  )

  none-IsCut : (start : ℕ) → length ids < start + spec.min_chunk_tokens → IsCut start []
  unfolding IsCut
  none-IsCut start short = (λ p m. absurd (Memᴰ.not-nil m), λ j after before. inr (omega arith))

  -- From a window of the block on, with a step of fuel for each token that is left.
  chunk_from-IsCut :
      (fuel start : ℕ)
      → IsValid spec
      → start < length ids
      → length ids ≤ start + fuel
      → (pieces : List ChunkPiece) × (chunk_from self tokenizer spec inp ids fuel start ≡ ok pieces)
        × IsCut start pieces
  chunk_from-IsCut zero start valid inside enough = absurd (omega arith)
  chunk_from-IsCut (suc fuel) start valid inside enough =
      elim (Bool-cases (ltb (start + spec.window_tokens) (length ids))) [
        | inl far ↦
            let (pieces, e, cut) =
              chunk_from-IsCut fuel (start + step) valid (ground arith) (ground arith) in
            (
              piece_at start (start + spec.window_tokens) ∷ pieces,
              next_window fuel start valid (ground arith)
                  ∙ ap (λ r. r >>= λ ps. ok (piece_at start (start + spec.window_tokens) ∷ ps)) e,
              next-IsCut start pieces valid (ground arith) cut,
            )
        | inr near ↦ elim (last_window fuel start inside (ground arith)) [
          | inl e ↦ (piece_at start (length ids) ∷ [], e, last-IsCut start inside (ground arith))
          | inr (e, short) ↦ ([], e, none-IsCut start short)
        ]
      ]

module _ (self : SlidingWindowChunker) (tokenizer : Tokenizer) (spec : ChunkSpec) where
  -- On a valid spec the loop over the windows of a block ends with enough fuel. Each piece lies within
  -- the block's tokens, is not empty and not longer than the window, counts its tokens, and holds
  -- their decoded text; each token of the block is in a piece, but for fewer than `min_chunk_tokens`
  -- at the block's end.
  pub chunk_block-IsCut :
      (inp : ChunkInput)
      → IsValid spec
      → (pieces : List ChunkPiece) × (chunk_block self tokenizer spec inp ≡ ok pieces)
        × IsCut self tokenizer spec inp (tokenizer.encode inp.text) 0 pieces
  unfolding chunk_block IsCut
  chunk_block-IsCut inp valid =
      let ids = tokenizer.encode inp.text in
      elim (Bool-cases (eqb (length ids) 0)) [
        | inl empty ↦ (
          [],
          ap (λ b. if b then ok [] else chunk_from self tokenizer spec inp ids (length ids) 0)
              empty,
          (λ p m. absurd (Memᴰ.not-nil m), λ j after before. absurd (ground arith)),
        )
        | inr some_tokens ↦
            let (pieces, e, cut) =
              chunk_from-IsCut self tokenizer spec inp ids (length ids) 0 valid (ground arith)
                (omega arith) in
            (
              pieces,
              ap (λ b. if b then ok [] else chunk_from self tokenizer spec inp ids (length ids) 0)
                    some_tokens
                  ∙ e,
              cut,
            )
      ]

  chunk_blocks-total :
      (inputs : List ChunkInput)
      → IsValid spec
      → (pieces : List ChunkPiece) × (chunk_blocks self tokenizer spec inputs ≡ ok pieces)
  unfolding chunk_blocks
  chunk_blocks-total [] valid = ([], refl)
  chunk_blocks-total (inp ∷ inputs) valid =
      let (out, e, _) = chunk_block-IsCut inp valid in
      let (rest, f) = chunk_blocks-total inputs valid in (out ++ rest, rw (e, f) refl)

  panics :
      (reason : String)
      → validate spec ≡ err reason
      → (inputs : List ChunkInput) (pieces : List ChunkPiece)
      → ¬ (chunk self tokenizer inputs spec ≡ ok pieces)
  unfolding chunk
  panics reason e inputs pieces h = cc

  refuses : (reason : String) → validate spec ≡ err reason → ¬ IsValid spec
  refuses reason e valid = let f = (validate_iff spec).1 valid in cc

  -- `chunk` returns for every list of blocks exactly where `validate` accepts the spec: it panics on
  -- all other specs, and its loops always end.
  pub chunk-returns_iff :
      (inputs : List ChunkInput)
      → ((pieces : List ChunkPiece) × (chunk self tokenizer inputs spec ≡ ok pieces)) ↔ IsValid spec
  unfolding chunk
  chunk-returns_iff inputs = elim (Result-cases (validate spec)) [
    | inl (tt, e) ↦ (
      λ _. (validate_iff spec).0 e,
      λ valid. let (pieces, f) = chunk_blocks-total inputs valid in (pieces, rw e f),
    )
    | inr (reason, e) ↦ (
      λ (pieces, f). absurd (panics reason e inputs pieces f),
      λ valid. absurd (refuses reason e valid),
    )
  ]
