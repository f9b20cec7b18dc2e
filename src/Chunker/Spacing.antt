-- ===== src/Chunker/Spacing.antt =====
-- Where the pieces of a block begin and end, for the chunker of text.rs.
use contexide.Prelude.{
  ℕ, suc, zero, ◌+◌, ◌-◌, ◌*◌, ◌≤◌, ◌<◌, min, ◌≡◌, sym, ap, ◌∙◌, inl, inr, none, some, List, [],
  ◌∷◌, Result, ok, ◌>>=◌, eqb, ltb, if◌then◌else◌, length, get_elem?, arith, Bool-cases,
}
use contexide.Chunker.{ChunkSpec, ChunkInput, ChunkPiece, Tokenizer, Stop}
use contexide.Chunker.Text.{SlidingWindowChunker, chunk_from, chunk_block}
use contexide.Chunker.Windows.{IsValid}
use contexide.Chunker.Pieces.{piece_at, last_window, next_window}

module _ (self : SlidingWindowChunker) (tokenizer : Tokenizer) (spec : ChunkSpec) (inp : ChunkInput)
    (ids : List ℕ) where
  -- The `i`-th piece is the `i`-th window from `start` on.
  IsSpaced : ℕ → List ChunkPiece → Type 0
  IsSpaced start pieces =
      (i : ℕ) (p : ChunkPiece)
      → get_elem? pieces i ≡ some p
      → (p.start_token ≡ start + i * (spec.window_tokens - spec.overlap_tokens))
        × (p.end_token ≡ min (p.start_token + spec.window_tokens) (length ids))

  none-IsSpaced : (start : ℕ) → IsSpaced start []
  unfolding IsSpaced
  none-IsSpaced start i p h = absurd cc

  next-IsSpaced :
      (start end : ℕ) (pieces : List ChunkPiece)
      → end ≡ min (start + spec.window_tokens) (length ids)
      → IsSpaced (start + (spec.window_tokens - spec.overlap_tokens)) pieces
      → IsSpaced start (piece_at self tokenizer spec inp ids start end ∷ pieces)
  unfolding IsSpaced
  next-IsSpaced start end pieces here later zero p h =
      let e : piece_at self tokenizer spec inp ids start end ≡ p = cc in
      rw (sym e) (omega arith, here)
  next-IsSpaced start end pieces here later (suc i) p h =
      let (a, b) = later i p h in (omega (arith, a), b)

  chunk_from-IsSpaced :
      (fuel start : ℕ)
      → IsValid spec
      → start < length ids
      → length ids ≤ start + fuel
      → (pieces : List ChunkPiece) × (chunk_from self tokenizer spec inp ids fuel start ≡ ok pieces)
        × IsSpaced start pieces
  chunk_from-IsSpaced zero start valid inside enough = absurd (omega arith)
  chunk_from-IsSpaced (suc fuel) start valid inside enough =
      elim (Bool-cases (ltb (start + spec.window_tokens) (length ids))) [
        | inl far ↦
            let (pieces, e, spaced) =
              chunk_from-IsSpaced fuel (start + (spec.window_tokens - spec.overlap_tokens)) valid
                (ground arith) (ground arith) in
            (
              piece_at self tokenizer spec inp ids start (start + spec.window_tokens) ∷ pieces,
              next_window self tokenizer spec inp ids fuel start valid (ground arith)
                  ∙ ap
                      (λ r. r >>= λ ps. ok (
                        piece_at self tokenizer spec inp ids start (start + spec.window_tokens)
                        ∷ ps))
                      e,
              next-IsSpaced start (start + spec.window_tokens) pieces (ground arith) spaced,
            )
        | inr near ↦
            elim (last_window self tokenizer spec inp ids fuel start inside (ground arith)) [
              | inl e ↦ (
                piece_at self tokenizer spec inp ids start (length ids) ∷ [],
                e,
                next-IsSpaced start (length ids) [] (ground arith) (none-IsSpaced _),
              )
              | inr (e, short) ↦ ([], e, none-IsSpaced start)
            ]
      ]

module _ (self : SlidingWindowChunker) (tokenizer : Tokenizer) (spec : ChunkSpec) where
  -- On a valid spec the `i`-th piece of a block begins at token i * (window - overlap) and ends a
  -- window later, or with the block.
  pub chunk_block-spacing :
      (inp : ChunkInput) (pieces : List ChunkPiece) (i : ℕ) (p : ChunkPiece)
      → IsValid spec
      → chunk_block self tokenizer spec inp ≡ ok pieces
      → get_elem? pieces i ≡ some p
      → (p.start_token ≡ i * (spec.window_tokens - spec.overlap_tokens))
        × (p.end_token
            ≡ min (p.start_token + spec.window_tokens) (length (tokenizer.encode inp.text)))
  unfolding chunk_block IsSpaced
  chunk_block-spacing inp pieces i p valid done at_i =
      let ids = tokenizer.encode inp.text in
      elim (Bool-cases (eqb (length ids) 0)) [
        | inl empty ↦
            let nothing : Result Stop (List ChunkPiece) = ok [] in
            let e : nothing ≡ ok pieces =
              sym (
                ap (λ b. if b then ok [] else chunk_from self tokenizer spec inp ids (length ids) 0)
                  empty)
              ∙ done in
            let e' : [] ≡ pieces = cc in
            let h : none ≡ some p = ap (λ l. get_elem? l i) e' ∙ at_i in absurd cc
        | inr full ↦
            let (pieces', e, spaced) =
              chunk_from-IsSpaced self tokenizer spec inp ids (length ids) 0 valid (ground arith)
                (omega arith) in
            let f : ok pieces' ≡ ok pieces =
              sym e
              ∙ sym (
                  ap
                    (λ b.
                      if b then ok [] else chunk_from self tokenizer spec inp ids (length ids) 0)
                    full)
              ∙ done in
            let f' : pieces' ≡ pieces = cc in
            let (a, b) = spaced i p (ap (λ l. get_elem? l i) f' ∙ at_i) in (omega (arith, a), b)
      ]
