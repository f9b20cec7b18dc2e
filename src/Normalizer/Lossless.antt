-- ===== src/Normalizer/Lossless.antt =====
-- What characters `collapse_whitespace` keeps.
use mathlib.Core.List.{append-nil}
use contexide.Prelude.{
  ℕ, zero, suc, ◌≡◌, refl, ap, ◌∙◌, inl, inr, Bool, true, ◌&&◌, ◌||◌, not, [], ◌∷◌, ◌++◌, eqb, ltb,
  if◌then◌else◌, Chars, arith, reversed, reversed-reversed, Bool-cases,
}
use contexide.Normalizer.{
  Collapse, line_feed, space, tab, is_empty, without_spaces, push_newlines, capped, on_blank,
  on_other, collapse_char, collapse_chars, begin, collapsed, collapse_whitespace,
}

abbrev is_ink : ℕ → Bool
is_ink c = not (eqb c line_feed || (eqb c space || eqb c tab))

-- The characters of a text but its line feeds, spaces and tabs.
abbrev pub ink : Chars → Chars
ink [] = []
ink (c ∷ s) = if is_ink c then c ∷ ink s else ink s

pub ink-append : (a b : Chars) → ink (a ++ b) ≡ ink a ++ ink b
ink-append [] b = refl
ink-append (c ∷ a) b = elim (Bool-cases (is_ink c)) [
  | inl kept ↦ rw kept (ap (λ s. c ∷ s) (ink-append a b))
  | inr left ↦ rw left (ink-append a b)
]

pub ink-reversed : (s out : Chars) → ink (reversed s out) ≡ reversed (ink s) (ink out)
unfolding reversed
ink-reversed [] out = refl
ink-reversed (c ∷ s) out = elim (Bool-cases (is_ink c)) [
  | inl kept ↦ rw kept (
      ink-reversed s (c ∷ out)
      ∙ ap (λ (b : Bool). reversed (ink s) (if b then c ∷ ink out else ink out)) kept)
  | inr left ↦ rw left (
      ink-reversed s (c ∷ out)
      ∙ ap (λ (b : Bool). reversed (ink s) (if b then c ∷ ink out else ink out)) left)
]

ink-without_spaces : (line : Chars) → ink (without_spaces line) ≡ ink line
ink-without_spaces [] = refl
ink-without_spaces (c ∷ line) = ground (arith, ink-without_spaces line)

ink-push_newlines : (n : ℕ) (out : Chars) → ink (push_newlines n out) ≡ ink out
ink-push_newlines zero out = refl
ink-push_newlines (suc n) out = ink-push_newlines n out

-- What is in the line and in the output so far.
abbrev held : Collapse → Chars
held s = ink s.line_buf ++ ink s.out

flushed-ink : (line out : Chars) → ink (without_spaces line ++ out) ≡ ink line ++ ink out
flushed-ink line out =
    ink-append (without_spaces line) out ∙ ap (λ s. s ++ ink out) (ink-without_spaces line)

broken-ink :
    (n : ℕ) (out : Chars) → ink (if ltb 0 n then push_newlines (capped n) out else out) ≡ ink out
broken-ink n out = elim (Bool-cases (ltb 0 n)) [
  | inl waits ↦ rw waits (ink-push_newlines (capped n) out)
  | inr none_left ↦ rw none_left refl
]

held-on_blank : (s : Collapse) → held (on_blank s) ≡ held s
held-on_blank s = elim (Bool-cases (not s.prev_was_space && not (is_empty s.line_buf))) [
  | inl push ↦ rw push refl
  | inr skip ↦ rw skip refl
]

held-on_other : (s : Collapse) (ch : ℕ) → is_ink ch ≡ true → held (on_other s ch) ≡ ch ∷ held s
held-on_other s ch kept =
    rw kept (ap (λ o. ch ∷ (ink s.line_buf ++ o)) (broken-ink s.newline_run s.out))

held-collapse_char :
    (s : Collapse) (ch : ℕ)
    → held (collapse_char s ch) ≡ (if is_ink ch then ch ∷ held s else held s)
unfolding collapse_char
held-collapse_char s ch = elim (Bool-cases (eqb ch line_feed)) [
  | inl newline ↦ rw newline (flushed-ink s.line_buf s.out)
  | inr a ↦ elim (Bool-cases (eqb ch space || eqb ch tab)) [
    | inl blank ↦ rw (a, blank) (held-on_blank s)
    | inr b ↦ let kept : is_ink ch ≡ true = rw (a, b) refl in rw (a, b) (held-on_other s ch kept)
  ]
]

held-collapse_chars :
    (s : Collapse) (chars : Chars) → held (collapse_chars s chars) ≡ reversed (ink chars) (held s)
unfolding collapse_chars reversed
held-collapse_chars s [] = refl
held-collapse_chars s (ch ∷ chars) =
    held-collapse_chars (collapse_char s ch) chars
    ∙ ap (reversed (ink chars)) (held-collapse_char s ch)
    ∙ (elim (Bool-cases (is_ink ch)) [ inl kept ↦ rw kept refl | inr left ↦ rw left refl ])

collapsed-ink : (chars : Chars) → ink (collapsed chars) ≡ reversed (ink chars) []
unfolding collapsed
collapsed-ink chars =
    let s = collapse_chars begin chars in
    ink-push_newlines (if ltb 0 s.newline_run then capped s.newline_run else 0)
      (without_spaces s.line_buf ++ s.out)
    ∙ flushed-ink s.line_buf s.out
    ∙ held-collapse_chars begin chars

-- `collapse_whitespace` loses, adds and moves no character but line feeds, spaces and tabs.
pub collapse_whitespace-ink : (chars : Chars) → ink (collapse_whitespace chars) ≡ ink chars
unfolding collapse_whitespace reversed
collapse_whitespace-ink chars =
    ink-reversed (collapsed chars) []
    ∙ ap (λ s. reversed s []) (collapsed-ink chars)
    ∙ reversed-reversed (ink chars) [] []
    ∙ append-nil (ink chars)
