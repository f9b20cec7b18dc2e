-- ===== src/Normalizer/Tidy.antt =====
-- What whitespace `collapse_whitespace` leaves.
use mathlib.Core.List.{append-nil}
use contexide.Prelude.{
  ℕ, zero, suc, ◌<◌, ◌≡◌, refl, ap, ◌∙◌, inl, inr, Bool, true, false, ◌&&◌, ◌||◌, not, [], ◌∷◌,
  ◌++◌, eqb, ltb, if◌then◌else◌, Chars, all, arith, reversed, reversed-reversed, Bool-cases,
}
use contexide.Normalizer.{
  Collapse, line_feed, space, tab, is_empty, without_spaces, push_newlines, capped, on_newline,
  on_blank, on_other, collapse_char, collapse_chars, begin, collapsed, collapse_whitespace,
}

abbrev pub starts : ℕ → Chars → Bool
starts c [] = false
starts c (d ∷ w) = eqb d c

abbrev pub starts_twice : ℕ → Chars → Bool
starts_twice c [] = false
starts_twice c (d ∷ w) = eqb d c && starts c w

-- May `c` come next after the text whose reverse is `w`? A space only inside a line, after no other; a
-- line feed after no space, and not as the third in a row; a tab never.
abbrev pub may_follow : ℕ → Chars → Bool
may_follow c w =
    if eqb c space
    then not (is_empty w) && not (starts space w) && not (starts line_feed w)
    else if eqb c line_feed
    then not (starts space w) && not (starts_twice line_feed w)
    else not (eqb c tab)

-- A text, given in reverse, each of whose characters may follow those before it.
abbrev pub is_tidy : Chars → Bool
is_tidy [] = true
is_tidy (c ∷ w) = may_follow c w && is_tidy w

abbrev has_no_newline : Chars → Bool
has_no_newline line = all (λ c. not (eqb c line_feed)) line

without_spaces-tidy :
    (line out : Chars) → is_tidy (line ++ out) ≡ true → is_tidy (without_spaces line ++ out) ≡ true
without_spaces-tidy [] out h = h
without_spaces-tidy (c ∷ line) out h = ground (arith, without_spaces-tidy line out)

without_spaces-ends :
    (line : Chars)
    → has_no_newline line ≡ true
    → (starts space (without_spaces line) ≡ false)
      × (starts line_feed (without_spaces line) ≡ false)
without_spaces-ends [] h = (refl, refl)
without_spaces-ends (c ∷ line) h = ground (arith, without_spaces-ends line)

not_twice : (w : Chars) → starts line_feed w ≡ false → starts_twice line_feed w ≡ false
not_twice [] h = refl
not_twice (d ∷ w) h = ground arith

two_newlines-tidy :
    (w : Chars)
    → is_tidy w ≡ true
    → starts space w ≡ false
    → starts line_feed w ≡ false
    → (is_tidy (line_feed ∷ w) ≡ true) × (is_tidy (line_feed ∷ line_feed ∷ w) ≡ true)
two_newlines-tidy w t a b = (ground (arith, not_twice w b), ground (arith, not_twice w b))

push_newlines-tidy :
    (n : ℕ) (w : Chars)
    → is_tidy w ≡ true
    → starts space w ≡ false
    → starts line_feed w ≡ false
    → is_tidy (push_newlines (capped n) w) ≡ true
push_newlines-tidy zero w t a b = t
push_newlines-tidy (suc zero) w t a b = (two_newlines-tidy w t a b).0
push_newlines-tidy (suc (suc n)) w t a b =
    let e : capped (suc (suc n)) ≡ 2 = ground arith in
    ap (λ k. is_tidy (push_newlines k w)) e ∙ (two_newlines-tidy w t a b).1

record IsGood (s : Collapse) : Type 0 where
  tidy : is_tidy (s.line_buf ++ s.out) ≡ true
  settled :
      is_empty s.line_buf ≡ true → (starts space s.out ≡ false) × (starts line_feed s.out ≡ false)
  one_line : has_no_newline s.line_buf ≡ true
  solid : is_empty (without_spaces s.line_buf) ≡ is_empty s.line_buf
  waiting : 0 < s.newline_run → is_empty s.line_buf ≡ true
  spaced : s.prev_was_space ≡ false → starts space s.line_buf ≡ false

begin-IsGood : IsGood begin
begin-IsGood = record {
  tidy = refl;
  settled = λ _. (refl, refl);
  one_line = refl;
  solid = refl;
  waiting = λ _. refl;
  spaced = λ _. refl;
}

nonempty :
    (line out : Chars)
    → is_empty line ≡ false
    → (starts space line ≡ false) × (starts line_feed line ≡ false)
    → (starts space (line ++ out) ≡ false) × (starts line_feed (line ++ out) ≡ false)
nonempty [] out h ends = absurd cc
nonempty (c ∷ line) out h ends = ends

-- The text after a line is flushed ends in no space and no line feed.
flushed-settled :
    (line out : Chars)
    → has_no_newline line ≡ true
    → is_empty (without_spaces line) ≡ is_empty line
    → (is_empty line ≡ true → (starts space out ≡ false) × (starts line_feed out ≡ false))
    → (starts space (without_spaces line ++ out) ≡ false)
      × (starts line_feed (without_spaces line ++ out) ≡ false)
flushed-settled [] out h same settled = settled refl
flushed-settled (c ∷ line) out h same settled =
    nonempty (without_spaces (c ∷ line)) out same (without_spaces-ends (c ∷ line) h)

on_newline-IsGood : (s : Collapse) → IsGood s → IsGood (on_newline s)
on_newline-IsGood s good = record {
  tidy = without_spaces-tidy s.line_buf s.out good.tidy;
  settled = λ _. flushed-settled s.line_buf s.out good.one_line good.solid good.settled;
  one_line = refl;
  solid = refl;
  waiting = λ _. refl;
  spaced = λ _. refl;
}

-- A space goes behind a line that has text and ends in none.
space-tidy :
    (line out : Chars)
    → is_empty line ≡ false
    → starts space line ≡ false
    → has_no_newline line ≡ true
    → is_tidy (line ++ out) ≡ true
    → is_tidy (space ∷ line ++ out) ≡ true
space-tidy [] out a b c d = cc
space-tidy (x ∷ line) out a b c d = ground arith

on_blank-IsGood : (s : Collapse) → IsGood s → IsGood (on_blank s)
on_blank-IsGood s good = elim (Bool-cases (not s.prev_was_space && not (is_empty s.line_buf))) [
  | inr skip ↦ rw skip good
  | inl push ↦
      let full : is_empty s.line_buf ≡ false = ground arith in
      let first : s.prev_was_space ≡ false = ground arith in
      rw push (record {
        tidy = space-tidy s.line_buf s.out full (good.spaced first) good.one_line good.tidy;
        settled = λ h. absurd cc;
        one_line = good.one_line;
        solid = good.solid ∙ full;
        waiting = λ h. let e = good.waiting h in absurd cc;
        spaced = λ h. absurd cc;
      })
]

-- Line feeds that wait are pushed only where the line is empty.
broken-tidy :
    (line out : Chars) (n : ℕ)
    → (0 < n → is_empty line ≡ true)
    → (is_empty line ≡ true → (starts space out ≡ false) × (starts line_feed out ≡ false))
    → is_tidy (line ++ out) ≡ true
    → is_tidy (line ++ (if ltb 0 n then push_newlines (capped n) out else out)) ≡ true
broken-tidy [] out n waiting settled t =
    let (a, b) = settled refl in
    elim (Bool-cases (ltb 0 n)) [
      | inl waits ↦ rw waits (push_newlines-tidy n out t a b)
      | inr none_left ↦ rw none_left t
    ]
broken-tidy (c ∷ line) out n waiting settled t = elim (Bool-cases (ltb 0 n)) [
  | inl waits ↦ let e = waiting (ground arith) in absurd cc
  | inr none_left ↦ rw none_left t
]

on_other-IsGood :
    (s : Collapse) (ch : ℕ)
    → IsGood s
    → eqb ch line_feed ≡ false
    → eqb ch space ≡ false
    → eqb ch tab ≡ false
    → IsGood (on_other s ch)
on_other-IsGood s ch good a b c =
    let t = broken-tidy s.line_buf s.out s.newline_run good.waiting good.settled good.tidy in
    record {
      tidy = ground arith;
      settled = λ h. absurd cc;
      one_line = let h = good.one_line in ground arith;
      solid = rw b refl;
      waiting = λ h. absurd (omega arith);
      spaced = λ _. b;
    }

collapse_char-IsGood : (s : Collapse) (ch : ℕ) → IsGood s → IsGood (collapse_char s ch)
unfolding collapse_char
collapse_char-IsGood s ch good = elim (Bool-cases (eqb ch line_feed)) [
  | inl newline ↦ rw newline (on_newline-IsGood s good)
  | inr a ↦ elim (Bool-cases (eqb ch space || eqb ch tab)) [
    | inl blank ↦ rw (a, blank) (on_blank-IsGood s good)
    | inr b ↦ rw (a, b) (on_other-IsGood s ch good a (ground arith) (ground arith))
  ]
]

collapse_chars-IsGood : (s : Collapse) (chars : Chars) → IsGood s → IsGood (collapse_chars s chars)
unfolding collapse_chars
collapse_chars-IsGood s [] good = good
collapse_chars-IsGood s (ch ∷ chars) good =
    collapse_chars-IsGood (collapse_char s ch) chars (collapse_char-IsGood s ch good)

push_newlines-end :
    (n : ℕ) (w : Chars) → starts space w ≡ false → starts space (push_newlines n w) ≡ false
push_newlines-end zero w h = h
push_newlines-end (suc n) w h = refl

collapsed-tidy :
    (chars : Chars) → (is_tidy (collapsed chars) ≡ true) × (starts space (collapsed chars) ≡ false)
unfolding collapsed
collapsed-tidy chars =
    let s = collapse_chars begin chars in
    let good = collapse_chars-IsGood begin chars begin-IsGood in
    let t = without_spaces-tidy s.line_buf s.out good.tidy in
    let (a, b) = flushed-settled s.line_buf s.out good.one_line good.solid good.settled in
    elim (Bool-cases (ltb 0 s.newline_run)) [
      | inl waits ↦ rw waits (
        push_newlines-tidy s.newline_run (without_spaces s.line_buf ++ s.out) t a b,
        push_newlines-end (capped s.newline_run) (without_spaces s.line_buf ++ s.out) a,
      )
      | inr none_left ↦ rw none_left (t, a)
    ]

-- Read from its end, what `collapse_whitespace` returns for any text has no tab, no space but between
-- two other characters of a line, and no three line feeds in a row.
pub collapse_whitespace-tidy :
    (chars : Chars)
    → (is_tidy (reversed (collapse_whitespace chars) []) ≡ true)
      × (starts space (reversed (collapse_whitespace chars) []) ≡ false)
unfolding collapse_whitespace reversed
collapse_whitespace-tidy chars =
    rw (reversed-reversed (collapsed chars) [] [] ∙ append-nil (collapsed chars))
      (collapsed-tidy chars)
