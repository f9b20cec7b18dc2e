-- ===== src/Normalizer/Changes.antt =====
-- The flag `changed` of `normalize`.
use contexide.Prelude.{◌≡◌, ◌↔◌, refl, sym, ap, ◌∙◌, true, false, [], ◌∷◌, Chars, arith}
use contexide.Normalizer.{differs, same_text, trimmed, normalize}

same_text_refl : (s : Chars) → same_text s s ≡ true
same_text_refl [] = refl
same_text_refl (c ∷ s) = ground (arith, same_text_refl s)

eq_of_same : (s t : Chars) → same_text s t ≡ true → s ≡ t
eq_of_same [] [] h = refl
eq_of_same [] (d ∷ t) h = absurd cc
eq_of_same (c ∷ s) [] h = absurd cc
eq_of_same (c ∷ s) (d ∷ t) h =
    let a : c ≡ d = ground arith in let b = eq_of_same s t (ground arith) in cc

differs_refl : (s : Chars) → differs s s ≡ false
differs_refl s = ground (arith, same_text_refl s)

-- `normalize` says that nothing changed exactly where the text that it returns is its input: the test
-- of the numbers of bytes before that of the texts never decides alone.
pub changed_iff :
    (nfkc : Chars → Chars) (input : Chars)
    → ((normalize nfkc input).changed ≡ false) ↔ (input ≡ (normalize nfkc input).text)
unfolding normalize
changed_iff nfkc input = (
  λ h. eq_of_same input (trimmed nfkc input) (ground arith),
  λ e. ap (differs input) (sym e) ∙ differs_refl input,
)
