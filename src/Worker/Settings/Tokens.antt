-- ===== src/Worker/Settings/Tokens.antt =====
-- A subject of the transport is a sequence of tokens between dots, as its documentation has it.
use Prim.Native.Char.{Char, char, code}
use Prim.Native.String.{◌++◌ as ◌<>◌}
use text.Mathlib.TextEquality.{Char-path}
use text.Mathlib.TextLemmas.{nil-append, cons-append}
use contexide.Prelude.{
  ◌≡◌, inl, inr, refl, sym, ap, ◌∙◌, String, Bool, true, false, not, ◌&&◌, List, [], ◌∷◌, ◌++◌, eqb,
  eqb_iff, Bool-cases, if◌then◌else◌, arith,
}

-- A character in front of the first token.
abbrev push : Char → List String → List String
push c [] = String.◌∷◌ c "" ∷ []
push c (t ∷ ts) = String.◌∷◌ c t ∷ ts

unfoldable pub tokens : String → List String
tokens String.[] = "" ∷ []
tokens (String.◌∷◌ c s) = let rest = tokens s in if eqb (code c) 46 then "" ∷ rest else push c rest

unfoldable pub has_no_dot : String → Bool
has_no_dot String.[] = true
has_no_dot (String.◌∷◌ c s) = not (eqb (code c) 46) && has_no_dot s

-- The tokens with dots between them.
abbrev joined : List String → String
joined [] = ""
joined (t ∷ []) = t
joined (t ∷ u ∷ us) = t <> "." <> joined (u ∷ us)

pub tokens-one : (s : String) → has_no_dot s ≡ true → tokens s ≡ s ∷ []
unfolding tokens has_no_dot
tokens-one String.[] h = refl
tokens-one (String.◌∷◌ c s) h =
    let other : eqb (code c) 46 ≡ false = ground arith in
    let rest = tokens-one s (ground arith) in rw (other, tokens) (rw rest refl)

pub tokens_cons : (s : String) → (t : String) × (ts : List String) × (tokens s ≡ t ∷ ts)
unfolding tokens
tokens_cons String.[] = ("", [], refl)
tokens_cons (String.◌∷◌ c s) =
    let (t, ts, e) = tokens_cons s in
    elim (Bool-cases (eqb (code c) 46)) [
      | inl dot ↦ ("", tokens s, rw (dot, tokens) refl)
      | inr other ↦ (String.◌∷◌ c t, ts, rw (other, tokens) (rw e refl))
    ]

dot-append : (s : String) → "." <> s ≡ String.◌∷◌ (char 46 tt) s
dot-append s = cons-append (char 46 tt) "" s ∙ ap (λ t. String.◌∷◌ (char 46 tt) t) (nil-append s)

-- The tokens on both sides of a dot.
pub tokens-dot : (s t : String) → tokens (s <> "." <> t) ≡ tokens s ++ tokens t
unfolding tokens
tokens-dot String.[] t = ap tokens (nil-append ("." <> t) ∙ dot-append t)
tokens-dot (String.◌∷◌ c s) t =
    let rest = tokens-dot s t in
    let (u, us, e) = tokens_cons s in
    elim (Bool-cases (eqb (code c) 46)) [
      | inl dot ↦ rw (cons-append, tokens, dot) (ap (λ ts. "" ∷ ts) rest)
      | inr other ↦ rw (cons-append, tokens, other) (ap (push c) rest ∙ rw e refl)
    ]

joined-push :
    (c : Char) (t : String) (ts : List String)
    → joined (push c (t ∷ ts)) ≡ String.◌∷◌ c (joined (t ∷ ts))
joined-push c t [] = refl
joined-push c t (u ∷ us) = cons-append c t ("." <> joined (u ∷ us))

joined-tokens : (s : String) → joined (tokens s) ≡ s
unfolding tokens
joined-tokens String.[] = refl
joined-tokens (String.◌∷◌ c s) =
    let rest = joined-tokens s in
    let (t, ts, e) = tokens_cons s in
    elim (Bool-cases (eqb (code c) 46)) [
      | inl dot ↦
          let same : char 46 tt ≡ c =
            Char-path (char 46 tt) c (sym ((eqb_iff (code c) 46).0 dot)) in
          let whole : joined (t ∷ ts) ≡ s = rw e at rest in
          rw (dot, tokens)
            (rw e (
              nil-append ("." <> joined (t ∷ ts))
              ∙ ap (λ u. "." <> u) whole
              ∙ dot-append s
              ∙ ap (λ d. String.◌∷◌ d s) same))
      | inr other ↦
          let whole : joined (t ∷ ts) ≡ s = rw e at rest in
          rw (other, tokens) (rw e (joined-push c t ts ∙ ap (λ u. String.◌∷◌ c u) whole))
    ]

pub tokens_injective : (s t : String) → tokens s ≡ tokens t → s ≡ t
tokens_injective s t e = sym (joined-tokens s) ∙ ap joined e ∙ joined-tokens t
