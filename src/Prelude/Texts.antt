-- ===== src/Prelude/Texts.antt =====
-- Texts as the lists of their code points, which functions walk by clauses.
use Prim.Native.Nat.{ℕ}
use mathlib.Core.Bool.{Bool, true, false, ◌&&◌, ◌||◌}
use contexide.Prelude.Tests.{eqb, leb, if◌then◌else◌}
use Prim.Native.Char.{code}
use Prim.Native.String.{String}
use mathlib.Core.List.{List, [], ◌∷◌, ◌++◌}
use mathlib.Core.Path.{◌≡◌, refl}

abbrev pub Chars : Type 0
Chars = List ℕ

-- `s.chars()`
unfoldable pub chars : String → Chars
chars String.[] = []
chars (String.◌∷◌ c s) = code c ∷ chars s

-- `str::is_empty`
abbrev pub is_empty : String → Bool
is_empty String.[] = true
is_empty (String.◌∷◌ c s) = false

-- `char::is_whitespace`, the property White_Space of Unicode.
unfoldable pub is_whitespace : ℕ → Bool
is_whitespace c =
    (leb 9 c && leb c 13)
    || eqb c 32
    || eqb c 133
    || eqb c 160
    || eqb c 5760
    || (leb 8192 c && leb c 8202)
    || eqb c 8232
    || eqb c 8233
    || eqb c 8239
    || eqb c 8287
    || eqb c 12288

-- The texts before and behind, the first of them in reverse.
unfoldable pub reversed : Chars → Chars → Chars
reversed [] acc = acc
reversed (c ∷ cs) acc = reversed cs (c ∷ acc)

pub reversed-reversed : (a b c : Chars) → reversed (reversed a b) c ≡ reversed b (a ++ c)
unfolding reversed
reversed-reversed [] b c = refl
reversed-reversed (x ∷ a) b c = reversed-reversed a (x ∷ b) c

unfoldable pub trim_start_matches : (ℕ → Bool) → Chars → Chars
trim_start_matches p [] = []
trim_start_matches p (c ∷ cs) = if p c then trim_start_matches p cs else c ∷ cs

unfoldable pub trim_end_matches : (ℕ → Bool) → Chars → Chars
trim_end_matches p cs = reversed (trim_start_matches p (reversed cs [])) []

-- `str::trim`
unfoldable pub trim : Chars → Chars
trim cs = trim_end_matches is_whitespace (trim_start_matches is_whitespace cs)
