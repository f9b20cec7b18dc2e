-- ===== src/Core/Samples.antt =====
-- Small keys and names, and the theorems at them.
use contexide.Prelude.{ℕ, zero, suc, ap, ◌≡◌, refl, true, [], ◌∷◌, Chars, chars}
use contexide.Core.Idempo.{sanitize_token, join, join_parts}
use contexide.Core.Idempo.Parts.{has_no_colon}

-- An id's text is a row of as many letters `a`.
row : ℕ → Chars
row zero = []
row (suc n) = 97 ∷ row n

row-distinct : (m n : ℕ) → sanitize_token (row m) ≡ sanitize_token (row n) → m ≡ n
unfolding row sanitize_token
row-distinct zero zero h = refl
row-distinct zero (suc n) h = absurd cc
row-distinct (suc m) zero h = absurd cc
row-distinct (suc m) (suc n) h =
    let e : sanitize_token (row m) ≡ sanitize_token (row n) = cc in ap suc (row-distinct m n e)

abbrev stage : Chars
stage = chars "clean"

stage-has_no_colon : has_no_colon stage ≡ true
unfolding chars
stage-has_no_colon = refl

-- The key of the test `stable_and_human_readable`, for a hash with a colon in it.
clean-colon : join stage (chars "id" ∷ chars "ABC:DEF" ∷ []) ≡ chars "clean:id:abc-def"
unfolding chars join join_parts sanitize_token
clean-colon = refl
