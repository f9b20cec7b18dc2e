-- ===== src/Core/Idempo/Parts.antt =====
-- The parts of a key can be read back from it.
use contexide.Prelude.{
  ℕ, ◌≡◌, refl, sym, ap, ◌∙◌, Bool, true, false, not, List, [], ◌∷◌, ◌++◌, eqb, if◌then◌else◌, map,
  Chars, chars, all, arith,
}
use contexide.Core.Idempo.{colon, sanitize_char, sanitize_token, join_parts, join, persist}

abbrev pub has_no_colon : Chars → Bool
has_no_colon s = all (λ c. not (eqb c colon)) s

-- A character in front of the first part.
abbrev push : ℕ → List Chars → List Chars
push c [] = (c ∷ []) ∷ []
push c (part ∷ parts) = (c ∷ part) ∷ parts

-- The parts between colons.
unfoldable pub split : Chars → List Chars
split [] = [] ∷ []
split (c ∷ cs) = let parts = split cs in if eqb c colon then [] ∷ parts else push c parts

split-cut : (a r : Chars) → has_no_colon a ≡ true → split (a ++ colon ∷ r) ≡ a ∷ split r
unfolding split
split-cut [] r h = refl
split-cut (c ∷ a) r h =
    let rest = split-cut a r (ground arith) in
    let other : eqb c colon ≡ false = ground arith in rw (other, split) (rw rest refl)

split-whole : (a : Chars) → has_no_colon a ≡ true → split (a ++ []) ≡ a ∷ []
unfolding split
split-whole [] h = refl
split-whole (c ∷ a) h =
    let rest = split-whole a (ground arith) in
    let other : eqb c colon ≡ false = ground arith in rw (other, split) (rw rest refl)

sanitize_char-not-colon : (c : ℕ) → eqb (sanitize_char c) colon ≡ false
sanitize_char-not-colon c = ground arith

sanitize_token-has_no_colon : (s : Chars) → has_no_colon (sanitize_token s) ≡ true
unfolding sanitize_token
sanitize_token-has_no_colon [] = refl
sanitize_token-has_no_colon (c ∷ s) = rw (sanitize_char-not-colon c) (sanitize_token-has_no_colon s)

-- Split at its colons, a key gives its stage and the sanitized parts, if the stage has no colon.
pub split-join :
    (stage : Chars) (parts : List Chars)
    → has_no_colon stage ≡ true
    → split (join stage parts) ≡ stage ∷ map sanitize_token parts
unfolding join join_parts
split-join stage [] h = split-whole stage h
split-join stage (p ∷ parts) h =
    split-cut stage (sanitize_token p ++ join_parts parts) h
    ∙ ap (λ l. stage ∷ l) (split-join (sanitize_token p) parts (sanitize_token-has_no_colon p))

-- To sanitize a part once more changes nothing.
pub sanitize_token_idempotent : (s : Chars) → sanitize_token (sanitize_token s) ≡ sanitize_token s
unfolding sanitize_token
sanitize_token_idempotent [] = refl
sanitize_token_idempotent (c ∷ s) =
    let e : sanitize_char (sanitize_char c) ≡ sanitize_char c = ground arith in
    rw e (ap (λ l. sanitize_char c ∷ l) (sanitize_token_idempotent s))

-- Keys are equal only where their stages and their sanitized parts are.
pub join-injective :
    (s t : Chars) (ps qs : List Chars)
    → has_no_colon s ≡ true
    → has_no_colon t ≡ true
    → join s ps ≡ join t qs
    → (s ≡ t) × (map sanitize_token ps ≡ map sanitize_token qs)
join-injective s t ps qs hs ht same =
    let e : s ∷ map sanitize_token ps ≡ t ∷ map sanitize_token qs =
      sym (split-join s ps hs) ∙ ap split same ∙ split-join t qs ht in
    (cc, cc)

no_colon : has_no_colon (chars "persist") ≡ true
unfolding chars
no_colon = refl

-- Where the ids' texts differ when sanitized, as the hexadecimal texts of UUIDs do, the key of
-- `persist` tells all three ids.
pub persist-injective :
    (uuid : ℕ → Chars)
    → ((m n : ℕ) → sanitize_token (uuid m) ≡ sanitize_token (uuid n) → m ≡ n)
    → (d c e d' c' e' : ℕ) → persist uuid d c e ≡ persist uuid d' c' e'
    → (d ≡ d') × (c ≡ c') × (e ≡ e')
unfolding persist
persist-injective uuid distinct d c e d' c' e' same =
    let (_, parts) =
      join-injective (chars "persist") (chars "persist") _ _ no_colon no_colon same in
    (distinct d d' cc, distinct c c' cc, distinct e e' cc)
