-- ===== src/Worker/Settings/Transport.antt =====
-- A transport that does what its documentation says.
use contexide.Prelude.{
  ◌≡◌, ◌↔◌, ◌≢◌, ◌⊎◌, inl, inr, refl, String, Bool, true, false, not, ◌&&◌, ◌||◌, List, [], ◌∷◌,
  ◌==◌, ==_iff, string_eq, Bool-cases, arith,
}
use contexide.Worker.Settings.Tokens.{tokens}
use contexide.Worker.Settings.Delivery.{HasNoEmpty, Matches, IsTransport}

abbrev no_empty : List String → Bool
no_empty [] = true
no_empty (t ∷ ts) = not (t == "") && no_empty ts

abbrev is_last : List String → Bool
is_last [] = true
is_last (p ∷ ps) = false

abbrev token_matches : List String → List String → Bool
token_matches [] [] = true
token_matches [] (t ∷ ts) = false
token_matches (p ∷ ps) [] = false
token_matches (p ∷ ps) (t ∷ ts) =
    (p == ">" && is_last ps) || ((p == "*" || p == t) && token_matches ps ts)

abbrev pub subject_matches : String → String → Bool
subject_matches pattern subject =
    no_empty (tokens subject) && token_matches (tokens pattern) (tokens subject)

and_iff :
    (a b : Bool) {P Q : Type 0} → ((a ≡ true) ↔ P) → ((b ≡ true) ↔ Q) → ((a && b) ≡ true) ↔ (P × Q)
and_iff true true (p, _) (q, _) = (λ h. (p refl, q refl), λ h. refl)
and_iff true false p (_, q) = (λ h. absurd cc, λ (_, h). q h)
and_iff false b (_, p) q = (λ h. absurd cc, λ (h, _). absurd (ground (arith, p h)))

or_iff :
    (a b : Bool) {P Q : Type 0} → ((a ≡ true) ↔ P) → ((b ≡ true) ↔ Q) → ((a || b) ≡ true) ↔ (P ⊎ Q)
or_iff true b (p, _) q = (λ h. inl (p refl), λ h. refl)
or_iff false true p (q, _) = (λ h. inr (q refl), λ h. refl)
or_iff false false (_, p) (_, q) = (λ h. absurd cc, λ h. elim h [ inl x ↦ p x | inr y ↦ q y ])

not_iff : (s t : String) → (not (s == t) ≡ true) ↔ (s ≢ t)
not_iff s t = elim (Bool-cases (s == t)) [
  | inl same ↦ (λ h e. ground (arith, h, same), λ n. absurd (n ((==_iff s t).0 same)))
  | inr apart ↦ (
    λ h e. let again = (==_iff s t).1 e in ground (arith, again, apart),
    λ n. ground (arith, apart),
  )
]

is_last_iff : (ps : List String) → (is_last ps ≡ true) ↔ (ps ≡ [])
is_last_iff [] = (λ h. refl, λ h. refl)
is_last_iff (p ∷ ps) = (λ h. absurd cc, λ h. absurd cc)

no_empty_iff : (ts : List String) → (no_empty ts ≡ true) ↔ HasNoEmpty ts
no_empty_iff [] = (λ h. tt, λ h. refl)
no_empty_iff (t ∷ ts) = and_iff _ _ (not_iff t "") (no_empty_iff ts)

token_matches_iff : (ps ts : List String) → (token_matches ps ts ≡ true) ↔ Matches ps ts
token_matches_iff [] [] = (λ h. tt, λ h. refl)
token_matches_iff [] (t ∷ ts) = (λ h. absurd cc, λ h. absurd h)
token_matches_iff (p ∷ ps) [] = (λ h. absurd cc, λ h. absurd h)
token_matches_iff (p ∷ ps) (t ∷ ts) =
    or_iff _ _ (and_iff _ _ (==_iff p ">") (is_last_iff ps))
      (and_iff _ _ (or_iff _ _ (==_iff p "*") (==_iff p t)) (token_matches_iff ps ts))

pub subject_matches-IsTransport : IsTransport subject_matches
subject_matches-IsTransport pattern subject =
    and_iff _ _ (no_empty_iff (tokens subject))
      (token_matches_iff (tokens pattern) (tokens subject))
