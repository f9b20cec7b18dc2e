-- ===== src/Worker/Settings/Delivery.antt =====
-- When the transport delivers a message to a subscription, as its documentation has it: subjects are
-- compared token by token, where `*` in a subscription stands for any one token, and `>` at its end
-- for one or more; a subject has no empty token.
use contexide.Prelude.{
  ◌≡◌, ◌≢◌, ◌↔◌, ◌⊎◌, inl, inr, refl, String, Bool, true, List, [], ◌∷◌, ◌++◌, nat_eq,
}
use contexide.Worker.Settings.Tokens.{tokens}

abbrev pub HasNoEmpty : List String → Type 0
HasNoEmpty [] = Unit
HasNoEmpty (t ∷ ts) = (t ≢ "") × HasNoEmpty ts

abbrev pub Matches : List String → List String → Type 0
Matches [] [] = Unit
Matches [] (t ∷ ts) = ⊥
Matches (p ∷ ps) [] = ⊥
Matches (p ∷ ps) (t ∷ ts) = ((p ≡ ">") × (ps ≡ [])) ⊎ (((p ≡ "*") ⊎ (p ≡ t)) × Matches ps ts)

-- `matches` tests whether a message under the second subject comes to a subscription of the first.
abbrev pub IsTransport : (String → String → Bool) → Type 0
IsTransport matches =
    (pattern subject : String)
    → (matches pattern subject ≡ true)
      ↔ (HasNoEmpty (tokens subject) × Matches (tokens pattern) (tokens subject))

-- The tokens of two lists agree one by one, without `>`.
abbrev pub Fit : List String → List String → Type 0
Fit [] [] = Unit
Fit [] (t ∷ ts) = ⊥
Fit (p ∷ ps) [] = ⊥
Fit (p ∷ ps) (t ∷ ts) = ((p ≡ "*") ⊎ (p ≡ t)) × Fit ps ts

-- Holds no wildcard `*`.
abbrev pub HasNoStar : List String → Type 0
HasNoStar [] = Unit
HasNoStar (p ∷ ps) = (p ≢ "*") × HasNoStar ps

module _ (x y last : String) (plain : last ≢ ">") where
  not_longer : (ps : List String) → ¬ Matches (ps ++ x ∷ last ∷ []) []
  not_longer [] h = h
  not_longer (p ∷ ps) h = h

  not_shorter : (ts : List String) → ¬ Matches [] (ts ++ y ∷ last ∷ [])
  not_shorter [] h = h
  not_shorter (t ∷ ts) h = h

  not_nil : {A : Type 0} (a : A) (ps : List A) (b : A) → ps ++ a ∷ b ∷ [] ≢ []
  not_nil a [] b e = absurd cc
  not_nil a (p ∷ ps) b e = absurd cc

  last_longer : (ps : List String) → ¬ Matches (ps ++ x ∷ last ∷ []) (last ∷ [])
  last_longer [] (inl (_, e)) = absurd cc
  last_longer [] (inr (_, h)) = h
  last_longer (p ∷ ps) (inl (_, e)) = not_nil x ps last e
  last_longer (p ∷ ps) (inr (_, h)) = not_longer ps h

  last_shorter : (ts : List String) → ¬ Matches (last ∷ []) (ts ++ y ∷ last ∷ [])
  last_shorter [] (inl (e, _)) = plain e
  last_shorter [] (inr (_, h)) = h
  last_shorter (t ∷ ts) (inl (e, _)) = plain e
  last_shorter (t ∷ ts) (inr (_, h)) = not_shorter ts h

  -- Before two equally long ends, of which the last token is no wildcard.
  pub Matches-front :
      (ps ts : List String) → Matches (ps ++ x ∷ last ∷ []) (ts ++ y ∷ last ∷ []) → Fit ps ts
  Matches-front [] [] h = tt
  Matches-front [] (t ∷ ts) (inl (_, e)) = absurd cc
  Matches-front [] (t ∷ ts) (inr (_, h)) = last_shorter ts h
  Matches-front (p ∷ ps) [] (inl (_, e)) = not_nil x ps last e
  Matches-front (p ∷ ps) [] (inr (_, h)) = last_longer ps h
  Matches-front (p ∷ ps) (t ∷ ts) (inl (_, e)) = absurd (not_nil x ps last e)
  Matches-front (p ∷ ps) (t ∷ ts) (inr (same, h)) = (same, Matches-front ps ts h)

pub Matches-refl : (ts : List String) → Matches ts ts
Matches-refl [] = tt
Matches-refl (t ∷ ts) = inr (inr refl, Matches-refl ts)

pub eq-of_Fit : (ps ts : List String) → HasNoStar ps → Fit ps ts → ps ≡ ts
eq-of_Fit [] [] n f = refl
eq-of_Fit [] (t ∷ ts) n f = absurd f
eq-of_Fit (p ∷ ps) [] n f = absurd f
eq-of_Fit (p ∷ ps) (t ∷ ts) (n, ns) (inl star, f) = absurd (n star)
eq-of_Fit (p ∷ ps) (t ∷ ts) (n, ns) (inr same, f) = let rest = eq-of_Fit ps ts ns f in cc
