-- ===== src/Config/Env/Picked.antt =====
-- Which variable of the environment is read.
use mathlib.Core.List.Memᴰ
use Prim.Native.String.{◌++◌ as ◌<>◌}
use contexide.Prelude.{
  is_empty, ◌≡◌, ◌↔◌, ◌⊎◌, refl, sym, ap, ◌∙◌, inl, inr, String, true, false, Option, some, List,
  [], ◌∷◌, ◌++◌, Memᴰ, Bool-cases, Option-cases, arith,
}
use contexide.Config.Env.{pick_env, env_scoped_s}

module _ (env : String → Option String) where
  -- Not set, or set to the empty text.
  abbrev pub IsUnset : String → Type 0
  IsUnset k = (w : String) → env k ≡ some w → is_empty w ≡ true

  -- `v` is the value of the first of the names that is set.
  abbrev pub IsFirst : List String → String → Type 0
  IsFirst names v =
      (before : List String) × (name : String) × (after : List String) × (names
        ≡ before ++ name ∷ after)
      × (env name ≡ some v)
      × (is_empty v ≡ false)
      × ((k : String) → Memᴰ k before → IsUnset k)

  pick_env-cons_set :
      (k : String) (names : List String) (w : String)
      → env k ≡ some w
      → is_empty w ≡ false
      → pick_env env (k ∷ names) ≡ some w
  unfolding pick_env
  pick_env-cons_set k names w e full = ground (arith, e, full)

  pick_env-cons_unset :
      (k : String) (names : List String) → IsUnset k → pick_env env (k ∷ names) ≡ pick_env env names
  unfolding pick_env
  pick_env-cons_unset k names unset = elim (Option-cases (env k)) [
    | inl e ↦ ground (arith, e)
    | inr (w, e) ↦ ground (arith, e, unset w e)
  ]

  IsFirst-cons :
      (k : String) {names : List String} {v : String}
      → IsUnset k
      → IsFirst names v
      → IsFirst (k ∷ names) v
  IsFirst-cons k unset (before, name, after, e, found, full, unset_before) = (
    k ∷ before,
    name,
    after,
    ap (λ l. k ∷ l) e,
    found,
    full,
    λ j m. elim (Memᴰ.cases_cons m) [
      | inl here ↦ λ w h. unset w (ap env (sym here) ∙ h)
      | inr later ↦ unset_before j later
    ],
  )

  IsUnset-cases :
      (k : String) → IsUnset k ⊎ ((w : String) × (env k ≡ some w) × (is_empty w ≡ false))
  IsUnset-cases k = elim (Option-cases (env k)) [
    | inl e ↦ inl (λ w h. absurd (cc))
    | inr (w, e) ↦ elim (Bool-cases (is_empty w)) [
      | inl blank ↦ inl (λ u h. let same : w ≡ u = cc in ap is_empty (sym same) ∙ blank)
      | inr full ↦ inr (w, e, full)
    ]
  ]

  pick_env-IsFirst :
      (names : List String) (v : String) → pick_env env names ≡ some v → IsFirst names v
  unfolding pick_env
  pick_env-IsFirst [] v h = absurd (cc)
  pick_env-IsFirst (k ∷ names) v h = elim (IsUnset-cases k) [
    | inl unset ↦
        IsFirst-cons k unset
          (pick_env-IsFirst names v (sym (pick_env-cons_unset k names unset) ∙ h))
    | inr (w, e, full) ↦
        let same : some w ≡ some v = sym (pick_env-cons_set k names w e full) ∙ h in
        let same' : w ≡ v = cc in
        (
          [],
          k,
          names,
          refl,
          e ∙ same,
          ap is_empty (sym same') ∙ full,
          λ j m. absurd (Memᴰ.not-nil m),
        )
  ]

  pick_env_of_first :
      (before : List String) (name : String) (after : List String) (v : String)
      → env name ≡ some v
      → is_empty v ≡ false
      → ((k : String) → Memᴰ k before → IsUnset k)
      → pick_env env (before ++ name ∷ after) ≡ some v
  pick_env_of_first [] name after v found full unset = pick_env-cons_set name after v found full
  pick_env_of_first (k ∷ before) name after v found full unset =
      pick_env-cons_unset k (before ++ name ∷ after) (unset k (Memᴰ.head refl))
      ∙ pick_env_of_first before name after v found full (λ j m. unset j (Memᴰ.tail m))

  -- The three places of `env_scoped_s` are one list of names.
  env_scoped_s-eq :
      (scope key : String) (plain_fallbacks : List String)
      → env_scoped_s env scope key plain_fallbacks
        ≡ pick_env env
            (("CONTEXIDE_" <> scope <> "_" <> key) ∷ ("CONTEXIDE_" <> key) ∷ plain_fallbacks)
  unfolding env_scoped_s pick_env
  env_scoped_s-eq scope key plain_fallbacks = ground arith

  -- A setting is `v` exactly if `v` is the value of the first variable that is set and not empty, of
  -- the one with the scope and the key, the one with the key alone, and the fallbacks in their order.
  pub env_scoped_s_iff :
      (scope key : String) (plain_fallbacks : List String) (v : String)
      → (env_scoped_s env scope key plain_fallbacks ≡ some v)
        ↔ IsFirst
            (("CONTEXIDE_" <> scope <> "_" <> key) ∷ ("CONTEXIDE_" <> key) ∷ plain_fallbacks)
            v
  env_scoped_s_iff scope key plain_fallbacks v =
      let e = env_scoped_s-eq scope key plain_fallbacks in
      (
        λ h. pick_env-IsFirst _ v (sym e ∙ h),
        λ (before, name, after, split, found, full, unset).
            e ∙ ap (pick_env env) split ∙ pick_env_of_first before name after v found full unset,
      )

  -- So no setting is the empty text.
  pub env_scoped_s-is_empty :
      (scope key : String) (plain_fallbacks : List String) (v : String)
      → env_scoped_s env scope key plain_fallbacks ≡ some v
      → is_empty v ≡ false
  env_scoped_s-is_empty scope key plain_fallbacks v h =
      let (_, _, _, _, _, full, _) = (env_scoped_s_iff scope key plain_fallbacks v).0 h in full
