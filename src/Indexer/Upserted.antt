-- ===== src/Indexer/Upserted.antt =====
-- When points are written, and which, and with which error a request is refused.
use contexide.Prelude.{
  ℕ, ◌+◌, ◌≡◌, ◌≢◌, refl, ap, ◌∙◌, ◌⊎◌, inl, inr, none, some, List, [], ◌∷◌, ◌++◌, map, ok, err,
  Result-cases, Option-cases, Bool-cases, length, eqb, eqb_iff, false, arith,
}
use contexide.Executor.Json.{Json}
use contexide.Indexer.{
  IndexRequest, Error, unknown_dimension, wrong_count, wrong_dimension, EmbeddingsProvider,
  VectorSink, wrong_vector, points_of, stats, index_vectors, index,
}

-- All vectors have this dimension.
abbrev pub HaveDim : {Coordinate : Type 0} → ℕ → List (List Coordinate) → Type 0
HaveDim dims [] = Unit
HaveDim dims (v ∷ vectors) = (length v ≡ dims) × HaveDim dims vectors

HaveDim-of_wrong_vector :
    {Coordinate : Type 0} (i dims : ℕ) (vectors : List (List Coordinate))
    → wrong_vector i dims vectors ≡ none
    → HaveDim dims vectors
HaveDim-of_wrong_vector i dims [] h = tt
HaveDim-of_wrong_vector i dims (v ∷ vectors) h = elim (Bool-cases (eqb (length v) dims)) [
  | inl same ↦ (
    (eqb_iff (length v) dims).0 same,
    HaveDim-of_wrong_vector (i + 1) dims vectors (ground (arith, h, same)),
  )
  | inr apart ↦ absurd (ground (arith, h, apart))
]

-- `e` names the first vector that has another dimension.
abbrev pub HasWrongVector : {Coordinate : Type 0} → ℕ → List (List Coordinate) → Error → Type 0
HasWrongVector {Coordinate} dims vectors e =
    (before : List (List Coordinate)) × (v : List Coordinate) × (after : List (List Coordinate))
    × (vectors ≡ before ++ v ∷ after)
    × HaveDim dims before
    × (length v ≢ dims)
    × (e ≡ wrong_dimension (length before) (length v) dims)

wrong_vector-eq-some :
    {Coordinate : Type 0} (i dims : ℕ) (vectors : List (List Coordinate)) {e : Error}
    → wrong_vector i dims vectors ≡ some e
    → (before : List (List Coordinate)) × (v : List Coordinate) × (after : List (List Coordinate))
      × (vectors ≡ before ++ v ∷ after)
      × HaveDim dims before
      × (length v ≢ dims)
      × (e ≡ wrong_dimension (i + length before) (length v) dims)
wrong_vector-eq-some i dims [] h = absurd cc
wrong_vector-eq-some i dims (v ∷ vectors) {e} h = elim (Bool-cases (eqb (length v) dims)) [
  | inl same ↦
      let (before, w, after, parts, right, apart, named) =
        wrong_vector-eq-some (i + 1) dims vectors {e = e} (ground (arith, h, same)) in
      (
        v ∷ before,
        w,
        after,
        ap (λ vs. v ∷ vs) parts,
        ((eqb_iff (length v) dims).0 same, right),
        apart,
        named ∙ ap (λ n. wrong_dimension n (length w) dims) (omega arith),
      )
  | inr odd ↦ ([], v, vectors, refl, tt, λ h. ground (arith, h, odd), ground (arith, h, odd))
]

HasWrongVector-of_wrong_vector :
    {Coordinate : Type 0} (dims : ℕ) (vectors : List (List Coordinate)) {e : Error}
    → wrong_vector 0 dims vectors ≡ some e
    → HasWrongVector dims vectors e
HasWrongVector-of_wrong_vector dims vectors h =
    let (before, v, after, parts, right, apart, named) = wrong_vector-eq-some 0 dims vectors h in
    (
      before,
      v,
      after,
      parts,
      right,
      apart,
      named ∙ ap (λ n. wrong_dimension n (length v) dims) (omega arith),
    )

HaveDim-at :
    {Coordinate : Type 0} (dims : ℕ) (before : List (List Coordinate)) (v : List Coordinate)
    (after : List (List Coordinate))
    → HaveDim dims (before ++ v ∷ after)
    → length v ≡ dims
HaveDim-at dims [] v after (h, rest) = h
HaveDim-at dims (u ∷ before) v after (h, rest) = HaveDim-at dims before v after rest

module _ (json : Json) {Coordinate : Type 0} (provider : EmbeddingsProvider Coordinate)
    (sink : VectorSink json.Value Coordinate) where
  open json use {Value}

  -- The collection is there, and the provider gives one vector of its dimension for each input.
  abbrev pub Embeds : IndexRequest Value → List (List Coordinate) → Type 0
  Embeds req vectors =
      (length req.inputs ≢ 0)
      × (provider.dims ≢ 0)
      × (sink.ensure_collection req.collection provider.dims ≡ ok tt)
      × (provider.embed (map (λ c. c.text) req.inputs) ≡ ok vectors)
      × (length vectors ≡ length req.inputs)
      × HaveDim provider.dims vectors

  -- The vectors are not as many as the inputs, or one has another dimension.
  abbrev pub Misfits : IndexRequest Value → List (List Coordinate) → Error → Type 0
  Misfits req vectors e =
      ((length vectors ≢ length req.inputs)
        × (e ≡ wrong_count (length vectors) (length req.inputs)))
      ⊎ ((length vectors ≡ length req.inputs) × HasWrongVector provider.dims vectors e)

  -- What the provider gave for the inputs cannot be used.
  abbrev pub FailsToEmbed : IndexRequest Value → Error → Type 0
  FailsToEmbed req e =
      (provider.embed (map (λ c. c.text) req.inputs) ≡ err e)
      ⊎ ((vectors : List (List Coordinate)) × (provider.embed (map (λ c. c.text) req.inputs)
            ≡ ok vectors)
          × Misfits req vectors e)

  -- The first step that fails, and its error.
  abbrev pub Fails : IndexRequest Value → Error → Type 0
  Fails req e =
      ((provider.dims ≡ 0) × (e ≡ unknown_dimension))
      ⊎ ((provider.dims ≢ 0)
          × ((sink.ensure_collection req.collection provider.dims ≡ err e)
              ⊎ ((sink.ensure_collection req.collection provider.dims ≡ ok tt)
                  × FailsToEmbed req e)))

  Misfits-not-Embeds :
      (req : IndexRequest Value) (vectors : List (List Coordinate)) (e : Error)
      → Misfits req vectors e
      → ¬ Embeds req vectors
  Misfits-not-Embeds req vectors e m (_, _, _, _, even, right) = elim m [
    | inl (odd, _) ↦ odd even
    | inr (_, (before, v, after, parts, _, apart, _)) ↦
        apart (HaveDim-at provider.dims before v after (rw parts at right))
  ]

  Fails-not-Embeds :
      (req : IndexRequest Value) (e : Error)
      → Fails req e
      → (vectors : List (List Coordinate)) → ¬ Embeds req vectors
  Fails-not-Embeds req e fails vectors embeds =
      let (some_left, known, there, given, even, right) = embeds in
      elim fails [
        | inl (unknown, _) ↦ known unknown
        | inr (_, inl refused) ↦ absurd cc
        | inr (_, inr (_, inl refused)) ↦ absurd cc
        | inr (_, inr (_, inr (others, given_too, m))) ↦
            let same : others ≡ vectors = cc in
            Misfits-not-Embeds req vectors e (rw same at m) embeds
      ]

  -- All vectors are of the provider's dimension and as many as the inputs, or one test refuses them.
  index_vectors_cases :
      (req : IndexRequest Value) (vectors : List (List Coordinate))
      → ((length vectors ≡ length req.inputs)
          × HaveDim provider.dims vectors
          × (index_vectors json provider sink req vectors ≡ (
            points_of json req req.inputs vectors ∷ [],
            stats json provider sink
                (length req.inputs)
                (sink.upsert req.collection (points_of json req req.inputs vectors)),
          )))
        ⊎ ((e : Error) × Misfits req vectors e
            × (index_vectors json provider sink req vectors ≡ ([], err e)))
  index_vectors_cases req vectors = elim (Bool-cases (eqb (length vectors) (length req.inputs))) [
    | inr odd ↦ inr (
      wrong_count (length vectors) (length req.inputs),
      inl (λ h. ground (arith, h, odd), refl),
      ground (arith, odd),
    )
    | inl even ↦ elim (Option-cases (wrong_vector 0 provider.dims vectors)) [
      | inr (e, wrong) ↦ inr (
        e,
        inr (
          (eqb_iff (length vectors) (length req.inputs)).0 even,
          HasWrongVector-of_wrong_vector provider.dims vectors wrong,
        ),
        ground (arith, even, wrong),
      )
      | inl right ↦ inl (
        (eqb_iff (length vectors) (length req.inputs)).0 even,
        HaveDim-of_wrong_vector 0 provider.dims vectors right,
        ground (arith, even, right),
      )
    ]
  ]

  refused :
      (req : IndexRequest Value)
      → eqb (length req.inputs) 0 ≡ false
      → (e : Error) → Fails req e
      → index json provider sink req ≡ ([], err e)
      → (length req.inputs ≢ 0)
        × ((vectors : List (List Coordinate)) → ¬ Embeds req vectors)
        × ((e : Error) × Fails req e × (index json provider sink req ≡ ([], err e)))
  refused req some_left e fails done =
      (λ h. ground (arith, h, some_left), Fails-not-Embeds req e fails, (e, fails, done))

  -- A request without inputs is answered with zeros and writes nothing. For any other: if the
  -- collection is there and the provider gives one vector of its dimension for each input, the points
  -- of all inputs are written in one call, and the result is that of the call; if not, nothing is
  -- written, and the result is the error of the first step that fails: the provider has no dimension,
  -- the collection is refused, the provider refuses, the number of vectors is wrong, or a vector has
  -- another dimension, of which the first is named.
  pub index_cases :
      (req : IndexRequest Value)
      → ((length req.inputs ≡ 0)
          × (index json provider sink req
              ≡ ([], ok (record { requested = 0; embedded = 0; upserted = 0; dim = 0 }))))
        ⊎ ((vectors : List (List Coordinate)) × Embeds req vectors
            × (index json provider sink req ≡ (
              points_of json req req.inputs vectors ∷ [],
              stats json provider sink
                  (length req.inputs)
                  (sink.upsert req.collection (points_of json req req.inputs vectors)),
            )))
        ⊎ ((length req.inputs ≢ 0)
            × ((vectors : List (List Coordinate)) → ¬ Embeds req vectors)
            × ((e : Error) × Fails req e × (index json provider sink req ≡ ([], err e))))
  unfolding index
  index_cases req = elim (Bool-cases (eqb (length req.inputs) 0)) [
    | inl empty ↦ inl ((eqb_iff (length req.inputs) 0).0 empty, ground (arith, empty))
    | inr some_left ↦ elim (Bool-cases (eqb provider.dims 0)) [
      | inl unknown ↦ inr (
          inr (
            refused req some_left unknown_dimension
              (inl ((eqb_iff provider.dims 0).0 unknown, refl))
              (ground (arith, some_left, unknown))))
      | inr known ↦ elim (Result-cases (sink.ensure_collection req.collection provider.dims)) [
        | inr (e, failed) ↦ inr (
            inr (
              refused req some_left e (inr (λ h. ground (arith, h, known), inl failed))
                (ground (arith, some_left, known, failed))))
        | inl (u, there) ↦ elim (Result-cases (provider.embed (map (λ c. c.text) req.inputs))) [
          | inr (e, failed) ↦ inr (
              inr (
                refused req some_left e
                  (inr (λ h. ground (arith, h, known), inr (there, inl failed)))
                  (ground (arith, some_left, known, there, failed))))
          | inl (vectors, given) ↦ elim (index_vectors_cases req vectors) [
            | inr (e, m, done) ↦ inr (
                inr (
                  refused req some_left e
                    (inr (λ h. ground (arith, h, known), inr (there, inr (vectors, given, m))))
                    (ground (arith, some_left, known, there, given, done))))
            | inl (even, right, done) ↦ inr (
                inl (
                  vectors,
                  (
                    λ h. ground (arith, h, some_left),
                    λ h. ground (arith, h, known),
                    there,
                    given,
                    even,
                    right,
                  ),
                  ground (arith, some_left, known, there, given, done),
                ))
          ]
        ]
      ]
    ]
  ]
