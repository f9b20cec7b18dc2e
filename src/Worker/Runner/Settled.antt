-- ===== src/Worker/Runner/Settled.antt =====
-- What becomes of one message.
use contexide.Prelude.{◌≡◌, ◌⊎◌, inl, inr, String, [], ◌∷◌, ok, Result-cases, arith}
use contexide.Executor.Messaging.{WorkerRequest, MsgWorkerStatus}
use contexide.Worker.Runner.{Env, published, acked, nacked, handle_one, answer}

module _ {Value Bytes : Type 0} (env : Env Value Bytes) (subject_done : String) where
  -- `raw` is a request, its handler gives a status, and this is encoded as `payload` and published.
  abbrev pub Answers : Bytes → Bytes → Type 0
  Answers raw payload =
      (parsed : WorkerRequest Value) × (status : MsgWorkerStatus Value) × (env.decode raw
        ≡ ok parsed)
      × (env.handle parsed ≡ ok status)
      × (env.encode status ≡ ok payload)
      × (env.publish subject_done payload ≡ ok tt)

  -- Each message is settled, and without an error: if it is a request, its handler gives a status and
  -- this is encoded and published, then it is acknowledged after that, and otherwise it is refused
  -- and nothing is published.
  pub handle_one_lem :
      (raw : Bytes)
      → ((payload : Bytes) × Answers raw payload
          × (handle_one env subject_done raw
              ≡ (published subject_done payload ∷ acked ∷ [], ok tt)))
        ⊎ (((payload : Bytes) → ¬ Answers raw payload)
            × (handle_one env subject_done raw ≡ (nacked ∷ [], ok tt)))
  unfolding handle_one answer
  handle_one_lem raw = elim (Result-cases (env.decode raw)) [
    | inr (e, d) ↦ inr (λ payload (parsed', status', d', h', c', p'). absurd cc, ground (arith, d))
    | inl (parsed, d) ↦ elim (Result-cases (env.handle parsed)) [
      | inr (e, h) ↦
          inr (λ payload (parsed', status', d', h', c', p'). absurd cc, ground (arith, d, h))
      | inl (status, h) ↦ elim (Result-cases (env.encode status)) [
        | inr (e, c) ↦
            inr (λ payload (parsed', status', d', h', c', p'). absurd cc, ground (arith, d, h, c))
        | inl (payload, c) ↦ elim (Result-cases (env.publish subject_done payload)) [
          | inr (e, p) ↦
              inr (
                λ payload' (parsed', status', d', h', c', p'). absurd cc,
                ground (arith, d, h, c, p),
              )
          | inl (u, p) ↦ inl (payload, (parsed, status, d, h, c, p), ground (arith, d, h, c, p))
        ]
      ]
    ]
  ]
