-- ===== src/Workflow/Dag/Finish.antt =====
-- What the loop of `topo_order` has done when it ends, and that it ends.
use contexide.Prelude.{
  ℕ, zero, suc, ◌+◌, ◌≤◌, ◌<◌, ◌≡◌, refl, ap, inl, inr, List, [], ◌∷◌, ◌++◌, arith, length,
  length-append, List-cases, get_or, count, count-append, sum_below-le, sum_below-one,
  sum_below-count, covered, sum_of-one, sum_of-eq-sum_below,
}
use mathlib.Core.List.{append-nil, append_assoc}
use contexide.Workflow.Dag.{Kahn, Graph, release, release_all, round, kahn, start}
use contexide.Workflow.Dag.Rounds.{weight, Released, Released-once}
use contexide.Workflow.Dag.Loop.{IsGraph, Released-start, Released-round, sources-ordered}

order-release_all : (s : Kahn) (vs : List ℕ) → (release_all s vs).order ≡ s.order
unfolding release_all release
order-release_all s [] = refl
order-release_all s (v ∷ vs) = order-release_all (release s v) vs

order-round :
    (adj : List (List ℕ)) (s : Kahn) (u : ℕ) (rest : List ℕ)
    → (round adj s u rest).order ≡ s.order ++ u ∷ []
unfolding round
order-round adj s u rest = order-release_all _ (get_or adj u [])

-- Behind `seen`, each place of the list comes after the sources of all edges into it.
abbrev pub Follows : ℕ → List (List ℕ) → List ℕ → List ℕ → Type 0
Follows n adj seen [] = Unit
Follows n adj seen (u ∷ us) =
    ((w : ℕ) → w < n → 0 < weight n adj u w → 0 < count w seen) × Follows n adj (seen ++ u ∷ []) us

Follows-concat :
    (n : ℕ) (adj : List (List ℕ)) (seen us : List ℕ) (u : ℕ)
    → Follows n adj seen us
    → ((w : ℕ) → w < n → 0 < weight n adj u w → 0 < count w (seen ++ us))
    → Follows n adj seen (us ++ u ∷ [])
Follows-concat n adj seen [] u h last = (λ w l p. rw append-nil at (last w l p), tt)
Follows-concat n adj seen (x ∷ us) u h last =
    (h.0, Follows-concat n adj (seen ++ x ∷ []) us u h.1 (λ w l p. rw append_assoc (last w l p)))

module _ (n : ℕ) (g : Graph) (wf : IsGraph n g) where
  pub record Sound (s : Kahn) : Type 0 where
    pub released : Released n g.adj [] s
    pub follows : Follows n g.adj [] s.order

  Sound-start : Sound (start g)
  Sound-start = record { released = Released-start n g wf; follows = tt }

  Sound-round :
      (s : Kahn) (u : ℕ) (rest : List ℕ)
      → s.queue ≡ u ∷ rest
      → Sound s
      → Sound (round g.adj s u rest)
  Sound-round s u rest popped h = record {
    released = Released-round n g wf s u rest popped h.released;
    follows = rw (order-round g.adj s u rest) (
        Follows-concat n g.adj [] s.order u h.follows
          (sources-ordered n g wf s u rest popped h.released));
  }

  Sound-kahn : (fuel : ℕ) (s : Kahn) → Sound s → Sound (kahn fuel g.adj s)
  unfolding kahn
  Sound-kahn zero s h = h
  Sound-kahn (suc fuel) s h = elim (List-cases s.queue) [
    | inl empty ↦ rw (empty, kahn) h
    | inr (u, rest, e) ↦
        rw (e, kahn) (Sound-kahn fuel (round g.adj s u rest) (Sound-round s u rest e h))
  ]

  -- A place is queued once in the whole run.
  places-le : {s : Kahn} → Sound s → length s.order + length s.queue ≤ n
  places-le {s} h = omega (
    arith,
    sum_below-count n (s.order ++ s.queue)
        (λ v l. omega (arith, count-append v s.order s.queue, h.released.inside v l)),
    sum_below-le (λ v. count v (s.order ++ s.queue)) (λ v. 1) n
        (λ v l. omega (arith, count-append v s.order s.queue, Released-once h.released v)),
    sum_below-one n,
    length-append s.order s.queue,
  )

  -- As many rounds as there are places empty the queue.
  queue-kahn :
      (fuel : ℕ) (s : Kahn) → Sound s → n ≤ fuel + length s.order → (kahn fuel g.adj s).queue ≡ []
  unfolding kahn
  queue-kahn zero s h enough = elim (List-cases s.queue) [
    | inl empty ↦ empty
    | inr (u, rest, e) ↦ absurd (omega (arith, places-le h, ap length e))
  ]
  queue-kahn (suc fuel) s h enough = elim (List-cases s.queue) [
    | inl empty ↦ rw (empty, kahn) empty
    | inr (u, rest, e) ↦
        rw (e, kahn)
          (queue-kahn fuel (round g.adj s u rest) (Sound-round s u rest e h)
            (omega (arith, ap length (order-round g.adj s u rest), length-append s.order (u ∷ []))))
  ]

  abbrev pub final : Kahn
  final = kahn n g.adj (start g)

  pub Sound-final : Sound final
  Sound-final = Sound-kahn n (start g) Sound-start

  pub queue-final : final.queue ≡ []
  queue-final = queue-kahn n (start g) Sound-start (omega arith)

  -- All places are ordered if the order is as long as the node list.
  pub count-order_of_full : length final.order ≡ n → (v : ℕ) → v < n → count v final.order ≡ 1
  count-order_of_full full v l = ground (
    arith,
    Released-once Sound-final.released v,
    covered (λ u. 1) n final.order (λ u. omega (arith, Released-once Sound-final.released u))
        (λ u l. omega (arith, Sound-final.released.inside u l))
        (omega (arith, sum_below-one n, sum_of-one final.order)) v l (omega arith),
  )

  -- If every edge goes from a lower to a higher rank, then all places are ordered.
  pub ordered_of_rank :
      (rank : ℕ → ℕ)
      → ((u v : ℕ) → u < n → v < n → 0 < weight n g.adj v u → rank u < rank v)
      → (k v : ℕ) → v < n
      → rank v < k
      → count v final.order ≡ 1
  ordered_of_rank rank climbs zero v l below = elim below [ ]
  ordered_of_rank rank climbs (suc k) v l below = ground (
    arith,
    Sound-final.released.placed v l,
    Sound-final.released.degrees v l,
    sum_of-eq-sum_below (weight n g.adj v) n final.order
        (λ u. omega (arith, Released-once Sound-final.released u))
        (λ u m. omega (arith, Sound-final.released.inside u m))
        (λ u m p. omega (
          arith,
          climbs u v m l p,
          ordered_of_rank rank climbs k u m (omega (arith, climbs u v m l p)),
        )),
    ap (count v) queue-final,
  )
