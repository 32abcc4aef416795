-- ===== src/Job/Lifecycle.antt =====
-- What the transition graph of crates/engine/src/job/state.rs promises of the life of a job.
use kdown.Prelude.{
  ℕ, ◌+◌, ◌*◌, ◌≤◌, true, not, ◌&&◌, ◌||◌, ◌≡◌, inl, inr, refl, List, [], ◌∷◌, if◌then◌else◌, leb,
  leb→le, arith, length, sum_by, subst,
}
use kdown.Job.State.{
  JobState, running, resuming, verifying, committing, completed, ordinal, decode, is_terminal,
  allowed, StateMachine, accepted, new, get,
}
use kdown.Job.Edges.{all_states, by_states, by_edges, same, same→≡}
use kdown.Job.Request.{Request, run, record_edge, edges, at, get-at, request-Answer}

-- Once the state of a machine is terminal, no sequence of requests changes the machine.
pub run-terminal :
    (sm : StateMachine) (rs : List Request) → is_terminal (get sm) ≡ true → run sm rs ≡ sm
unfolding run
run-terminal sm [] h = refl
run-terminal sm (r ∷ rs) h = elim (request-Answer r sm) [
  | inl (f, t, e) ↦ rw e (run-terminal sm rs h)
  | inr (t, n, a, e) ↦ absurd (cc)
]

-- The one edge that leads back.
abbrev pub back : JobState × JobState → ℕ
back e = if same e.0 resuming && same e.1 running then 1 else 0

edge_climbs : (f t : JobState) → allowed f t ≡ true → 1 + ordinal f ≤ ordinal t + 4 * back (f, t)
unfolding allowed
edge_climbs f t a =
    leb→le (1 + ordinal f) (ordinal t + 4 * back (f, t))
      (by_edges (λ x y. leb (1 + ordinal x) (ordinal y + 4 * back (x, y))) refl f t a)

ordinal_le : (s : JobState) → ordinal s ≤ 13
ordinal_le s = leb→le (ordinal s) 13 (by_states (λ x. leb (ordinal x) 13) refl s)

edges_le :
    (sm : StateMachine) (past : List (JobState × JobState)) (rs : List Request)
    → length past ≤ ordinal (get sm) + 4 * sum_by back past
    → length (edges sm past rs) ≤ 13 + 4 * sum_by back (edges sm past rs)
unfolding edges
edges_le sm past [] h = omega (arith, h, ordinal_le (get sm))
edges_le sm past (r ∷ rs) h = elim (request-Answer r sm) [
  | inl (f, t, e) ↦ rw e (edges_le sm past rs h)
  | inr (t, n, a, e) ↦ rw e (
      rw (get-at t) (
        edges_le (at t) ((get sm, t) ∷ past) rs
          (rw (get-at t) (omega (arith, h, edge_climbs (get sm) t a)))))
]

-- A new job takes at most 13 edges and 4 more for each resumption, however many requests are made
-- of it.
pub edges_bounded :
    (rs : List Request) → length (edges new [] rs) ≤ 13 + 4 * sum_by back (edges new [] rs)
unfolding new get decode
edges_bounded rs = edges_le new [] rs (omega arith)

-- How a machine comes to a state of the last part of a job.
abbrev IsReached : JobState → List (JobState × JobState) → Type 0
IsReached verifying past = (old : List (JobState × JobState)) × (past ≡ (running, verifying) ∷ old)
IsReached committing past =
    (old : List (JobState × JobState)) × (past
      ≡ (verifying, committing) ∷ (running, verifying) ∷ old)
IsReached completed past =
    (old : List (JobState × JobState)) × (past
      ≡ (committing, completed) ∷ (verifying, committing) ∷ (running, verifying) ∷ old)
IsReached s past = Unit

only_from :
    (test : JobState → JobState) (f t : JobState)
    → all_states (λ x. all_states (λ y. not (allowed x y) || (not (same y t) || same x (test y))))
      ≡ true
    → allowed f t ≡ true
    → f ≡ test t
only_from test f t h a =
    let step = by_edges (λ x y. not (same y t) || same x (test y)) h f t a in
    same→≡ f (test t) (ground (arith, step))

edge-IsReached :
    (f t : JobState) (past : List (JobState × JobState))
    → allowed f t ≡ true
    → IsReached f past
    → IsReached t ((f, t) ∷ past)
unfolding allowed
edge-IsReached f verifying past a h = (past, rw (only_from (λ x. running) f verifying refl a) refl)
edge-IsReached f committing past a h =
    let from : f ≡ verifying = only_from (λ x. verifying) f committing refl a in
    let (old, e) = subst (λ x. IsReached x past) from h in (old, rw from (rw e refl))
edge-IsReached f completed past a h =
    let from : f ≡ committing = only_from (λ x. committing) f completed refl a in
    let (old, e) = subst (λ x. IsReached x past) from h in (old, rw from (rw e refl))
edge-IsReached f t past a h = tt

run-IsReached :
    (sm : StateMachine) (past : List (JobState × JobState)) (rs : List Request)
    → IsReached (get sm) past
    → IsReached (get (run sm rs)) (edges sm past rs)
unfolding run edges
run-IsReached sm past [] h = h
run-IsReached sm past (r ∷ rs) h = elim (request-Answer r sm) [
  | inl (f, t, e) ↦ rw e (run-IsReached sm past rs h)
  | inr (t, n, a, e) ↦ rw e (
      run-IsReached (at t) (record_edge (get sm) (get (at t)) accepted past) rs
        (rw (get-at t) (edge-IsReached (get sm) t past a h)))
]

-- A new job that is completed after some requests was so by the commit of a verified run: its last
-- three edges are those from running to verifying, to committing and to completed.
pub completed_verified :
    (rs : List Request)
    → get (run new rs) ≡ completed
    → (old : List (JobState × JobState)) × (edges new [] rs
        ≡ (committing, completed) ∷ (verifying, committing) ∷ (running, verifying) ∷ old)
unfolding get new
completed_verified rs h = subst (λ s. IsReached s (edges new [] rs)) h (run-IsReached new [] rs tt)
