-- ===== src/Job/Stop.antt =====
-- How fail and cancel of crates/engine/src/job/state.rs end a job, and what a late store does.
use kdown.Prelude.{
  Bool, true, false, not, ◌&&◌, ◌||◌, ◌≡◌, ◌≢◌, ◌⊎◌, inl, inr, refl, [], ◌∷◌, if◌then◌else◌, arith,
  Bool-cases,
}
use kdown.Job.State.{
  JobState, committing, cancelling, failing, cancelled, failed, is_terminal, allowed, StateMachine,
  accepted, invalid_transition, get, settle, transition, or_else, fail, cancel,
}
use kdown.Job.Edges.{by_states, same, same→≡}
use kdown.Job.Request.{fails, cancels, request, run, at, get-at}

-- The state after a transition and after fail, by the graph alone.
abbrev next : JobState → JobState → JobState
next from to = if not (is_terminal from) && allowed from to then to else from

abbrev attempt : JobState → JobState → JobState → JobState
attempt first second from =
    if not (is_terminal from) && allowed from first then first else next from second

transition-terminal :
    (to : JobState) (sm : StateMachine)
    → is_terminal (get sm) ≡ true
    → transition to sm ≡ (sm, invalid_transition (get sm) to)
unfolding transition settle
transition-terminal to sm e = rw e refl

transition-allowed :
    (to : JobState) (sm : StateMachine)
    → is_terminal (get sm) ≡ false
    → allowed (get sm) to ≡ true
    → transition to sm ≡ (at to, accepted)
unfolding transition settle
transition-allowed to sm e a = rw e (rw a refl)

transition-refused :
    (to : JobState) (sm : StateMachine)
    → is_terminal (get sm) ≡ false
    → allowed (get sm) to ≡ false
    → transition to sm ≡ (sm, invalid_transition (get sm) to)
unfolding transition settle
transition-refused to sm e a = rw e (rw a refl)

get-transition : (to : JobState) (sm : StateMachine) → get (transition to sm).0 ≡ next (get sm) to
get-transition to sm = elim (Bool-cases (is_terminal (get sm))) [
  | inl e ↦ rw (transition-terminal to sm e) (rw e refl)
  | inr e ↦ elim (Bool-cases (allowed (get sm) to)) [
    | inl a ↦ rw (transition-allowed to sm e a) (rw (get-at to) (rw e (rw a refl)))
    | inr a ↦ rw (transition-refused to sm e a) (rw e (rw a refl))
  ]
]

get-or_else :
    (first second : JobState) (sm : StateMachine)
    → get (or_else (transition first sm) (transition second)).0 ≡ attempt first second (get sm)
unfolding or_else
get-or_else first second sm = elim (Bool-cases (is_terminal (get sm))) [
  | inl e ↦ rw (transition-terminal first sm e) (rw (get-transition second sm) (rw e refl))
  | inr e ↦ elim (Bool-cases (allowed (get sm) first)) [
    | inl a ↦ rw (transition-allowed first sm e a) (rw (get-at first) (rw e (rw a refl)))
    | inr a ↦
        rw (transition-refused first sm e a) (rw (get-transition second sm) (rw e (rw a refl)))
  ]
]

get-fail : (sm : StateMachine) → get (fail sm).0 ≡ attempt failing failed (get sm)
unfolding fail
get-fail sm = get-or_else failing failed sm

get-cancel : (sm : StateMachine) → get (cancel sm).0 ≡ attempt cancelling cancelled (get sm)
unfolding cancel
get-cancel sm = get-or_else cancelling cancelled sm

fail-cancelling :
    (sm : StateMachine) → get sm ≡ cancelling → fail sm ≡ (sm, invalid_transition cancelling failed)
unfolding fail or_else allowed
fail-cancelling sm h =
    rw (transition-refused failing sm (rw h refl) (rw h refl))
      (rw (transition-refused failed sm (rw h refl) (rw h refl)) (rw h refl))

or_lem : (a b c : Bool) → (a || (b || c)) ≡ true → a ≡ false → (b ≡ true) ⊎ (c ≡ true)
or_lem a b c h n = ground arith

-- Two calls of fail end an operational job as failed, unless it is being cancelled: there fail is
-- refused and changes nothing.
pub fail_ends :
    (sm : StateMachine)
    → is_terminal (get sm) ≡ false
    → ((get sm ≡ cancelling) × (fail sm ≡ (sm, invalid_transition cancelling failed)))
      ⊎ (get (run sm (fails ∷ fails ∷ [])) ≡ failed)
unfolding run request allowed
fail_ends sm n =
    let twice : JobState → JobState = λ s. attempt failing failed (attempt failing failed s) in
    let test : JobState → Bool =
      λ s. is_terminal s || (same s cancelling || same (twice s) failed) in
    elim (or_lem _ _ _ (by_states test refl (get sm)) n) [
      | inl e ↦
          let here : get sm ≡ cancelling = same→≡ (get sm) cancelling e in
          inl (here, fail-cancelling sm here)
      | inr e ↦ inr (rw (get-fail (fail sm).0) (rw (get-fail sm) (same→≡ _ failed e)))
    ]

same_either : (s f g : JobState) → (same s f || same s g) ≡ true → (s ≡ f) ⊎ (s ≡ g)
same_either s f g e = elim (Bool-cases (same s f)) [
  | inl x ↦ inl (same→≡ s f x)
  | inr x ↦ inr (same→≡ s g (ground arith))
]

-- Two calls of cancel end an operational job as cancelled, unless it commits or fails.
pub cancel_ends :
    (sm : StateMachine)
    → is_terminal (get sm) ≡ false
    → ((get sm ≡ committing) ⊎ (get sm ≡ failing))
      ⊎ (get (run sm (cancels ∷ cancels ∷ [])) ≡ cancelled)
unfolding run request allowed
cancel_ends sm n =
    let twice : JobState → JobState =
      λ s. attempt cancelling cancelled (attempt cancelling cancelled s) in
    let test : JobState → Bool =
      λ s. is_terminal s || ((same s committing || same s failing) || same (twice s) cancelled) in
    elim (or_lem _ _ _ (by_states test refl (get sm)) n) [
      | inl e ↦ inl (same_either (get sm) committing failing e)
      | inr e ↦ inr (rw (get-cancel (cancel sm).0) (rw (get-cancel sm) (same→≡ _ cancelled e)))
    ]

-- For an operational state that neither commits nor fails, with an edge to a requested state: two
-- calls of cancel end the job as cancelled, and a transition that starts then is refused; a
-- transition that had loaded the state before them stores the requested state over the terminal
-- one.
pub late_store :
    (sm : StateMachine) (to : JobState)
    → is_terminal (get sm) ≡ false
    → get sm ≢ committing
    → get sm ≢ failing
    → allowed (get sm) to ≡ true
    → let ended = run sm (cancels ∷ cancels ∷ []) in
      (get ended ≡ cancelled)
      × ((transition to ended).1 ≡ invalid_transition cancelled to)
      × (get (settle (get sm) to ended).0 ≡ to)
unfolding settle transition
late_store sm to n c f a = elim (cancel_ends sm n) [
  | inl (inl e) ↦ absurd (c e)
  | inl (inr e) ↦ absurd (f e)
  | inr e ↦ (e, rw e refl, rw n (rw a (get-at to)))
]
