-- ===== src/Safety/Browser/Protocol.antt =====
-- The protocol that a browser plan follows, as a relation on the phases of a session, and the proof
-- that `validate` accepts exactly the plans that follow it.
use kris_ai.Base.{
  ◌≤ℤ◌, ◌≡◌, ◌≢◌, ◌↔◌, ◌⊎◌, inl, inr, refl, Bool, true, false, ◌||◌, eq_iff, List, [], ◌∷◌, arith,
}
use kris_ai.Base.Outcome.{Outcome, ok, raise, >>=-eq-ok}
use kris_ai.Safety.Browser.{
  BrowserPlanStep, BrowserPlanningPolicy, Flags, start, check_step, check_steps, verdict, validate,
}

-- Before any observation; with a fresh observation, and perhaps a takeover; after an action.
pub data Phase : Type 0 where
  blind : Phase
  ready : Bool → Phase
  acted : Phase

-- One step of a session, within the retry budget.
pub data Move (policy : BrowserPlanningPolicy) : Phase → BrowserPlanStep → Phase → Type 0 where
  observe :
      {p : Phase} {s : BrowserPlanStep}
      → s.kind ≡ "observe"
      → s.retry ≤ℤ policy.max_retries
      → Move policy p s (ready false)
  takeover :
      {t : Bool} {s : BrowserPlanStep}
      → s.kind ≡ "takeover"
      → s.retry ≤ℤ policy.max_retries
      → Move policy (ready t) s (ready true)
  verify :
      {s : BrowserPlanStep}
      → s.kind ≡ "verify"
      → s.retry ≤ℤ policy.max_retries
      → Move policy acted s (ready false)
  action :
      {t : Bool} {s : BrowserPlanStep}
      → s.kind ≡ "action"
      → s.retry ≤ℤ policy.max_retries
      → s.observation_age_ms ≤ℤ policy.max_observation_age_ms
      → ((s.destructive || s.requires_takeover) ≡ true → t ≡ true)
      → Move policy (ready t) s acted

pub data Session (policy : BrowserPlanningPolicy)
    : Phase → List BrowserPlanStep → Phase → Type 0 where
  done : {p : Phase} → Session policy p [] p
  then_next :
      {p q r : Phase} {s : BrowserPlanStep} {ss : List BrowserPlanStep}
      → Move policy p s q
      → Session policy q ss r
      → Session policy p (s ∷ ss) r

-- The flags that stand for a phase.
abbrev pub flags_of : Phase → Flags
flags_of blind = start
flags_of (ready t) = record { observed = true; awaiting_verification = false; takeover_ready = t }
flags_of acted = record { observed = false; awaiting_verification = true; takeover_ready = false }

Move-check_step :
    (policy : BrowserPlanningPolicy) {p q : Phase} {s : BrowserPlanStep}
    → Move policy p s q
    → check_step policy (flags_of p) s ≡ ok (flags_of q)
unfolding check_step
Move-check_step policy (observe {p} {s} k b) = ground (arith, eq_iff s.kind "observe")
Move-check_step policy (takeover {s} k b) = rw k (ground arith)
Move-check_step policy (verify {s} k b) = rw k (ground arith)
Move-check_step policy (action {s} k b f t) = rw k (ground arith)

-- What an accepted step was, by its kind.
module _ (policy : BrowserPlanningPolicy) (s : BrowserPlanStep) (g : Flags) where
  abbrev OutcomeOf : Phase → Type 0
  OutcomeOf p = (q : Phase) × Move policy p s q × (g ≡ flags_of q)

  from_observe :
      (p : Phase) → s.kind ≡ "observe" → check_step policy (flags_of p) s ≡ ok g → OutcomeOf p
  unfolding check_step
  from_observe p k h = let h' = rw k at h in (ready false, observe k (ground arith), ground arith)

  from_takeover :
      (p : Phase) → s.kind ≡ "takeover" → check_step policy (flags_of p) s ≡ ok g → OutcomeOf p
  unfolding check_step
  from_takeover (ready t) k h =
      let h' = rw k at h in (ready true, takeover k (ground arith), ground arith)
  from_takeover blind k h = let h' = rw k at h in absurd (ground arith)
  from_takeover acted k h = let h' = rw k at h in absurd (ground arith)

  from_verify :
      (p : Phase) → s.kind ≡ "verify" → check_step policy (flags_of p) s ≡ ok g → OutcomeOf p
  unfolding check_step
  from_verify acted k h = let h' = rw k at h in (ready false, verify k (ground arith), ground arith)
  from_verify (ready t) k h = let h' = rw k at h in absurd (ground arith)
  from_verify blind k h = let h' = rw k at h in absurd (ground arith)

  from_action :
      (p : Phase) → s.kind ≡ "action" → check_step policy (flags_of p) s ≡ ok g → OutcomeOf p
  unfolding check_step
  from_action (ready t) k h =
      let h' = rw k at h in
      (acted, action k (ground arith) (ground arith) (λ d. ground arith), ground arith)
  from_action blind k h = let h' = rw k at h in absurd (ground arith)
  from_action acted k h = let h' = rw k at h in absurd (ground arith)

  -- No other kind is accepted.
  kind_cases :
      (f : Flags)
      → check_step policy f s ≡ ok g
      → (s.kind ≡ "observe") ⊎ ((s.kind ≡ "takeover") ⊎ ((s.kind ≡ "verify") ⊎ (s.kind ≡ "action")))
  unfolding check_step
  kind_cases f h = ground (
    arith,
    eq_iff s.kind "observe",
    eq_iff s.kind "takeover",
    eq_iff s.kind "verify",
    eq_iff s.kind "action",
  )

  check_step-Move : (p : Phase) → check_step policy (flags_of p) s ≡ ok g → OutcomeOf p
  check_step-Move p h = elim (kind_cases (flags_of p) h) [
    | inl k ↦ from_observe p k h
    | inr (inl k) ↦ from_takeover p k h
    | inr (inr (inl k)) ↦ from_verify p k h
    | inr (inr (inr k)) ↦ from_action p k h
  ]

Session-check_steps :
    (policy : BrowserPlanningPolicy) {p q : Phase} {ss : List BrowserPlanStep}
    → Session policy p ss q
    → check_steps policy (flags_of p) ss ≡ ok (flags_of q)
unfolding check_steps
Session-check_steps policy done = refl
Session-check_steps policy (then_next m r) =
    rw (Move-check_step policy m) (Session-check_steps policy r)

check_steps-Session :
    (policy : BrowserPlanningPolicy) (p : Phase) (ss : List BrowserPlanStep) (g : Flags)
    → check_steps policy (flags_of p) ss ≡ ok g
    → (q : Phase) × Session policy p ss q × (g ≡ flags_of q)
unfolding check_steps
check_steps-Session policy p [] g h = (p, done, ground arith)
check_steps-Session policy p (s ∷ ss) g h =
    let (f, first, rest) = >>=-eq-ok (check_step policy (flags_of p) s) _ h in
    let (q, m, e) = check_step-Move policy s f p first in
    let (r, session, e') = check_steps-Session policy q ss g (rw (← e) rest) in
    (r, then_next m session, e')

-- What an accepting verdict says of the flags, and what a phase says of the verdict.
accepted :
    (o : Outcome Flags)
    → (verdict o).0 ≡ true
    → (g : Flags) × (o ≡ ok g) × (g.awaiting_verification ≡ false)
unfolding verdict
accepted (ok g) h = (g, refl, ground arith)
accepted (raise code) h = cc

verdict-flags_of : (q : Phase) → q ≢ acted → (verdict (ok (flags_of q))).0 ≡ true
unfolding verdict
verdict-flags_of acted n = absurd (n refl)
verdict-flags_of blind n = refl
verdict-flags_of (ready t) n = refl

not_acted : (q : Phase) → (flags_of q).awaiting_verification ≡ false → q ≢ acted
not_acted acted h = cc
not_acted blind h = λ e. cc
not_acted (ready t) h = λ e. cc

-- A plan is accepted exactly when it is a session that starts blind and does not end on an action:
-- the steps keep to the retry budget, an action acts on a fresh observation of the right age and
-- after a takeover where it needs one, a takeover follows an observation, and a verification
-- follows an action.
pub validate-Session :
    (policy : BrowserPlanningPolicy) (ss : List BrowserPlanStep)
    → ((validate policy ss).0 ≡ true) ↔ ((q : Phase) × Session policy blind ss q × (q ≢ acted))
unfolding validate
validate-Session policy ss = (
  λ h.
      let (g, e, w) = accepted (check_steps policy start ss) h in
      let (q, session, e') = check_steps-Session policy blind ss g e in
      (q, session, not_acted q (rw e' at w)),
  λ (q, session, n). rw (Session-check_steps policy session) (verdict-flags_of q n),
)
