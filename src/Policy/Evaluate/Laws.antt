-- ===== src/Policy/Evaluate/Laws.antt =====
-- What the decision of an evaluation that returned is bounded by.
use mathlib.Core.Path.{subst}
use kris_ai.Base.{String, ◌≡◌, sym, List}
use kris_ai.Base.Outcome.{ok, >>=-elim}
use kris_ai.Base.Json.{Json, Fields}
use kris_ai.Base.Json.Access.{get}
use kris_ai.Policy.Values.{mapping}
use kris_ai.Policy.Overlays.{Keyed, Overlaid, sorted_overlays, apply_overlays}
use kris_ai.Policy.Overlays.Laws.{IsNarrower, apply_overlays-IsNarrower}
use kris_ai.Policy.Request.{Asked, identify}
use kris_ai.Policy.Identity.{decision_id}
use kris_ai.Policy.Widening.Laws.{IsCeiled}
use kris_ai.Policy.Evaluate.Decided.{decide-IsCeiled, decide-decision_id}
use kris_ai.Policy.Evaluate.{PolicyDecision, overlay_items, before_overlays, decide, evaluate}

module _ (sha256 : String → String) (value : Json) (catalog config : Fields)
    (d : PolicyDecision) where
  -- The stages of an evaluation that returned.
  pub record Evaluated : Type 0 where
    pub request : Fields
    pub asked : Asked
    pub start : Overlaid
    pub final : Overlaid
    pub items : List Json
    pub overlays : List (Keyed Fields)
    pub is_request : mapping value "request" ≡ ok request
    pub is_asked : identify request catalog config ≡ ok asked
    pub is_start : before_overlays asked request config ≡ ok start
    pub is_items : overlay_items (get "overlays" request) ≡ ok items
    pub is_overlays : sorted_overlays items ≡ ok overlays
    pub is_final : apply_overlays start overlays ≡ ok final
    pub is_decided : decide asked start.scope final request d.decision_id ≡ ok d

  evaluate-Evaluated : evaluate sha256 value catalog config ≡ ok d → Evaluated
  unfolding evaluate
  evaluate-Evaluated h0 = >>=-elim (mapping value "request") _ h0 (λ request e1 h1.
      >>=-elim _ _ h1 (λ version e2 h2.
        >>=-elim (identify request catalog config) _ h2 (λ asked e3 h3.
          >>=-elim (decision_id sha256 request config) _ h3 (λ id e4 h4.
            >>=-elim (before_overlays asked request config) _ h4 (λ start e5 h5.
              >>=-elim (overlay_items (get "overlays" request)) _ h5 (λ items e6 h6.
                >>=-elim (sorted_overlays items) _ h6 (λ overlays e7 h7.
                  >>=-elim (apply_overlays start overlays) _ h7 (λ final e8 h8. record {
                    request = request;
                    asked = asked;
                    start = start;
                    final = final;
                    items = items;
                    overlays = overlays;
                    is_request = e1;
                    is_asked = e3;
                    is_start = e5;
                    is_items = e6;
                    is_overlays = e7;
                    is_final = e8;
                    is_decided =
                        subst (λ i. decide asked start.scope final request i ≡ ok d)
                          (sym (decide-decision_id asked start.scope final request id d h8)) h8;
                  }))))))))

  -- The profile's base scope and the budgets bound the decision from above.
  pub record IsBounded (e : Evaluated) : Type 0 where
    pub ceiling : IsCeiled e.start.scope d.effective_scope
    pub narrower : IsNarrower e.start e.final

  -- Every evaluation that returns went through its stages. The overlays only narrowed what the
  -- profile and the request gave: the hosts, browser profiles and secret leases, the budgets, the
  -- approval policy, the denials and the reasons. In the effective scope, the browser profiles and
  -- the secret leases, restored ones included, are within those of the access profile.
  pub evaluate-IsBounded :
      evaluate sha256 value catalog config ≡ ok d → (e : Evaluated) × IsBounded e
  evaluate-IsBounded h =
      let e = evaluate-Evaluated h in
      let n = apply_overlays-IsNarrower e.start e.final e.overlays e.is_final in
      let ceiled : IsCeiled e.start.scope e.final.scope = record {
        browsers = n.browsers;
        leases = n.leases;
      } in
      (
        e,
        record {
          ceiling =
              decide-IsCeiled e.asked e.start.scope e.final e.request d.decision_id d e.is_decided
                ceiled;
          narrower = n;
        },
      )
