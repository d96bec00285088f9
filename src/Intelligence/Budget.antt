-- ===== src/Intelligence/Budget.antt =====
-- `PhaseBudget.defaults`.
use kris_ai.Base.{ℕ, String, ◌<>◌, Option, none, some, [], ◌∷◌, strip, lower}
use kris_ai.Base.Dict.{Dict, lookup}
use kris_ai.Base.Outcome.{Outcome, ok, raise}

pub record PhaseBudget : Type 0 where
  pub phase : String
  pub max_model_requests : ℕ
  pub max_tool_calls : ℕ
  pub max_repairs : ℕ
  pub max_output_tokens : ℕ
  pub max_context_characters : ℕ
  pub deadline_seconds : ℕ

abbrev pub values : Dict (ℕ × ℕ × ℕ × ℕ × ℕ × ℕ)
values =
    ("routing", (1, 0, 0, 256, 8000, 30))
    ∷ ("planning", (3, 2, 2, 4096, 48000, 300))
    ∷ ("execution", (8, 16, 4, 2048, 36000, 900))
    ∷ ("verification", (3, 8, 2, 2048, 32000, 600))
    ∷ ("summarization", (1, 0, 0, 1024, 48000, 90))
    ∷ ("research", (4, 8, 2, 3072, 40000, 600))
    ∷ ("safety_review", (2, 0, 1, 1536, 24000, 180))
    ∷ []

unfoldable pub budget_of : String → Option (ℕ × ℕ × ℕ × ℕ × ℕ × ℕ) → Outcome PhaseBudget
budget_of phase none = raise ("unknown phase: " <> phase)
budget_of phase (some (model, tools, repairs, output, context, deadline)) = ok (record {
  phase = phase;
  max_model_requests = model;
  max_tool_calls = tools;
  max_repairs = repairs;
  max_output_tokens = output;
  max_context_characters = context;
  deadline_seconds = deadline;
})

unfoldable pub defaults : String → Outcome PhaseBudget
unfolding lookup budget_of
defaults phase = let name = lower (strip phase) in budget_of name (lookup name values)
