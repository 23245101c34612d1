-- ===== src/Agents/Calls.antt =====
-- internal/einoagent/agent.go: what an agent that `New` returns answers.
use anchora.Prelude.{
  String, Bool, true, false, Option, some, List, ◌≡◌, ◌==◌, ◌||◌, Result, ok, err,
}
use anchora.Workflow.Render.{trim_space}
use anchora.Agents.{
  AgentSettings, ModelSettings, ChatMessage, AgentError, model_settings, token_env_of, messages,
}

abbrev pub is_uninitialized : AgentError → Bool
is_uninitialized AgentError.uninitialized = true
is_uninitialized e = false

module _ {Model : Type 0} (getenv : String → String)
    (new_chat_model : ModelSettings → Result String Model)
    (generate : Model → List ChatMessage → Result String (Option String)) where
  -- The model that the settings make.
  abbrev pub IsModelOf : AgentSettings → Model → Type 0
  IsModelOf c model =
      ((c.name == "" || c.model_id == "") ≡ false)
      × ((getenv (token_env_of c) == "") ≡ false)
      × (new_chat_model (model_settings c (getenv (token_env_of c))) ≡ ok model)

  -- An answer is a text, not only of spaces, that the model gave to the instruction and the prompt.
  abbrev pub Answers : AgentSettings → String → Result AgentError String → Type 0
  Answers c prompt (ok content) =
      (model : Model) × IsModelOf c model
      × (generate model (messages c.instruction prompt) ≡ ok (some content))
      × ((trim_space content == "") ≡ false)
  Answers c prompt (err e) = is_uninitialized e ≡ false
