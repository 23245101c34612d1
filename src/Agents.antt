-- ===== src/Agents.antt =====
-- internal/einoagent/agent.go: agents on a chat model. The chat model, the environment and the HTTP
-- client are those of other packages: they are parameters.
pub mod Calls
use anchora.Prelude.{
  ℕ, String, Bool, Option, none, some, List, [], ◌∷◌, ◌||◌, ◌==◌, if◌then◌else◌, Result, ok, err,
}
use anchora.Prelude.Int.{ℤ}
use anchora.Config.{is_positive}
use anchora.Workflow.Render.{trim_space}

abbrev pub default_base_url : String
default_base_url = "https://router.huggingface.co/v1"

abbrev pub default_token_env : String
default_token_env = "HF_TOKEN"

-- `Config`, without the HTTP client.
pub record AgentSettings : Type 0 where
  pub name : String
  pub model_id : String
  pub base_url : String
  pub token_env : String
  pub instruction : String
  pub max_tokens : ℤ
  pub timeout : ℤ

-- What `openai.NewChatModel` is given.
pub record ModelSettings : Type 0 where
  pub api_key : String
  pub base_url : String
  pub model : String
  pub max_tokens : Option ℤ
  pub timeout : ℤ

pub data ChatMessage : Type 0 where
  system_message user_message : String → ChatMessage

pub data AgentError : Type 0 where
  unnamed : AgentError
  missing_token : String → AgentError
  model_refused : String → AgentError
  uninitialized : AgentError
  generation_failed : String → AgentError
  no_text : AgentError

-- `Agent`; `none` is the nil pointer.
pub record ChatAgent (Model : Type 0) : Type 0 where
  pub model : Option Model
  pub instruction : String

abbrev pub token_env_of : AgentSettings → String
token_env_of c = if c.token_env == "" then default_token_env else c.token_env

abbrev pub model_settings : AgentSettings → String → ModelSettings
model_settings c token = record {
  api_key = token;
  base_url = if c.base_url == "" then default_base_url else c.base_url;
  model = c.model_id;
  max_tokens = if is_positive c.max_tokens then some c.max_tokens else none;
  timeout = c.timeout;
}

abbrev pub messages : String → String → List ChatMessage
messages instruction prompt =
    if instruction == ""
    then ChatMessage.user_message prompt ∷ []
    else ChatMessage.system_message instruction ∷ ChatMessage.user_message prompt ∷ []

module _ {Model : Type 0} where
  unfoldable pub new_agent :
      (String → String)
      → (ModelSettings → Result String Model)
      → AgentSettings
      → Result AgentError (ChatAgent Model)
  new_agent getenv new_chat_model c =
      let token = getenv (token_env_of c) in
      if c.name == "" || c.model_id == ""
      then err AgentError.unnamed
      else if token == ""
      then err (AgentError.missing_token (token_env_of c))
      else elim (new_chat_model (model_settings c token)) [
        | err e ↦ err (AgentError.model_refused e)
        | ok model ↦ ok (record { model = some model; instruction = c.instruction })
      ]

  -- The model's response has a text, or is nil.
  unfoldable pub run_agent :
      (Model → List ChatMessage → Result String (Option String))
      → Option (ChatAgent Model)
      → String
      → Result AgentError String
  run_agent generate none prompt = err AgentError.uninitialized
  run_agent generate (some a) prompt = elim a.model [
    | none ↦ err AgentError.uninitialized
    | some model ↦ elim (generate model (messages a.instruction prompt)) [
      | err e ↦ err (AgentError.generation_failed e)
      | ok none ↦ err AgentError.no_text
      | ok (some content) ↦ if trim_space content == "" then err AgentError.no_text else ok content
    ]
  ]
