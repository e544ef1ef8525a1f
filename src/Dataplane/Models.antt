-- ===== src/Dataplane/Models.antt =====
-- `ListModels` of internal/api/dataplane.go: the upstream's models, less those that the policy denies
-- the key.
use ai_proxy_centranity.Base.{
  ap, ◌≡◌, ◌↔◌, ℕ, Bool, true, Option, none, some, List, [], ◌∷◌, ◌++◌, Any, arith, if◌then◌else◌,
}
use ai_proxy_centranity.Base.Int.{pos}
use ai_proxy_centranity.Base.Text.{Text, text}
use ai_proxy_centranity.Auth.{ApiKey}
use ai_proxy_centranity.Http.{
  Json, Items, str, num, obj, arr, field, end, nil, cons, Writer, write_json, error_doc, Decoded,
  decoded, malformed,
}
use ai_proxy_centranity.Ninerouter.{ModelInfo, err_upstream_unavail}
use ai_proxy_centranity.Policy
use ai_proxy_centranity.Policy.Precedence.{Permits, evaluate_model_iff}
use ai_proxy_centranity.Dataplane.State.{Gateway}
use ai_proxy_centranity.Dataplane.Chat.{lacks_key}

-- `OpenAIModel`; the object is always "model".
pub record OpenAiModel : Type 0 where
  pub id : Text
  pub created : ℕ
  pub owned_by : Text

abbrev model_doc : OpenAiModel → Json
model_doc m = obj (
    field (text "id") (str m.id) (
      field (text "object") (str (text "model")) (
        field (text "created") (num (pos m.created))
          (field (text "owned_by") (str m.owned_by) end))))

abbrev model_docs : List OpenAiModel → Items
model_docs [] = nil
model_docs (m ∷ ms) = cons (model_doc m) (model_docs ms)

-- `OpenAIModelListResponse`
abbrev pub list_doc : List OpenAiModel → Json
list_doc ms =
    obj (field (text "object") (str (text "list")) (field (text "data") (arr (model_docs ms)) end))

-- Without a key the policy is not asked.
unfoldable pub may_list : Policy.Engine → Option ApiKey → Text → Bool
may_list e none id = true
may_list e (some key) id = (Policy.evaluate_model e (some key) id).allowed

-- The loop over the upstream's models.
unfoldable pub entries : Policy.Engine → Option ApiKey → ℕ → List ModelInfo → List OpenAiModel
entries e key now [] = []
entries e key now (m ∷ ms) =
    let rest = entries e key now ms in
    if may_list e key m.id
    then record { id = m.id; created = now; owned_by = m.owned_by } ∷ rest
    else rest

abbrev answer_models :
    ℕ → Option ApiKey → Policy.Engine → Decoded (List ModelInfo) → Writer → Writer
answer_models now key e (malformed message) w =
    write_json 502
      (error_doc (text "failed to retrieve upstream models: " ++ message) (text "upstream_error")
        err_upstream_unavail)
      w
answer_models now key e (decoded models) w = write_json 200 (list_doc (entries e key now models)) w

-- `ListModels`; `upstream` is what the adapter's ListModels gives.
unfoldable pub list_models :
    ℕ → Decoded (List ModelInfo) → Option ApiKey → Gateway → Writer → Writer
list_models now upstream key g w =
    if lacks_key g.key_store key
    then write_json 401
        (error_doc (text "Authentication required") (text "auth_error") (text "unauthorized")) w
    else answer_models now key g.policy_engine upstream w

entries_iff :
    (e : Policy.Engine) (key : ApiKey) (now : ℕ) (ms : List ModelInfo) (id : Text)
    → Any (λ m. m.id ≡ id) (entries e (some key) now ms)
      ↔ Any (λ m. m.id ≡ id) ms × Permits e.models key.denied_models key.allowed_models id
unfolding entries may_list
entries_iff e key now [] id = ground arith
entries_iff e key now (m ∷ ms) id = ground (
  arith,
  entries_iff e key now ms id,
  evaluate_model_iff e key id,
  λ (h : m.id ≡ id). ap (λ t. (Policy.evaluate_model e (some key) t).allowed) h,
)

-- A client with a key is answered with a list in which an identifier stands exactly if the upstream
-- lists it and the policy permits it to the key.
pub list_models_lem :
    (now : ℕ) (models : List ModelInfo) (key : ApiKey) (g : Gateway) (w : Writer)
    → (listed : List OpenAiModel) × (list_models now (decoded models) (some key) g w
        ≡ write_json 200 (list_doc listed) w)
      × ((id : Text)
          → Any (λ m. m.id ≡ id) listed
            ↔ Any (λ m. m.id ≡ id) models
              × Permits g.policy_engine.models key.denied_models key.allowed_models id)
unfolding list_models
list_models_lem now models key g w = (
  entries g.policy_engine (some key) now models,
  ground arith,
  entries_iff g.policy_engine key now models,
)
