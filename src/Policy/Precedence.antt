-- ===== src/Policy/Precedence.antt =====
-- What an evaluation of internal/policy/engine.go decides, and in which order the lists count.
use ai_proxy_centranity.Base.{
  ◌≡◌, ◌↔◌, ◌⊎◌, true, false, some, List, [], ◌∷◌, Any, any, any_iff, any_congr, Any-map, arith,
}
use ai_proxy_centranity.Base.Text.{Text, text, eq_iff, equal_fold_iff, to_lower}
use ai_proxy_centranity.Auth.{ApiKey}
use ai_proxy_centranity.Policy.{
  Engine, matches, decide_by, evaluate_model, evaluate_provider, set_global_deny,
}

-- A pattern covers an identifier: the same text up to case, or the wildcard.
abbrev pub Covers : Text → Text → Type 0
Covers id pattern = (to_lower pattern ≡ to_lower id) ⊎ (pattern ≡ text "*")

matches_iff : (id pattern : Text) → (matches id pattern ≡ true) ↔ Covers id pattern
unfolding matches
matches_iff id pattern = ground (arith, equal_fold_iff pattern id, eq_iff pattern (text "*"))

any-matches_iff : (id : Text) (xs : List Text) → (any (matches id) xs ≡ true) ↔ Any (Covers id) xs
any-matches_iff id xs =
    let (to, from) = any_iff (matches id) xs in
    (
      λ h. Any-map xs (λ x. (matches_iff id x).0) (to h),
      λ h. from (Any-map xs (λ x. (matches_iff id x).1) h),
    )

-- What the lists allow, in terms of coverage.
abbrev pub Permits : List Text → List Text → List Text → Text → Type 0
Permits global denied allowed id =
    (¬ Any (Covers id) global)
    × (¬ Any (Covers id) denied)
    × ((allowed ≡ []) ⊎ Any (Covers id) allowed)

decide_by_iff :
    (global denied allowed : List Text) (r s t id : Text)
    → ((decide_by global denied allowed r s t id).allowed ≡ true) ↔ Permits global denied allowed id
unfolding decide_by
decide_by_iff global denied [] r s t id =
    ground (arith, any-matches_iff id global, any-matches_iff id denied)
decide_by_iff global denied (x ∷ xs) r s t id =
    ground
      (arith, any-matches_iff id global, any-matches_iff id denied, any-matches_iff id (x ∷ xs))

-- A model is allowed exactly when no global pattern and no denied pattern of the key covers it and
-- the key's list of allowed patterns is empty or covers it.
pub evaluate_model_iff :
    (e : Engine) (key : ApiKey) (id : Text)
    → ((evaluate_model e (some key) id).allowed ≡ true)
      ↔ Permits e.models key.denied_models key.allowed_models id
unfolding evaluate_model
evaluate_model_iff e key id =
    decide_by_iff e.models key.denied_models key.allowed_models (text "GLOBAL_MODEL_DENIED")
      (text "MODEL_DENIED") (text "MODEL_NOT_ALLOWED") id

-- The same for a provider, with the lists of providers.
pub evaluate_provider_iff :
    (e : Engine) (key : ApiKey) (id : Text)
    → ((evaluate_provider e (some key) id).allowed ≡ true)
      ↔ Permits e.providers key.denied_providers key.allowed_providers id
unfolding evaluate_provider
evaluate_provider_iff e key id =
    decide_by_iff e.providers key.denied_providers key.allowed_providers
      (text "GLOBAL_PROVIDER_DENIED") (text "PROVIDER_DENIED") (text "PROVIDER_NOT_ALLOWED") id

-- Once the denylist is set to lists of which one model pattern covers the identifier, every key is
-- refused that model with the global reason, whatever the key's own lists say.
pub set_global_deny_wins :
    (e : Engine) (models providers : List Text) (key : ApiKey) (id : Text)
    → Any (Covers id) models
    → evaluate_model (set_global_deny e models providers) (some key) id
      ≡ record { allowed = false; reason = text "GLOBAL_MODEL_DENIED" }
unfolding evaluate_model set_global_deny decide_by
set_global_deny_wins e models providers key id h = rw ((any-matches_iff id models).1 h)

matches_fold :
    (a b pattern : Text) → to_lower a ≡ to_lower b → matches a pattern ≡ matches b pattern
unfolding matches
matches_fold a b pattern h = ground (arith, equal_fold_iff pattern a, equal_fold_iff pattern b)

-- Two identifiers that differ only in case get the same decision and the same reason.
pub evaluate_model_fold :
    (e : Engine) (key : ApiKey) (a b : Text)
    → to_lower a ≡ to_lower b
    → evaluate_model e (some key) a ≡ evaluate_model e (some key) b
unfolding evaluate_model decide_by
evaluate_model_fold e key a b h =
    let same =
      λ (xs : List Text). any_congr (matches a) (matches b) xs (λ p. matches_fold a b p h) in
    rw (same e.models, same key.denied_models, same key.allowed_models)
