-- ===== src/Dataplane/Chat/Charging.antt =====
-- What a call of ChatCompletions of internal/api/dataplane.go does to the token counters.
use ai_proxy_centranity.Base.{
  ℕ, ◌≡◌, ◌∙◌, ◌⊎◌, inl, inr, Bool, true, false, Bool-cases, Option, some, none, List, [], ◌∷◌,
  arith, refl, ap, subst, eqb, if◌then◌else◌,
}
use ai_proxy_centranity.Base.Int.{ℤ}
use ai_proxy_centranity.Base.Text.{Text, ◌==◌, eq_iff}
use ai_proxy_centranity.Base.Assoc.{lookup-insert, lookup-insert_self}
use ai_proxy_centranity.Auth.{ApiKey}
use ai_proxy_centranity.Http.{Header, Writer}
use ai_proxy_centranity.Ninerouter.{Payload, Response, Answer, failed as call_failed, responded}
use ai_proxy_centranity.Quota.{QuotaStore, usage_of, record_tokens}
use ai_proxy_centranity.Routing.Engine.{RouteDecision}
use ai_proxy_centranity.Dataplane.State.{Gateway, Env, Request, ChatRequest, estimate_tokens}
use ai_proxy_centranity.Dataplane.Forward.{
  Loop, forward, forward_all, after_answer, on_error, on_failure, on_success, send, record_result,
  count_upstream, is_failure, give_up,
}
use ai_proxy_centranity.Dataplane.Chat.{Outcome, account, after_loop, forward_step}
use ai_proxy_centranity.Dataplane.Chat.Gatekeeping.{forward_step_sends}

-- The loop over the targets leaves the counters alone.
after_answer-quota :
    (t : Text) (now : ℕ) (a : Answer) (next : Loop → Loop) (s : Loop)
    → ((s : Loop) → (next s).gateway.quota_store ≡ s.gateway.quota_store)
    → (after_answer t now a next s).gateway.quota_store ≡ s.gateway.quota_store
unfolding after_answer on_error on_failure on_success record_result count_upstream
after_answer-quota t now (call_failed e) next s ih = ih (on_error t now e s)
after_answer-quota t now (responded r) next s ih = elim (Bool-cases (is_failure r.status)) [
  | inl e ↦ rw e (ih (on_failure t now r.status s))
  | inr e ↦ rw e refl
]

pub forward-quota :
    (env : Env) (header : Header) (i : ℕ) (ts : List Text) (s : Loop)
    → (forward env header i ts s).gateway.quota_store ≡ s.gateway.quota_store
unfolding forward send
forward-quota env header i [] s = refl
forward-quota env header i (t ∷ ts) s =
    after_answer-quota t _ _ (forward env header _ ts) (send t s) (forward-quota env header _ ts)

-- The counters of `k` are as in `q`, or `n` tokens have been recorded for `k`, which is the key's.
abbrev Charged : Text → QuotaStore → Option ApiKey → ℤ → QuotaStore → Type 0
Charged k q none n after = usage_of after k ≡ usage_of q k
Charged k q (some key) n after =
    (usage_of after k ≡ usage_of q k)
    ⊎ ((key.id ≡ k) × (usage_of after k ≡ usage_of (record_tokens q k n) k))

record_tokens-other :
    (q : QuotaStore) (j k : Text) (n : ℤ)
    → (j == k) ≡ false
    → usage_of (record_tokens q j n) k ≡ usage_of q k
unfolding record_tokens usage_of
record_tokens-other q j k n e = rw (lookup-insert, e) refl

record_tokens_same :
    (p q : QuotaStore) (k : Text) (n : ℤ)
    → usage_of p k ≡ usage_of q k
    → usage_of (record_tokens p k n) k ≡ usage_of (record_tokens q k n) k
unfolding record_tokens usage_of
record_tokens_same p q k n e = rw (lookup-insert_self, lookup-insert_self, e) refl

record-Charged :
    (q : QuotaStore) (key : ApiKey) (k : Text) (n : ℤ)
    → Charged k q (some key) n (record_tokens q key.id n)
record-Charged q key k n = elim (Bool-cases (key.id == k)) [
  | inl e ↦
      let same = (eq_iff key.id k).0 e in
      inr (same, ap (λ j. usage_of (record_tokens q j n) k) same)
  | inr e ↦ inl (record_tokens-other q key.id k n e)
]

unchanged :
    (k : Text) (q after : QuotaStore) (key : Option ApiKey) (n : ℤ)
    → usage_of after k ≡ usage_of q k
    → Charged k q key n after
unchanged k q after none n e = e
unchanged k q after (some key) n e = inl e

give_up-quota : (s : Loop) (w : Writer) → (give_up s w).0.quota_store ≡ s.gateway.quota_store
unfolding give_up count_upstream
give_up-quota s w = elim (Bool-cases (eqb s.last_status_code 0)) [
  | inl e ↦ rw e refl
  | inr e ↦ rw e refl
]

account-Charged :
    (req : Request) (r : ChatRequest) (model : Text) (g : Gateway) (k : Text) (key : Option ApiKey)
    → Charged k g.quota_store key
        (estimate_tokens r.messages)
        (account (record req { key = key }) r model g).quota_store
unfolding account
account-Charged req r model g k none = refl
account-Charged req r model g k (some key) =
    record-Charged g.quota_store key k (estimate_tokens r.messages)

after_loop-Charged :
    (env : Env) (req : Request) (r : ChatRequest) (w : Writer) (o : Option (Text × Response))
    (s : Loop) (k : Text)
    → Charged k s.gateway.quota_store req.key
        (estimate_tokens r.messages)
        (after_loop env req r w o s).gateway.quota_store
unfolding after_loop
after_loop-Charged env req r w none s k =
    unchanged k s.gateway.quota_store _ req.key _ (ap (λ q. usage_of q k) (give_up-quota s w))
after_loop-Charged env req r w (some (model, resp)) s k =
    account-Charged req r model s.gateway k req.key

-- A call that leaves `o` charges the key at most once, and only if it has called the upstream.
abbrev BillsTo : Text → QuotaStore → Option ApiKey → ℤ → QuotaStore → List Payload → Type 0
BillsTo k q key n after sent =
    Charged k q key n after × (sent ≡ [] → usage_of after k ≡ usage_of q k)

abbrev pub Bills : Text → QuotaStore → Option ApiKey → ℤ → Outcome → Type 0
Bills k q key n o = BillsTo k q key n o.gateway.quota_store o.sent

pub forward_step-Bills :
    (env : Env) (req : Request) (r : ChatRequest) (d : RouteDecision) (g : Gateway) (w : Writer)
    (k : Text)
    → Bills k g.quota_store req.key (estimate_tokens r.messages) (forward_step env req r d g w)
unfolding forward_step forward_all
forward_step-Bills env req r d g w k =
    let s = forward_all env req.header d.target_model d.fallback_chain r.payload g in
    let same : s.gateway.quota_store ≡ g.quota_store = forward-quota env req.header 0 _ _ in
    (
      subst
          (λ q.
            Charged k q req.key (estimate_tokens r.messages)
              (forward_step env req r d g w).gateway.quota_store)
          same (after_loop-Charged env req r w s.result s k),
      λ e. absurd (forward_step_sends env req r d g w e),
    )

pub refused-BillsTo :
    (k : Text) (q : QuotaStore) (key : Option ApiKey) (n : ℤ) (after : QuotaStore)
    (sent : List Payload)
    → usage_of after k ≡ usage_of q k
    → BillsTo k q key n after sent
refused-BillsTo k q key n after sent e = (unchanged k q after key n e, λ s. e)

-- A first step that keeps the counters may be left out of account.
pub later-BillsTo :
    (k : Text) (p q : QuotaStore) (key : Option ApiKey) (n : ℤ) (after : QuotaStore)
    (sent : List Payload)
    → usage_of p k ≡ usage_of q k
    → BillsTo k p key n after sent
    → BillsTo k q key n after sent
later-BillsTo k p q none n after sent e b = (b.0 ∙ e, λ s. b.1 s ∙ e)
later-BillsTo k p q (some key) n after sent e b = ground (arith, record_tokens_same p q k n e, b)

pub either-Bills :
    (k : Text) (q : QuotaStore) (key : Option ApiKey) (n : ℤ) (b : Bool) (x y : Outcome)
    → Bills k q key n x
    → Bills k q key n y
    → Bills k q key n (if b then x else y)
either-Bills k q key n true x y p s = p
either-Bills k q key n false x y p s = s
