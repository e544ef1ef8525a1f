-- ===== src/Management/Refinement/Profiles.antt =====
-- The proxy handlers of internal/api/management.go do what Outcomes allows.
use ai_proxy_centranity.Base.{
  if◌then◌else◌, ℕ, ◌≡◌, refl, sym, subst, arith, true, false, Option, none, some, List,
}
use ai_proxy_centranity.Base.Text.{Text, text}
use ai_proxy_centranity.Http.{Writer, Decoded, decoded, malformed, write_json}
use ai_proxy_centranity.Management.State.{Console, Visit, log_change, write_json_error}
use ai_proxy_centranity.Management.Outcomes.{read, profile_updated, Outcome, profile_created}
use ai_proxy_centranity.Base.Assoc.{lookup, insert, insert-insert, All-lookup}
use ai_proxy_centranity.Proxy
use ai_proxy_centranity.Proxy.{Profile}
use ai_proxy_centranity.Management.Filing.{KeysFiled, ProxiesFiled}
use ai_proxy_centranity.Base.{Option-cases, inl, inr, true, false}
use ai_proxy_centranity.Management.Outcomes.{profile_deleted}
use ai_proxy_centranity.Management.Operations
use ai_proxy_centranity.Management.Proxies
use ai_proxy_centranity.Management.Operations.{Operation, resource_of, is_read, perform}
use ai_proxy_centranity.Management.Refinement.Replies.{
  fail, logged, status_of-write_json, status_of-write_header,
}

-- What is changed in place and then saved is saved once.
saved_twice :
    (id : Text) (q : Profile) (s : Proxy.Store)
    → q.id ≡ id
    → Proxy.save (insert id q s) q ≡ insert id q s
unfolding Proxy.save
saved_twice id q s e =
    subst (λ k. insert k q (insert id q s) ≡ insert id q s) (sym e) (insert-insert id q q s)

module _ (v : Visit) (c : Console) (w : Writer) (unsent : w.sent ≡ none) where
  pub create_proxy-in :
      (b : List ℕ) (r : Decoded Proxies.ProxyRequest) (p : Profile) (s : Option Proxy.Store)
      → c.proxy_store ≡ s
      → Outcome v c (Operations.create_proxy b r) (Proxies.create_in v p s c w)
  unfolding Proxy.save resource_of
  create_proxy-in b r p none e = fail v c w unsent _ 500 _ (ground arith)
  create_proxy-in b r p (some s) e =
      logged v c w unsent (Operations.create_proxy b r) _ 201 _
        (status_of-write_json 201 _ w unsent) (ground arith) (profile_created s p b r e)

  pub create_proxy-Outcome :
      (b : List ℕ) (r : Decoded Proxies.ProxyRequest)
      → Outcome v c (Operations.create_proxy b r) (Proxies.create_proxy v b r c w)
  unfolding Proxies.create_proxy
  create_proxy-Outcome b (malformed e) = fail v c w unsent _ 400 _ (ground arith)
  create_proxy-Outcome b (decoded r) =
      elim (Proxies.lacks_field r)
        as (λ t. Outcome v c (Operations.create_proxy b (decoded r)) (
          if t
          then (c, write_json_error 400 (text "name, type, host, port required") w)
          else Proxies.create_in v (Proxies.new_profile v b r) c.proxy_store c w)) [
            | true ↦ fail v c w unsent _ 400 _ (ground arith)
            | false ↦ create_proxy-in b (decoded r) _ _ refl
          ]

  pub update_proxy-found :
      (r : Decoded Proxies.ProxyRequest) (s : Proxy.Store) (p : Option Profile)
      → c.proxy_store ≡ some s
      → lookup v.path_value s ≡ p
      → KeysFiled c.key_store × ProxiesFiled (some s)
      → Outcome v c (Operations.update_proxy r) (Proxies.update_found v r s p c w)
  unfolding Proxy.save resource_of Proxies.apply_fields
  update_proxy-found r s none e l f = fail v c w unsent _ 404 _ (ground arith)
  update_proxy-found (malformed m) s (some p) e l f = fail v c w unsent _ 400 _ (ground arith)
  update_proxy-found (decoded r) s (some p) e l f =
      let q = Proxies.apply_fields r (v.now 0) p in
      let x = write_json 200 (Proxies.profile_doc v.show_time q) w in
      let refiled =
        saved_twice v.path_value q s (All-lookup (λ (id, p). p.id ≡ id) v.path_value p s l (f.1)) in
      subst
        (λ s'.
          Outcome v c (Operations.update_proxy (decoded r))
            (log_change v (text "proxies") (record c { proxy_store = some s' }), x))
        (sym refiled)
        (logged v c w unsent _ _ 200 x (status_of-write_json 200 _ w unsent) (ground arith)
          (profile_updated s p q (decoded r) e l refl))

  pub update_proxy-in :
      (r : Decoded Proxies.ProxyRequest) (s : Option Proxy.Store)
      → c.proxy_store ≡ s
      → KeysFiled c.key_store × ProxiesFiled s
      → Outcome v c (Operations.update_proxy r) (Proxies.update_in v r s c w)
  unfolding Proxy.get
  update_proxy-in r none e f = fail v c w unsent _ 500 _ (ground arith)
  update_proxy-in r (some s) e f = update_proxy-found r s _ e refl f

  pub delete_proxy-in :
      (s : Option Proxy.Store)
      → c.proxy_store ≡ s
      → Outcome v c Operations.delete_proxy (Proxies.delete_in v s c w)
  unfolding Proxy.delete resource_of
  delete_proxy-in none e = fail v c w unsent _ 500 _ (ground arith)
  delete_proxy-in (some s) e = elim (Option-cases (lookup v.path_value s)) [
    | inl n ↦ rw (n) (fail v c w unsent Operations.delete_proxy 404 _ (ground arith))
    | inr (p, f) ↦ rw (f) (
        logged v c w unsent Operations.delete_proxy _ 204 _ (status_of-write_header 204 w unsent)
          (ground arith) (profile_deleted s p e f))
  ]

  pub get_proxy-found :
      (p : Option Profile) → Outcome v c Operations.get_proxy (Proxies.show_found v p c w)
  unfolding is_read
  get_proxy-found none = fail v c w unsent _ 404 _ (ground arith)
  get_proxy-found (some p) = read _ refl

  pub get_proxy-in :
      (s : Option Proxy.Store) → Outcome v c Operations.get_proxy (Proxies.get_in v s c w)
  get_proxy-in none = fail v c w unsent _ 500 _ (ground arith)
  get_proxy-in (some s) = get_proxy-found _
