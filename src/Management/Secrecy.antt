-- ===== src/Management/Secrecy.antt =====
-- What internal/api/management.go shows of the credentials in the profiles of internal/proxy.
use ai_proxy_centranity.Base.{
  inr, inl, Option-cases, Bool-cases, ℕ, ◌≡◌, refl, ap, Option, none, some, List, [], ◌∷◌, length,
  suc,
}
use ai_proxy_centranity.Base.Text.{Text, ◌==◌}
use ai_proxy_centranity.Base.Assoc.{lookup}
use ai_proxy_centranity.Http.{arr, Writer, Decoded, decoded, malformed, cons}
use ai_proxy_centranity.Proxy
use ai_proxy_centranity.Proxy.{Profile}
use ai_proxy_centranity.Management.State.{Console, Visit}
use ai_proxy_centranity.Management.Operations
use ai_proxy_centranity.Management.Operations.{Operation, perform}
use ai_proxy_centranity.Management.Proxies
use ai_proxy_centranity.Base.Text.{is_empty}
use ai_proxy_centranity.Auth
use ai_proxy_centranity.Auth.{ApiKey, KeyStore, generate_api_key}
use ai_proxy_centranity.Policy
use ai_proxy_centranity.Routing.Engine
use ai_proxy_centranity.Management.Keys
use ai_proxy_centranity.Management.Keys.{KeyRequest, find_key}
use ai_proxy_centranity.Management.Settings

-- A store whose profiles have no credentials.
abbrev blank : Profile → Profile
blank p = record p { username = []; password = [] }

abbrev blank_store : Proxy.Store → Proxy.Store
blank_store [] = []
blank_store ((id, p) ∷ s) = (id, blank p) ∷ blank_store s

abbrev blank_stored : Option Proxy.Store → Option Proxy.Store
blank_stored none = none
blank_stored (some s) = some (blank_store s)

abbrev pub blank_credentials : Console → Console
blank_credentials c = record c { proxy_store = blank_stored c.proxy_store }

blank_found : Option Profile → Option Profile
blank_found none = none
blank_found (some p) = some (blank p)

lookup-blank_store :
    (id : Text) (s : Proxy.Store) → lookup id (blank_store s) ≡ blank_found (lookup id s)
unfolding lookup blank_found
lookup-blank_store id [] = refl
lookup-blank_store id ((j, p) ∷ s) = elim (Bool-cases (j == id)) [
  | inl y ↦ rw (lookup, y) refl
  | inr n ↦ rw (lookup, n) (lookup-blank_store id s)
]

profile_docs-blank :
    (t : ℕ → Text) (s : Proxy.Store)
    → Proxies.profile_docs t (Proxy.list (blank_store s)) ≡ Proxies.profile_docs t (Proxy.list s)
unfolding Proxies.profile_docs Proxies.profile_doc Proxy.list
profile_docs-blank t [] = refl
profile_docs-blank t ((j, p) ∷ s) = ap (cons (Proxies.profile_doc t p)) (profile_docs-blank t s)

length-blank_store : (s : Proxy.Store) → length (Proxy.list (blank_store s)) ≡ length (Proxy.list s)
unfolding Proxy.list
length-blank_store [] = refl
length-blank_store ((j, p) ∷ s) = ap suc (length-blank_store s)

module _ (v : Visit) (c d : Console) (w : Writer) where
  get_proxies-blank :
      (s : Option Proxy.Store)
      → Proxies.list_doc v.show_time (blank_stored s) ≡ Proxies.list_doc v.show_time s
  get_proxies-blank none = refl
  get_proxies-blank (some s) = ap arr (profile_docs-blank v.show_time s)

  count_proxies-blank :
      (s : Option Proxy.Store) → Settings.count_proxies (blank_stored s) ≡ Settings.count_proxies s
  count_proxies-blank none = refl
  count_proxies-blank (some s) = length-blank_store s

  create_proxy-blank :
      (p : Profile) (s : Option Proxy.Store)
      → (Proxies.create_in v p (blank_stored s) d w).1 ≡ (Proxies.create_in v p s c w).1
  create_proxy-blank p none = refl
  create_proxy-blank p (some s) = refl

  get_proxy-blank :
      (s : Option Proxy.Store)
      → (Proxies.get_in v (blank_stored s) d w).1 ≡ (Proxies.get_in v s c w).1
  unfolding Proxy.get Proxies.profile_doc blank_found
  get_proxy-blank none = refl
  get_proxy-blank (some s) = elim (Option-cases (lookup v.path_value s)) [
    | inl n ↦ rw (lookup-blank_store, n) refl
    | inr (p, m) ↦ rw (lookup-blank_store, m) refl
  ]

  update_proxy-blank :
      (r : Decoded Proxies.ProxyRequest) (s : Option Proxy.Store)
      → (Proxies.update_in v r (blank_stored s) d w).1 ≡ (Proxies.update_in v r s c w).1
  unfolding Proxy.get Proxies.profile_doc Proxies.apply_fields blank_found
  update_proxy-blank r none = refl
  update_proxy-blank (malformed m) (some s) = elim (Option-cases (lookup v.path_value s)) [
    | inl n ↦ rw (lookup-blank_store, n) refl
    | inr (p, m) ↦ rw (lookup-blank_store, m) refl
  ]
  update_proxy-blank (decoded r) (some s) = elim (Option-cases (lookup v.path_value s)) [
    | inl n ↦ rw (lookup-blank_store, n) refl
    | inr (p, m) ↦ rw (lookup-blank_store, m) refl
  ]

  delete_proxy-blank :
      (s : Option Proxy.Store)
      → (Proxies.delete_in v (blank_stored s) d w).1 ≡ (Proxies.delete_in v s c w).1
  unfolding Proxy.delete blank_found
  delete_proxy-blank none = refl
  delete_proxy-blank (some s) = elim (Option-cases (lookup v.path_value s)) [
    | inl n ↦ rw (lookup-blank_store, n) refl
    | inr (p, m) ↦ rw (lookup-blank_store, m) refl
  ]

  stored-console :
      (k : ApiKey) (t : Option KeyStore)
      → (Keys.store_updated v k t d w).1 ≡ (Keys.store_updated v k t c w).1
  stored-console k none = refl
  stored-console k (some t) = refl

  deleted-console :
      (t : Option KeyStore) → (Keys.delete_stored v t d w).1 ≡ (Keys.delete_stored v t c w).1
  deleted-console none = refl
  deleted-console (some t) = refl

  list_keys-console : (s : Option KeyStore) → (Keys.list_in v s d w).1 ≡ (Keys.list_in v s c w).1
  list_keys-console none = refl
  list_keys-console (some s) = refl

  policies-console :
      (r : Settings.PoliciesRequest) (e : Option Policy.Engine)
      → (Settings.deny_in v r e d w).1 ≡ (Settings.deny_in v r e c w).1
  policies-console r none = refl
  policies-console r (some e) = refl

  update_route-console :
      (ts : List Text) → (Settings.set_targets v ts d w).1 ≡ (Settings.set_targets v ts c w).1
  update_route-console [] = refl
  update_route-console (t ∷ ts) = refl

  delete_route-console :
      (e : Option Engine.Engine)
      → (Settings.deleted_route v e d w).1 ≡ (Settings.deleted_route v e c w).1
  delete_route-console none = refl
  delete_route-console (some e) = refl

  create_key-console :
      (hash_key : Text → Text) (b : Option (List ℕ)) (r : Decoded KeyRequest) (s : Option KeyStore)
      → (Keys.create_in hash_key v b r s d w).1 ≡ (Keys.create_in hash_key v b r s c w).1
  create_key-console hash_key b r none = refl
  create_key-console hash_key b (malformed m) (some s) = refl
  create_key-console hash_key b (decoded r) (some s) = elim (Bool-cases (is_empty r.name)) [
    | inl y ↦ rw (y) refl
    | inr n ↦ elim (Option-cases (generate_api_key hash_key b (v.now 0) r.name)) [
      | inl g ↦ rw (n, g) refl
      | inr (g, h) ↦ rw (n, h) refl
    ]
  ]

  update_key-console :
      (r : Decoded KeyRequest) (s : Option KeyStore)
      → (Keys.update_in v r s d w).1 ≡ (Keys.update_in v r s c w).1
  unfolding Auth.update
  update_key-console r none = refl
  update_key-console (malformed m) (some s) = refl
  update_key-console (decoded r) (some s) = elim (Option-cases (find_key v.path_value s)) [
    | inl n ↦ rw (n) refl
    | inr ((h, k), m) ↦ rw (m) (stored-console _ (Auth.update s (Keys.apply_update r (v.now 0) k)))
  ]

  delete_key-console :
      (s : Option KeyStore) → (Keys.delete_in v s d w).1 ≡ (Keys.delete_in v s c w).1
  delete_key-console none = refl
  delete_key-console (some s) =
      let h = Keys.hash_of (find_key v.path_value s) in
      elim (Bool-cases (is_empty h)) [
        | inl y ↦ rw (y) refl
        | inr n ↦ rw (n) (deleted-console (Auth.delete s h))
      ]

-- No response of the management API depends on the user names and the passwords in the stored
-- profiles: with all of them removed, each operation answers the same.
pub perform-blank_credentials :
    (hash_key : Text → Text) (op : Operation) (v : Visit) (c : Console) (w : Writer)
    → (perform hash_key op v (blank_credentials c) w).1 ≡ (perform hash_key op v c w).1
unfolding perform Settings.update_policies Settings.update_route Settings.delete_route
    Settings.get_system Settings.get_overview Settings.get_policies Settings.list_routes
    Keys.create_key Keys.update_key Keys.delete_key Keys.list_keys Proxies.get_proxies
    Proxies.get_proxy Proxies.create_proxy Proxies.update_proxy Proxies.delete_proxy
perform-blank_credentials hash_key (Operations.get_system r) v c w = refl
perform-blank_credentials hash_key (Operations.get_overview u) v c w =
    rw (count_proxies-blank v c c w c.proxy_store) refl
perform-blank_credentials hash_key Operations.get_proxies v c w =
    rw (get_proxies-blank v c c w c.proxy_store) refl
perform-blank_credentials hash_key (Operations.create_proxy b (malformed m)) v c w = refl
perform-blank_credentials hash_key (Operations.create_proxy b (decoded r)) v c w =
    elim (Bool-cases (Proxies.lacks_field r)) [
      | inl y ↦ rw (y) refl
      | inr n ↦ rw (n) (create_proxy-blank v c (blank_credentials c) w _ c.proxy_store)
    ]
perform-blank_credentials hash_key Operations.get_proxy v c w =
    get_proxy-blank v c (blank_credentials c) w c.proxy_store
perform-blank_credentials hash_key (Operations.update_proxy r) v c w =
    update_proxy-blank v c (blank_credentials c) w r c.proxy_store
perform-blank_credentials hash_key Operations.delete_proxy v c w =
    delete_proxy-blank v c (blank_credentials c) w c.proxy_store
perform-blank_credentials hash_key Operations.list_keys v c w =
    list_keys-console v c (blank_credentials c) w c.key_store
perform-blank_credentials hash_key (Operations.create_key b r) v c w =
    create_key-console v c (blank_credentials c) w hash_key b r c.key_store
perform-blank_credentials hash_key (Operations.update_key r) v c w =
    update_key-console v c (blank_credentials c) w r c.key_store
perform-blank_credentials hash_key Operations.delete_key v c w =
    delete_key-console v c (blank_credentials c) w c.key_store
perform-blank_credentials hash_key Operations.get_policies v c w = refl
perform-blank_credentials hash_key (Operations.update_policies (malformed m)) v c w = refl
perform-blank_credentials hash_key (Operations.update_policies (decoded r)) v c w =
    policies-console v c (blank_credentials c) w r c.policy_engine
perform-blank_credentials hash_key Operations.list_routes v c w = refl
perform-blank_credentials hash_key (Operations.update_route (malformed m)) v c w = refl
perform-blank_credentials hash_key (Operations.update_route (decoded ts)) v c w =
    update_route-console v c (blank_credentials c) w ts
perform-blank_credentials hash_key Operations.delete_route v c w =
    delete_route-console v c (blank_credentials c) w _
