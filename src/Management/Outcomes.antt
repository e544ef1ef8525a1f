-- ===== src/Management/Outcomes.antt =====
-- What the management API of internal/api/management.go promises: which change of the state each
-- operation may make, and when it makes one.
use ai_proxy_centranity.Base.{ℕ, ◌≡◌, ◌≤◌, ◌<◌, true, Option, some, List, ◌∷◌}
use ai_proxy_centranity.Base.Text.{Text}
use ai_proxy_centranity.Base.Assoc.{insert, lookup, remove}
use ai_proxy_centranity.Auth.{ApiKey, KeyStore}
use ai_proxy_centranity.Http.{Writer, Decoded, decoded, status_of}
use ai_proxy_centranity.Policy
use ai_proxy_centranity.Proxy
use ai_proxy_centranity.Proxy.{Profile}
use ai_proxy_centranity.Routing.Engine
use ai_proxy_centranity.Management.State.{Console, Visit, log_change}
use ai_proxy_centranity.Management.Keys.{find_key}
use ai_proxy_centranity.Management.Operations
use ai_proxy_centranity.Management.Proxies
use ai_proxy_centranity.Management.Keys
use ai_proxy_centranity.Management.Settings
use ai_proxy_centranity.Management.Operations.{Operation, is_read, resource_of}

-- The state after an operation that is carried out, less its audit event. Who a key or a profile is,
-- and a key's hash, stay as they are.
pub data Edit (v : Visit) (c : Console) : Operation → Console → Type 0 where
  profile_created :
      (s : Proxy.Store) (p : Profile) (b : List ℕ) (r : Decoded Proxies.ProxyRequest)
      → c.proxy_store ≡ some s
      → Edit v c (Operations.create_proxy b r) (record c { proxy_store = some (insert p.id p s) })
  profile_updated :
      (s : Proxy.Store) (p q : Profile) (r : Decoded Proxies.ProxyRequest)
      → c.proxy_store ≡ some s
      → lookup v.path_value s ≡ some p
      → q.id ≡ p.id
      → Edit v c
          (Operations.update_proxy r)
          (record c { proxy_store = some (insert v.path_value q s) })
  profile_deleted :
      (s : Proxy.Store) (p : Profile)
      → c.proxy_store ≡ some s
      → lookup v.path_value s ≡ some p
      → Edit v c Operations.delete_proxy (record c { proxy_store = some (remove v.path_value s) })
  key_created :
      (s : KeyStore) (k : ApiKey) (b : Option (List ℕ)) (r : Decoded Keys.KeyRequest)
      → c.key_store ≡ some s
      → Edit v c (Operations.create_key b r) (record c { key_store = some (insert k.hash k s) })
  key_updated :
      (s : KeyStore) (h : Text) (k l : ApiKey) (r : Decoded Keys.KeyRequest)
      → c.key_store ≡ some s
      → find_key v.path_value s ≡ some (h, k)
      → l.id ≡ k.id
      → l.hash ≡ k.hash
      → Edit v c (Operations.update_key r) (record c { key_store = some (insert h l s) })
  key_deleted :
      (s : KeyStore) (h : Text) (k : ApiKey)
      → c.key_store ≡ some s
      → find_key v.path_value s ≡ some (h, k)
      → Edit v c Operations.delete_key (record c { key_store = some (remove h s) })
  policies_set :
      (e : Policy.Engine) (r : Settings.PoliciesRequest)
      → c.policy_engine ≡ some e
      → Edit v c
          (Operations.update_policies (decoded r))
          (record c { policy_engine = some (Policy.set_global_deny e r.models r.providers) })
  route_set :
      (t : Text) (ts : List Text)
      → Edit v c
          (Operations.update_route (decoded (t ∷ ts)))
          (record c { route_engine = Engine.set_alias c.route_engine v.path_value (t ∷ ts) })
  route_deleted :
      (e : Engine.Engine)
      → Engine.delete_alias c.route_engine v.path_value ≡ some e
      → Edit v c Operations.delete_route (record c { route_engine = e })

-- The state is as it was, and the operation only reads or the response is an error; or the edit is
-- made, its event is logged, and the response is no error.
pub data Outcome (v : Visit) (c : Console) (op : Operation) : Console × Writer → Type 0 where
  read : (w : Writer) → is_read op ≡ true → Outcome v c op (c, w)
  refused : (w : Writer) → 400 ≤ status_of w → Outcome v c op (c, w)
  done :
      (w : Writer) (d : Console)
      → Edit v c op d
      → status_of w < 300
      → Outcome v c op (log_change v (resource_of op) d, w)
