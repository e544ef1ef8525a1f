-- ===== src/Management/Operations.antt =====
-- The operations of internal/api/management.go as one function: which handler runs with what.
use ai_proxy_centranity.Base.{[], ℕ, Bool, true, false, Option, List}
use ai_proxy_centranity.Base.Text.{Text, text}
use ai_proxy_centranity.Http.{Writer, Decoded}
use ai_proxy_centranity.Ninerouter.{ModelInfo}
use ai_proxy_centranity.Management.State.{Console, Visit}
use ai_proxy_centranity.Management.Proxies
use ai_proxy_centranity.Management.Proxies.{ProxyRequest}
use ai_proxy_centranity.Management.Keys
use ai_proxy_centranity.Management.Keys.{KeyRequest}
use ai_proxy_centranity.Management.Settings
use ai_proxy_centranity.Management.Settings.{Runtime, PoliciesRequest}

-- A handler, with the body that it decodes and the random bytes that it draws.
pub data Operation : Type 0 where
  get_system : Runtime → Operation
  get_overview : Option (Decoded (List ModelInfo)) → Operation
  get_proxies : Operation
  create_proxy : List ℕ → Decoded ProxyRequest → Operation
  get_proxy : Operation
  update_proxy : Decoded ProxyRequest → Operation
  delete_proxy : Operation
  list_keys : Operation
  create_key : Option (List ℕ) → Decoded KeyRequest → Operation
  update_key : Decoded KeyRequest → Operation
  delete_key : Operation
  get_policies : Operation
  update_policies : Decoded PoliciesRequest → Operation
  list_routes : Operation
  update_route : Decoded (List Text) → Operation
  delete_route : Operation

unfoldable pub perform : (Text → Text) → Operation → Visit → Console → Writer → Console × Writer
perform hash_key (get_system r) v c w = Settings.get_system r v c w
perform hash_key (get_overview upstream) v c w = Settings.get_overview upstream v c w
perform hash_key get_proxies v c w = Proxies.get_proxies v c w
perform hash_key (create_proxy bytes request) v c w = Proxies.create_proxy v bytes request c w
perform hash_key get_proxy v c w = Proxies.get_proxy v c w
perform hash_key (update_proxy request) v c w = Proxies.update_proxy v request c w
perform hash_key delete_proxy v c w = Proxies.delete_proxy v c w
perform hash_key list_keys v c w = Keys.list_keys v c w
perform hash_key (create_key bytes request) v c w = Keys.create_key hash_key v bytes request c w
perform hash_key (update_key request) v c w = Keys.update_key v request c w
perform hash_key delete_key v c w = Keys.delete_key v c w
perform hash_key get_policies v c w = Settings.get_policies v c w
perform hash_key (update_policies request) v c w = Settings.update_policies v request c w
perform hash_key list_routes v c w = Settings.list_routes v c w
perform hash_key (update_route request) v c w = Settings.update_route v request c w
perform hash_key delete_route v c w = Settings.delete_route v c w

-- The handlers of GET requests.
unfoldable pub is_read : Operation → Bool
is_read (get_system r) = true
is_read (get_overview upstream) = true
is_read get_proxies = true
is_read (create_proxy bytes request) = false
is_read get_proxy = true
is_read (update_proxy request) = false
is_read delete_proxy = false
is_read list_keys = true
is_read (create_key bytes request) = false
is_read (update_key request) = false
is_read delete_key = false
is_read get_policies = true
is_read (update_policies request) = false
is_read list_routes = true
is_read (update_route request) = false
is_read delete_route = false

-- The resource that the audit event of a change names.
unfoldable pub resource_of : Operation → Text
resource_of (create_proxy bytes request) = text "proxies"
resource_of (update_proxy request) = text "proxies"
resource_of delete_proxy = text "proxies"
resource_of (create_key bytes request) = text "keys"
resource_of (update_key request) = text "keys"
resource_of delete_key = text "keys"
resource_of (update_policies request) = text "policies"
resource_of (update_route request) = text "routes"
resource_of delete_route = text "routes"
resource_of _ = []
