-- ===== src/Management/Refinement.antt =====
-- The handlers of internal/api/management.go do what Outcomes allows.
pub mod Replies
pub mod Profiles
pub mod Entries
use ai_proxy_centranity.Base.{
  [], ◌∷◌, ◌<◌, if◌then◌else◌, ◌≤◌, ℕ, ◌≡◌, refl, sym, subst, arith, true, false, Option, none,
  some, List,
}
use ai_proxy_centranity.Base.Text.{is_empty, Text, text}
use ai_proxy_centranity.Http.{
  Json, Writer, Decoded, decoded, malformed, status_of, write_json, write, set, write_header,
}
use ai_proxy_centranity.Management.State.{Console, Visit, log_change, write_json_error, write_doc}
use ai_proxy_centranity.Management.Outcomes.{
  read, profile_updated, Edit, Outcome, refused, done, profile_created,
}
use ai_proxy_centranity.Base.Assoc.{
  lookup-insert_self, exists, lookup, insert, insert-insert, All-lookup,
}
use ai_proxy_centranity.Proxy
use ai_proxy_centranity.Proxy.{Profile}
use ai_proxy_centranity.Management.Filing.{IsFiled, KeysFiled, ProxiesFiled}
use ai_proxy_centranity.Base.{Option-cases, Bool-cases, inl, inr, true, false}
use ai_proxy_centranity.Auth
use ai_proxy_centranity.Auth.{ApiKey, KeyStore}
use ai_proxy_centranity.Policy
use ai_proxy_centranity.Routing.Engine
use ai_proxy_centranity.Management.Keys
use ai_proxy_centranity.Management.Keys.{KeyRequest, find_key}
use ai_proxy_centranity.Management.Settings
use ai_proxy_centranity.Management.Filing.{find_key-IsFiled, find_key-exists}
use ai_proxy_centranity.Management.Outcomes.{
  profile_deleted, key_created, key_updated, key_deleted, policies_set, route_set, route_deleted,
}
use ai_proxy_centranity.Management.Operations
use ai_proxy_centranity.Management.Proxies
use ai_proxy_centranity.Management.Operations.{Operation, resource_of, is_read, perform}
use ai_proxy_centranity.Management.Refinement.Replies.{
  fail, logged, status_of-write_json, status_of-write_doc, status_of-write_header,
}
use ai_proxy_centranity.Management.Refinement.Profiles.{
  create_proxy-Outcome, update_proxy-in, delete_proxy-in, get_proxy-in,
}
use ai_proxy_centranity.Management.Refinement.Entries.{
  create_key-in, update_key-in, delete_key-in, list_keys-in,
}

module _ (v : Visit) (c : Console) (w : Writer) (unsent : w.sent ≡ none) where
  update_policies-in :
      (r : Settings.PoliciesRequest) (e : Option Policy.Engine)
      → c.policy_engine ≡ e
      → Outcome v c (Operations.update_policies (decoded r)) (Settings.deny_in v r e c w)
  unfolding resource_of
  update_policies-in r none h = fail v c w unsent _ 500 _ (ground arith)
  update_policies-in r (some e) h =
      logged v c w unsent _ _ 200 _ (status_of-write_header 200 w unsent) (ground arith)
        (policies_set e r h)

  update_route-in :
      (ts : List Text)
      → Outcome v c (Operations.update_route (decoded ts)) (Settings.set_targets v ts c w)
  unfolding resource_of
  update_route-in [] = fail v c w unsent _ 400 _ (ground arith)
  update_route-in (t ∷ ts) =
      logged v c w unsent _ _ 200 _ (status_of-write_header 200 w unsent) (ground arith)
        (route_set t ts)

  delete_route-in :
      (e : Option Engine.Engine)
      → Engine.delete_alias c.route_engine v.path_value ≡ e
      → Outcome v c Operations.delete_route (Settings.deleted_route v e c w)
  unfolding resource_of
  delete_route-in none h = fail v c w unsent _ 404 _ (ground arith)
  delete_route-in (some e) h =
      logged v c w unsent _ _ 204 _ (status_of-write_header 204 w unsent) (ground arith)
        (route_deleted e h)

  -- For a request to a console whose stores are in order and a response not yet begun, every operation
  -- of the management API ends in one of the ways that Outcomes allows.
  pub perform-Outcome :
      (hash_key : Text → Text) (op : Operation)
      → IsFiled c
      → Outcome v c op (perform hash_key op v c w)
  unfolding perform is_read Settings.update_policies Settings.update_route Settings.delete_route
      Settings.get_system Settings.get_overview Settings.get_policies Settings.list_routes
      Keys.create_key Keys.update_key Keys.delete_key Keys.list_keys Proxies.get_proxy
      Proxies.get_proxies Proxies.update_proxy Proxies.delete_proxy
  perform-Outcome hash_key (Operations.get_system r) f = read _ refl
  perform-Outcome hash_key (Operations.get_overview u) f = read _ refl
  perform-Outcome hash_key Operations.get_proxies f = read _ refl
  perform-Outcome hash_key (Operations.create_proxy b r) f = create_proxy-Outcome v c w unsent b r
  perform-Outcome hash_key Operations.get_proxy f = get_proxy-in v c w unsent _
  perform-Outcome hash_key (Operations.update_proxy r) f = update_proxy-in v c w unsent r _ refl f
  perform-Outcome hash_key Operations.delete_proxy f = delete_proxy-in v c w unsent _ refl
  perform-Outcome hash_key Operations.list_keys f = list_keys-in v c w unsent _
  perform-Outcome hash_key (Operations.create_key b r) f =
      create_key-in v c w unsent hash_key b r _ refl
  perform-Outcome hash_key (Operations.update_key r) f = update_key-in v c w unsent r _ refl (f.0)
  perform-Outcome hash_key Operations.delete_key f = delete_key-in v c w unsent _ refl (f.0)
  perform-Outcome hash_key Operations.get_policies f = read _ refl
  perform-Outcome hash_key (Operations.update_policies (malformed m)) f =
      fail v c w unsent _ 400 _ (ground arith)
  perform-Outcome hash_key (Operations.update_policies (decoded r)) f = update_policies-in r _ refl
  perform-Outcome hash_key Operations.list_routes f = read _ refl
  perform-Outcome hash_key (Operations.update_route (malformed m)) f =
      fail v c w unsent _ 400 _ (ground arith)
  perform-Outcome hash_key (Operations.update_route (decoded ts)) f = update_route-in ts
  perform-Outcome hash_key Operations.delete_route f = delete_route-in _ refl
