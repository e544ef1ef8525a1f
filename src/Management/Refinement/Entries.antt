-- ===== src/Management/Refinement/Entries.antt =====
-- The key handlers of internal/api/management.go do what Outcomes allows.
use ai_proxy_centranity.Base.{true, if◌then◌else◌, ℕ, ◌≡◌, refl, arith, Option, none, some, List}
use ai_proxy_centranity.Base.Text.{is_empty, Text}
use ai_proxy_centranity.Http.{Writer, Decoded, decoded, malformed}
use ai_proxy_centranity.Management.State.{Console, Visit}
use ai_proxy_centranity.Management.Outcomes.{read, Outcome}
use ai_proxy_centranity.Base.Assoc.{exists, lookup, insert}
use ai_proxy_centranity.Management.Filing.{KeysFiled}
use ai_proxy_centranity.Base.{Option-cases, Bool-cases, inl, inr}
use ai_proxy_centranity.Auth
use ai_proxy_centranity.Auth.{ApiKey, KeyStore}
use ai_proxy_centranity.Management.Keys
use ai_proxy_centranity.Management.Keys.{KeyRequest, find_key}
use ai_proxy_centranity.Management.Filing.{find_key-IsFiled, find_key-exists}
use ai_proxy_centranity.Management.Outcomes.{key_created, key_updated, key_deleted}
use ai_proxy_centranity.Management.Operations
use ai_proxy_centranity.Management.Operations.{Operation, resource_of, is_read, perform}
use ai_proxy_centranity.Management.Refinement.Replies.{
  fail, logged, status_of-write_json, status_of-write_doc, status_of-write_header,
}

-- A key that the store has under its hash is overwritten.
pub update_stored :
    (h : Text) (l : ApiKey) (s : KeyStore)
    → l.hash ≡ h
    → exists (lookup h s) ≡ true
    → Auth.update s l ≡ some (insert h l s)
unfolding Auth.update
update_stored h l s e there = rw (e, there) refl

module _ (v : Visit) (c : Console) (w : Writer) (unsent : w.sent ≡ none) where
  pub create_key-generated :
      (b : Option (List ℕ)) (d : Decoded KeyRequest) (r : KeyRequest) (g : Option (Text × ApiKey))
      (s : KeyStore)
      → c.key_store ≡ some s
      → Outcome v c (Operations.create_key b d) (Keys.create_generated v r g s c w)
  unfolding Auth.create resource_of
  create_key-generated b d r none s e = fail v c w unsent _ 500 _ (ground arith)
  create_key-generated b d r (some (raw_key, k)) s e =
      logged v c w unsent _ _ 201 _ (status_of-write_json 201 _ w unsent) (ground arith)
        (key_created s (Keys.apply_limits r k) b d e)

  pub create_key-in :
      (hash_key : Text → Text) (b : Option (List ℕ)) (d : Decoded KeyRequest) (s : Option KeyStore)
      → c.key_store ≡ s
      → Outcome v c (Operations.create_key b d) (Keys.create_in hash_key v b d s c w)
  create_key-in hash_key b d none e = fail v c w unsent _ 500 _ (ground arith)
  create_key-in hash_key b (malformed m) (some s) e = fail v c w unsent _ 400 _ (ground arith)
  create_key-in hash_key b (decoded r) (some s) e = elim (Bool-cases (is_empty r.name)) [
    | inl y ↦ rw (y) (fail v c w unsent (Operations.create_key b (decoded r)) 400 _ (ground arith))
    | inr n ↦ rw (n) (create_key-generated b (decoded r) r _ s e)
  ]

  pub update_key-in :
      (d : Decoded KeyRequest) (s : Option KeyStore)
      → c.key_store ≡ s
      → KeysFiled s
      → Outcome v c (Operations.update_key d) (Keys.update_in v d s c w)
  unfolding Auth.update resource_of Keys.apply_update Keys.apply_limits
  update_key-in d none e f = fail v c w unsent _ 500 _ (ground arith)
  update_key-in (malformed m) (some s) e f = fail v c w unsent _ 400 _ (ground arith)
  update_key-in (decoded r) (some s) e f = elim (Option-cases (find_key v.path_value s)) [
    | inl n ↦ rw (n) (fail v c w unsent (Operations.update_key (decoded r)) 404 _ (ground arith))
    | inr ((h, k), m) ↦
        let l = Keys.apply_update r (v.now 0) k in
        rw
          (
            m,
            update_stored h l s (find_key-IsFiled v.path_value s h k m f)
                (find_key-exists v.path_value s h k m),
          )
          (logged v c w unsent (Operations.update_key (decoded r)) _ 200 _
            (status_of-write_doc _ w unsent) (ground arith)
            (key_updated s h k l (decoded r) e m refl refl))
  ]

  pub delete_key-found :
      (s : KeyStore) (h : Text) (k : ApiKey)
      → c.key_store ≡ some s
      → find_key v.path_value s ≡ some (h, k)
      → KeysFiled (some s)
      → Outcome v c Operations.delete_key (
          if is_empty k.hash
          then Keys.not_found c w
          else Keys.delete_stored v (Auth.delete s k.hash) c w)
  unfolding Auth.delete resource_of
  delete_key-found s h k e m f = elim (Bool-cases (is_empty h)) [
    | inl y ↦
        rw (find_key-IsFiled v.path_value s h k m f, y)
          (fail v c w unsent Operations.delete_key 404 _ (ground arith))
    | inr n ↦
        rw (find_key-IsFiled v.path_value s h k m f, n, find_key-exists v.path_value s h k m)
          (logged v c w unsent Operations.delete_key _ 204 _ (status_of-write_header 204 w unsent)
            (ground arith) (key_deleted s h k e m))
  ]

  pub delete_key-in :
      (s : Option KeyStore)
      → c.key_store ≡ s
      → KeysFiled s
      → Outcome v c Operations.delete_key (Keys.delete_in v s c w)
  unfolding is_empty
  delete_key-in none e f = fail v c w unsent _ 500 _ (ground arith)
  delete_key-in (some s) e f = elim (Option-cases (find_key v.path_value s)) [
    | inl n ↦ rw (n) (fail v c w unsent Operations.delete_key 404 _ (ground arith))
    | inr ((h, k), m) ↦ rw (m) (delete_key-found s h k e m f)
  ]

  pub list_keys-in : (s : Option KeyStore) → Outcome v c Operations.list_keys (Keys.list_in v s c w)
  unfolding is_read
  list_keys-in none = fail v c w unsent _ 500 _ (ground arith)
  list_keys-in (some s) = read _ refl
