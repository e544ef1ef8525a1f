-- ===== src/Management/Effects.antt =====
-- What the key operations of internal/api/management.go do to the requests of the data plane, which
-- internal/auth/middleware.go lets in.
use ai_proxy_centranity.Base.{
  subst, [], Option-cases, ◌++◌, List, ◌⊎◌, if◌then◌else◌, ℕ, ◌≡◌, ◌≢◌, refl, sym, ap, ◌∙◌, arith,
  true, false, Option, none, some, Bool-cases, inl, inr,
}
use ai_proxy_centranity.Base.Text.{text, is_empty, Text, ◌==◌, eq_iff}
use ai_proxy_centranity.Base.Assoc.{lookup, insert, remove, lookup-insert, lookup-remove}
use ai_proxy_centranity.Auth
use ai_proxy_centranity.Auth.{
  is_expired, bearer, generate_api_key, ApiKey, KeyStore, get_by_hash, authenticate, accepted,
}
use ai_proxy_centranity.Auth.Access.{get_by_hash-create, token_of, authenticate_iff}
use ai_proxy_centranity.Http.{str, field, obj, write_json, Fields, Writer, decoded}
use ai_proxy_centranity.Management.State.{log_change, Console, Visit}
use ai_proxy_centranity.Management.Filing.{KeysFiled, find_key-IsFiled, find_key-exists}
use ai_proxy_centranity.Management.Keys
use ai_proxy_centranity.Management.Keys.{KeyRequest, find_key}
use ai_proxy_centranity.Management.Refinement.Entries.{update_stored}
use ai_proxy_centranity.Auth.Generated.{generate-authenticate}

-- A header whose token has this hash is not let in any more; every other one is judged as before.
abbrev pub IsLockedOut : (Text → Text) → Text → KeyStore → KeyStore → Text → ℕ → Type 0
IsLockedOut hash_key h before after header now =
    ((hash_key (token_of header) ≡ h)
      × ((key : ApiKey) → authenticate hash_key after now header ≢ accepted key))
    ⊎ ((hash_key (token_of header) ≢ h)
        × (authenticate hash_key after now header ≡ authenticate hash_key before now header))

authenticate_congr :
    (hash_key : Text → Text) (s t : KeyStore) (now : ℕ) (header : Text)
    → get_by_hash s (hash_key (token_of header)) ≡ get_by_hash t (hash_key (token_of header))
    → authenticate hash_key s now header ≡ authenticate hash_key t now header
unfolding authenticate
authenticate_congr hash_key s t now header e = rw (e)

-- A change of what stands under one hash, to nothing or to a key that is not enabled.
locks_out :
    (hash_key : Text → Text) (h : Text) (before after : KeyStore) (found : Option ApiKey)
    (header : Text) (now : ℕ)
    → ((key : ApiKey) → found ≡ some key → key.enabled ≡ false)
    → ((g : Text) → get_by_hash after g ≡ (if h == g then found else get_by_hash before g))
    → IsLockedOut hash_key h before after header now
locks_out hash_key h before after found header now dead rest =
    let g = hash_key (token_of header) in
    elim (Bool-cases (h == g)) [
      | inl y ↦ inl (
        sym ((eq_iff h g).0 y),
        λ key e.
            let (p, t, there, live) = (authenticate_iff hash_key after now header key).0 e in
            let off = dead key (
              sym (ap (λ b. if b then found else get_by_hash before g) y)
              ∙ (sym (rest g) ∙ there)) in
            ground (arith, off, live),
      )
      | inr n ↦ inr (
        λ same. ground (arith, eq_iff h g, same, n),
        authenticate_congr hash_key after before now header
            (rest g ∙ ap (λ b. if b then found else get_by_hash before g) n),
      )
    ]

-- A request that finds a key replaces exactly the entry of that key.
update_key-replaces :
    (v : Visit) (r : KeyRequest) (c : Console) (w : Writer) (s : KeyStore) (h : Text) (k : ApiKey)
    → c.key_store ≡ some s
    → KeysFiled (some s)
    → find_key v.path_value s ≡ some (h, k)
    → (Keys.update_key v (decoded r) c w).0.key_store
      ≡ some (insert h (Keys.apply_update r (v.now 0) k) s)
unfolding Keys.update_key Keys.apply_update Keys.apply_limits log_change
update_key-replaces v r c w s h k e f m =
    let l = Keys.apply_update r (v.now 0) k in
    rw (
      e,
      m,
      update_stored h l s (find_key-IsFiled v.path_value s h k m f)
          (find_key-exists v.path_value s h k m),
    )

delete_key-removes :
    (v : Visit) (c : Console) (w : Writer) (s : KeyStore) (h : Text) (k : ApiKey)
    → c.key_store ≡ some s
    → KeysFiled (some s)
    → find_key v.path_value s ≡ some (h, k)
    → is_empty h ≡ false
    → (Keys.delete_key v c w).0.key_store ≡ some (remove h s)
unfolding Keys.delete_key Auth.delete log_change
delete_key-removes v c w s h k e f m n =
    rw (e, m, find_key-IsFiled v.path_value s h k m f, n, find_key-exists v.path_value s h k m)

-- When a request disables the key that it finds, a header is not let in any more where its token has
-- the key's hash, and is judged as before where it has not.
pub update_key-IsLockedOut :
    (hash_key : Text → Text) (v : Visit) (r : KeyRequest) (c : Console) (w : Writer) (s : KeyStore)
    (h : Text) (k : ApiKey) (header : Text) (now : ℕ)
    → c.key_store ≡ some s
    → KeysFiled (some s)
    → find_key v.path_value s ≡ some (h, k)
    → r.enabled ≡ some false
    → (after : KeyStore) × (((Keys.update_key v (decoded r) c w).0.key_store ≡ some after)
        × IsLockedOut hash_key h s after header now)
unfolding get_by_hash Keys.apply_update Keys.apply_limits
update_key-IsLockedOut hash_key v r c w s h k header now e f m off =
    let l = Keys.apply_update r (v.now 0) k in
    (
      insert h l s,
      (
        update_key-replaces v r c w s h k e f m,
        locks_out hash_key h s (insert h l s) (some l) header now
            (λ key same. ground (arith, same, off)) (λ g. lookup-insert h g l s),
      ),
    )

-- When the key that a request finds is deleted, the same holds.
pub delete_key-IsLockedOut :
    (hash_key : Text → Text) (v : Visit) (c : Console) (w : Writer) (s : KeyStore) (h : Text)
    (k : ApiKey) (header : Text) (now : ℕ)
    → c.key_store ≡ some s
    → KeysFiled (some s)
    → find_key v.path_value s ≡ some (h, k)
    → is_empty h ≡ false
    → (after : KeyStore) × (((Keys.delete_key v c w).0.key_store ≡ some after)
        × IsLockedOut hash_key h s after header now)
unfolding get_by_hash
delete_key-IsLockedOut hash_key v c w s h k header now e f m n = (
  remove h s,
  (
    delete_key-removes v c w s h k e f m n,
    locks_out hash_key h s (remove h s) none header now (λ key same. ground arith)
        (λ g. lookup-remove h g s),
  ),
)

-- A key with another's hash, liveness and expiry is let in wherever the other would be.
admits_like :
    (hash_key : Text → Text) (s : KeyStore) (k l : ApiKey) (header : Text) (now : ℕ)
    → authenticate hash_key (Auth.create [] k) now header ≡ accepted k
    → l.hash ≡ k.hash
    → l.enabled ≡ true
    → l.expires_at ≡ k.expires_at
    → authenticate hash_key (Auth.create s l) now header ≡ accepted l
unfolding get_by_hash lookup
admits_like hash_key s k l header now e hash enabled expiry =
    let g = hash_key (token_of header) in
    let (p, t, there, live) = (authenticate_iff hash_key (Auth.create [] k) now header k).0 e in
    let same : (l.hash == g) ≡ true = ground (arith, get_by_hash-create [] k g, there, hash) in
    (authenticate_iff hash_key (Auth.create s l) now header l).1 (
      p,
      t,
      get_by_hash-create s l g ∙ ap (λ b. if b then some l else get_by_hash s g) same,
      (enabled, subst (λ at. is_expired at now ≡ false) (sym expiry) (live.1)),
    )

enabled_unless :
    (r : KeyRequest) (k : ApiKey)
    → r.enabled ≢ some false
    → k.enabled ≡ true
    → (Keys.apply_limits r k).enabled ≡ true
unfolding Keys.apply_limits
enabled_unless r k on h = elim (Option-cases r.enabled) [
  | inl n ↦ rw (n) h
  | inr (true, y) ↦ rw (y) refl
  | inr (false, y) ↦ ground (arith, on y)
]

generated-enabled :
    (hash_key : Text → Text) (bs : List ℕ) (made : ℕ) (name raw : Text) (k : ApiKey)
    → generate_api_key hash_key (some bs) made name ≡ some (raw, k)
    → k.enabled ≡ true
unfolding generate_api_key
generated-enabled hash_key bs made name raw k e = cc

-- The response is 201 with this text as the field `key` of its document.
abbrev pub ShowsKey : Text → Writer → Writer → Type 0
ShowsKey raw before after =
    (rest : Fields) × (after ≡ write_json 201 (obj (field (text "key") (str raw) rest)) before)

-- Where there is a key store, the request has a name and does not ask for a key that is not enabled,
-- and a key is generated, CreateKey answers 201 and shows the raw key, and what it shows is let in at
-- once, at any time.
pub create_key-authenticate :
    (hash_key : Text → Text) (v : Visit) (bs : List ℕ) (r : KeyRequest) (c : Console) (w : Writer)
    (s : KeyStore) (raw : Text) (k : ApiKey) (now : ℕ)
    → c.key_store ≡ some s
    → is_empty r.name ≡ false
    → r.enabled ≢ some false
    → generate_api_key hash_key (some bs) (v.now 0) r.name ≡ some (raw, k)
    → (after : KeyStore) × (((Keys.create_key hash_key v (some bs) (decoded r) c w).0.key_store
          ≡ some after)
        × (ShowsKey raw w (Keys.create_key hash_key v (some bs) (decoded r) c w).1
            × (authenticate hash_key after now (bearer ++ raw) ≡ accepted (Keys.apply_limits r k))))
unfolding Keys.create_key Keys.apply_limits log_change
create_key-authenticate hash_key v bs r c w s raw k now e named on made = (
  Auth.create s (Keys.apply_limits r k),
  (
    rw (e, named, made),
    (
      (Keys.key_fields v.show_time (Keys.apply_limits r k), rw (e, named, made) refl),
      admits_like hash_key s k (Keys.apply_limits r k) (bearer ++ raw) now
          (generate-authenticate hash_key [] bs (v.now 0) now r.name raw k made).0 refl
          (enabled_unless r k on (generated-enabled hash_key bs (v.now 0) r.name raw k made)) refl,
    ),
  ),
)
