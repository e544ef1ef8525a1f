-- ===== src/Auth/Access.antt =====
-- Whom the middleware of internal/auth/auth.go lets in, and what the key store's methods change.
use ai_proxy_centranity.Base.{
  ℕ, ◌≡◌, ◌≢◌, ◌↔◌, ◌⊎◌, inl, inr, refl, ap, true, false, [], ◌∷◌, none, some, Option, arith,
  if◌then◌else◌, Option-cases,
}
use ai_proxy_centranity.Base.Text.{
  Text, has_prefix, trim_prefix, trim_space, is_empty, is_empty_iff, ◌==◌,
}
use ai_proxy_centranity.Base.Assoc.{
  lookup, insert, lookup-insert, lookup-remove, lookup-remove_self, remove,
}
use ai_proxy_centranity.Auth.{
  ApiKey, KeyStore, get_by_hash, create, update, delete, accepted, authenticate, check_found,
  bearer, is_expired,
}

-- The token of a header: what stands behind "Bearer ", without white space around it.
abbrev pub token_of : Text → Text
token_of header = trim_space (trim_prefix header bearer)

-- A key that opens the door at this time.
abbrev pub IsLive : ApiKey → ℕ → Type 0
IsLive key now = (key.enabled ≡ true) × (is_expired key.expires_at now ≡ false)

check_found_iff :
    (found : Option ApiKey) (now : ℕ) (key : ApiKey)
    → (check_found found now ≡ accepted key) ↔ ((found ≡ some key) × IsLive key now)
unfolding check_found
check_found_iff none now key = ground arith
check_found_iff (some k) now key = ground arith

bearer-not_empty : (header : Text) → has_prefix header bearer ≡ true → is_empty header ≡ false
unfolding has_prefix is_empty
bearer-not_empty [] h = ground arith
bearer-not_empty (c ∷ s) h = refl

-- A request is let in as `key` exactly when its header begins with "Bearer ", its token is not
-- empty, the store holds `key` under the token's hash, and the key is enabled and not expired.
pub authenticate_iff :
    (hash_key : Text → Text) (store : KeyStore) (now : ℕ) (header : Text) (key : ApiKey)
    → (authenticate hash_key store now header ≡ accepted key) ↔ (
        (has_prefix header bearer ≡ true)
        × (token_of header ≢ [])
        × (get_by_hash store (hash_key (token_of header)) ≡ some key)
        × IsLive key now)
unfolding authenticate
authenticate_iff hash_key store now header key = ground (
  arith,
  bearer-not_empty header,
  is_empty_iff (token_of header),
  check_found_iff (get_by_hash store (hash_key (token_of header))) now key,
)

-- Create makes its key the answer under its hash; every other hash answers as before.
pub get_by_hash-create :
    (s : KeyStore) (key : ApiKey) (hash : Text)
    → get_by_hash (create s key) hash ≡ (if key.hash == hash then some key else get_by_hash s hash)
unfolding get_by_hash create
get_by_hash-create s key hash = lookup-insert key.hash hash key s

-- Update fails, and changes nothing, exactly where the hash is unknown; else it answers like Create.
pub get_by_hash-update :
    (s : KeyStore) (key : ApiKey) (hash : Text)
    → ((get_by_hash s key.hash ≡ none) × (update s key ≡ none))
      ⊎ ((after : KeyStore) × (update s key ≡ some after)
          × (get_by_hash after hash ≡ (if key.hash == hash then some key else get_by_hash s hash)))
unfolding get_by_hash update
get_by_hash-update s key hash = elim (Option-cases (lookup key.hash s)) [
  | inl h ↦ inl (h, rw (h, update))
  | inr (old, h) ↦ inr (insert key.hash key s, rw (h, update), lookup-insert key.hash hash key s)
]

gone :
    (hash_key : Text → Text) (s : KeyStore) (now : ℕ) (header : Text) (key : ApiKey) (hash : Text)
    → hash_key (token_of header) ≡ hash
    → get_by_hash (remove hash s) (hash_key (token_of header)) ≡ some key
    → ⊥
unfolding get_by_hash
gone hash_key s now header key hash same e =
    cc (e, lookup-remove_self hash s, ap (λ h. lookup h (remove hash s)) same)

-- Delete fails exactly where the hash is unknown. Where it succeeds, no header with a token of that
-- hash is let in any more, at whatever time, and every other hash answers as before.
pub delete_revokes :
    (hash_key : Text → Text) (s : KeyStore) (hash other header : Text) (now : ℕ) (key : ApiKey)
    → hash_key (token_of header) ≡ hash
    → ((get_by_hash s hash ≡ none) × (delete s hash ≡ none))
      ⊎ ((after : KeyStore) × (delete s hash ≡ some after)
          × (authenticate hash_key after now header ≢ accepted key)
          × (get_by_hash after other ≡ (if hash == other then none else get_by_hash s other)))
unfolding get_by_hash delete
delete_revokes hash_key s hash other header now key same = elim (Option-cases (lookup hash s)) [
  | inl h ↦ inl (h, rw (h, delete))
  | inr (old, h) ↦ inr (
    remove hash s,
    rw (h, delete),
    λ e.
        gone hash_key s now header key hash same
          ((authenticate_iff hash_key (remove hash s) now header key).0 e).2,
    lookup-remove hash other s,
  )
]
