-- ===== src/Auth/Generated.antt =====
-- A key made by GenerateAPIKey of internal/auth/auth.go, from its creation to its first request.
use ai_proxy_centranity.Base.{
  ◌∙◌, ℕ, ◌+◌, ◌*◌, ◌≡◌, refl, ap, true, false, List, [], ◌∷◌, ◌++◌, none, some, arith, length, All,
}
use ai_proxy_centranity.Base.Text.{
  eq_iff, trim_prefix-append, Text, text, has_prefix-append, trim_space, is_space, trim_left_if,
  trim_right_if,
}
use ai_proxy_centranity.Auth.{
  ApiKey, KeyStore, hex_digit, hex_encode, generate_api_key, create, authenticate, accepted, bearer,
}
use ai_proxy_centranity.Auth.Access.{token_of, authenticate_iff, get_by_hash-create}

-- No byte is white space.
abbrev IsSolid : Text → Type 0
IsSolid = All (λ c. is_space c ≡ false)

trim_right_if-IsSolid : (s : Text) → IsSolid s → trim_right_if is_space s ≡ s
unfolding trim_right_if
trim_right_if-IsSolid [] h = refl
trim_right_if-IsSolid (c ∷ s) h = rw (h.0, trim_right_if-IsSolid s h.1)

trim_space-IsSolid : (s : Text) → IsSolid s → trim_space s ≡ s
unfolding trim_space trim_left_if
trim_space-IsSolid [] h = refl
trim_space-IsSolid (c ∷ s) h = rw h.0 (trim_right_if-IsSolid (c ∷ s) h)

hex_digit-solid : (d : ℕ) → is_space (hex_digit d) ≡ false
unfolding hex_digit is_space
hex_digit-solid d = ground arith

hex_encode-IsSolid : (bs : List ℕ) → IsSolid (hex_encode bs)
unfolding hex_encode
hex_encode-IsSolid [] = tt
hex_encode-IsSolid (b ∷ bs) = (hex_digit-solid _, (hex_digit-solid _, hex_encode-IsSolid bs))

length-hex_encode : (bs : List ℕ) → length (hex_encode bs) ≡ 2 * length bs
unfolding hex_encode
length-hex_encode [] = omega arith
length-hex_encode (b ∷ bs) = omega (arith, length-hex_encode bs)

abbrev raw_key : List ℕ → Text
raw_key bs = text "sk-pg-" ++ hex_encode bs

raw_key-IsSolid : (bs : List ℕ) → IsSolid (raw_key bs)
unfolding is_space
raw_key-IsSolid bs = (refl, (refl, (refl, (refl, (refl, (refl, hex_encode-IsSolid bs))))))

token_of-bearer : (bs : List ℕ) → token_of (bearer ++ raw_key bs) ≡ raw_key bs
token_of-bearer bs =
    ap trim_space (trim_prefix-append bearer (raw_key bs))
    ∙ trim_space-IsSolid (raw_key bs) (raw_key-IsSolid bs)

-- A key that is generated and then stored opens the door at once and at any later time: the raw key
-- that the caller was given, as a bearer token, is let in as the stored key. A raw key has six bytes
-- and two for each random byte.
pub generate-authenticate :
    (hash_key : Text → Text) (s : KeyStore) (bs : List ℕ) (made now : ℕ) (name raw : Text)
    (key : ApiKey)
    → generate_api_key hash_key (some bs) made name ≡ some (raw, key)
    → (authenticate hash_key (create s key) now (bearer ++ raw) ≡ accepted key)
      × (length raw ≡ 6 + 2 * length bs)
unfolding generate_api_key
generate-authenticate hash_key s bs made now name raw key e =
    let same : raw ≡ raw_key bs = ground (arith, e) in
    let hash : key.hash ≡ hash_key raw = cc in
    let enabled : key.enabled ≡ true = cc in
    let forever : key.expires_at ≡ none = cc in
    let token : token_of (bearer ++ raw) ≡ raw = rw same (token_of-bearer bs) in
    (
      (authenticate_iff hash_key (create s key) now (bearer ++ raw) key).1 (
        has_prefix-append bearer raw,
        rw (token, same) (λ h. ground (arith, h)),
        rw token (
            get_by_hash-create s key (hash_key raw) ∙ rw ((eq_iff key.hash (hash_key raw)).1 hash)),
        (enabled, rw forever),
      ),
      rw same (omega (arith, length-hex_encode bs)),
    )
