-- ===== src/Management/Filing.antt =====
-- In which order the stores that internal/api/management.go changes are kept: each key stands under its
-- hash, each proxy profile under its identifier.
use ai_proxy_centranity.Base.{
  inr, inl, true, Bool-cases, [], ◌∷◌, arith, ◌≡◌, Option, none, some, All,
}
use ai_proxy_centranity.Auth.{ApiKey, KeyStore}
use ai_proxy_centranity.Proxy
use ai_proxy_centranity.Proxy.{Profile}
use ai_proxy_centranity.Management.State.{Console}
use ai_proxy_centranity.Management.Keys.{find_key}
use ai_proxy_centranity.Base.Text.{◌==◌, eq_iff, Text}
use ai_proxy_centranity.Base.Assoc.{exists, lookup}

abbrev pub KeysFiled : Option KeyStore → Type 0
KeysFiled none = Unit
KeysFiled (some s) = All (λ (h, k). k.hash ≡ h) s

abbrev pub ProxiesFiled : Option Proxy.Store → Type 0
ProxiesFiled none = Unit
ProxiesFiled (some s) = All (λ (id, p). p.id ≡ id) s

abbrev pub IsFiled : Console → Type 0
IsFiled c = KeysFiled c.key_store × ProxiesFiled c.proxy_store

-- What a search finds stands under its own hash.
pub find_key-IsFiled :
    (id : Text) (s : KeyStore) (h : Text) (k : ApiKey)
    → find_key id s ≡ some (h, k)
    → KeysFiled (some s)
    → k.hash ≡ h
unfolding find_key
find_key-IsFiled id [] h k e f = ground arith
find_key-IsFiled id ((h', k') ∷ s) h k e f = elim (Bool-cases (k'.id == id)) [
  | inl t ↦ ground (arith, f.0)
  | inr n ↦ find_key-IsFiled id s h k (ground arith) (f.1)
]

pub find_key-exists :
    (id : Text) (s : KeyStore) (h : Text) (k : ApiKey)
    → find_key id s ≡ some (h, k)
    → exists (lookup h s) ≡ true
unfolding find_key lookup
find_key-exists id [] h k e = ground arith
find_key-exists id ((h', k') ∷ s) h k e = ground (arith, eq_iff h' h, find_key-exists id s h k)
