-- ===== src/Ninerouter/Headers.antt =====
-- The headers that internal/ninerouter/client.go sends to 9router: the client's, but for its
-- Authorization.
use ai_proxy_centranity.Base.{
  ◌∙◌, inr, inl, Bool-cases, ◌≡◌, true, false, none, some, List, [], ◌∷◌, ◌++◌, arith, refl,
  if◌then◌else◌,
}
use ai_proxy_centranity.Base.Text.{Text, text, ◌==◌, eq_iff, equal_fold, is_empty}
use ai_proxy_centranity.Base.Assoc.{lookup, lookup-insert}
use ai_proxy_centranity.Http.{set_header, Header, add_header, all_of}
use ai_proxy_centranity.Ninerouter.{
  HttpAdapter, Payload, forward_request, copy_headers, add_all, bearer_of,
}

abbrev pub authorization : Text
authorization = text "Authorization"

add_all_ne :
    (k j : Text) (vs : List Text) (out : Header)
    → (k == j) ≡ false
    → lookup j (add_all k vs out) ≡ lookup j out
unfolding add_all add_header
add_all_ne k j [] out h = refl
add_all_ne k j (v ∷ vs) out h = ground (
  arith,
  add_all_ne k j vs (add_header k v out) h,
  lookup-insert k j (all_of (lookup k out) ++ v ∷ []) out,
)

copy_headers_drops :
    (j : Text) (hs out : Header)
    → equal_fold j authorization ≡ true
    → lookup j out ≡ none
    → lookup j (copy_headers hs out) ≡ none
unfolding copy_headers
copy_headers_drops j [] out f h = h
copy_headers_drops j ((k, vs) ∷ hs) out f h =
    let other : equal_fold k authorization ≡ false → (k == j) ≡ false =
      λ e. ground (arith, eq_iff k j) in
    elim (Bool-cases (equal_fold k authorization)) [
      | inl e ↦ rw e (copy_headers_drops j hs out f h)
      | inr e ↦
          rw e (copy_headers_drops j hs (add_all k vs out) f (add_all_ne k j vs out (other e) ∙ h))
    ]

-- Whatever headers the client has sent, the request to 9router carries under Authorization, in
-- whatever case, nothing of them: under that very name it has the adapter's own key, if one is
-- configured, and under every other spelling nothing.
pub forward_request-authorization :
    (a : HttpAdapter) (body : Payload) (headers : Header) (j : Text)
    → equal_fold j authorization ≡ true
    → lookup j (forward_request a body headers).header ≡ (
        if is_empty a.api_key
        then none
        else if authorization == j
        then some ((text "Bearer " ++ a.api_key) ∷ [])
        else none)
unfolding forward_request bearer_of set_header lookup
forward_request-authorization a body headers j f =
    let clean = copy_headers_drops j headers [] f refl in
    ground (
      arith,
      clean,
      lookup-insert authorization j ((text "Bearer " ++ a.api_key) ∷ []) (copy_headers headers []),
    )
