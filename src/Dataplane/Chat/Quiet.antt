-- ===== src/Dataplane/Chat/Quiet.antt =====
-- How ChatCompletions of internal/api/dataplane.go writes to a writer that is no http.Flusher.
use ai_proxy_centranity.Base.{inr, inl, suc, Bool-cases, ℕ, ◌≡◌, refl, Bool, false, List, [], ◌∷◌}
use ai_proxy_centranity.Base.Text.{Text}
use ai_proxy_centranity.Http.{
  raw, Json, Header, Writer, set, add, write, write_header, write_json, flush,
}
use ai_proxy_centranity.Ninerouter.{Response}
use ai_proxy_centranity.Dataplane.Chat.Relay.{
  is_nil, add_values, copy_response_headers, pass_on, stream, copy, relay, is_stream,
}

-- A writer that is no Flusher, and has been flushed `n` times.
abbrev pub IsQuiet : ℕ → Writer → Type 0
IsQuiet n w = (w.can_flush ≡ false) × (w.flushes ≡ n)

pub write_json-IsQuiet :
    (status : ℕ) (doc : Json) (n : ℕ) (w : Writer)
    → IsQuiet n w
    → IsQuiet n (write_json status doc w)
unfolding write_json write write_header set
write_json-IsQuiet status doc n w q = q

add_values-IsQuiet :
    (k : Text) (vs : List Text) (n : ℕ) (w : Writer) → IsQuiet n w → IsQuiet n (add_values k vs w)
unfolding add_values add
add_values-IsQuiet k [] n w q = q
add_values-IsQuiet k (v ∷ vs) n w q = add_values-IsQuiet k vs n (add k v w) q

copy_response_headers-IsQuiet :
    (h : Header) (n : ℕ) (w : Writer) → IsQuiet n w → IsQuiet n (copy_response_headers h w)
unfolding copy_response_headers
copy_response_headers-IsQuiet [] n w q = q
copy_response_headers-IsQuiet ((k, vs) ∷ h) n w q =
    copy_response_headers-IsQuiet h n (add_values k vs w) (add_values-IsQuiet k vs n w q)

copy-IsQuiet : (cs : List Text) (n : ℕ) (w : Writer) → IsQuiet n w → IsQuiet n (copy cs w)
unfolding copy write
copy-IsQuiet [] n w q = q
copy-IsQuiet (c ∷ cs) n w q = copy-IsQuiet cs n (write (raw c) w) q

pass_on-IsQuiet : (c : Text) (n : ℕ) (w : Writer) → IsQuiet n w → IsQuiet n (pass_on c w)
unfolding pass_on write flush is_nil
pass_on-IsQuiet [] n w q = q
pass_on-IsQuiet (c ∷ cs) n w q = rw (q.0) (refl, q.1)

stream-IsQuiet :
    (gone : ℕ → Bool) (i : ℕ) (cs : List Text) (n : ℕ) (w : Writer)
    → IsQuiet n w
    → IsQuiet n (stream gone i cs w)
unfolding stream
stream-IsQuiet gone i [] n w q = q
stream-IsQuiet gone i (c ∷ cs) n w q = elim (Bool-cases (gone i)) [
  | inl y ↦ rw (y) q
  | inr m ↦ rw (m) (stream-IsQuiet gone (suc i) cs n (pass_on c w) (pass_on-IsQuiet c n w q))
]

pub relay-IsQuiet :
    (wanted : Bool) (gone : ℕ → Bool) (r : Response) (n : ℕ) (w : Writer)
    → IsQuiet n w
    → IsQuiet n (relay wanted gone r w)
unfolding relay write_header set
relay-IsQuiet wanted gone r n w q =
    let q' = copy_response_headers-IsQuiet r.header n w q in
    elim (Bool-cases (is_stream wanted r)) [
      | inl y ↦ rw (y) (stream-IsQuiet gone 0 r.chunks n _ q')
      | inr m ↦ rw (m) (copy-IsQuiet r.chunks n _ q')
    ]
