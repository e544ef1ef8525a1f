-- ===== src/Dataplane/Chat/Relay.antt =====
-- The end of ChatCompletions in internal/api/dataplane.go: the upstream's headers, status and body
-- are copied to the client, as a stream or whole.
use ai_proxy_centranity.Base.{ℕ, suc, Bool, true, false, ◌||◌, List, [], ◌∷◌, if◌then◌else◌}
use ai_proxy_centranity.Base.Text.{Text, text, contains}
use ai_proxy_centranity.Http.{Header, Writer, raw, add, set, get_header, write_header, write, flush}
use ai_proxy_centranity.Ninerouter.{Response}

unfoldable pub add_values : Text → List Text → Writer → Writer
add_values k [] w = w
add_values k (v ∷ vs) w = add_values k vs (add k v w)

-- The loops that copy the upstream's response headers.
unfoldable pub copy_response_headers : Header → Writer → Writer
unfolding add_values
copy_response_headers [] w = w
copy_response_headers ((k, vs) ∷ hs) w = copy_response_headers hs (add_values k vs w)

unfoldable pub is_nil : Text → Bool
is_nil [] = true
is_nil (c ∷ s) = false

-- One read of the body: what it delivered is written and flushed.
unfoldable pub pass_on : Text → Writer → Writer
unfolding is_nil
pass_on chunk w = if is_nil chunk then w else flush (write (raw chunk) w)

-- The streaming loop: it ends when the client has gone or the body has.
unfoldable pub stream : (ℕ → Bool) → ℕ → List Text → Writer → Writer
stream gone i [] w = w
stream gone i (c ∷ cs) w =
    let rest = stream gone (suc i) cs (pass_on c w) in if gone i then w else rest

-- `io.Copy`
unfoldable pub copy : List Text → Writer → Writer
copy [] w = w
copy (c ∷ cs) w = copy cs (write (raw c) w)

abbrev stream_headers : Writer → Writer
stream_headers w = set (text "Connection") (text "keep-alive") (
    set (text "Cache-Control") (text "no-cache")
      (set (text "Content-Type") (text "text/event-stream") w))

unfoldable pub is_stream : Bool → Response → Bool
is_stream wanted r =
    wanted || contains (get_header (text "Content-Type") r.header) (text "text/event-stream")

unfoldable pub relay : Bool → (ℕ → Bool) → Response → Writer → Writer
relay wanted gone r w =
    let w' = copy_response_headers r.header w in
    if is_stream wanted r
    then stream gone 0 r.chunks (write_header r.status (stream_headers w'))
    else copy r.chunks (write_header r.status w')
