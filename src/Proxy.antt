-- ===== src/Proxy.antt =====
-- internal/proxy: the profiles of outbound proxies with their in-memory store (profile.go), and what
-- BuildTransport and CheckHealth make of a profile (transport.go). The dialer of SOCKS5, the parser of
-- addresses and the HTTP client are parameters. Each method of the store runs under its lock.
use ai_proxy_centranity.Base.{ℕ, Bool, ◌||◌, Option, none, some, List, ◌++◌, leb, if◌then◌else◌}
use ai_proxy_centranity.Base.Int.{ℤ}
use ai_proxy_centranity.Base.Text.{Text, text, ◌==◌, is_empty}
use ai_proxy_centranity.Base.Assoc.{Assoc, lookup, insert, remove, values, exists}
use ai_proxy_centranity.Http.{show, show_nat}
use ai_proxy_centranity.Ninerouter.{Answer, failed, responded}

abbrev pub type_direct : Text
type_direct = text "DIRECT"

abbrev pub type_http : Text
type_http = text "HTTP"

abbrev pub type_https : Text
type_https = text "HTTPS"

abbrev pub type_socks5 : Text
type_socks5 = text "SOCKS5"

-- `Profile`; its type is a Go string, of which only the four above are known.
pub record Profile : Type 0 where
  pub id : Text
  pub name : Text
  pub kind : Text
  pub host : Text
  pub port : ℤ
  pub username : Text
  pub password : Text
  pub enabled : Bool
  pub created_at : ℕ
  pub updated_at : ℕ

-- `MemoryStore`: the map from identifiers to profiles.
abbrev pub Store : Type 0
Store = Assoc Profile

-- `none` is the error "proxy profile not found".
unfoldable pub get : Store → Text → Option Profile
get s id = lookup id s

unfoldable pub save : Store → Profile → Store
save s profile = insert profile.id profile s

unfoldable pub delete : Store → Text → Option Store
delete s id = if exists (lookup id s) then some (remove id s) else none

unfoldable pub list : Store → List Profile
list s = values s

-- How connections are made; for SOCKS5 with the credentials, if any.
pub data Transport : Type 0 where
  direct : Transport
  through : Text → Transport
  socks : Text → Option (Text × Text) → Transport
  unusable : Text → Transport

-- `url.QueryEscape`, the errors of `url.Parse` and of `xproxy.SOCKS5`.
pub record Dialing : Type 0 where
  pub query_escape : Text → Text
  pub parse_error : Text → Option Text
  pub socks_error : Text → Option (Text × Text) → Option Text

abbrev address : Profile → Text
address p = p.host ++ text ":" ++ show p.port

unfoldable pub raw_url : Dialing → Profile → Text
raw_url d p =
    let scheme = if p.kind == type_https then text "https" else text "http" in
    if is_empty p.username
    then scheme ++ text "://" ++ address p
    else scheme
      ++ text "://"
      ++ d.query_escape p.username
      ++ text ":"
      ++ d.query_escape p.password
      ++ text "@"
      ++ address p

abbrev pub unless_error : Text → Transport → Option Text → Transport
unless_error prefix t none = t
unless_error prefix t (some e) = unusable (prefix ++ e)

abbrev credentials : Profile → Option (Text × Text)
credentials p = if is_empty p.username then none else some (p.username, p.password)

-- `BuildTransport`; `unusable` holds the error's text.
unfoldable pub build_transport : Dialing → Option Profile → Transport
build_transport d none = direct
build_transport d (some p) =
    if p.kind == type_direct
    then direct
    else if p.kind == type_http || p.kind == type_https
    then unless_error (text "failed to parse proxy URL: ") (through (raw_url d p))
        (d.parse_error (raw_url d p))
    else if p.kind == type_socks5
    then unless_error (text "socks5 dialer: ") (socks (address p) (credentials p))
        (d.socks_error (address p) (credentials p))
    else unusable (text "unsupported proxy type: " ++ p.kind)

-- The time that a probe took, and the error's text if it failed.
pub record Probe : Type 0 where
  pub duration : ℕ
  pub error : Option Text

abbrev judge_probe : ℕ → Answer → Probe
judge_probe elapsed (failed e) = record {
  duration = 0;
  error = some (text "proxy health probe failed: " ++ e);
}
judge_probe elapsed (responded r) = record {
  duration = elapsed;
  error =
      if leb 500 r.status
      then some (text "probe returned server error (status " ++ show_nat r.status ++ text ")")
      else none;
}

abbrev probe_by : (Transport → Text → Answer) → ℕ → Text → Transport → Probe
probe_by client elapsed probe_url (unusable e) = record { duration = 0; error = some e }
probe_by client elapsed probe_url t = judge_probe elapsed (client t probe_url)

-- `CheckHealth`; `elapsed` is the time from the request to its response.
unfoldable pub check_health :
    Dialing → (Transport → Text → Answer) → ℕ → Option Profile → Text → Probe
check_health d client elapsed profile probe_url =
    probe_by client elapsed probe_url (build_transport d profile)
