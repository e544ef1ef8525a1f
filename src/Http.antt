-- ===== src/Http.antt =====
-- What the handlers use of Go's net/http and encoding/json: a response under construction, a JSON
-- document as a tree, and decimal numbers as text (fmt's %d). Header names are kept as the source
-- spells them.
use ai_proxy_centranity.Base.{
  refl, ◌≡◌, ℕ, zero, suc, ◌+◌, ◌/◌, ◌%◌, Bool, true, Option, none, some, List, [], ◌∷◌, ◌++◌, ltb,
  if◌then◌else◌,
}
use ai_proxy_centranity.Base.Int.{ℤ, pos, negsuc}
use ai_proxy_centranity.Base.Text.{Text, text}
use ai_proxy_centranity.Base.Assoc.{Assoc, lookup, insert}

-- A `decimal` is a number with a fraction, as its text.
mutual
  pub data Json : Type 0 where
    null : Json
    bool : Bool → Json
    num : ℤ → Json
    decimal : Text → Json
    str : Text → Json
    arr : Items → Json
    obj : Fields → Json

  pub data Items : Type 0 where
    nil : Items
    cons : Json → Items → Items

  pub data Fields : Type 0 where
    end : Fields
    field : Text → Json → Fields → Fields

abbrev pub Header : Type 0
Header = Assoc (List Text)

-- `Header.Get`: the first value, or the empty text.
abbrev first : Option (List Text) → Text
first none = []
first (some []) = []
first (some (v ∷ vs)) = v

unfoldable pub get_header : Text → Header → Text
get_header k h = first (lookup k h)

abbrev pub all_of : Option (List Text) → List Text
all_of none = []
all_of (some vs) = vs

unfoldable pub set_header : Text → Text → Header → Header
set_header k v h = insert k (v ∷ []) h

unfoldable pub add_header : Text → Text → Header → Header
add_header k v h = insert k (all_of (lookup k h) ++ v ∷ []) h

-- A part of a body: an encoded document, or bytes.
pub data Content : Type 0 where
  json : Json → Content
  raw : Text → Content

-- The status and the headers as they were when the first byte went out.
pub record Sent : Type 0 where
  pub status : ℕ
  pub header : Header

-- `codes` are the arguments of all calls of WriteHeader, in order; only the first has an effect.
-- `can_flush` tells whether the writer is an http.Flusher.
pub record Writer : Type 0 where
  pub header : Header
  pub sent : Option Sent
  pub codes : List ℕ
  pub body : List Content
  pub can_flush : Bool
  pub flushes : ℕ

abbrev pub fresh : Writer
fresh = record { header = []; sent = none; codes = []; body = []; can_flush = true; flushes = 0 }

abbrev or_send : Option Sent → Sent → Sent
or_send none s = s
or_send (some old) s = old

unfoldable pub write_header : ℕ → Writer → Writer
write_header status w = record w {
  sent = some (or_send w.sent (record { status = status; header = w.header }));
  codes = w.codes ++ status ∷ [];
}

-- `Write` sends the status 200 if none has been sent.
unfoldable pub write : Content → Writer → Writer
write c w = record w {
  sent = some (or_send w.sent (record { status = 200; header = w.header }));
  body = w.body ++ c ∷ [];
}

unfoldable pub set : Text → Text → Writer → Writer
set k v w = record w { header = set_header k v w.header }

unfoldable pub add : Text → Text → Writer → Writer
add k v w = record w { header = add_header k v w.header }

unfoldable pub flush : Writer → Writer
flush w = if w.can_flush then record w { flushes = suc w.flushes } else w

-- The status of the response once the handler has returned.
abbrev status_or : Option Sent → ℕ
status_or none = 200
status_or (some s) = s.status

unfoldable pub status_of : Writer → ℕ
status_of w = status_or w.sent

-- The content type, the status and a JSON document.
unfoldable pub write_json : ℕ → Json → Writer → Writer
unfolding set set_header write_header write
write_json status doc w =
    write (json doc) (write_header status (set (text "Content-Type") (text "application/json") w))

-- {"error": {"message": …, "type": …, "code": …}}
abbrev pub error_doc : Text → Text → Text → Json
error_doc message error_type code = obj (
    field (text "error")
      (obj (
        field (text "message") (str message)
          (field (text "type") (str error_type) (field (text "code") (str code) end))))
      end)

digits : ℕ → ℕ → Text
digits zero n = []
digits (suc fuel) n =
    let rest = digits fuel (n / 10) in
    if ltb n 10 then (48 + n) ∷ [] else rest ++ (48 + n % 10) ∷ []

-- A number has fewer digits than one more than itself.
unfoldable pub show_nat : ℕ → Text
unfolding digits
show_nat n = digits (suc n) n

unfoldable pub show : ℤ → Text
unfolding show_nat
show (pos n) = show_nat n
show (negsuc n) = b'-' ∷ show_nat (suc n)

-- What `json.Unmarshal` or a decoder makes of a body at a Go type: a value, or an error's text.
pub data Decoded (A : Type 0) : Type 0 where
  decoded : A → Decoded A
  malformed : Text → Decoded A

show_tests : (show (pos 2048) ≡ text "2048") × (show (negsuc 6) ≡ text "-7")
unfolding show
show_tests = (refl, refl)
