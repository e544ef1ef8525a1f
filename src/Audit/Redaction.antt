-- ===== src/Audit/Redaction.antt =====
-- What the audit log of internal/audit/audit.go keeps of an event's metadata.
use ai_proxy_centranity.Base.{
  inr, ◌-◌, All-drop, inl, Bool-cases, All-append, All, true, ◌≡◌, ap, refl, [], ◌∷◌, none, some,
  Option, arith, if◌then◌else◌,
}
use ai_proxy_centranity.Base.Text.{Text, eq_iff}
use ai_proxy_centranity.Base.Assoc.{Assoc, lookup, insert, lookup-insert}
use ai_proxy_centranity.Audit.{
  length, ltb, List, ℕ, Store, Event, log, cap_to, is_sensitive, redacted, sanitize,
}
use ai_proxy_centranity.Audit.Retention.{log_all}

-- Each key stands once, as in every Go map.
abbrev pub Distinct : Assoc Text → Type 0
Distinct [] = Unit
Distinct ((k, v) ∷ m) = (lookup k m ≡ none) × Distinct m

abbrev pub redact : Text → Option Text → Option Text
redact k none = none
redact k (some v) = some (if is_sensitive k then redacted else v)

abbrev or_else : Option Text → Option Text → Option Text
or_else none b = b
or_else (some a) b = some a

lookup-sanitize_from :
    (k : Text) (m out : Assoc Text)
    → Distinct m
    → lookup k (sanitize m out) ≡ or_else (redact k (lookup k m)) (lookup k out)
unfolding sanitize lookup
lookup-sanitize_from k [] out d = refl
lookup-sanitize_from k ((j, v) ∷ m) out d =
    let w = if is_sensitive j then redacted else v in
    ground (
      arith,
      lookup-sanitize_from k m (insert j w out) d.1,
      lookup-insert j k w out,
      eq_iff j k,
      d.0,
    )

-- Each metadata key of a logged event keeps its value, replaced by the mark where the key is
-- sensitive; and no key is added.
pub lookup-sanitize :
    (k : Text) (m : Assoc Text) → Distinct m → lookup k (sanitize m []) ≡ redact k (lookup k m)
unfolding lookup
lookup-sanitize k m d = ground (arith, lookup-sanitize_from k m [] d)

-- Under a sensitive key stands nothing but the mark.
abbrev pub IsClean : Assoc Text → Type 0
IsClean m = (k v : Text) → is_sensitive k ≡ true → lookup k m ≡ some v → v ≡ redacted

insert-IsClean :
    (m : Assoc Text) (j w : Text)
    → IsClean m
    → (is_sensitive j ≡ true → w ≡ redacted)
    → IsClean (insert j w m)
insert-IsClean m j w c h k v s e =
    ground (arith, lookup-insert j k w m, eq_iff j k, c k v, ap is_sensitive)

not-found : (k v : Text) → lookup k [] ≡ some v → ⊥
unfolding lookup
not-found k v e = cc

sanitize-IsClean : (m out : Assoc Text) → IsClean out → IsClean (sanitize m out)
unfolding sanitize
sanitize-IsClean [] out c = c
sanitize-IsClean ((j, v) ∷ m) out c =
    sanitize-IsClean m (insert j (if is_sensitive j then redacted else v) out)
      (insert-IsClean out j (if is_sensitive j then redacted else v) c (λ s. ground arith))

cap_to-All : (P : Event → Type 0) (n : ℕ) (es : List Event) → All P es → All P (cap_to n es)
unfolding cap_to
cap_to-All P n es h = elim (Bool-cases (ltb n (length es))) [
  | inl over ↦ rw over (All-drop P (length es - n) es h)
  | inr fits ↦ rw fits h
]

log-IsClean :
    (s : Store) (e : Event)
    → All (λ x. IsClean x.metadata) s.events
    → All (λ x. IsClean x.metadata) (log s e).events
unfolding log
log-IsClean s e h =
    cap_to-All (λ x. IsClean x.metadata) s.max_events _
      (All-append (λ x. IsClean x.metadata) s.events _ h
        (sanitize-IsClean e.metadata [] (λ k v q p. absurd (not-found k v p)), tt))

-- Whatever is logged to a store whose events are clean, no event that it holds carries under a
-- sensitive metadata key (one that contains key, password, token or secret in any case) another
-- value than the mark.
pub log_all-IsClean :
    (s : Store) (es : List Event)
    → All (λ x. IsClean x.metadata) s.events
    → All (λ x. IsClean x.metadata) (log_all s es).events
unfolding log_all
log_all-IsClean s [] h = h
log_all-IsClean s (e ∷ es) h = log_all-IsClean (log s e) es (log-IsClean s e h)
