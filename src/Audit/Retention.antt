-- ===== src/Audit/Retention.antt =====
-- Which events the bounded list of internal/audit/audit.go holds.
use mathlib.Core.List.{append-nil, append_assoc}
use ai_proxy_centranity.Base.{
  some, ◌⊎◌, false, none, ℕ, suc, ◌-◌, ◌≤◌, ◌<◌, ◌≡◌, refl, ap, sym, ◌∙◌, List, [], ◌∷◌, ◌++◌, map,
  length, length-append, length-drop, drop, drop-append, drop-one, arith, ltb, if◌then◌else◌,
  Bool-cases, inl, inr, true,
}
use ai_proxy_centranity.Base.Int.{ℤ, pos, leb_ℤ, pos_part}
use ai_proxy_centranity.Audit.{
  cap_of, event_size, Event, Store, new_with_limit, sanitize, cap_to, log, default_max_events,
}
use ai_proxy_centranity.Base.Memory.{can_make}

length-cap_to-le : (n : ℕ) (es : List Event) → length (cap_to n es) ≤ n
unfolding cap_to
length-cap_to-le n es = ground (arith, length-drop (length es - n) es)

cap_to-nil : (n : ℕ) → cap_to n [] ≡ []
unfolding cap_to
cap_to-nil n = ground arith

-- Capping before an append is undone by capping after it.
cap_to-append_one :
    (n : ℕ) (es : List Event) (e : Event)
    → cap_to n (cap_to n es ++ e ∷ []) ≡ cap_to n (es ++ e ∷ [])
unfolding cap_to
cap_to-append_one n es e = elim (Bool-cases (ltb n (length es))) [
  | inl over ↦
      let d = length es - n in
      let whole = length-append es (e ∷ []) in
      let cut = length-append (drop d es) (e ∷ []) in
      let left = length-drop d es in
      let many : ltb n (length (drop d es ++ e ∷ [])) ≡ true = ground arith in
      let more : ltb n (length (es ++ e ∷ [])) ≡ true = ground arith in
      let one : length (drop d es ++ e ∷ []) - n ≡ 1 = ground arith in
      let next : length (es ++ e ∷ []) - n ≡ suc d = ground arith in
      rw (over, many, more, one, next, ← drop-append d es (e ∷ []) (omega arith))
        (drop-one d (es ++ e ∷ []))
  | inr fits ↦ rw fits
]

-- Several events, in the order of the list.
unfoldable pub log_all : Store → List Event → Store
log_all s [] = s
log_all s (e ∷ es) = log_all (log s e) es

abbrev pub as_logged : Event → Event
as_logged e = record e { metadata = sanitize e.metadata [] }

log_all-events :
    (n : ℕ) (es past : List Event)
    → (log_all (record { events = cap_to n past; max_events = n }) es).events
      ≡ cap_to n (past ++ map as_logged es)
unfolding log_all log
log_all-events n [] past = rw append-nil
log_all-events n (e ∷ es) past =
    ap (λ l. (log_all (record { events = l; max_events = n }) es).events)
      (cap_to-append_one n past (as_logged e))
    ∙ log_all-events n es (past ++ as_logged e ∷ [])
    ∙ ap (cap_to n) (append_assoc past (as_logged e ∷ []) (map as_logged es))

cap_to-eq-drop : (n : ℕ) (es : List Event) → cap_to n es ≡ drop (length es - n) es
unfolding cap_to
cap_to-eq-drop n es = elim (Bool-cases (ltb n (length es))) [
  | inl over ↦ rw over
  | inr fits ↦ let none_over : length es - n ≡ 0 = ground arith in rw (fits, none_over)
]

length-as_logged : (es : List Event) → length (map as_logged es) ≡ length es
length-as_logged [] = refl
length-as_logged (e ∷ es) = ap suc (length-as_logged es)

log_all-empty :
    (n : ℕ) (es : List Event)
    → (log_all (record { events = []; max_events = n }) es).events
      ≡ drop (length es - n) (map as_logged es)
log_all-empty n es =
    ap (λ l. (log_all (record { events = l; max_events = n }) es).events) (sym (cap_to-nil n))
    ∙ log_all-events n es []
    ∙ cap_to-eq-drop n (map as_logged es)
    ∙ ap (λ k. drop (k - n) (map as_logged es)) (length-as_logged es)

-- A store is made, unless its cap is too large for a slice; and then, after any events, it holds the
-- sanitized last `maxEvents` of them in their order (all of them while there are no more), where a cap
-- that is not positive stands for the default.
pub log_all_new :
    (max_events : ℤ) (es : List Event)
    → ((new_with_limit max_events ≡ none) × (can_make event_size (cap_of max_events) ≡ false))
      ⊎ ((s : Store) × (new_with_limit max_events ≡ some s)
          × (let n = if leb_ℤ max_events (pos 0) then default_max_events else pos_part max_events in
              ((log_all s es).events ≡ drop (length es - n) (map as_logged es))
              × (0 < n)
              × (length (log_all s es).events ≤ n)))
unfolding new_with_limit
log_all_new max_events es =
    let n : ℕ = if leb_ℤ max_events (pos 0) then default_max_events else pos_part max_events in
    let made : Store = record { events = []; max_events = n } in
    let same : pos_part (cap_of max_events) ≡ n = ground arith in
    elim (Bool-cases (can_make event_size (cap_of max_events))) [
      | inr over ↦ inl (rw (over) refl, over)
      | inl fits ↦ inr (
        made,
        rw (fits, same) refl,
        (
          log_all-empty n es,
          ground arith,
          rw (log_all-empty n es)
              (omega (arith, length-drop (length es - n) (map as_logged es), length-as_logged es)),
        ),
      )
    ]
