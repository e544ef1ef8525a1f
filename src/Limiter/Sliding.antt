-- ===== src/Limiter/Sliding.antt =====
-- The limiter of internal/limiter/limiter.go against a specification that forgets nothing: the
-- times of all requests that were let through, of which a window is counted anew at each request.
use ai_proxy_centranity.Base.{
  ℕ, suc, ◌+◌, ◌≤◌, ◌≡◌, refl, Bool, true, false, Option, none, some, List, [], ◌∷◌, ◌++◌, length,
  select, arith, ltb, not, if◌then◌else◌,
}
use ai_proxy_centranity.Base.Int.{ℤ, pos, ltb_ℤ, leb_ℤ}
use ai_proxy_centranity.Base.Text.{Text, ◌==◌, eq_iff}
use ai_proxy_centranity.Base.Assoc.{lookup, lookup-insert, exists}
use ai_proxy_centranity.Base.Memory.{can_make}
use ai_proxy_centranity.Limiter.{
  Limiter, Answer, minute, purge, oldest_of, allow, or_empty, overflows, time_size,
}
use ai_proxy_centranity.Limiter.Purging.{purge-purge, purge-append}

pub record Call : Type 0 where
  pub key : Text
  pub limit : ℤ
  pub now : ℕ

-- How many of the times lie within the minute before `now`.
unfoldable pub in_window : ℕ → List ℕ → ℕ
in_window now [] = 0
in_window now (t ∷ ts) =
    let rest = in_window now ts in if ltb now (t + minute) then suc rest else rest

-- For each key that has been seen with a limit, the times of its requests that were let through.
abbrev pub History : Type 0
History = Text → Option (List ℕ)

abbrev pub times : History → Text → List ℕ
times h key = or_empty (h key)

-- The first call of a key, with a limit that no slice of times has room for.
abbrev pub oversized : Option (List ℕ) → ℤ → Bool
oversized none limit = not (can_make time_size limit)
oversized (some ts) limit = false

abbrev pub note : Text → ℕ → History → History
note key now h j = if key == j then some (times h j ++ now ∷ []) else h j

-- A limit that is not positive means no limit; such requests are not counted. `none` stands for a
-- panic.
unfoldable pub spec_allow : History → Call → History × Option Bool
spec_allow h c =
    if leb_ℤ c.limit (pos 0)
    then (h, some true)
    else if oversized (h c.key) c.limit
    then (h, none)
    else if ltb_ℤ (pos (in_window c.now (times h c.key))) c.limit
    then (note c.key c.now h, some true)
    else (h, some false)

unfoldable pub spec_run : History → List Call → List (Option Bool)
spec_run h [] = []
spec_run h (c ∷ cs) = let (h', b) = spec_allow h c in b ∷ spec_run h' cs

abbrev pub verdict : Option Answer → Option Bool
verdict none = none
verdict (some a) = some a.allowed

unfoldable pub run : Limiter → List Call → List (Option Bool)
run l [] = []
run l (c ∷ cs) = let (l', answer) = allow c.key c.limit c.now l in verdict answer ∷ run l' cs

-- Time does not run backwards.
abbrev pub Ordered : ℕ → List Call → Type 0
Ordered last [] = Unit
Ordered last (c ∷ cs) = (last ≤ c.now) × Ordered c.now cs

-- From `last` on, each window of the limiter holds what the history has in it.
pub record Refines (last : ℕ) (l : Limiter) (h : History) : Type 0 where
  pub agree :
      (key : Text) (now : ℕ)
      → last ≤ now
      → purge minute now (or_empty (lookup key l)) ≡ purge minute now (times h key)
  pub seen : (key : Text) → exists (lookup key l) ≡ exists (h key)

length-purge : (now : ℕ) (ts : List ℕ) → length (purge minute now ts) ≡ in_window now ts
unfolding purge select in_window
length-purge now [] = refl
length-purge now (t ∷ ts) = ground (arith, length-purge now ts)

-- A key without an entry has nothing in its window.
in_window-new : (now : ℕ) (o : Option (List ℕ)) → exists o ≡ false → in_window now (or_empty o) ≡ 0
unfolding in_window
in_window-new now none e = refl
in_window-new now (some ts) e = ground (arith, e)

overflows-oversized :
    (o p : Option (List ℕ)) (limit : ℤ)
    → exists o ≡ exists p
    → overflows o limit ≡ oversized p limit
overflows-oversized none none limit e = refl
overflows-oversized none (some q) limit e = ground (arith, e)
overflows-oversized (some o) none limit e = ground (arith, e)
overflows-oversized (some o) (some q) limit e = refl

module _ (last : ℕ) (l : Limiter) (h : History) (c : Call) (r : Refines last l h)
    (le : last ≤ c.now) where
  pub allow-verdict : verdict (allow c.key c.limit c.now l).1 ≡ (spec_allow h c).1
  unfolding allow spec_allow oldest_of
  allow-verdict =
      rw (overflows-oversized (lookup c.key l) (h c.key) c.limit (r.seen c.key))
        (ground (arith, r.agree c.key c.now, length-purge c.now (times h c.key)))

  pub allow-Refines : Refines c.now (allow c.key c.limit c.now l).0 (spec_allow h c).0
  unfolding allow spec_allow
  allow-Refines = record {
    agree = λ key now later.
        let stored = or_empty (lookup c.key l) in
        let valid = purge minute c.now stored in
        ground (
          arith,
          r.agree key now,
          r.agree c.key c.now,
          r.agree c.key now,
          length-purge c.now (times h c.key),
          lookup-insert c.key key valid l,
          lookup-insert c.key key (valid ++ c.now ∷ []) l,
          purge-purge minute c.now now stored,
          purge-append minute now valid (c.now ∷ []),
          purge-append minute now (times h c.key) (c.now ∷ []),
          eq_iff c.key key,
          overflows-oversized (lookup c.key l) (h c.key) c.limit (r.seen c.key),
        );
    seen = λ key.
        let valid = purge minute c.now (or_empty (lookup c.key l)) in
        ground (
          arith,
          r.seen key,
          r.seen c.key,
          r.agree c.key c.now,
          length-purge c.now (times h c.key),
          in_window-new c.now (h c.key),
          lookup-insert c.key key valid l,
          lookup-insert c.key key (valid ++ c.now ∷ []) l,
          eq_iff c.key key,
          overflows-oversized (lookup c.key l) (h c.key) c.limit (r.seen c.key),
        );
  }

-- Over any sequence of calls at times that do not fall, on any keys and with any limits, the
-- limiter gives the same answers as the specification, and panics only where it says so: at a call of
-- a key without an entry, with a limit that no slice of times has room for.
pub run-eq-spec_run :
    (last : ℕ) (l : Limiter) (h : History) (cs : List Call)
    → Refines last l h
    → Ordered last cs
    → run l cs ≡ spec_run h cs
unfolding run spec_run
run-eq-spec_run last l h [] r o = refl
run-eq-spec_run last l h (c ∷ cs) r o = rw (
  allow-verdict last l h c r o.0,
  run-eq-spec_run c.now _ _ cs (allow-Refines last l h c r o.0) o.1,
)

pub Refines-empty : Refines 0 [] (λ k. none)
unfolding lookup
Refines-empty = record { agree = λ key now later. refl; seen = λ key. refl }
