-- ===== src/Limiter/Windows.antt =====
-- The bound that the limiter of internal/limiter/limiter.go enforces: in no window of a minute does
-- it let through more requests of a key than the limit.
use mathlib.Core.List.{append_assoc, append-nil}
use ai_proxy_centranity.Base.{
  none, Option, Bool, suc, if◌then◌else◌, ◌+◌, ◌&&◌, ltb, leb, some, true, false, ◌≤◌, ◌<◌, All, ℕ,
  ◌≡◌, arith, List, [], ◌∷◌, ◌++◌,
}
use ai_proxy_centranity.Base.Int.{leb_ℤ, pos}
use ai_proxy_centranity.Base.Text.{Text, ◌==◌, eq_iff}
use ai_proxy_centranity.Limiter.{Limiter, minute, allow}
use ai_proxy_centranity.Limiter.Sliding.{
  times, allow-verdict, allow-Refines, Refines-empty, Refines, Ordered, Call, History, in_window,
  spec_allow, verdict,
}

abbrev add_if : Option Bool → ℕ → List ℕ → List ℕ
add_if (some true) now rest = now ∷ rest
add_if _ now rest = rest

-- The times at which the limiter let requests of a key through.
unfoldable pub admitted : Text → Limiter → List Call → List ℕ
admitted key l [] = []
admitted key l (c ∷ cs) =
    let (l', answer) = allow c.key c.limit c.now l in
    let rest = admitted key l' cs in
    if c.key == key then add_if (verdict answer) c.now rest else rest

-- How many of the times lie in the minute that ends at `x`, `x` included.
unfoldable pub between : ℕ → List ℕ → ℕ
between x [] = 0
between x (t ∷ ts) =
    let rest = between x ts in if ltb x (t + minute) && leb t x then suc rest else rest

between-append : (x : ℕ) (xs ys : List ℕ) → between x (xs ++ ys) ≡ between x xs + between x ys
unfolding between
between-append x [] ys = omega arith
between-append x (t ∷ xs) ys = ground (arith, between-append x xs ys)

between-le-in_window : (x now : ℕ) (ts : List ℕ) → now ≤ x → between x ts ≤ in_window now ts
unfolding between in_window
between-le-in_window x now [] h = omega arith
between-le-in_window x now (t ∷ ts) h = ground (arith, between-le-in_window x now ts)

between_note :
    (x now n : ℕ) (ts : List ℕ)
    → in_window now ts < n
    → between x ts ≤ n
    → between x (ts ++ now ∷ []) ≤ n
unfolding between
between_note x now n ts room old =
    ground (arith, between-append x ts (now ∷ []), between-le-in_window x now ts)

-- Calls of the key have this limit, or a lower one, which is positive.
abbrev pub Limited : Text → ℕ → List Call → Type 0
Limited key n =
    All (λ c. c.key ≡ key → (leb_ℤ c.limit (pos 0) ≡ false) × (leb_ℤ c.limit (pos n) ≡ true))

module _ (key : Text) (n : ℕ) where
  bounded_step :
      (h : History) (c : Call)
      → (c.key ≡ key → (leb_ℤ c.limit (pos 0) ≡ false) × (leb_ℤ c.limit (pos n) ≡ true))
      → ((x : ℕ) → between x (times h key) ≤ n)
      → (x : ℕ) → between x (times (spec_allow h c).0 key) ≤ n
  unfolding spec_allow
  bounded_step h c lim old x =
      ground (arith, lim, old x, eq_iff c.key key, between_note x c.now n (times h c.key))

  history_step :
      (h : History) (c : Call) (l : Limiter) (last : ℕ) (rest : List ℕ)
      → Refines last l h
      → last ≤ c.now
      → (c.key ≡ key → (leb_ℤ c.limit (pos 0) ≡ false) × (leb_ℤ c.limit (pos n) ≡ true))
      → times (spec_allow h c).0 key ++ rest
        ≡ times h key
          ++ (if c.key == key
              then add_if (verdict (allow c.key c.limit c.now l).1) c.now rest
              else rest)
  unfolding spec_allow
  history_step h c l last rest r le lim = ground (
    arith,
    lim,
    eq_iff c.key key,
    allow-verdict last l h c r le,
    append_assoc (times h key) (c.now ∷ []) rest,
  )

  history_bound :
      (last : ℕ) (l : Limiter) (h : History) (cs : List Call) (x : ℕ)
      → Refines last l h
      → Ordered last cs
      → Limited key n cs
      → ((y : ℕ) → between y (times h key) ≤ n)
      → between x (times h key ++ admitted key l cs) ≤ n
  unfolding admitted
  history_bound last l h [] x r o lim old = rw append-nil (old x)
  history_bound last l h (c ∷ cs) x r o lim old =
      let l' = (allow c.key c.limit c.now l).0 in
      let rest = admitted key l' cs in
      rw (← history_step h c l last rest r o.0 lim.0) (
        history_bound c.now l' (spec_allow h c).0 cs x (allow-Refines last l h c r o.0) o.1 lim.1
          (bounded_step h c lim.0 old))

-- From an empty limiter, over any sequence of calls at times that do not fall, a key whose calls
-- all carry a positive limit of at most `n` has at most `n` requests let through in every window of
-- one minute.
pub window_bound :
    (key : Text) (n : ℕ) (cs : List Call) (x : ℕ)
    → Ordered 0 cs
    → Limited key n cs
    → between x (admitted key [] cs) ≤ n
unfolding between
window_bound key n cs x o lim =
    history_bound key n 0 [] (λ k. none) cs x Refines-empty o lim (λ y. omega arith)
