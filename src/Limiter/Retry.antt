-- ===== src/Limiter/Retry.antt =====
-- The waiting time that internal/limiter/limiter.go gives with a refusal, and what a caller that
-- waits for it can count on.
use ai_proxy_centranity.Base.{
  refl, Option, none, ◌≢◌, subst, ap, ◌∙◌, ℕ, ◌+◌, ◌-◌, ◌≤◌, ◌<◌, ◌≡◌, arith, List, ◌∷◌, All,
  length, ltb, select, length-select-le, some, true, false,
}
use ai_proxy_centranity.Base.Int.{ℤ, pos, leb_ℤ}
use ai_proxy_centranity.Base.Text.{Text}
use ai_proxy_centranity.Base.Assoc.{lookup, insert, lookup-insert_self}
use ai_proxy_centranity.Limiter.{
  time_size, overflows, Limiter, minute, purge, allow, or_empty, wait_for, oldest_of, refuse,
}
use ai_proxy_centranity.Limiter.Purging.{purge-All, wait_for_lem}
use ai_proxy_centranity.Limiter.Sliding.{verdict}
use ai_proxy_centranity.Base.Memory.{can_make}

-- The timestamps of the key that a call at `now` finds inside the window.
unfoldable pub found : Text → ℕ → Limiter → List ℕ
found key now l = purge minute now (or_empty (lookup key l))

-- At the moment when the oldest timestamp leaves the window, at least one is gone.
found_later :
    (key : Text) (t now : ℕ) (ts : List ℕ) (l : Limiter)
    → length (found key (t + minute) (insert key (t ∷ ts) l)) ≤ length ts
unfolding found purge select
found_later key t now ts l =
    rw (lookup-insert_self key (t ∷ ts) l)
      (ground (arith, length-select-le (λ u. ltb (t + minute) (u + minute)) ts))

-- A key with something in its window has an entry.
entered :
    (key : Text) (limit : ℤ) (now t : ℕ) (ts : List ℕ) (l : Limiter)
    → found key now l ≡ t ∷ ts
    → overflows (lookup key l) limit ≡ false
unfolding found purge select
entered key limit now t ts l = from (lookup key l)
  where
    from :
        (o : Option (List ℕ))
        → select (λ u. ltb now (u + minute)) (or_empty o) ≡ t ∷ ts
        → overflows o limit ≡ false
    from none e = ground (arith, e)
    from (some us) e = refl

allow_refuses :
    (key : Text) (limit : ℤ) (now t : ℕ) (ts : List ℕ) (l : Limiter)
    → leb_ℤ limit (pos 0) ≡ false
    → leb_ℤ limit (pos (length (t ∷ ts))) ≡ true
    → found key now l ≡ t ∷ ts
    → allow key limit now l ≡ (insert key (t ∷ ts) l, some (refuse (wait_for minute now t)))
unfolding allow found oldest_of
allow_refuses key limit now t ts l h g e = rw (entered key limit now t ts l e, h, e, g)

allow_admits :
    (key : Text) (limit : ℤ) (now : ℕ) (l : Limiter)
    → overflows (lookup key l) limit ≡ false
    → leb_ℤ limit (pos (length (found key now l))) ≡ false
    → verdict (allow key limit now l).1 ≡ some true
unfolding allow found
allow_admits key limit now l o h = ground (arith, o)

inside :
    (key : Text) (now t : ℕ) (ts : List ℕ) (l : Limiter)
    → found key now l ≡ t ∷ ts
    → now < t + minute
unfolding found
inside key now t ts l e =
    (subst (All (λ u. now < u + minute)) e (purge-All minute now (or_empty (lookup key l)))).0

-- When the window of a key holds exactly as many timestamps as the limit and the oldest is not later
-- than `now`, a call at `now` is refused with a positive wait of at most a minute; and a caller that
-- comes back after that wait, with no other call of the limiter in between, is let through.
pub retry_admits :
    (key : Text) (limit : ℤ) (now t : ℕ) (ts : List ℕ) (l : Limiter)
    → found key now l ≡ t ∷ ts
    → limit ≡ pos (length (t ∷ ts))
    → t ≤ now
    → let wait : ℕ = t + minute - now in
      ((allow key limit now l).1 ≡ some (refuse (pos wait)))
      × (0 < wait)
      × (wait ≤ minute)
      × (verdict (allow key limit (now + wait) (allow key limit now l).0).1 ≡ some true)
retry_admits key limit now t ts l e full past =
    let soon = inside key now t ts l e in
    let first = allow_refuses key limit now t ts l (ground arith) (ground arith) e in
    let wait : ℕ = t + minute - now in
    let due : now + wait ≡ t + minute = omega arith in
    (
      ap (λ p. p.1) first ∙ ap (λ w. some (refuse w)) (wait_for_lem minute now t soon),
      omega arith,
      omega arith,
      rw (due, first)
          (allow_admits key limit (t + minute) (insert key (t ∷ ts) l)
            (rw (lookup-insert_self key (t ∷ ts) l) refl)
            (ground (arith, found_later key t now ts l))),
    )

fits :
    (o : Option (List ℕ)) (limit : ℤ) → can_make time_size limit ≡ true → overflows o limit ≡ false
fits none limit h = rw (h) refl
fits (some ts) limit h = refl

-- The access to the oldest timestamp never fails: a call has an answer wherever the entry can be made.
pub allow_total :
    (key : Text) (limit : ℤ) (now : ℕ) (l : Limiter)
    → can_make time_size limit ≡ true
    → (allow key limit now l).1 ≢ none
unfolding allow oldest_of
allow_total key limit now l h = ground (arith, fits (lookup key l) limit h)
