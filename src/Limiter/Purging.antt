-- ===== src/Limiter/Purging.antt =====
-- The loop of internal/limiter/limiter.go that drops old timestamps, and the answers at a fixed
-- window.
use ai_proxy_centranity.Base.{
  ℕ, ◌+◌, ◌-◌, ◌≤◌, ◌<◌, ◌≡◌, refl, List, [], ◌∷◌, ◌++◌, select, select-append, All, arith,
}
use ai_proxy_centranity.Base.Int.{pos}
use ai_proxy_centranity.Limiter.{purge, wait_for}

-- A later purge undoes the need for an earlier one.
pub purge-purge :
    (w now later : ℕ) (ts : List ℕ)
    → now ≤ later
    → purge w later (purge w now ts) ≡ purge w later ts
unfolding purge select
purge-purge w now later [] h = refl
purge-purge w now later (t ∷ ts) h = ground (arith, purge-purge w now later ts)

pub purge-append :
    (w now : ℕ) (xs ys : List ℕ) → purge w now (xs ++ ys) ≡ purge w now xs ++ purge w now ys
unfolding purge
purge-append w now xs ys = select-append _ xs ys

-- What is kept is inside the window.
pub purge-All : (w now : ℕ) (ts : List ℕ) → All (λ t. now < t + w) (purge w now ts)
unfolding purge select
purge-All w now [] = tt
purge-All w now (t ∷ ts) = ground (arith, purge-All w now ts)

pub purge-keeps : (P : ℕ → Type 0) (w now : ℕ) (ts : List ℕ) → All P ts → All P (purge w now ts)
unfolding purge select
purge-keeps P w now [] h = tt
purge-keeps P w now (t ∷ ts) h = ground (arith, purge-keeps P w now ts h.1)

-- The negative wait that the source guards against does not arise for a kept timestamp: the wait is
-- the time until the oldest timestamp leaves the window.
pub wait_for_lem :
    (w now oldest : ℕ) → now < oldest + w → wait_for w now oldest ≡ pos (oldest + w - now)
unfolding wait_for
wait_for_lem w now oldest h = ground arith
