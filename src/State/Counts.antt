-- ===== src/State/Counts.antt =====
-- A `HashMap` of counters, `*map.entry(key).or_default() += 1`, as used by
-- crates/openshield-core/src/state.rs.
use open_shield.Base.{ℕ, ◌+◌, ◌≡◌, List, [], ◌∷◌, arith, same, same_iff, if◌then◌else◌}

module _ {ℓ} {K : Type ℓ} (d : Discrete K) where
  -- `get(&key).copied().unwrap_or_default()`
  unfoldable pub count_of : K → List (K × ℕ) → ℕ
  count_of key [] = 0
  count_of key ((k, n) ∷ rest) = if same d k key then n else count_of key rest

  unfoldable pub bump : K → List (K × ℕ) → List (K × ℕ)
  bump key [] = (key, 1) ∷ []
  bump key ((k, n) ∷ rest) =
      let more = bump key rest in if same d k key then (k, n + 1) ∷ rest else (k, n) ∷ more

  pub count_of-bump :
      (key other : K) (counts : List (K × ℕ))
      → count_of other (bump key counts)
        ≡ count_of other counts + (if same d key other then 1 else 0)
  unfolding count_of bump
  count_of-bump key other [] = ground arith
  count_of-bump key other ((k, n) ∷ rest) =
      ground (arith, count_of-bump key other rest, same_iff d k key, same_iff d k other)
