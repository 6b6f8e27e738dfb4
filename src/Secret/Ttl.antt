-- ===== src/Secret/Ttl.antt =====
-- The TTLs that src/secret.rs allows.
use psst_rs.Prelude.{ℕ, ◌≡◌, ◌↔◌, ◌⊎◌, true, arith}
use psst_rs.Secret.{is_allowed_ttl}

abbrev pub IsAllowedTtl : ℕ → Type 0
IsAllowedTtl t = (t ≡ 900) ⊎ (t ≡ 3600) ⊎ (t ≡ 86400) ⊎ (t ≡ 604800)

-- A TTL is allowed exactly when it is 15 minutes, an hour, a day or a week.
pub is_allowed_ttl_iff : (t : ℕ) → (is_allowed_ttl t ≡ true) ↔ IsAllowedTtl t
unfolding is_allowed_ttl
is_allowed_ttl_iff t = (λ h. ground arith, λ h. ground arith)
