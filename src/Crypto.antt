-- ===== src/Crypto.antt =====
-- The crates `base64` and `sha2`, as src/secret.rs, src/request_context.rs and src/http.rs call
-- them: a parameter with the behaviour that their documentation states.
use psst_rs.Prelude.{ℕ, ◌<◌, String, ◌≡◌, Option, some, List, length, All}

abbrev pub IsBytes : List ℕ → Type 0
IsBytes = All (λ b. b < 256)

pub record Crypto : Type 0 where
  -- `URL_SAFE_NO_PAD.encode`, `URL_SAFE_NO_PAD.decode` and `Sha256::digest`
  pub encode : List ℕ → String
  pub decode : String → Option (List ℕ)
  pub sha256 : List ℕ → List ℕ
  pub decode-encode : (bytes : List ℕ) → IsBytes bytes → decode (encode bytes) ≡ some bytes
  pub sha256-length : (bytes : List ℕ) → length (sha256 bytes) ≡ 32
  pub sha256-IsBytes : (bytes : List ℕ) → IsBytes (sha256 bytes)
