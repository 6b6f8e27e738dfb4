-- ===== src/Http/Lifecycle/Delivery.antt =====
-- What a read of a stored secret returns in src/http.rs, the first time and again.
use psst_rs.Prelude.{
  ℕ, String, ◌≡◌, subst, sym, ap, ◌∙◌, inl, inr, Bool, true, false, Option, none, some, any, first,
  any-select-not, any_imp, first-none, arith,
}
use psst_rs.Prelude.Int.{ℤ}
use psst_rs.Prelude.Exec.{Result}
use psst_rs.Crypto.{Crypto}
use psst_rs.Config.{AppConfig}
use psst_rs.RequestContext.{ClientIp, HeaderMap}
use psst_rs.Secret.{ReadSecretResponse}
use psst_rs.Db.Tables.{SecretRow}
use psst_rs.Db.Statements.{has_id, is_readable}
use psst_rs.Db.Connection.{Database}
use psst_rs.Db.Spec.{IsValid, opens}
use psst_rs.Http.Api.{ApiError, World, secret_not_found}
use psst_rs.Http.Limits.Reads.{IsAllowed, RefusesRead}
use psst_rs.Http.Ends.{tables, Succeeds, Ends-imp, Ends-Succeeds, Fails, Ends-Fails}
use psst_rs.Http.Handlers.{hash_of, read_secret}
use psst_rs.Http.Handlers.Consuming.{Read, IsKept, NotRead, missing, wrong_key, unanswered}
use psst_rs.Http.Handlers.Reading.{
  Asked, ReadRefused, no_time, no_digest, limited, not_read, read_secret-Ends,
}
use psst_rs.Http.Lifecycle.Accepting.{IsHealthy, IsHealthy-Failed, ok_injective, ok-ne-err}

-- No stored row has the id.
abbrev pub IsAbsent : String → World → Type 0
IsAbsent id w = any (has_id id) (tables w).secrets ≡ false

is_readable-has_id :
    (id : String) (now : ℤ) (row : SecretRow) → is_readable id now row ≡ true → has_id id row ≡ true
is_readable-has_id id now row h = ground arith

module _ (crypto : Crypto) (fault : ℕ → Bool) (database : Database) (config : AppConfig)
    (client_ip : Option ClientIp) (clock : Option ℕ) (id : String) (headers : HeaderMap) where
  -- A read that is asked at `now` with `digest`, within its limit.
  pub record IsAsked (now : ℤ) (digest : String) (w : World) : Type 0 where
    pub asked : Asked crypto fault database config clock headers now digest
    pub allowed : IsAllowed fault database config (hash_of crypto config client_ip) now w

  RefusesRead-IsAllowed :
      (hash : Option String) (now : ℤ) (w : World) (e : ApiError)
      → IsHealthy fault
      → IsAllowed fault database config hash now w
      → ¬ RefusesRead fault database config hash now w e
  RefusesRead-IsAllowed none now w e h a r = r
  RefusesRead-IsAllowed (some hash) now w e h a (inl (_, over)) = omega arith
  RefusesRead-IsAllowed (some hash) now w e h a (inr f) = IsHealthy-Failed fault h f

  -- What can still refuse it is the store.
  refusal :
      (now : ℤ) (digest : String) (w : World) (e : ApiError)
      → IsHealthy fault
      → IsAsked now digest w
      → ReadRefused crypto fault database config client_ip clock id headers w e
      → NotRead fault id digest now w e
  refusal now digest w e h a (no_time t) = absurd (ok-ne-err a.asked.time t)
  refusal now digest w e h a (no_digest d) = absurd (ok-ne-err a.asked.header d)
  refusal now digest w e h a (limited now' t r) = absurd (
      RefusesRead-IsAllowed (hash_of crypto config client_ip) now w e h a.allowed (
        subst (λ n. RefusesRead fault database config (hash_of crypto config client_ip) n w e)
          (ok_injective t a.asked.time) r))
  refusal now digest w e h a (not_read now' digest' b r) =
      subst (λ n. NotRead fault id digest n w e) (ok_injective b.time a.asked.time)
        (subst (λ d. NotRead fault id d now' w e) (ok_injective b.header a.asked.header) r)

  -- Where no call of SQLite fails, a read that is asked with the digest of a stored, unexpired secret
  -- within its limit returns the ciphertext and the nonce of that secret, and no row of its id is left.
  pub read_secret-Succeeds :
      (now : ℤ) (digest : String) (row : SecretRow) (w : World)
      → IsHealthy fault
      → IsValid (tables w)
      → IsAsked now digest w
      → first (is_readable id now) (tables w).secrets ≡ some row
      → opens row digest ≡ true
      → Succeeds
          (λ response w'.
            (response ≡ record { ciphertext = row.ciphertext; nonce = row.nonce }) × IsAbsent id w')
          (read_secret crypto fault database config client_ip clock id headers w)
  read_secret-Succeeds now digest row w h v a stored opened =
      Ends-Succeeds Delivered run
        (Ends-imp Delivered Refused run
          (read_secret-Ends crypto fault database config client_ip clock id headers w v)
          (λ response w' r. delivered response w' r.0 r.1 r.2 r.4) (λ e w' r. r.0))
        (λ e w' r. unrefused e (refusal now digest w e h a r))
    where
      run : Result ApiError ReadSecretResponse × World
      run = read_secret crypto fault database config client_ip clock id headers w

      Delivered : ReadSecretResponse → World → Type 0
      Delivered response w' =
          (response ≡ record { ciphertext = row.ciphertext; nonce = row.nonce }) × IsAbsent id w'

      Refused : ApiError → World → Type 0
      Refused e w' = ReadRefused crypto fault database config client_ip clock id headers w e

      delivered :
          (response : ReadSecretResponse) (w' : World) (now' : ℤ) (digest' : String)
          → Asked crypto fault database config clock headers now' digest'
          → Read id digest' now' w response w'
          → Delivered response w'
      delivered response w' now' digest' b r =
          let same : some r.row ≡ some row =
            sym r.readable
            ∙ ap (λ n. first (is_readable id n) (tables w).secrets)
                (ok_injective b.time a.asked.time)
            ∙ stored in
          let exact : r.row ≡ row = cc same in
          (
            r.answer ∙ (λ i. record { ciphertext = (exact i).ciphertext; nonce = (exact i).nonce }),
            ap (any (has_id id)) r.gone ∙ any-select-not (has_id id) (tables w).secrets,
          )

      unrefused : (e : ApiError) → ¬ NotRead fault id digest now w e
      unrefused e (missing m x) = cc (sym m ∙ stored)
      unrefused e (wrong_key other m o x) =
          let same : other ≡ row = cc (sym m ∙ stored) in
          cc (sym o ∙ ap (λ r. opens r digest) same ∙ opened)
      unrefused e (unanswered f) = IsHealthy-Failed fault h f

  -- Where no row of the id is stored, such a read is answered by the status 404.
  pub read_secret-Fails :
      (now : ℤ) (digest : String) (w : World)
      → IsHealthy fault
      → IsValid (tables w)
      → IsAsked now digest w
      → IsAbsent id w
      → Fails
          (λ e w'. (e ≡ secret_not_found) × IsKept w w')
          (read_secret crypto fault database config client_ip clock id headers w)
  read_secret-Fails now digest w h v a absent =
      Ends-Fails Missing run
        (Ends-imp Never Missing run
          (read_secret-Ends crypto fault database config client_ip clock id headers w v)
          (λ response w' r. undelivered r.0 r.1 response w' r.4)
          (λ e w' r. (not_found e (refusal now digest w e h a r.0), r.1)))
        (λ response w' r. r)
    where
      run : Result ApiError ReadSecretResponse × World
      run = read_secret crypto fault database config client_ip clock id headers w

      Missing : ApiError → World → Type 0
      Missing e w' = (e ≡ secret_not_found) × IsKept w w'

      Never : ReadSecretResponse → World → Type 0
      Never response w' = ⊥

      unreadable : (n : ℤ) → first (is_readable id n) (tables w).secrets ≡ none
      unreadable n = first-none (is_readable id n) (tables w).secrets (
          any_imp (is_readable id n) (has_id id) (is_readable-has_id id n) (tables w).secrets
            absent)

      undelivered :
          (n : ℤ) (d : String) (response : ReadSecretResponse) (w' : World)
          → ¬ Read id d n w response w'
      undelivered n d response w' r = cc (sym (unreadable n) ∙ r.readable)

      not_found : (e : ApiError) → NotRead fault id digest now w e → e ≡ secret_not_found
      not_found e (missing m x) = x
      not_found e (wrong_key row m o x) = cc (sym (unreadable now) ∙ m)
      not_found e (unanswered f) = absurd (IsHealthy-Failed fault h f)
