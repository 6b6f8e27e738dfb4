-- ===== src/Http/Handlers/Reading.antt =====
-- The read of src/http.rs: `read_secret`.
use Prim.Native.String.{◌++◌}
use psst_rs.Prelude.{ℕ, String, ◌≡◌, refl, ap, ◌∙◌, sym, Bool, Option}
use psst_rs.Prelude.Int.{ℤ}
use psst_rs.Prelude.Exec.{Result, ok, err, lift, ◌>>=◌}
use psst_rs.Crypto.{Crypto}
use psst_rs.Config.{AppConfig}
use psst_rs.RequestContext.{ClientIp, HeaderMap}
use psst_rs.Secret.{ReadSecretResponse}
use psst_rs.Db.Connection.{Database}
use psst_rs.Db.Store.{consume_unexpired_secret_by_id_and_key_digest}
use psst_rs.Db.Spec.{IsValid}
use psst_rs.Http.Api.{ApiError, World, Handler, store_call, map_err, internal, current_timestamp}
use psst_rs.Http.Validate.{extract_read_key_digest}
use psst_rs.Http.Limits.{check_read_rate_limit}
use psst_rs.Http.Limits.Reads.{check_read_rate_limit-Ends, IsAllowed, RefusesRead}
use psst_rs.Http.Ends.{Ends, tables, Ends-bind, Ends-imp, Ends-map_err}
use psst_rs.Http.Handlers.{read_secret, answer_read, hash_of}
use psst_rs.Metrics.{AppMetrics, fetch_add}
use psst_rs.Http.Handlers.Consuming.{
  Read, NotRead, count_not_read, IsKept, consume-Ends, Read-tables, NotRead-tables,
  count_not_read-tables,
}

module _ (crypto : Crypto) (fault : ℕ → Bool) (database : Database) (config : AppConfig) where
  -- A request that can be answered: the clock works and the header holds a digest.
  pub record Asked (clock : Option ℕ) (headers : HeaderMap) (now : ℤ) (digest : String)
      : Type 0 where
    pub time : current_timestamp clock ≡ ok now
    pub header : extract_read_key_digest crypto headers ≡ ok digest

  -- Why a read is refused.
  pub data ReadRefused (client_ip : Option ClientIp) (clock : Option ℕ) (id : String)
      (headers : HeaderMap) (w : World) (e : ApiError) : Type 0 where
    no_time : current_timestamp clock ≡ err e → ReadRefused client_ip clock id headers w e
    no_digest :
        extract_read_key_digest crypto headers ≡ err e → ReadRefused client_ip clock id headers w e
    limited :
        (now : ℤ)
        → current_timestamp clock ≡ ok now
        → RefusesRead fault database config (hash_of crypto config client_ip) now w e
        → ReadRefused client_ip clock id headers w e
    not_read :
        (now : ℤ) (digest : String)
        → Asked clock headers now digest
        → NotRead fault id digest now w e
        → ReadRefused client_ip clock id headers w e

  -- What a refusal counts: a failed call of SQLite while the limit is checked counts as limited.
  abbrev pub count_refused :
      {client_ip : Option ClientIp} {clock : Option ℕ} {id : String} {headers : HeaderMap}
      {w : World} {e : ApiError}
      → ReadRefused client_ip clock id headers w e
      → AppMetrics
      → AppMetrics
  count_refused (limited now t r) m = record m {
    rate_limited_read = fetch_add m.rate_limited_read 1;
  }
  count_refused (not_read now digest a reason) m = count_not_read reason m
  count_refused _ m = m

  -- On valid tables, a read hands out the first stored secret of the id that is unexpired, if the
  -- digest of the header opens it, and then no row of the id is left; the requester was within the
  -- limit, and the metrics count the read. Every refusal has one of the listed reasons, leaves the
  -- secrets as they were and counts what its reason says.
  pub read_secret-Ends :
      (client_ip : Option ClientIp) (clock : Option ℕ) (id : String) (headers : HeaderMap)
      (w : World)
      → IsValid (tables w)
      → Ends
          (λ response w'.
            (now : ℤ) × (digest : String) × Asked clock headers now digest
            × IsAllowed fault database config (hash_of crypto config client_ip) now w
            × Read id digest now w response w')
          (λ e w'.
            (reason : ReadRefused client_ip clock id headers w e) × IsKept w w'
            × (w'.metrics ≡ count_refused reason w.metrics))
          (read_secret crypto fault database config client_ip clock id headers w)
  unfolding read_secret
  read_secret-Ends client_ip clock id headers w v =
      start (current_timestamp clock) refl (extract_read_key_digest crypto headers) refl
    where
      Good : ReadSecretResponse → World → Type 0
      Good response w' =
          (now : ℤ) × (digest : String) × Asked clock headers now digest
          × IsAllowed fault database config (hash_of crypto config client_ip) now w
          × Read id digest now w response w'

      Bad : ApiError → World → Type 0
      Bad e w' =
          (reason : ReadRefused client_ip clock id headers w e) × IsKept w w'
          × (w'.metrics ≡ count_refused reason w.metrics)

      count_limited : AppMetrics → AppMetrics
      count_limited m = record m { rate_limited_read = fetch_add m.rate_limited_read 1 }

      rest : ℤ → String → Handler ReadSecretResponse
      rest now digest =
          map_err (λ m. record m { db_errors_read = fetch_add m.db_errors_read 1 })
            (store_call (consume_unexpired_secret_by_id_and_key_digest fault database id digest now)
              (λ error. internal ("failed to load secret: " ++ error)))
          >>= answer_read

      start :
          (time : Result ApiError ℤ)
          → current_timestamp clock ≡ time
          → (header : Result ApiError String) → extract_read_key_digest crypto headers ≡ header
          → Ends Good Bad (
              (lift time >>= λ now. lift header >>= λ digest.
              map_err count_limited
                (check_read_rate_limit fault database config (hash_of crypto config client_ip) now)
              >>= λ _. rest now digest)
                w)
      start (err e) t header h = record { at = (no_time t, refl, refl) }
      start (ok now) t (err e) h = record { at = (no_digest h, refl, refl) }
      start (ok now) t (ok digest) h =
          Ends-bind Good Bad
            (map_err count_limited
              (check_read_rate_limit fault database config (hash_of crypto config client_ip) now))
            (λ _. rest now digest) w
            (Ends-map_err
              (λ e w'.
                RefusesRead fault database config (hash_of crypto config client_ip) now w e
                × IsKept w w'
                × (w'.metrics ≡ count_limited w.metrics))
              count_limited
              (check_read_rate_limit fault database config (hash_of crypto config client_ip) now) w
              (check_read_rate_limit-Ends fault database config (hash_of crypto config client_ip)
                now w v)
              (λ e w' k. (k.0, k.1, ap count_limited k.2)))
            (λ e w' k. (limited now t k.0, k.1, k.2))
            (λ _ w' k.
              Ends-imp Good Bad (rest now digest w')
                (consume-Ends fault database id digest now w' k.2)
                (λ response w'' r. (
                  now,
                  digest,
                  record { time = t; header = h },
                  k.0,
                  Read-tables fault database id digest now w w' response w'' k.1 k.3 r,
                ))
                (λ e w'' r. (
                  not_read now digest (record { time = t; header = h })
                      (NotRead-tables fault database id digest now w w' e k.1 r.0),
                  r.1 ∙ k.1,
                  r.2
                      ∙ ap (count_not_read r.0) k.3
                      ∙ sym (
                          count_not_read-tables fault database id digest now w w' e k.1 r.0
                            w.metrics),
                )))
