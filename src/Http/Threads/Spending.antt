-- ===== src/Http/Threads/Spending.antt =====
-- What each request of src/http.rs may give away: a read and a deletion take the secret from the
-- table, and a creation brings one.
use psst_rs.Prelude.{
  ℕ, ◌≤◌, String, ◌≡◌, refl, sym, subst, inl, inr, Bool, false, Option, none, some, ◌==◌, arith,
  bit, Bool-cases, ◌+◌,
}
use psst_rs.Prelude.Int.{ℤ}
use psst_rs.Prelude.Exec.{Result, ok, err}
use psst_rs.Crypto.{Crypto}
use psst_rs.Secret.{generate_secret_reference, DeleteSecretResponse}
use psst_rs.Db.Tables.{Tables, NewSecretRecord, ConsumeSecretResult, consumed}
use psst_rs.Db.Spec.{IsValid, read_step, delete_step, delete_found}
use psst_rs.Db.Trace.{outcome, deleted}
use psst_rs.Db.Trace
use psst_rs.Db.Trace.Once.{present, kept, Spends, read-Spends, delete-Spends}
use psst_rs.Db.Validity.{read_step-IsValid}
use psst_rs.Db.Writes.{Inserted}
use psst_rs.Http.Api.{ApiError}
use psst_rs.Http.Threads.Tariff.{Tariff, removes, confirms}
use psst_rs.Db.Statements.{is_expired}
use psst_rs.Http.Program.Costs.{Pays}
use psst_rs.Http.Threads.{Request, create, Answer, was_read, was_deleted}

-- The answer hands the secret out, or confirms that its owner deleted it.
abbrev pub gives : String → Answer → Bool
gives id (was_read client_ip clock secret_id (ok response)) = secret_id == id
gives id (was_deleted secret_id (ok response)) = secret_id == id
gives id _ = false

-- A creation whose random bytes are this id.
abbrev pub brings : Crypto → String → Request → Bool
brings crypto id (create client id_bytes token_bytes client_ip clock payload) =
    (generate_secret_reference crypto id_bytes token_bytes).secret_id == id
brings crypto id _ = false

module _ (id : String) where
  -- 1 while the secret is stored.
  abbrev pub stored_bit : Tables → ℕ
  stored_bit t = bit (present id t)

  -- What a result of the store gives away.
  abbrev pub hands : String → ConsumeSecretResult → Bool
  hands i (consumed secret) = i == id
  hands i _ = false

  abbrev pub IsSpent : {A : Type 0} → (A → Bool) → ℕ → Result ApiError A → Type 0
  IsSpent f n (ok a) = bit (f a) ≤ n
  IsSpent f n (err e) = Unit

  pub read_step-Pays :
      (i digest : String) (now : ℤ) (q : ConsumeSecretResult) (t t' : Tables)
      → IsValid t
      → (q, t') ≡ read_step i digest now t
      → (k : ℕ) × Pays IsValid stored_bit 0 t k t' × (bit (hands i q) ≤ k)
  unfolding read_step
  read_step-Pays i digest now q t t' v h =
      let spent =
        subst (Spends id (Trace.read i digest now) outcome t) (sym h)
          (read-Spends id i digest now t _ refl) in
      (
        bit (hands i q),
        (
          omega (arith, spent),
          subst IsValid (λ j. (sym h j).1) (read_step-IsValid i digest now t v),
        ),
        omega arith,
      )

  pub deleted-Spends :
      (i hash : String) (q : Option ℕ) (t t' : Tables)
      → IsValid t
      → (q, t') ≡ delete_step i hash t
      → bit (removes (i == id) q) + stored_bit t' ≤ stored_bit t
  unfolding delete_step
  deleted-Spends i hash q t t' v h =
      subst (λ (r : Option ℕ × Tables). bit (removes (i == id) r.0) + stored_bit r.1 ≤ stored_bit t)
        (sym h) (same_answer (delete_found i hash t _) (delete-Spends id i hash t _ v refl))
    where
      same_answer :
          (r : Option ℕ × Tables)
          → Spends id (Trace.delete i hash) deleted t r
          → bit (removes (i == id) r.0) + stored_bit r.1 ≤ stored_bit t
      same_answer (some size, u) k = k
      same_answer (none, u) k = k

  pub stored-Inserted :
      (secret : NewSecretRecord) (t t' : Tables)
      → Inserted secret t t'
      → stored_bit t' ≤ bit (secret.id == id) + stored_bit t
  stored-Inserted secret t t' h = elim (Bool-cases (secret.id == id)) [
    | inl e ↦ rw (h.added, e) (omega arith)
    | inr e ↦ rw (h.added, e) (omega arith)
  ]

  pub confirmed :
      (i : String) (r : Result ApiError DeleteSecretResponse)
      → gives id (was_deleted i r) ≡ confirms (i == id) r
  confirmed i (ok response) = refl
  confirmed i (err e) = refl

  -- A secret that is stored pays for one answer; the maintenance may come at any time.
  abbrev pub secret_tariff : Tariff stored_bit (λ now. Unit)
  secret_tariff = record {
    gives = gives id;
    cost = λ i. bit (i == id);
    owns = λ i. i == id;
    stores = stored-Inserted;
    takes = deleted-Spends;
    expires = λ now t. kept id (is_expired now) t;
    counts = λ kind hash now t. omega arith;
    sweeps = λ kind now t timely. omega arith;
    creations = λ r. refl;
    deletions = confirmed;
    turns = refl;
  }
