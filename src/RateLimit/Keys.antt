-- ===== src/RateLimit/Keys.antt =====
-- The keys of src/rate_limit.rs: no two requesters or kinds share a counter, and the pattern of a
-- purge meets the keys of its own kind only.
use Prim.Native.String.{◌++◌}
use mathlib.Core.List
use text.Mathlib.TextLemmas.{append_cancel_left}
use psst_rs.Prelude.{ℕ, String, ◌≡◌, refl, ap, sym, ◌∙◌, Bool, true, false, List, ◌∷◌, [], arith}
use psst_rs.Prelude.Text.{codes, codes-append, like, like_any}
use psst_rs.RateLimit.{RateLimitBucket, create_minute, create_hour, read_minute, key_prefix, key}

codes-key :
    (kind : RateLimitBucket) (h : String)
    → codes (key kind h) ≡ List.◌++◌ (codes (key_prefix kind)) (58 ∷ codes h)
unfolding key
codes-key kind h =
    codes-append (key_prefix kind) (":" ++ h)
    ∙ ap (List.◌++◌ (codes (key_prefix kind))) (codes-append ":" h)

kind_of_codes :
    (k j : RateLimitBucket) (g h : List ℕ)
    → List.◌++◌ (codes (key_prefix k)) (58 ∷ g) ≡ List.◌++◌ (codes (key_prefix j)) (58 ∷ h)
    → k ≡ j
unfolding key_prefix
kind_of_codes create_minute create_minute g h e = refl
kind_of_codes create_hour create_hour g h e = refl
kind_of_codes read_minute read_minute g h e = refl
kind_of_codes _ _ g h e = absurd (ground arith)

-- Equal keys are of one kind and one requester.
pub key_injective : (k j : RateLimitBucket) (g h : String) → key k g ≡ key j h → (k ≡ j) × (g ≡ h)
key_injective k j g h e =
    let same : k ≡ j =
      kind_of_codes k j (codes g) (codes h) (sym (codes-key k g) ∙ ap codes e ∙ codes-key j h) in
    (same, requester k g h (rw (← same) at e))
  where
    requester : (kind : RateLimitBucket) (s t : String) → key kind s ≡ key kind t → s ≡ t
    requester kind s t p =
        append_cancel_left ":" s t (append_cancel_left (key_prefix kind) _ _ (unfold key in p))

-- The pattern of a purge, `format!("{key_prefix}:%")`.
abbrev pub purge_pattern : RateLimitBucket → String
purge_pattern kind = key_prefix kind ++ ":%"

like_rest : (s : List ℕ) → like_any (like []) s ≡ true
unfolding like
like_rest [] = refl
like_rest (c ∷ s) = like_rest s

abbrev pub same_kind : RateLimitBucket → RateLimitBucket → Bool
same_kind create_minute create_minute = true
same_kind create_hour create_hour = true
same_kind read_minute read_minute = true
same_kind _ _ = false

like-codes :
    (k j : RateLimitBucket) (s : List ℕ)
    → like
        (List.◌++◌ (codes (key_prefix k)) (58 ∷ 37 ∷ []))
        (List.◌++◌ (codes (key_prefix j)) (58 ∷ s))
      ≡ same_kind k j
unfolding like key_prefix
like-codes create_minute create_minute [] = refl
like-codes create_minute create_minute (c ∷ s) = like_rest s
like-codes create_hour create_hour [] = refl
like-codes create_hour create_hour (c ∷ s) = like_rest s
like-codes read_minute read_minute [] = refl
like-codes read_minute read_minute (c ∷ s) = like_rest s
like-codes _ _ s = refl

-- The pattern that a purge of one kind deletes by matches exactly the keys of that kind.
pub like-purge_pattern :
    (k j : RateLimitBucket) (h : String)
    → like (codes (purge_pattern k)) (codes (key j h)) ≡ same_kind k j
like-purge_pattern k j h =
    rw (codes-append (key_prefix k) ":%", codes-key j h) (like-codes k j (codes h))
