-- ===== src/Metrics/Render/Labels.antt =====
-- How the labels of the build information of src/metrics.rs are read.
use mathlib.Core.List
use psst_rs.Prelude.{ℕ, ◌≡◌, ◌≢◌, refl, sym, ap, ◌∙◌, List, [], ◌∷◌, All, arith}
use psst_rs.Prelude.Text.{codes}
use psst_rs.Metrics.Render.Scrape.{start, in_label, next, ended, run, samples_of, Reads}

-- What a label may hold as it is.
pub record IsLabel (c : ℕ) : Type 0 where
  pub quote : c ≢ b'"'
  pub newline : c ≢ b'\n'
  pub backslash : c ≢ b'\\'

next-IsLabel :
    (series : List ℕ) (c : ℕ)
    → IsLabel c
    → next (in_label series) c ≡ in_label (List.◌++◌ series (c ∷ []))
unfolding next
next-IsLabel series c h = ground (arith, h.quote, h.newline, h.backslash)

pub Reads-label :
    (series s : List ℕ)
    → All IsLabel s
    → Reads (in_label series) s [] (in_label (List.◌++◌ series s))
unfolding run samples_of ended
Reads-label series [] h = record {
  reached = ap in_label (sym (List.append-nil series));
  yields = refl;
}
Reads-label series (c ∷ s) (h, hs) =
    let rest : Reads (in_label (List.◌++◌ series (c ∷ []))) s []
        (in_label (List.◌++◌ (List.◌++◌ series (c ∷ [])) s)) =
      Reads-label (List.◌++◌ series (c ∷ [])) s hs in
    record {
      reached =
          (λ i. run (next-IsLabel series c h i) s)
          ∙ rest.reached
          ∙ ap in_label (List.append_assoc series (c ∷ []) s);
      yields = (λ i. samples_of (next-IsLabel series c h i) s) ∙ rest.yields;
    }

-- Characters that are added one by one.
snocs : List ℕ → List ℕ → List ℕ
snocs series [] = series
snocs series (c ∷ s) = snocs (List.◌++◌ series (c ∷ [])) s

snocs-append : (series s : List ℕ) → snocs series s ≡ List.◌++◌ series s
unfolding snocs
snocs-append series [] = sym (List.append-nil series)
snocs-append series (c ∷ s) =
    snocs-append (List.◌++◌ series (c ∷ [])) s ∙ List.append_assoc series (c ∷ []) s

pub between :
    (series : List ℕ)
    → Reads
        (in_label series)
        (codes "\",commit=\"")
        []
        (in_label (List.◌++◌ series (codes "\",commit=\"")))
unfolding run samples_of next ended snocs
between series = record {
  reached = ap in_label (snocs-append series (codes "\",commit=\""));
  yields = refl;
}

pub closing :
    (series : List ℕ)
    → Reads (in_label series) (codes "\"} 1\n") ((List.◌++◌ series (codes "\"}"), 1) ∷ []) start
unfolding run samples_of next ended snocs
closing series = record {
  reached = refl;
  yields = ap (λ s. (s, 1) ∷ []) (snocs-append series (codes "\"}"));
}
