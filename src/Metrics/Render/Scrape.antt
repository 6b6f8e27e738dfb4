-- ===== src/Metrics/Render/Scrape.antt =====
-- How a scraper reads the text of src/metrics.rs: the text format of Prometheus, as far as whole numbers
-- and labels without escapes go.
use psst_rs.Prelude.{
  ℕ, ◌+◌, ◌-◌, ◌*◌, ◌&&◌, Option, none, some, List, [], ◌∷◌, nat_eq, leb, if◌then◌else◌, ◌≡◌, refl,
  ap, ◌∙◌, sym,
}
use mathlib.Core.List.{◌++◌}
use mathlib.Core.List

-- A series, its name with its labels, and its value.
abbrev pub Sample : Type 0
Sample = List ℕ × ℕ

pub data Mode : Type 0 where
  start comment broken : Mode
  in_series : (series : List ℕ) → Mode
  in_label : (series : List ℕ) → Mode
  in_value : (series : List ℕ) → ℕ → Mode

-- One character.
unfoldable pub next : Mode → ℕ → Mode
next start c =
    if nat_eq c b'#' then comment else if nat_eq c b'\n' then start else in_series (c ∷ [])
next comment c = if nat_eq c b'\n' then start else comment
next broken c = broken
next (in_series series) c =
    if nat_eq c b' '
    then in_value series 0
    else if nat_eq c b'\n'
    then broken
    else if nat_eq c b'"'
    then in_label (series ++ (c ∷ []))
    else in_series (series ++ (c ∷ []))
next (in_label series) c =
    if nat_eq c b'"'
    then in_series (series ++ (c ∷ []))
    else if nat_eq c b'\n'
    then broken
    else if nat_eq c b'\\'
    then broken
    else in_label (series ++ (c ∷ []))
next (in_value series n) c =
    if nat_eq c b'\n'
    then start
    else if leb 48 c && leb c 57
    then in_value series (n * 10 + (c - 48))
    else broken

-- The sample that ends at a character.
unfoldable pub ended : Mode → ℕ → List Sample
ended (in_value series n) c = if nat_eq c b'\n' then (series, n) ∷ [] else []
ended _ c = []

unfoldable pub run : Mode → List ℕ → Mode
unfolding next
run mode [] = mode
run mode (c ∷ text) = run (next mode c) text

unfoldable pub samples_of : Mode → List ℕ → List Sample
unfolding next ended
samples_of mode [] = []
samples_of mode (c ∷ text) = ended mode c ++ samples_of (next mode c) text

-- A text is read when each of its lines is, to its end.
unfoldable pub scrape : List ℕ → Option (List Sample)
unfolding run samples_of
scrape text = elim (run start text) [ start ↦ some (samples_of start text) | _ ↦ none ]

-- Reading a text takes the scraper to a mode and yields samples.
pub record Reads (mode : Mode) (text : List ℕ) (samples : List Sample) (mode' : Mode) : Type 0 where
  pub reached : run mode text ≡ mode'
  pub yields : samples_of mode text ≡ samples

abbrev pub read : Mode → List ℕ → Mode × List Sample
read mode text = (run mode text, samples_of mode text)

pub reads :
    {mode mode' : Mode} {text : List ℕ} {samples : List Sample}
    → read mode text ≡ (mode', samples)
    → Reads mode text samples mode'
reads e = record { reached = λ i. (e i).0; yields = λ i. (e i).1 }

run-append : (mode : Mode) (s t : List ℕ) → run mode (s ++ t) ≡ run (run mode s) t
unfolding run
run-append mode [] t = refl
run-append mode (c ∷ s) t = run-append (next mode c) s t

samples_of-append :
    (mode : Mode) (s t : List ℕ)
    → samples_of mode (s ++ t) ≡ samples_of mode s ++ samples_of (run mode s) t
unfolding samples_of run
samples_of-append mode [] t = refl
samples_of-append mode (c ∷ s) t =
    ap (λ rest. ended mode c ++ rest) (samples_of-append (next mode c) s t)
    ∙ sym (
        List.append_assoc (ended mode c) (samples_of (next mode c) s)
          (samples_of (run (next mode c) s) t))

-- Two texts are read in turn.
pub Reads-append :
    {mode mode' mode'' : Mode} (s t : List ℕ) {xs ys : List Sample}
    → Reads mode s xs mode'
    → Reads mode' t ys mode''
    → Reads mode (s ++ t) (xs ++ ys) mode''
Reads-append {mode} s t {xs} h k = record {
  reached = run-append mode s t ∙ (λ i. run (h.reached i) t) ∙ k.reached;
  yields =
      samples_of-append mode s t
      ∙ (λ i. h.yields i ++ samples_of (h.reached i) t)
      ∙ ap (λ rest. xs ++ rest) k.yields;
}

pub scrape-Reads :
    (text : List ℕ) (samples : List Sample)
    → Reads start text samples start
    → scrape text ≡ some samples
unfolding scrape
scrape-Reads text samples h =
    (λ i. elim (h.reached i) [ start ↦ some (samples_of start text) | _ ↦ none ]) ∙ ap some h.yields
