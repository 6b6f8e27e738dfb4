-- ===== src/Metrics/Render/Writers.antt =====
-- What the writing functions of src/metrics.rs add, as a scraper reads it.
use Prim.Native.String.{◌++◌}
use mathlib.Core.List
use psst_rs.Prelude.{
  ℕ, ◌+◌, ◌-◌, ◌*◌, String, ◌≡◌, refl, sym, subst, ap, ◌∙◌, List, [], ◌∷◌, All, arith,
}
use psst_rs.Prelude.Int.{ℤ, pos, negsuc, max_ℤ, pos_part}
use psst_rs.Prelude.Text.{codes, codes-append}
use psst_rs.Prelude.Show.{show_u64, show_i64, read_on, IsDigit, show_u64-IsDecimal}
use psst_rs.Metrics.Render.{
  Writer, ◌>>>◌, writeln, write_value, write_counter, write_gauge, write_gauge_i64,
}
use psst_rs.Metrics.Render.Scrape.{
  Sample, start, in_value, next, ended, run, samples_of, read, reads, Reads, Reads-append,
}

-- A writer adds text that is read as these samples.
pub record Writes (f : Writer) (samples : List Sample) : Type 0 where
  pub text : List ℕ
  pub adds : (buf : String) → codes (f buf) ≡ List.◌++◌ (codes buf) text
  pub reads : Reads start text samples start

pub Writes-◌>>>◌ :
    (f g : Writer) {xs ys : List Sample}
    → Writes f xs
    → Writes g ys
    → Writes (f >>> g) (List.◌++◌ xs ys)
Writes-◌>>>◌ f g h k = record {
  text = List.◌++◌ h.text k.text;
  adds = λ buf.
      k.adds (f buf)
      ∙ (λ i. List.◌++◌ (h.adds buf i) k.text)
      ∙ List.append_assoc (codes buf) h.text k.text;
  reads = Reads-append h.text k.text h.reads k.reads;
}

pub Writes-writeln :
    (text : String) {samples : List Sample}
    → Reads start (List.◌++◌ (codes text) (10 ∷ [])) samples start
    → Writes (writeln text) samples
unfolding writeln
Writes-writeln text h = record {
  text = List.◌++◌ (codes text) (10 ∷ []);
  adds = λ buf.
      codes-append buf (text ++ "\n") ∙ (λ i. List.◌++◌ (codes buf) (codes-append text "\n" i));
  reads = h;
}

next-IsDigit :
    (series : List ℕ) (n c : ℕ)
    → IsDigit c
    → next (in_value series n) c ≡ in_value series (n * 10 + (c - 48))
unfolding next
next-IsDigit series n c d = ground (arith, d.low, d.high)

ended-IsDigit : (series : List ℕ) (n c : ℕ) → IsDigit c → ended (in_value series n) c ≡ []
unfolding ended
ended-IsDigit series n c d = ground (arith, d.low)

-- Digits are read as the value.
Reads-digits :
    (series : List ℕ) (n : ℕ) (s : List ℕ)
    → All IsDigit s
    → Reads (in_value series n) s [] (in_value series (read_on n s))
unfolding run samples_of next ended
Reads-digits series n [] h = record { reached = refl; yields = refl }
Reads-digits series n (c ∷ s) (d, ds) =
    let rest : Reads (in_value series (n * 10 + (c - 48))) s []
        (in_value series (read_on (n * 10 + (c - 48)) s)) =
      Reads-digits series (n * 10 + (c - 48)) s ds in
    record {
      reached = (λ i. run (next-IsDigit series n c d i) s) ∙ rest.reached;
      yields =
          (λ i.
            List.◌++◌ (ended-IsDigit series n c d i) (samples_of (next-IsDigit series n c d i) s))
          ∙ rest.yields;
    }

newline :
    (series : List ℕ) (n value : ℕ)
    → n ≡ value
    → Reads (in_value series n) (10 ∷ []) ((series, value) ∷ []) start
unfolding run samples_of next ended
newline series n value e = record { reached = refl; yields = ap (λ k. (series, k) ∷ []) e }

-- A line that leads to a value is read as a sample.
pub Writes-write_value :
    (text : String) (series : List ℕ) (value : ℕ)
    → Reads start (codes text) [] (in_value series 0)
    → Writes (write_value text value) ((series, value) ∷ [])
unfolding write_value
Writes-write_value text series value h = Writes-writeln (text ++ show_u64 value) (
    subst (λ s. Reads start (List.◌++◌ s (10 ∷ [])) ((series, value) ∷ []) start)
      (sym (codes-append text (show_u64 value)))
      (Reads-append _ _
        (Reads-append (codes text) (codes (show_u64 value)) h
          (Reads-digits series 0 (codes (show_u64 value)) (show_u64-IsDecimal value).digits))
        (newline series _ value (show_u64-IsDecimal value).value)))

-- What a scraper makes of the lines of a metric.
pub record IsClean (name help kind : String) : Type 0 where
  pub help_line :
      Reads start (List.◌++◌ (codes ("# HELP " ++ (name ++ (" " ++ help)))) (10 ∷ [])) [] start
  pub type_line : Reads start (List.◌++◌ (codes ("# TYPE " ++ (name ++ kind))) (10 ∷ [])) [] start
  pub series : Reads start (codes (name ++ " ")) [] (in_value (codes name) 0)

pub clean :
    {name help kind : String}
    → read start (List.◌++◌ (codes ("# HELP " ++ (name ++ (" " ++ help)))) (10 ∷ [])) ≡ (start, [])
    → read start (List.◌++◌ (codes ("# TYPE " ++ (name ++ kind))) (10 ∷ [])) ≡ (start, [])
    → read start (codes (name ++ " ")) ≡ (in_value (codes name) 0, [])
    → IsClean name help kind
clean h t s = record { help_line = reads h; type_line = reads t; series = reads s }

max_ℤ-pos_part : (value : ℤ) → max_ℤ value (pos 0) ≡ pos (pos_part value)
max_ℤ-pos_part (pos n) = ground arith
max_ℤ-pos_part (negsuc n) = ground arith

module _ (name help : String) where
  pub Writes-write_counter :
      (value : ℕ)
      → IsClean name help " counter"
      → Writes (write_counter name help value) ((codes name, value) ∷ [])
  unfolding write_counter
  Writes-write_counter value h =
      Writes-◌>>>◌ _ _
        (Writes-◌>>>◌ _ _ (Writes-writeln _ h.help_line) (Writes-writeln _ h.type_line))
        (Writes-write_value (name ++ " ") (codes name) value h.series)

  pub Writes-write_gauge :
      (value : ℕ)
      → IsClean name help " gauge"
      → Writes (write_gauge name help value) ((codes name, value) ∷ [])
  unfolding write_gauge
  Writes-write_gauge value h =
      Writes-◌>>>◌ _ _
        (Writes-◌>>>◌ _ _ (Writes-writeln _ h.help_line) (Writes-writeln _ h.type_line))
        (Writes-write_value (name ++ " ") (codes name) value h.series)

  write_gauge_i64-pos_part :
      (value : ℤ) → write_gauge_i64 name help value ≡ write_gauge name help (pos_part value)
  unfolding write_gauge_i64 write_gauge write_value show_i64
  write_gauge_i64-pos_part value =
      ap
        (λ z.
          writeln ("# HELP " ++ (name ++ (" " ++ help)))
          >>> writeln ("# TYPE " ++ (name ++ " gauge"))
          >>> writeln ((name ++ " ") ++ show_i64 z))
        (max_ℤ-pos_part value)

  pub Writes-write_gauge_i64 :
      (value : ℤ)
      → IsClean name help " gauge"
      → Writes (write_gauge_i64 name help value) ((codes name, pos_part value) ∷ [])
  Writes-write_gauge_i64 value h =
      subst (λ f. Writes f ((codes name, pos_part value) ∷ []))
        (sym (write_gauge_i64-pos_part value)) (Writes-write_gauge (pos_part value) h)
