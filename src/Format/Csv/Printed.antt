-- ===== src/Format/Csv/Printed.antt =====
-- The lines that the csv command (sw/parent/src/format.cc) prints from the series it decoded.
use mxfs.Base.{
  ℕ, zero, suc, ◌+◌, ◌*◌, ◌≤◌, ◌<◌, ◌≡◌, refl, List, [], ◌∷◌, ◌++◌, arith, length, lt→ltb, rounds,
}
use mxfs.Instance.{Layer, code}
use mxfs.Log.{Entry, payloads}
use mxfs.Outcome.{returns, ◌>>=◌}
use mxfs.Format.Csv.{
  Line, Series, Decoded, nothing, decbf_size, decode_page, dim3_lines, temperature_lines,
  print_page,
}
use mxfs.Format.Csv.Values.{Values}
use mxfs.Format.Csv.Lines.{dim3_printed, temperature_printed, dim3_samples, temperature_samples}
use mxfs.Format.Csv.Shared.{IsSeries}

-- The lines of a series, where its vector holds the values.
dim3_lines-printed :
    (type t step : ℕ) (values : List ℕ) (s : Series) (m k i : ℕ)
    → s.time ≡ t
    → s.step ≡ step
    → Values values m s.values
    → i + k * 3 ≤ m
    → m ≤ decbf_size
    → dim3_lines type s k i ≡ returns (dim3_printed type t step values k i)
unfolding dim3_lines
dim3_lines-printed type t step values s m zero i a b vals inside small = refl
dim3_lines-printed type t step values s m (suc k) i a b vals inside small =
    rw
      (
        dim3_lines-printed type t step values s m k (i + 3) a b vals (omega (arith, inside)) small,
        ◌>>=◌,
        lt→ltb (i + 2) decbf_size (omega (arith, inside, small)),
        a,
        b,
        vals i (omega (arith, inside)),
        vals (i + 1) (omega (arith, inside)),
        vals (i + 2) (omega (arith, inside)),
      )
      refl

temperature_lines-printed :
    (t step : ℕ) (values : List ℕ) (s : Series) (m k i : ℕ)
    → s.time ≡ t
    → s.step ≡ step
    → Values values m s.values
    → i + k ≤ m
    → m ≤ decbf_size
    → temperature_lines s k i ≡ returns (temperature_printed t step values k i)
unfolding temperature_lines
temperature_lines-printed t step values s m zero i a b vals inside small = refl
temperature_lines-printed t step values s m (suc k) i a b vals inside small =
    rw
      (
        temperature_lines-printed t step values s m k (suc i) a b vals (omega (arith, inside))
            small,
        ◌>>=◌,
        lt→ltb i decbf_size (omega (arith, inside, small)),
        a,
        b,
        vals i (omega (arith, inside)),
      )
      refl

pub dim3_samples-printed :
    (l : Layer) (es : List Entry) (s : Series)
    → length es < 1000
    → IsSeries 3 (λ t. t) es s
    → dim3_lines (code l) s (rounds 0 s.count 3) 0 ≡ returns (dim3_samples l es)
unfolding dim3_lines
dim3_samples-printed l [] s few none =
    let z : rounds 0 s.count 3 ≡ 0 = omega (arith, none) in rw z refl
dim3_samples-printed l ((t, p) ∷ es) s few (n, a, b, vals) =
    let m = suc (length es) in
    rw n (
      dim3_lines-printed (code l) t _ (payloads ((t, p) ∷ es)) s (m * 3) (rounds 0 m 3) 0 a b vals
        (omega arith) (omega (arith, few)))

pub temperature_samples-printed :
    (carried : ℕ) (es : List Entry) (s : Series)
    → length es < 4000
    → IsSeries 1 (λ t. carried) es s
    → temperature_lines s s.count 0 ≡ returns (temperature_samples carried es)
unfolding temperature_lines
temperature_samples-printed carried [] s few none = rw none refl
temperature_samples-printed carried ((t, p) ∷ es) s few (n, a, b, vals) =
    let m = suc (length es) in
    rw n (
      temperature_lines-printed t _ (payloads ((t, p) ∷ es)) s (m * 1) m 0 a b vals (omega arith)
        (omega (arith, few)))

-- The page's lines from what was decoded.
pub print_page-decoded :
    (decbf : List ℕ) (d : Decoded) (g a t : List Line)
    → decode_page decbf 257 0 nothing ≡ returns d
    → dim3_lines 3 d.gyro (rounds 0 d.gyro.count 3) 0 ≡ returns g
    → dim3_lines 4 d.accelerometer (rounds 0 d.accelerometer.count 3) 0 ≡ returns a
    → temperature_lines d.temperature d.temperature.count 0 ≡ returns t
    → print_page decbf ≡ returns (d.lines ++ (g ++ (a ++ t)))
unfolding print_page
print_page-decoded decbf d g a t p q r s = rw (p, ◌>>=◌, q, ◌>>=◌, r, ◌>>=◌, s) refl
