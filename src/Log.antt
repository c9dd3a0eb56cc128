-- ===== src/Log.antt =====
-- What the buffers of an instance hold, as lists of time-stamped records for each layer: the view of
-- sw/child/inc/mxfs_def.h's `mxfs_buffer`, `mxfs_length` and `mxfs_count` that the proofs use.
use mxfs.Base.{
  ℕ, ◌+◌, ◌*◌, ◌^◌, ◌<◌, ◌≡◌, refl, List, [], ◌∷◌, ◌++◌, arith, length, length-append, All, to_le,
  length-to_le, append_assoc, ◌∙◌, ap, sym,
}
use mxfs.Instance.{Layer, record_size, stamp_size, Inst}

-- A time stamp and a payload.
abbrev pub Entry : Type 0
Entry = ℕ × List ℕ

abbrev pub IsEntry : Layer → Entry → Type 0
IsEntry l (t, p) = (t < 2 ^ 64) × (length p ≡ record_size l)

abbrev pub Log : Type 0
Log = Layer → List Entry

-- The bytes of a layer's buffer.
abbrev pub packed : List Entry → List ℕ
packed [] = []
packed ((t, p) ∷ es) = to_le 8 t ++ (p ++ packed es)

abbrev pub payloads : List Entry → List ℕ
payloads [] = []
payloads ((t, p) ∷ es) = p ++ payloads es

-- The stamp of the last record, or `last` if there is none.
abbrev pub last_time : ℕ → List Entry → ℕ
last_time last [] = last
last_time last ((t, p) ∷ es) = last_time t es

-- The fields of layer `l` hold the records `es`, with `rest` behind them in the buffer.
pub record Holds (l : Layer) (inst : Inst) (es : List Entry) : Type 0 where
  pub rest : List ℕ
  pub buffered : inst.mxfs_buffer l ≡ packed es ++ rest
  pub lengths : inst.mxfs_length l ≡ length es * (stamp_size + record_size l)
  pub counts : inst.mxfs_count l ≡ length es
  pub entries : All (IsEntry l) es

pub length-packed :
    (l : Layer) (es : List Entry)
    → All (IsEntry l) es
    → length (packed es) ≡ length es * (stamp_size + record_size l)
length-packed l [] h = omega arith
length-packed l ((t, p) ∷ es) ((ht, hp), hs) = omega (
  arith,
  length-append (to_le 8 t) (p ++ packed es),
  length-append p (packed es),
  length-to_le 8 t,
  length-packed l es hs,
)

pub length-payloads :
    (l : Layer) (es : List Entry)
    → All (IsEntry l) es
    → length (payloads es) ≡ length es * record_size l
length-payloads l [] h = omega arith
length-payloads l ((t, p) ∷ es) ((ht, hp), hs) =
    omega (arith, length-append p (payloads es), length-payloads l es hs)

pub packed-append : (es fs : List Entry) → packed (es ++ fs) ≡ packed es ++ packed fs
packed-append [] fs = refl
packed-append ((t, p) ∷ es) fs =
    ap (λ x. to_le 8 t ++ (p ++ x)) (packed-append es fs)
    ∙ ap (λ x. to_le 8 t ++ x) (sym (append_assoc p (packed es) (packed fs)))
    ∙ sym (append_assoc (to_le 8 t) (p ++ packed es) (packed fs))
