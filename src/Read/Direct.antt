-- ===== src/Read/Direct.antt =====
-- `mxfs_read` on a page with one configuration record.
use mxfs.Base.{
  ℕ, ◌+◌, ◌≤◌, ◌≡◌, refl, sym, ◌∙◌, List, [], ◌++◌, arith, append_assoc, length, length-append,
  slice, slice-append_of, min,
}
use mxfs.Header.{Compress, Fits, magic_number, header_size, encode, type_of, tmp_base}
use mxfs.Header.Codec.{length-encode}
use mxfs.Instance.{layer_max}
use mxfs.Outcome.{returns, load_inside}
use mxfs.Read.{copy_records, read_record, read_loop, read_fuel}
use mxfs.Read.Loop.{read_loop_leave}
use mxfs.Read.Parts.{read_step_magic}

-- The loop returns the record's bytes, if the caller's buffer takes them.
pub read_loop-direct :
    (bufferlen : ℕ) (cp : Compress) (buffer tail : List ℕ)
    → Fits cp
    → cp.magic ≡ magic_number
    → type_of cp ≡ layer_max
    → tmp_base cp ≡ length buffer
    → length buffer ≤ bufferlen
    → read_loop layer_max bufferlen ((encode cp ++ buffer) ++ tail) read_fuel 0 [] ≡ returns buffer
unfolding read_record copy_records
read_loop-direct bufferlen cp buffer tail fits m t n h =
    let rbf = (encode cp ++ buffer) ++ tail in
    let e : rbf ≡ encode cp ++ (buffer ++ tail) = append_assoc (encode cp) buffer tail in
    let size : min (tmp_base cp) bufferlen ≡ length buffer = rw n (omega arith) in
    let inside : header_size + length buffer ≤ length rbf = omega (
      arith,
      length-append (encode cp ++ buffer) tail,
      length-append (encode cp) buffer,
      length-encode cp,
    ) in
    let cut : slice header_size (length buffer) rbf ≡ buffer = rw e (
      slice-append_of header_size (length buffer) (encode cp) buffer tail (sym (length-encode cp))
        refl) in
    read_loop_leave layer_max bufferlen rbf 0 [] buffer (omega arith) (
      read_step_magic layer_max bufferlen rbf cp [] (buffer ++ tail) [] fits m e
      ∙ rw (t, size, load_inside header_size (length buffer) rbf inside, cut) refl)
