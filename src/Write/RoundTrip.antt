-- ===== src/Write/RoundTrip.antt =====
-- A configuration record that `mxfs_write` puts on a page is what `mxfs_read` returns.
use mxfs.Base.{
  ℕ, zero, suc, ◌+◌, ◌-◌, ◌^◌, ◌≤◌, ◌<◌, ◌≡◌, ◌≢◌, refl, sym, ap, ◌∙◌, true, some, List, [], ◌∷◌,
  ◌++◌, arith, append_assoc, length, length-append, length-replicate, replicate, take, drop, slice,
  splice, take-append_of, take_all, splice-append, All, IsByte, from_le, u16, ne→==, le→leb,
}
use mxfs.Header.{
  Fits, magic_number, header_size, encode, decode, type_of, tmp_base, set_type, set_tmp_base,
}
use mxfs.Header.Codec.{length-encode}
use mxfs.Instance.{ok, count, page_size, layer_max, block_count, page_count}
use mxfs.Driver.{Driver, PageStore, blank}
use mxfs.Outcome.{returns}
use mxfs.Read.{read}
use mxfs.Read.Direct.{read_loop-direct}
use mxfs.Write.{direct_header, direct_buffer, write}

-- Four bytes make a word.
from_le-IsWord : (xs : List ℕ) → All IsByte xs → length xs ≤ 4 → from_le xs < 2 ^ 32
unfolding from_le
from_le-IsWord [] h n = omega arith
from_le-IsWord (a ∷ []) (p, h) n = omega arith
from_le-IsWord (a ∷ (b ∷ [])) (p, (q, h)) n = omega arith
from_le-IsWord (a ∷ (b ∷ (c ∷ []))) (p, (q, (r, h))) n = omega arith
from_le-IsWord (a ∷ (b ∷ (c ∷ (d ∷ [])))) (p, (q, (r, (s, h)))) n = omega arith
from_le-IsWord (a ∷ (b ∷ (c ∷ (d ∷ (e ∷ xs))))) h n = absurd (omega arith)

take-IsByte : (n : ℕ) (xs : List ℕ) → All IsByte xs → All IsByte (take n xs)
take-IsByte zero xs h = tt
take-IsByte (suc n) [] h = tt
take-IsByte (suc n) (x ∷ xs) (p, h) = (p, take-IsByte n xs h)

drop-IsByte : (n : ℕ) (xs : List ℕ) → All IsByte xs → All IsByte (drop n xs)
drop-IsByte zero xs h = h
drop-IsByte (suc n) [] h = tt
drop-IsByte (suc n) (x ∷ xs) (p, h) = drop-IsByte n xs h

length-take_le : (n : ℕ) (xs : List ℕ) → length (take n xs) ≤ n
length-take_le zero xs = omega arith
length-take_le (suc n) [] = omega arith
length-take_le (suc n) (x ∷ xs) = omega (arith, length-take_le n xs)

word_at : (off : ℕ) (xs : List ℕ) → All IsByte xs → from_le (slice off 4 xs) < 2 ^ 32
word_at off xs h =
    from_le-IsWord (slice off 4 xs) (take-IsByte 4 (drop off xs) (drop-IsByte off xs h))
      (length-take_le 4 (drop off xs))

decode-Fits : (xs : List ℕ) → All IsByte xs → Fits (decode 0 xs)
unfolding decode
decode-Fits xs h = (word_at 0 xs h, word_at 4 xs h, word_at 8 xs h, word_at 12 xs h)

-- The header that the write puts in front, whatever the buffer held.
direct_header-Tells :
    (n : ℕ) (old : List ℕ)
    → n < 65536
    → All IsByte old
    → Fits (direct_header n old)
      × ((direct_header n old).magic ≡ magic_number)
      × (type_of (direct_header n old) ≡ layer_max)
      × (tmp_base (direct_header n old) ≡ n)
unfolding direct_header set_type set_tmp_base type_of tmp_base
direct_header-Tells n old h bytes =
    let (a, b, c, d) = decode-Fits old bytes in
    ((omega arith, b, omega arith, omega arith), refl, omega arith, omega arith)

-- What is sent to the driver: the header and the caller's bytes.
direct_buffer-sent :
    (buffer old : List ℕ)
    → header_size + length buffer ≤ page_size
    → take (u16 (length buffer + header_size)) (direct_buffer buffer old)
      ≡ encode (direct_header (length buffer) old) ++ buffer
unfolding direct_buffer
direct_buffer-sent buffer old h =
    let head = encode (direct_header (length buffer) old) in
    let rest = drop (0 + length head) old in
    let e : splice header_size buffer (head ++ rest)
        ≡ (head ++ buffer) ++ drop (length buffer) rest =
      splice-append header_size head buffer rest
        (sym (length-encode (direct_header (length buffer) old)))
      ∙ sym (append_assoc head buffer (drop (length buffer) rest)) in
    ap (λ x. take (u16 (length buffer + header_size)) x) e
    ∙ take-append_of (u16 (length buffer + header_size)) (head ++ buffer)
        (drop (length buffer) rest)
        (omega
          (arith, h, length-append head buffer, length-encode (direct_header (length buffer) old)))

module _ (drv : Driver) (st : PageStore drv) (dev : drv.Dev) where
  -- On a driver that stores pages and is ready: `mxfs_write` of up to 2032 bytes to a blank page of the
  -- chip returns OK, whatever bytes its write buffer held, and `mxfs_read` of that page for the
  -- configuration layer, with a buffer that is long enough, returns exactly these bytes and their number.
  pub write-read :
      (buffer old rbf : List ℕ) (bufferlen block page : ℕ)
      → st.IsReady dev
      → block < block_count
      → page < page_count
      → st.page_at dev block page ≡ blank
      → length buffer ≢ 0
      → header_size + length buffer ≤ page_size
      → All IsByte old
      → length buffer ≤ bufferlen
      → length rbf ≡ page_size
      → let w = write drv layer_max true buffer block page (some old) dev in
        (w.0 ≡ returns ok)
        × ((read drv layer_max true bufferlen block page (some rbf) w.1).0
            ≡ returns (count (length buffer), buffer))
  unfolding write read
  write-read buffer old rbf bufferlen block page ready hb hp empty some_bytes fits bytes room size =
      let cp = direct_header (length buffer) old in
      let sent = encode cp ++ buffer in
      let (f, m, t, n) = direct_header-Tells (length buffer) old (omega arith) bytes in
      let len : length sent ≡ header_size + length buffer =
        omega (arith, length-append (encode cp) buffer, length-encode cp) in
      let (a, b, _, ready') =
        st.write_ok block page sent dev ready hb hp (omega (arith, len)) empty in
      let after = (drv.write block page sent dev).1 in
      let tail = replicate (page_size - length sent) st.fill in
      let (r, c, _, _) = st.read_ok block page rbf after ready' hb hp (omega (arith, size)) in
      let whole : length (sent ++ tail) ≤ length rbf = omega (
        arith,
        size,
        len,
        length-append sent tail,
        length-replicate (page_size - length sent) st.fill,
      ) in
      let content : (drv.read block page rbf after).1 ≡ sent ++ tail =
        c ∙ ap (λ x. take (length rbf) x) b ∙ take_all (length rbf) _ whole in
      let nonzero : bufferlen ≢ 0 = omega arith in
      rw
        (
          ne→== (length buffer) 0 some_bytes,
          le→leb (header_size + length buffer) page_size fits,
          direct_buffer-sent buffer old fits,
          ne→== bufferlen 0 nonzero,
          a,
          r,
          content,
          read_loop-direct bufferlen cp buffer tail f m t n room,
        )
        (refl, refl)
