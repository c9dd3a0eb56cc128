-- ===== src/Format/Config.antt =====
-- A configuration's way from the host tool's config command (sw/parent/src/format.cc) to the file system.
use mxfs.Base.{
  ℕ, zero, suc, ◌+◌, ◌-◌, ◌%◌, ◌≤◌, ◌≡◌, ◌≢◌, refl, sym, ap, ◌∙◌, List, [], ◌∷◌, ◌++◌, arith,
  append_assoc, length, length-append, length-take, length-replicate, length-splice, replicate,
  take, drop, splice, splice-append, take-append_of, ne→==, le→ltb, lt→ltb,
}
use mxfs.Header.{
  Fits, magic_number, header_size, encode, type_of, tmp_base, set_type, set_ant_length,
}
use mxfs.Header.Codec.{length-encode}
use mxfs.Instance.{page_size, layer_max}
use mxfs.Driver.{blank}
use mxfs.Outcome.{returns}
use mxfs.Linux.{Linux}
use mxfs.Nand.{IsFlash, IsTimed}
use mxfs.Nand.Waits.{Ends, bind-Ends}
use mxfs.Read.{read_loop, read_fuel}
use mxfs.Read.Direct.{read_loop-direct}
use mxfs.Parent.{parent_bus}
use mxfs.Parent.Writes.{HasWritten, wait_write-Ends}
use mxfs.Format.{cmd_size, config_header, config_page, config_command}

take-append_beyond {ℓ} :
    {A : Type ℓ} (n : ℕ) (xs ys : List A)
    → length xs ≤ n
    → take n (xs ++ ys) ≡ xs ++ take (n - length xs) ys
take-append_beyond n [] ys h = ap (λ k. take k ys) (omega arith)
take-append_beyond zero (x ∷ xs) ys h = absurd (omega arith)
take-append_beyond (suc n) (x ∷ xs) ys h =
    let e : suc n - suc (length xs) ≡ n - length xs = omega arith in
    rw e (ap (λ t. x ∷ t) (take-append_beyond n xs ys (omega arith)))

take-drop {ℓ} : {A : Type ℓ} (n : ℕ) (xs : List A) → take n xs ++ drop n xs ≡ xs
take-drop zero xs = refl
take-drop (suc n) [] = refl
take-drop (suc n) (x ∷ xs) = ap (λ t. x ∷ t) (take-drop n xs)

-- The header keeps the low nine bits of the size.
config_header-tells :
    (n : ℕ)
    → Fits (config_header n)
      × ((config_header n).magic ≡ magic_number)
      × (type_of (config_header n) ≡ layer_max)
      × (tmp_base (config_header n) ≡ n % 512)
unfolding config_header set_type set_ant_length type_of tmp_base
config_header-tells n =
    ((omega arith, omega arith, omega arith, omega arith), refl, omega arith, omega arith)

-- The size that the file system will find, and the bytes behind them.
abbrev known : List ℕ → ℕ
known config = length config % 512

abbrev rest : List ℕ → List ℕ
rest config =
    drop (length config)
      (drop (0 + length (encode (config_header (length config)))) (replicate cmd_size 0))

config_page-parts :
    (config : List ℕ)
    → config_page config
      ≡ (encode (config_header (length config)) ++ take (known config) config)
        ++ (drop (known config) config ++ rest config)
unfolding config_page
config_page-parts config =
    let head = encode (config_header (length config)) in
    let a = take (known config) config in
    let b = drop (known config) config in
    splice-append header_size head config (drop (0 + length head) (replicate cmd_size 0))
      (sym (length-encode (config_header (length config))))
    ∙ ap (λ t. head ++ (t ++ rest config)) (sym (take-drop (known config) config))
    ∙ ap (λ t. head ++ t) (append_assoc a b (rest config))
    ∙ sym (append_assoc head a (b ++ rest config))

length-config_page :
    (config : List ℕ)
    → header_size + length config ≤ page_size
    → length (config_page config) ≡ cmd_size
unfolding config_page
length-config_page config h =
    let head = encode (config_header (length config)) in
    let n = length-encode (config_header (length config)) in
    let z = length-replicate {A = ℕ} cmd_size 0 in
    let one : length (splice 0 head (replicate cmd_size 0)) ≡ cmd_size =
      length-splice 0 head (replicate cmd_size 0) (omega (arith, n, z)) ∙ z in
    length-splice header_size config (splice 0 head (replicate cmd_size 0)) (omega (arith, one, h))
    ∙ one

module _ (pi : Linux) (limit : ℕ) (flash : IsFlash (parent_bus pi) limit)
    (timed : IsTimed (parent_bus pi) limit flash.timing) where
  -- On a chip that keeps its data sheet and whose time goes by: the config command, for a configuration of
  -- 1 to 2032 bytes and a blank first page, comes to an end, and the loop of `mxfs_read` over that page,
  -- asked for the configuration layer with a buffer that is long enough, returns the first bytes of it, as
  -- many as its size modulo 512: the whole configuration, if it is shorter than 512 bytes.
  pub config_command-read_loop :
      (config : List ℕ) (bufferlen : ℕ) (s : pi.State)
      → length config ≢ 0
      → header_size + length config ≤ page_size
      → length config % 512 ≤ bufferlen
      → take page_size ((flash.content s).cell 0) ≡ blank
      → Ends
          (λ s'.
            read_loop layer_max bufferlen
              (take page_size ((flash.content s').cell 0))
              read_fuel
              0
              []
            ≡ returns (take (length config % 512) config))
          (config_command pi (limit + (limit + (limit + (limit + limit)))) config s)
  unfolding config_command
  config_command-read_loop config bufferlen s some_bytes fits room empty =
      let c = flash.content s in
      let k = known config in
      let cp = config_header (length config) in
      let a = encode cp ++ take k config in
      let b = drop k config ++ rest config in
      let wbf = take (cmd_size - 64) (config_page config) in
      let len : length wbf ≡ page_size =
        omega (
          arith,
          length-take (cmd_size - 64) (config_page config),
          length-config_page config fits,
        ) in
      let part : length (take k config) ≡ k = omega (arith, length-take k config) in
      let size : length a ≤ page_size =
        omega (arith, length-append (encode cp) (take k config), length-encode cp, part) in
      let page : wbf ≡ a ++ take (page_size - length a) b =
        ap (λ t. take page_size t) (config_page-parts config)
        ∙ take-append_beyond page_size a b size in
      let (f, m, t, n) = config_header-tells (length config) in
      let H = HasWritten pi limit flash timed 0 0 wbf c in
      rw
        (
          ne→== (length config) 0 some_bytes,
          lt→ltb (length config) (cmd_size - 4) (omega (arith, fits)),
          le→ltb cmd_size (header_size + length config) (omega (arith, fits)),
        )
        (bind-Ends H _ _ _
          (wait_write-Ends pi limit flash timed 0 0 wbf s (omega arith) (omega arith)
            (omega (arith, len)) empty)
          (λ (st, s') (e, w, o).
            let here : take page_size ((flash.content s').cell 0)
                ≡ a ++ take (page_size - length a) b =
              w ∙ take-append_of page_size wbf (drop (length wbf) c.cache) (sym len) ∙ page in
            (
              s',
              refl,
              ap (λ x. read_loop layer_max bufferlen x read_fuel 0 []) here
                  ∙ read_loop-direct bufferlen cp (take k config) (take (page_size - length a) b) f
                      m t (n ∙ sym part) (omega (arith, part, room)),
            )))
