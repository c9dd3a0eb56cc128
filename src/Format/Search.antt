-- ===== src/Format/Search.antt =====
-- sw/parent/src/format.cc: the search command, which lists the times of the records between two epochs. The
-- map from pages to times is a list; its keys come in ascending order, as the map has them.
use mxfs.Base.{
  ℕ, zero, suc, ◌+◌, ◌*◌, ◌≤◌, ◌≡◌, ◌≢◌, Bool, true, false, ◌&&◌, ◌||◌, not, List, [], ◌∷◌, ◌++◌,
  arith, ltb, leb, le→ltb, ◌==◌, if◌then◌else◌, from_le,
}
use mxfs.Header.{
  Compress, header_size, magic_number, decode, type_of, ant_length, gyr_count, tmp_count,
}
use mxfs.Instance.{block_count, page_count}
use mxfs.Outcome.{Outcome, returns, stuck, ◌>>=◌, ◌>>◌, load, load-ne-stuck, choose-ne-stuck}
use mxfs.Bus.{device_reset}
use mxfs.Linux.{Linux}
use mxfs.Parent.{wait_read}
use mxfs.Format.{cmd_size, for_each, has_magic}

-- The times that were found, by block and page.
abbrev pub Found : Type 0
Found = List (ℕ × List ℕ)

abbrev pub contains : ℕ → List ℕ → Bool
contains t [] = false
contains t (x ∷ xs) = x == t || contains t xs

unfoldable pub note_time : (blockpage time : ℕ) → Found → Found
note_time key t [] = (key, t ∷ []) ∷ []
note_time key t ((k, ts) ∷ m) =
    if k == key
    then (k, if contains t ts then ts else ts ++ (t ∷ [])) ∷ m
    else (k, ts) ∷ note_time key t m

-- How far a record goes on behind its header, in bytes of one for each sample.
pub skip : Compress → ℕ
skip cp =
    let type = type_of cp in
    if type == 0 || (type == 1 || type == 2)
    then ant_length cp
    else if type == 3 || type == 4
    then gyr_count cp
    else if type == 5
    then tmp_count cp
    else 0

module _ (epoch_s epoch_e blockpage : ℕ) where
  -- `if (cp->time && cp->time >= epoch_s && cp->time <= epoch_e)`
  unfoldable pub note_record : Compress → Found → Found
  note_record cp m =
      if not (cp.time == 0) && (leb epoch_s cp.time && leb cp.time epoch_e)
      then note_time blockpage cp.time m
      else m

  pub search_records : List ℕ → ℕ → (offset : ℕ) → Found → Outcome Found
  search_records cmd zero offset m = stuck
  search_records cmd (suc fuel) offset m = elim (ltb offset cmd_size) [
    | false ↦ returns m
    | true ↦ (do
      w ← load offset 4 cmd
      elim (from_le w == magic_number) [
        | false ↦ returns m
        | true ↦
            let cp = decode offset cmd in
            load offset header_size cmd
            >> search_records cmd fuel (offset + skip cp + header_size) (note_record cp m)
      ])
  ]

  -- With fuel for the headers that the rest of the buffer can hold, the loop ends.
  records-ne-stuck :
      (cmd : List ℕ) (fuel offset : ℕ) (m : Found)
      → cmd_size ≤ offset + header_size * fuel
      → search_records cmd (suc fuel) offset m ≢ stuck
  unfolding search_records
  records-ne-stuck cmd zero offset m h =
      let e : ltb offset cmd_size ≡ false = le→ltb offset cmd_size (omega arith) in
      rw (e, search_records) (λ q. cc q)
  records-ne-stuck cmd (suc fuel) offset m h =
      choose-ne-stuck (ltb offset cmd_size) _ _ (λ q. cc q)
        (load-ne-stuck offset 4 cmd _ (λ w.
          choose-ne-stuck (from_le w == magic_number) _ _ (λ q. cc q)
            (load-ne-stuck offset header_size cmd _ (λ _.
              let cp = decode offset cmd in
              records-ne-stuck cmd fuel (offset + skip cp + header_size) (note_record cp m)
                (omega (arith, h))))))

  -- The loop over the records of a page ends on every content of the buffer.
  pub search_records-ne-stuck : (cmd : List ℕ) (m : Found) → search_records cmd 133 0 m ≢ stuck
  search_records-ne-stuck cmd m = records-ne-stuck cmd 132 0 m (omega arith)

module _ (pi : Linux) (epoch_s epoch_e : ℕ) where
  -- The times found so far, the buffer, and the chip.
  abbrev pub Searching : Type 0
  Searching = Found × List ℕ × pi.State

  -- A page that does not start with a magic number ends the search of its block.
  unfoldable pub search_pages : ℕ → (block k page : ℕ) → Searching → Outcome Searching
  search_pages fuel block zero page x = returns x
  search_pages fuel block (suc k) page (m, cmd, s) = do
    (status, cmd', s') ← wait_read pi fuel block page (device_reset, cmd, s)
    elim (has_magic cmd') [
      | true ↦ (do
        m' ← search_records epoch_s epoch_e (block * 65536 + page) cmd' 133 0 m
        search_pages fuel block k (suc page) (m', cmd', s'))
      | false ↦ returns (m, cmd', s')
    ]

  unfoldable pub search_command : ℕ → List ℕ → pi.State → Outcome Searching
  search_command fuel cmd s =
      for_each (λ block x. search_pages fuel block page_count 0 x) block_count 0 ([], cmd, s)
