-- ===== src/Disk/Bytes.antt =====
-- What the loops of `write_chunk` and `load_chunk` do to the bytes.
use skip_cell.Common.{
  ℕ, zero, suc, ◌+◌, ◌-◌, ◌≤◌, ◌≡◌, refl, Bool, true, false, ◌&&◌, List, [], ◌∷◌, Bool-cases, inl,
  inr, ltb, leb, ◌==◌, if◌then◌else◌, arith,
}
use skip_cell.Disk.{File}
use skip_cell.Disk.Transfer.{
  Buffer, file_byte, write_at, pad_each, Read, up_to, interrupted, failed, loaded, read_count,
  filled, read_each,
}

-- A write changes the bytes of its range and no others.
pub write_at-bytes :
    (position n : ℕ) (content : Buffer) (f : File) (i : ℕ)
    → file_byte (write_at position n content f) i
      ≡ (if leb position i && ltb i (position + n) then content (i - position) else file_byte f i)
unfolding file_byte write_at
write_at-bytes position n content f i = ground arith

-- Given a round for each byte that remains, the loop writes zeros over exactly these.
pub pad_each-bytes :
    (fuel position remaining : ℕ) (f : File) (i : ℕ)
    → remaining ≤ fuel
    → file_byte (pad_each fuel position remaining f) i
      ≡ (if leb position i && ltb i (position + remaining) then 0 else file_byte f i)
unfolding pad_each
pad_each-bytes zero position remaining f i h = ground arith
pad_each-bytes (suc fuel) position remaining f i h =
    let bytes = if ltb remaining 4096 then remaining else 4096 in
    let g = write_at position bytes (λ _. 0) f in
    ground (
      arith,
      pad_each-bytes fuel (position + bytes) (remaining - bytes) g i,
      write_at-bytes position bytes (λ _. 0) f i,
    )

-- How many of the answers let bytes through, and whether none of them is an error.
unfoldable pub deliveries : List Read → ℕ
deliveries [] = 0
deliveries (up_to n ∷ answers) = 1 + deliveries answers
deliveries (interrupted ∷ answers) = deliveries answers
deliveries (failed ∷ answers) = deliveries answers

unfoldable pub none_failed : List Read → Bool
none_failed [] = true
none_failed (up_to n ∷ answers) = none_failed answers
none_failed (interrupted ∷ answers) = none_failed answers
none_failed (failed ∷ answers) = false

-- The loop ends once as many answers deliver as bytes are left; from the position it stands at, the
-- destination then has the bytes of the file, whatever came at once.
pub read_each-loads :
    (answers : List Read) (f : File) (offset size total : ℕ) (dst : Buffer)
    → none_failed answers ≡ true
    → size ≤ total + deliveries answers
    → (b : Buffer) × (read_each answers f offset size total dst ≡ loaded b)
      × ((i : ℕ) → b i ≡ (if leb total i && ltb i size then file_byte f (offset + i) else dst i))
unfolding read_each deliveries none_failed file_byte
read_each-loads [] f offset size total dst _ h = (dst, ground arith, λ i. ground arith)
read_each-loads (interrupted ∷ answers) f offset size total dst fair h =
    elim (Bool-cases (ltb total size)) [
      | inl going ↦ rw going (read_each-loads answers f offset size total dst fair h)
      | inr over ↦ (dst, rw over refl, λ i. ground arith)
    ]
read_each-loads (failed ∷ answers) f offset size total dst fair h = ground arith
read_each-loads (up_to n ∷ answers) f offset size total dst fair h =
    elim (Bool-cases (ltb total size)) [
      | inr over ↦ (dst, rw over refl, λ i. ground arith)
      | inl going ↦
          rw going (elim (Bool-cases (read_count n f (offset + total) (size - total) == 0)) [
            | inl end ↦ (filled dst total (size - total) (λ _. 0), rw end refl, λ i. ground arith)
            | inr more ↦
                let got = read_count n f (offset + total) (size - total) in
                let part = filled dst total got (λ i. f.bytes (offset + total + i)) in
                let (b, runs, bytes) =
                  read_each-loads answers f offset size (total + got) part fair (ground arith) in
                (b, rw more runs, λ i. ground (arith, bytes i))
          ])
    ]
