-- ===== src/Disk/Pages.antt =====
-- The contents of a chunk: what `write_chunk` writes and `load_chunk` reads.
use skip_cell.Common.{
  ℕ, zero, suc, ◌+◌, ◌-◌, ◌*◌, ◌≤◌, ◌<◌, ◌≡◌, ◌≢◌, refl, sym, ap, ◌∙◌, inl, inr, Bool, true, false,
  ◌&&◌, List, [], ◌∷◌, none, some, subst, Error, Bool-cases, ltb, leb, ◌==◌, if◌then◌else◌, length,
  Result, ok, throws, arith,
}
use skip_cell.Chunk.{
  ChunkType, chunk_4kb, chunk_64kb, chunk_512kb, chunk_2mb, chunk_index, chunk_size, chunk_type,
  chunk_no, PageAddr, decode_chunk_id, word,
}
use skip_cell.Chunk.Ids.{Located, decode_chunk_id-Located, chunk_id_unique}
use skip_cell.Disk.{File, Disk, validate_no, validate_at, validate_chunk_id}
use skip_cell.Disk.Transfer.{
  Buffer, byte_at, file_byte, write_at, Writes, padded, set_file, write_page, write_chunk, Read,
  loaded, load_chunk,
}
use skip_cell.Disk.Bytes.{write_at-bytes, pad_each-bytes, deliveries, none_failed, read_each-loads}

-- A byte of a page as the disk has it.
abbrev pub page_byte : Disk → PageAddr → Buffer
page_byte d a i = file_byte (d a.type).file (a.offset + i)

same_index : (s t : ChunkType) → (chunk_index s == chunk_index t) ≡ true → s ≡ t
same_index s t = ground arith

index_self : (t : ChunkType) → (chunk_index t == chunk_index t) ≡ true
index_self t = ground arith

-- A file is not what decides on use.
pub set_file-validate :
    (type : ChunkType) (file : File) (d : Disk) (other : ℕ)
    → validate_chunk_id (set_file type file d) other ≡ validate_chunk_id d other
unfolding validate_chunk_id validate_no
set_file-validate type file d other = by_type (chunk_type other)
  where
    same :
        (t : ChunkType)
        → validate_no (set_file type file d t) (chunk_no other) ≡ validate_no (d t) (chunk_no other)
    same t = elim (Bool-cases (chunk_index t == chunk_index type)) [
      | inr apart ↦ rw apart refl
      | inl e ↦ rw e (ap (λ s. validate_no (d s) (chunk_no other)) (sym (same_index t type e)))
    ]

    by_type :
        (r : Result ChunkType)
        → validate_at (set_file type file d) (chunk_no other) r ≡ validate_at d (chunk_no other) r
    by_type (ok t) = same t
    by_type (throws x) = refl

covered :
    (o n i : ℕ)
    → i < n
    → (f : ℕ → ℕ) (g : ℕ)
    → (if leb o (o + i) && ltb (o + i) (o + n) then f (o + i - o) else g) ≡ f i
covered o n i h f g = ground arith

-- Pages of different numbers do not overlap.
apart :
    (t : ChunkType) (m n i j : ℕ)
    → m ≢ n
    → i < chunk_size t
    → j < chunk_size t
    → m * chunk_size t + i ≢ n * chunk_size t + j
apart chunk_4kb m n i j ne h k e = ne (omega arith)
apart chunk_64kb m n i j ne h k e = ne (omega arith)
apart chunk_512kb m n i j ne h k e = ne (omega arith)
apart chunk_2mb m n i j ne h k e = ne (omega arith)

-- Writes that all succeed.
pub record Succeed (w : Writes) : Type 0 where
  pub data_written : w.data_torn ≡ none
  pub padding_written : w.padding_torn ≡ none
  pub flushed : w.synced ≡ true

abbrev written : Writes → PageAddr → List ℕ → File → File
written w a content f =
    padded w a (length content) (write_at a.offset (length content) (byte_at content) f)

byte_at-beyond : (xs : List ℕ) (i : ℕ) → length xs ≤ i → byte_at xs i ≡ 0
unfolding byte_at
byte_at-beyond [] i h = refl
byte_at-beyond (x ∷ xs) zero h = absurd (omega arith)
byte_at-beyond (x ∷ xs) (suc i) h = byte_at-beyond xs i (omega arith)

-- A page with its padding covers the range of the page and nothing else.
written-bytes :
    (w : Writes) (a : PageAddr) (content : List ℕ) (f : File) (p : ℕ)
    → Succeed w
    → length content ≤ a.size
    → file_byte (written w a content f) p ≡ (
        if leb a.offset p && ltb p (a.offset + a.size)
        then byte_at content (p - a.offset)
        else file_byte f p)
unfolding padded
written-bytes w a content f p s h = rw s.padding_written (
    ground (
      arith,
      pad_each-bytes a.size (a.offset + length content) (a.size - length content)
          (write_at a.offset (length content) (byte_at content) f) p,
      write_at-bytes a.offset (length content) (byte_at content) f p,
      byte_at-beyond content (p - a.offset),
    ))

-- A chunk of the disk: its identifier is in use and decodes to an address.
pub record IsChunk (d : Disk) (id : ℕ) (a : PageAddr) : Type 0 where
  pub in_range : id < word
  pub in_use : validate_chunk_id d id ≡ ok tt
  pub decoded : decode_chunk_id id ≡ ok a

located : (id : ℕ) (a : PageAddr) → id < word → decode_chunk_id id ≡ ok a → Located id a
located id a h e = elim (decode_chunk_id-Located id h) [
  | inl (b, f, l) ↦ subst (Located id) (addr_inj (sym f ∙ e)) l
  | inr (f, _) ↦ absurd (addr_none (sym f ∙ e))
]
  where
    addr_inj : {b c : PageAddr} → ok b ≡ ok c → b ≡ c
    addr_inj p = cc

    addr_none : {x : Error} {c : PageAddr} → ¬ (throws x ≡ ok c)
    addr_none p = ground arith

module _ (d : Disk) (id : ℕ) (a : PageAddr) (c : IsChunk d id a) where
  at : Located id a
  at = located id a c.in_range c.decoded

  -- The address of another chunk on the level has another range.
  elsewhere :
      (other : ℕ) (b : PageAddr) (i : ℕ)
      → other < word
      → decode_chunk_id other ≡ ok b
      → other ≢ id
      → b.type ≡ a.type
      → i < b.size
      → (leb a.offset (b.offset + i) && ltb (b.offset + i) (a.offset + a.size)) ≡ false
  elsewhere other b i h e ne same inside =
      let l = located other b h e in
      let numbers : b.number ≢ a.number = λ p. ne (
        chunk_id_unique other id a.type h c.in_range (l.typed ∙ ap ok same) at.typed
          (sym l.numbered ∙ p ∙ at.numbered)) in
      let size : b.size ≡ a.size = l.sized ∙ ap chunk_size same ∙ sym at.sized in
      elim (Bool-cases (leb a.offset (b.offset + i) && ltb (b.offset + i) (a.offset + a.size))) [
        | inr f ↦ f
        | inl t ↦ absurd (
            apart a.type b.number a.number i (b.offset + i - a.offset) numbers
              (rw (sym at.sized) (rw (sym size) inside)) (rw (sym at.sized) (ground arith))
              (rw (sym at.sized) (overlap size l.exact at.exact (ground arith))))
      ]
    where
      overlap :
          b.size ≡ a.size
          → b.offset ≡ b.number * b.size
          → a.offset ≡ a.number * a.size
          → a.offset ≤ b.offset + i
          → b.number * a.size + i ≡ a.number * a.size + (b.offset + i - a.offset)
      overlap size x y le = rw (sym size) (rw (sym x) (rw size (rw (sym y) (omega arith))))

  runs :
      (w : Writes) (sync : Bool) (content : List ℕ)
      → Succeed w
      → length content ≤ a.size
      → write_chunk w sync id (some content) d
        ≡ (set_file a.type (written w a content (d a.type).file) d, ok tt)
  unfolding write_chunk write_page
  runs w sync content s h =
      rw (c.in_use, write_chunk)
        (rw c.decoded (rw (leb_size h, write_page) (rw s.data_written (ground (arith, s.flushed)))))
    where
      leb_size : length content ≤ a.size → ltb a.size (length content) ≡ false
      leb_size g = ground arith

  -- A write that the system lets through, of no more than a page, to a chunk in use returns. The
  -- chunk then has the bytes given and zeros behind them, every other chunk has the bytes it had, and
  -- the same chunks are in use.
  pub write_chunk-page :
      (w : Writes) (sync_on_write : Bool) (content : List ℕ)
      → Succeed w
      → length content ≤ a.size
      → (e : Disk) × (write_chunk w sync_on_write id (some content) d ≡ (e, ok tt))
        × ((i : ℕ) → i < a.size → page_byte e a i ≡ byte_at content i)
        × ((other : ℕ) (b : PageAddr) (i : ℕ)
            → other < word
            → decode_chunk_id other ≡ ok b
            → other ≢ id
            → i < b.size
            → page_byte e b i ≡ page_byte d b i)
        × ((other : ℕ) → validate_chunk_id e other ≡ validate_chunk_id d other)
  write_chunk-page w sync content s h =
      let file = written w a content (d a.type).file in
      let e = set_file a.type file d in
      (
        e,
        runs w sync content s h,
        λ i inside. rw (index_self a.type) (
            written-bytes w a content (d a.type).file (a.offset + i) s h
            ∙ covered a.offset a.size i inside (byte_at content) _),
        λ other b i range decoded ne inside.
            elim (Bool-cases (chunk_index b.type == chunk_index a.type)) [
              | inr apart ↦ rw apart refl
              | inl same ↦
                  let types = same_index b.type a.type same in
                  rw same (
                    written-bytes w a content (d a.type).file (b.offset + i) s h
                    ∙ rw (elsewhere other b i range decoded ne types inside) (rw types refl))
            ],
        λ other. set_file-validate a.type file d other,
      )

  -- Loading a chunk in use, when no read fails and as many reads deliver as the page has bytes, returns
  -- the bytes of the page, zeros where the file ends before it, however few bytes come at once and
  -- however often the reads are interrupted. Nothing behind the page is touched.
  pub load_chunk-page :
      (answers : List Read) (dst : Buffer)
      → none_failed answers ≡ true
      → a.size ≤ deliveries answers
      → (b : Buffer) × (load_chunk answers d id (some dst) ≡ ok (loaded b))
        × ((i : ℕ) → b i ≡ (if ltb i a.size then page_byte d a i else dst i))
  unfolding load_chunk
  load_chunk-page answers dst fair enough =
      let (b, loads, bytes) =
        read_each-loads answers (d a.type).file a.offset a.size 0 dst fair (omega arith) in
      (b, rw (c.in_use, load_chunk) (rw c.decoded (ap ok loads)), λ i. ground (arith, bytes i))
