-- ===== src/Disk/Writes.antt =====
-- Writing and reading back, and `write_new_chunk` with its handler.
use skip_cell.Common.{
  ℕ, ◌≤◌, ◌<◌, ◌^◌, ◌≡◌, ◌≢◌, refl, sym, subst, ◌∙◌, ◌↔◌, inl, inr, Bool, true, List, [], Option,
  none, some, Error, Bool-cases, ltb, ◌==◌, length, Result, ok, throws, runtime_error, arith,
}
use skip_cell.Common.Calls.{Call, raise, bind_ok, bind_throws}
use skip_cell.Chunk.{ChunkType, chunk_index, PageAddr, decode_chunk_id, word}
use skip_cell.Disk.{File, Disk, Space, allocate_chunk, delete_chunk, validate_chunk_id}
use skip_cell.Disk.Transfer.{
  Buffer, byte_at, Writes, set_file, write_page, write_sized, write_valid, write_checked,
  write_chunk, give_back, write_new_chunk, Read, loaded, load_chunk,
}
use skip_cell.Disk.Bytes.{deliveries, none_failed}
use skip_cell.Disk.Live.{
  IsValid, CanGrow, Taken, Allocated, gives, loses, allocate_chunk-Allocated, Deleted, frees,
  refuses, delete_chunk-Deleted,
}
use skip_cell.Disk.Pages.{IsChunk, Succeed, write_chunk-page, load_chunk-page, set_file-validate}

module _ (d : Disk) (id : ℕ) (a : PageAddr) (c : IsChunk d id a) where
  -- What is written to a chunk in use is read back from it, with zeros up to the end of the page, when
  -- the writes succeed and no read fails and enough of them deliver.
  pub load_chunk-write_chunk :
      (w : Writes) (sync_on_write : Bool) (content : List ℕ) (answers : List Read) (dst : Buffer)
      → Succeed w
      → length content ≤ a.size
      → none_failed answers ≡ true
      → a.size ≤ deliveries answers
      → (e : Disk) × (b : Buffer) × (write_chunk w sync_on_write id (some content) d ≡ (e, ok tt))
        × (load_chunk answers e id (some dst) ≡ ok (loaded b))
        × ((i : ℕ) → i < a.size → b i ≡ byte_at content i)
  load_chunk-write_chunk w sync content answers dst s h fair enough =
      let (e, runs, bytes, _, uses) = write_chunk-page d id a c w sync content s h in
      let chunk : IsChunk e id a = record {
        in_range = c.in_range;
        in_use = uses id ∙ c.in_use;
        decoded = c.decoded;
      } in
      let (b, loads, reads) = load_chunk-page e id a chunk answers dst fair enough in
      (e, b, runs, loads, λ i inside. ground (arith, reads i, bytes i inside))

-- Two disks with the same chunks in use, valid together.
record SameUse (d e : Disk) : Type 0 where
  pub same : (other : ℕ) → validate_chunk_id e other ≡ validate_chunk_id d other
  pub kept : IsValid d → IsValid e

set_file-SameUse : (type : ChunkType) (file : File) (d : Disk) → SameUse d (set_file type file d)
set_file-SameUse type file d = record {
  same = set_file-validate type file d;
  kept = λ v t. elim (Bool-cases (chunk_index t == chunk_index type)) [
    | inr apart ↦ rw apart (v t)
    | inl e ↦ rw e (record {
      bounded = (v type).bounded;
      counted = (v type).counted;
      listed = (v type).listed;
    })
  ];
}

unchanged : (d : Disk) → SameUse d d
unchanged d = record { same = λ _. refl; kept = λ v. v }

-- A write changes bytes only, also when it throws.
write_chunk-SameUse :
    (w : Writes) (sync : Bool) (id : ℕ) (content : Option (List ℕ)) (d : Disk)
    → SameUse d (write_chunk w sync id content d).0
unfolding write_chunk write_page
write_chunk-SameUse w sync id none d = unchanged d
write_chunk-SameUse w sync id (some content) d = by_check (validate_chunk_id d id)
  where
    paged : (a : PageAddr) → SameUse d (write_page w sync a content d).0
    paged a = by_torn w.data_torn refl
      where
        by_torn : (o : Option File) → w.data_torn ≡ o → SameUse d (write_page w sync a content d).0
        by_torn (some torn) e = rw (e, write_page) (set_file-SameUse a.type torn d)
        by_torn none e = rw (e, write_page) (set_file-SameUse a.type _ d)

    sized : (a : PageAddr) → SameUse d (write_sized w sync content a d).0
    sized a = elim (Bool-cases (ltb a.size (length content))) [
      | inl large ↦ rw large (unchanged d)
      | inr fits ↦ rw fits (paged a)
    ]

    by_address :
        (r : Result PageAddr)
        → decode_chunk_id id ≡ r
        → SameUse d (write_valid w sync id content d).0
    by_address (throws x) e = rw e (unchanged d)
    by_address (ok a) e = rw e (sized a)

    by_check : (r : Result (Unit {0})) → SameUse d (write_checked w sync id content r d).0
    by_check (throws x) = unchanged d
    by_check (ok _) = by_address (decode_chunk_id id) refl

Taken-SameUse :
    (d e f : Disk) (type : ChunkType) (id : ℕ) → Taken d e type id → SameUse e f → Taken d f type id
Taken-SameUse d e f type id t s = record {
  in_range = t.in_range;
  typed = t.typed;
  unused = t.unused;
  used = s.same id ∙ t.used;
  others = λ other h ne. s.same other ∙ t.others other h ne;
  valid = s.kept t.valid;
}

-- Whether a chunk is in use is as before for every identifier.
abbrev pub UseKept : Disk → Disk → Type 0
UseKept d e =
    (other : ℕ)
    → other < word
    → (validate_chunk_id e other ≡ ok tt) ↔ (validate_chunk_id d other ≡ ok tt)

-- What `write_new_chunk` comes to: a chunk that was not in use and is now, written without an error; a
-- chunk that is lost where no number can be reused and the file cannot grow, as in `Allocated`; or the
-- error of the write, after which the same chunks are in use as before the call.
pub data WrittenNew (d : Disk) (type : ChunkType) (a : Space) (w : Writes) (sync_on_write : Bool)
    (content : Option (List ℕ)) (out : Disk × Result ℕ) : Type 0 where
  stores :
      (e f : Disk) (id : ℕ)
      → allocate_chunk a type d ≡ (e, ok id)
      → write_chunk w sync_on_write id content e ≡ (f, ok tt)
      → out ≡ (f, ok id)
      → Taken d f type id
      → WrittenNew d type a w sync_on_write content out
  misses :
      (e : Disk) (id : ℕ)
      → (d type).free_list ≡ []
      → ¬ CanGrow a
      → out ≡ (e, throws runtime_error)
      → Taken d e type id
      → WrittenNew d type a w sync_on_write content out
  restores :
      (e f g : Disk) (id : ℕ) (x : Error)
      → allocate_chunk a type d ≡ (e, ok id)
      → write_chunk w sync_on_write id content e ≡ (f, throws x)
      → out ≡ (g, throws x)
      → IsValid g
      → UseKept d g
      → WrittenNew d type a w sync_on_write content out

-- Taking a chunk and giving it back.
UseKept-back :
    (d e f : Disk) (type : ChunkType) (id : ℕ)
    → Taken d e type id
    → validate_chunk_id f id ≡ throws runtime_error
    → ((other : ℕ)
        → other < word
        → other ≢ id
        → validate_chunk_id f other ≡ validate_chunk_id e other)
    → UseKept d f
UseKept-back d e f type id t dead others other h = elim (Bool-cases (other == id)) [
  | inl same ↦
      let is : other ≡ id = ground arith in
      subst (λ o. (validate_chunk_id f o ≡ ok tt) ↔ (validate_chunk_id d o ≡ ok tt)) (sym is)
        (λ p. absurd (ground (arith, dead)), λ p. absurd (t.unused p))
  | inr ne ↦
      let e : validate_chunk_id f other ≡ validate_chunk_id d other =
        others other h (ground arith) ∙ t.others other h (ground arith) in
      (λ p. sym e ∙ p, λ p. e ∙ p)
]

module _ (d : Disk) (type : ChunkType) (a : Space) (w : Writes) (sync_on_write : Bool)
    (content : Option (List ℕ)) where
  give_back-WrittenNew :
      (e : Disk) (id : ℕ) (written : Disk × Result (Unit {0}))
      → allocate_chunk a type d ≡ (e, ok id)
      → write_chunk w sync_on_write id content e ≡ written
      → Taken d e type id
      → SameUse e written.0
      → WrittenNew d type a w sync_on_write content (give_back id written)
  give_back-WrittenNew e id (f, ok _) runs writes t s =
      stores e f id runs writes refl (Taken-SameUse d e f type id t s)
  give_back-WrittenNew e id (f, throws x) runs writes t s =
      let u = Taken-SameUse d e f type id t s in
      by_delete u (delete_chunk-Deleted f id u.valid u.in_range)
    where
      by_delete :
          Taken d f type id
          → Deleted f id (delete_chunk id f)
          → WrittenNew d type a w sync_on_write content (give_back id (f, throws x))
      by_delete u (frees g live deletes dead others valid) =
          restores e f g id x runs writes (bind_ok (delete_chunk id) (λ _. raise x) deletes) valid
            (UseKept-back d f g type id u dead others)
      by_delete u (refuses y refused deletes) = absurd (ground (arith, u.used, refused))

  -- On a valid disk with fewer than 2 ^ 62 chunks of the type, `write_new_chunk` gives a chunk that
  -- was not in use and is now, where allocation and write go through. Where the write throws, it throws
  -- the same error and the same chunks are in use as before the call. Where no number can be reused
  -- and the file cannot grow, it throws a runtime error, and a chunk that nobody was given counts as
  -- in use. The disk stays valid on every branch.
  pub write_new_chunk-WrittenNew :
      IsValid d
      → (d type).chunk_count < 2 ^ 62
      → WrittenNew d type a w sync_on_write content
          (write_new_chunk a w sync_on_write type content d)
  unfolding write_new_chunk
  write_new_chunk-WrittenNew v small = by_allocation (allocate_chunk-Allocated d type v small a)
    where
      finish : ℕ → Call Disk ℕ
      finish id e = give_back id (write_chunk w sync_on_write id content e)

      by_allocation :
          Allocated d type a (allocate_chunk a type d)
          → WrittenNew d type a w sync_on_write content
              (write_new_chunk a w sync_on_write type content d)
      by_allocation (gives e id _ runs t) =
          subst (WrittenNew d type a w sync_on_write content)
            (sym (bind_ok (allocate_chunk a type) finish runs))
            (give_back-WrittenNew e id _ runs refl t
              (write_chunk-SameUse w sync_on_write id content e))
      by_allocation (loses e id free cannot runs t) =
          misses e id free cannot (bind_throws (allocate_chunk a type) finish runs) t
