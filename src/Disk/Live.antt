-- ===== src/Disk/Live.antt =====
-- `allocate_chunk`, `delete_chunk` and `validate_chunk_id` as operations on the set of identifiers
-- in use.
use skip_cell.Common.{
  ℕ, ◌^◌, ◌≤◌, ◌<◌, ◌≡◌, ◌≢◌, refl, sym, ap, ◌∙◌, ◌⊎◌, inl, inr, true, List, [], ◌∷◌, ◌==◌, count,
  count-cons, Bool-cases, Error, Result, ok, throws, runtime_error, arith,
}
use skip_cell.Chunk.{ChunkType, chunk_index, make_chunk_id, chunk_type, chunk_no, word}
use skip_cell.Chunk.Ids.{chunk_no-make_chunk_id, make_chunk_id-chunk_no}
use skip_cell.Disk.{
  File, Level, Disk, set_level, Space, extended, after_growth, required_size, allocate_chunk,
  reserve_file_space, grown, resized, validate_no, validate_chunk_id, freed, delete_chunk,
}
use skip_cell.Disk.Slots.{
  IsLevel, reused, reused-IsLevel, extended-IsLevel, freed-IsLevel, reused-live, extended-live,
  freed-live,
}

abbrev pub IsValid : Disk → Type 0
IsValid d = (type : ChunkType) → IsLevel (d type)

-- The identifier of a type was not in use and is now; all others are as before.
pub record Taken (d e : Disk) (type : ChunkType) (id : ℕ) : Type 0 where
  pub in_range : id < word
  pub typed : chunk_type id ≡ ok type
  pub unused : validate_chunk_id d id ≢ ok tt
  pub used : validate_chunk_id e id ≡ ok tt
  pub others :
      (other : ℕ)
      → other < word
      → other ≢ id
      → validate_chunk_id e other ≡ validate_chunk_id d other
  pub valid : IsValid e

-- The numbers of the types differ.
same_index : (s t : ChunkType) → (chunk_index s == chunk_index t) ≡ true → s ≡ t
same_index s t = ground arith

index_self : (t : ChunkType) → (chunk_index t == chunk_index t) ≡ true
index_self t = ground arith

-- What `make_chunk_id` gives for a small number.
made :
    (type : ChunkType) (n : ℕ)
    → n < 2 ^ 62
    → (id : ℕ) × (make_chunk_id type n ≡ ok id)
      × (id < word)
      × (chunk_type id ≡ ok type)
      × (chunk_no id ≡ n)
made type n h = elim (chunk_no-make_chunk_id type n) [
  | inl (_, m) ↦ m
  | inr (large, _) ↦ absurd (omega arith)
]

-- One level is replaced, and one number of it is concerned.
module _ (d : Disk) (type : ChunkType) (l : Level) where
  set_level-IsValid : IsValid d → IsLevel l → IsValid (set_level type l d)
  set_level-IsValid v w t = elim (Bool-cases (chunk_index t == chunk_index type)) [
    | inl same ↦ rw same w
    | inr other ↦ rw other (v t)
  ]

  set_level-validate :
      (id : ℕ)
      → chunk_type id ≡ ok type
      → validate_chunk_id (set_level type l d) id ≡ validate_no l (chunk_no id)
  unfolding validate_chunk_id
  set_level-validate id e = rw e (rw (index_self type) refl)

  set_level-others :
      (n id : ℕ)
      → make_chunk_id type n ≡ ok id
      → ((k : ℕ) → k ≢ n → validate_no l k ≡ validate_no (d type) k)
      → (other : ℕ) → other < word
      → other ≢ id
      → validate_chunk_id (set_level type l d) other ≡ validate_chunk_id d other
  unfolding validate_chunk_id
  set_level-others n id m rest other h ne =
      let (t, e, back) = make_chunk_id-chunk_no other h in
      elim (Bool-cases (chunk_index t == chunk_index type)) [
        | inr apart ↦ rw e (rw apart refl)
        | inl same ↦
            let types : t ≡ type = same_index t type same in
            let numbers : chunk_no other ≢ n = λ p. ne (
              ok_inj (
                sym back
                ∙ ap (λ s. make_chunk_id s (chunk_no other)) types
                ∙ ap (make_chunk_id type) p
                ∙ m)) in
            rw e (
              rw same (
                rest (chunk_no other) numbers
                ∙ ap (λ s. validate_no (d s) (chunk_no other)) (sym types)))
      ]
    where
      ok_inj : {a b : ℕ} → ok a ≡ ok b → a ≡ b
      ok_inj p = ground arith

-- What the system has to answer for a file to grow: it opens, one of the two ways to grow it succeeds,
-- and it closes.
pub record CanGrow (a : Space) : Type 0 where
  pub opens : a.opened ≡ true
  pub grows : (a.allocated ≡ true) ⊎ (a.truncated ≡ true)
  pub closes : a.closed ≡ true

-- What a caller that reserves space for a file gets: the space where the file can grow, and a runtime
-- error where it cannot.
reserve_file_space-outcome :
    (a : Space) (bytes : ℕ) (f : File)
    → (CanGrow a
        × ((reserve_file_space a bytes f).1 ≡ ok tt)
        × (bytes ≤ (reserve_file_space a bytes f).0.size))
      ⊎ ((¬ CanGrow a) × ((reserve_file_space a bytes f).1 ≡ throws runtime_error))
unfolding reserve_file_space grown resized
reserve_file_space-outcome a bytes f = elim (Bool-cases a.opened) [
  | inr shut ↦ inr ((λ c. ground (arith, c.opens, shut)), ground (arith, shut))
  | inl opened ↦ elim (Bool-cases a.closed) [
    | inr broken ↦ inr ((λ c. ground (arith, c.closes, broken)), ground (arith, broken, opened))
    | inl closed ↦ elim (Bool-cases a.allocated) [
      | inl allocated ↦ inl (
        record { opens = opened; grows = inl allocated; closes = closed },
        ground (arith, opened, allocated, closed),
        ground (arith, opened, allocated),
      )
      | inr refused ↦ elim (Bool-cases a.truncated) [
        | inl truncated ↦ inl (
          record { opens = opened; grows = inr truncated; closes = closed },
          ground (arith, opened, refused, truncated, closed),
          ground (arith, opened, refused, truncated),
        )
        | inr too ↦ inr (
          (λ c. elim c.grows [
            | inl e ↦ ground (arith, e, refused)
            | inr e ↦ ground (arith, e, too)
          ]),
          ground (arith, opened, refused, too),
        )
      ]
    ]
  ]
]

allocate_chunk-grows :
    (a : Space) (type : ChunkType) (d : Disk)
    → (d type).free_list ≡ []
    → allocate_chunk a type d
      ≡ after_growth type d (reserve_file_space a (required_size type (d type)) (d type).file)
unfolding allocate_chunk
allocate_chunk-grows a type d e = ground arith

-- What an allocation comes to: a chunk that was not in use, for which the file has grown unless a number
-- is reused; or, where no number can be reused and the file cannot grow, an error, after which a chunk
-- that nobody was given counts as in use.
pub data Allocated (d : Disk) (type : ChunkType) (a : Space) (out : Disk × Result ℕ) : Type 0 where
  gives :
      (e : Disk) (id : ℕ)
      → ((d type).free_list ≡ [] → CanGrow a × (required_size type (d type) ≤ (e type).file.size))
      → out ≡ (e, ok id)
      → Taken d e type id
      → Allocated d type a out
  loses :
      (e : Disk) (id : ℕ)
      → (d type).free_list ≡ []
      → ¬ CanGrow a
      → out ≡ (e, throws runtime_error)
      → Taken d e type id
      → Allocated d type a out

module _ (d : Disk) (type : ChunkType) (v : IsValid d) (small : (d type).chunk_count < 2 ^ 62) where
  reused-Taken :
      (n : ℕ) (rest : List ℕ)
      → (d type).free_list ≡ n ∷ rest
      → (id : ℕ) × (make_chunk_id type n ≡ ok id)
        × Taken d (set_level type (reused rest (d type)) d) type id
  unfolding validate_chunk_id
  reused-Taken n rest e =
      let listed : 0 < count n (d type).free_list = rw e (ground (arith, count-cons n n rest)) in
      let (id, m, range, typed, num) = made type n (ground (arith, (v type).listed n)) in
      let (dead, live, others) = reused-live (d type) (v type) n rest e in
      (
        id,
        m,
        record {
          in_range = range;
          typed = typed;
          unused = rw typed (rw num (rw dead (ground arith)));
          used = set_level-validate d type _ id typed ∙ rw num live;
          others = set_level-others d type _ n id m others;
          valid = set_level-IsValid d type _ v (reused-IsLevel (d type) (v type) n rest e);
        },
      )

  extended-Taken :
      (file : File)
      → (id : ℕ) × (make_chunk_id type (d type).chunk_count ≡ ok id)
        × Taken d (set_level type (extended file (d type)) d) type id
  unfolding validate_chunk_id
  extended-Taken file =
      let (id, m, range, typed, num) = made type (d type).chunk_count small in
      let (dead, live, others) = extended-live (d type) file (v type) small in
      (
        id,
        m,
        record {
          in_range = range;
          typed = typed;
          unused = rw typed (rw num (rw dead (ground arith)));
          used = set_level-validate d type _ id typed ∙ rw num live;
          others = set_level-others d type _ (d type).chunk_count id m others;
          valid = set_level-IsValid d type _ v (extended-IsLevel (d type) (v type) file small);
        },
      )

  by_growth :
      (a : Space)
      → (d type).free_list ≡ []
      → (p : File × Result (Unit {0}))
      → (CanGrow a × (p.1 ≡ ok tt) × (required_size type (d type) ≤ p.0.size))
        ⊎ ((¬ CanGrow a) × (p.1 ≡ throws runtime_error))
      → Allocated d type a (after_growth type d p)
  unfolding after_growth extended
  by_growth a e (file, r) (inl (can, space, room)) =
      let (id, m, t) = extended-Taken file in
      let here : ((set_level type (extended file (d type)) d) type).file ≡ file =
        rw (index_self type) refl in
      gives _ id (λ _. (can, omega (arith, room, ap (λ f. f.size) here))) (rw space (rw m refl)) t
  by_growth a e (file, r) (inr (cannot, full)) =
      let (id, m, t) = extended-Taken file in loses _ id e cannot (rw full refl) t

  pub allocate_chunk-Allocated : (a : Space) → Allocated d type a (allocate_chunk a type d)
  unfolding allocate_chunk
  allocate_chunk-Allocated a = by_free (d type).free_list refl
    where
      by_free : (l : List ℕ) → (d type).free_list ≡ l → Allocated d type a (allocate_chunk a type d)
      by_free (n ∷ rest) e =
          let (id, m, t) = reused-Taken n rest e in
          gives _ id (λ none. ground (arith, e, none)) (rw (e, allocate_chunk) (rw m refl)) t
      by_free [] e = rw (allocate_chunk-grows a type d e) (
          by_growth a e _
            (reserve_file_space-outcome a (required_size type (d type)) (d type).file))

-- What `delete_chunk` comes to.
pub data Deleted (d : Disk) (id : ℕ) (out : Disk × Result (Unit {0})) : Type 0 where
  frees :
      (e : Disk)
      → validate_chunk_id d id ≡ ok tt
      → out ≡ (e, ok tt)
      → validate_chunk_id e id ≡ throws runtime_error
      → ((other : ℕ)
          → other < word
          → other ≢ id
          → validate_chunk_id e other ≡ validate_chunk_id d other)
      → IsValid e
      → Deleted d id out
  refuses : (x : Error) → validate_chunk_id d id ≡ throws x → out ≡ (d, throws x) → Deleted d id out

Result-cases : (r : Result (Unit {0})) → (r ≡ ok tt) ⊎ ((x : Error) × (r ≡ throws x))
Result-cases (ok _) = inl refl
Result-cases (throws x) = inr (x, refl)

validate_typed :
    (d : Disk) (type : ChunkType) (id : ℕ)
    → chunk_type id ≡ ok type
    → validate_chunk_id d id ≡ validate_no (d type) (chunk_no id)
unfolding validate_chunk_id
validate_typed d type id e = rw e refl

-- Deleting a 64-bit identifier on a valid disk: a chunk in use goes out of use, so that deleting it
-- again fails, the use of every other chunk is as before and the disk stays valid; any other
-- identifier is refused with the error of its check and nothing changes.
pub delete_chunk-Deleted :
    (d : Disk) (id : ℕ) → IsValid d → id < word → Deleted d id (delete_chunk id d)
unfolding delete_chunk
delete_chunk-Deleted d id v h = elim (Result-cases (validate_chunk_id d id)) [
  | inr (x, e) ↦ refuses x e (rw (e, delete_chunk) refl)
  | inl live ↦
      let (type, typed, m) = make_chunk_id-chunk_no id h in
      let used : validate_no (d type) (chunk_no id) ≡ ok tt =
        sym (validate_typed d type id typed) ∙ live in
      let (dead, others) = freed-live (d type) (chunk_no id) used in
      frees (set_level type (freed (chunk_no id) (d type)) d) live
        (rw (live, delete_chunk) (rw typed refl)) (set_level-validate d type _ id typed ∙ dead)
        (set_level-others d type _ (chunk_no id) id m others)
        (set_level-IsValid d type _ v (freed-IsLevel (d type) (v type) (chunk_no id) used))
]
