-- ===== src/Disk/Slots.antt =====
-- The free list of one level: which numbers are in use.
use skip_cell.Common.{
  ℕ, ◌+◌, ◌^◌, ◌≤◌, ◌<◌, ◌≡◌, ◌≢◌, refl, List, ◌∷◌, ltb, ◌==◌, one_if, length, count, contains,
  contains_iff_count, count-cons, ok, throws, runtime_error, out_of_range, arith,
}
use skip_cell.Chunk.{word}
use skip_cell.Disk.{File, Level, extended, validate_no, freed}

-- Each number below the count is at most once on the free list, and no other number is; the free
-- count is right.
pub record IsLevel (l : Level) : Type 0 where
  pub bounded : l.chunk_count < word
  pub counted : l.free_count ≡ length l.free_list
  pub listed : (number : ℕ) → count number l.free_list ≤ one_if (ltb number l.chunk_count)

abbrev pub reused : List ℕ → Level → Level
reused rest l = record l { free_list = rest; free_count = length rest }

module _ (l : Level) (v : IsLevel l) where
  pub reused-IsLevel :
      (number : ℕ) (rest : List ℕ) → l.free_list ≡ number ∷ rest → IsLevel (reused rest l)
  reused-IsLevel number rest e = record {
    bounded = v.bounded;
    counted = refl;
    listed = λ k.
        let h = v.listed k in
        let c : count k l.free_list ≡ one_if (k == number) + count k rest =
          rw e (count-cons k number rest) in
        omega (arith, h, c);
  }

  pub extended-IsLevel : (file : File) → l.chunk_count < 2 ^ 62 → IsLevel (extended file l)
  unfolding extended
  extended-IsLevel file small = record {
    bounded = omega arith;
    counted = v.counted;
    listed = λ k. ground (arith, v.listed k);
  }

  pub freed-IsLevel : (number : ℕ) → validate_no l number ≡ ok tt → IsLevel (freed number l)
  unfolding freed validate_no
  freed-IsLevel number live = record {
    bounded = v.bounded;
    counted = refl;
    listed = λ k.
        ground (
          arith,
          v.listed k,
          contains_iff_count number l.free_list,
          count-cons k number l.free_list,
        );
  }

  -- A number that is taken off the free list was not in use and is now.
  pub reused-live :
      (number : ℕ) (rest : List ℕ)
      → l.free_list ≡ number ∷ rest
      → (validate_no l number ≡ throws runtime_error)
        × (validate_no (reused rest l) number ≡ ok tt)
        × ((k : ℕ) → k ≢ number → validate_no (reused rest l) k ≡ validate_no l k)
  unfolding validate_no contains
  reused-live number rest e =
      let h = v.listed number in
      let c : count number l.free_list ≡ one_if (number == number) + count number rest =
        rw e (count-cons number number rest) in
      (
        rw e (ground (arith, h, c)),
        ground (arith, h, c, contains_iff_count number rest),
        λ k ne. rw e (ground arith),
      )

pub extended-live :
    (l : Level) (file : File)
    → IsLevel l
    → l.chunk_count < 2 ^ 62
    → (validate_no l l.chunk_count ≡ throws out_of_range)
      × (validate_no (extended file l) l.chunk_count ≡ ok tt)
      × ((k : ℕ) → k ≢ l.chunk_count → validate_no (extended file l) k ≡ validate_no l k)
unfolding extended validate_no
extended-live l file v small = (
  ground arith,
  ground (arith, v.listed l.chunk_count, contains_iff_count l.chunk_count l.free_list),
  λ k ne. ground arith,
)

pub freed-live :
    (l : Level) (number : ℕ)
    → validate_no l number ≡ ok tt
    → (validate_no (freed number l) number ≡ throws runtime_error)
      × ((k : ℕ) → k ≢ number → validate_no (freed number l) k ≡ validate_no l k)
unfolding freed validate_no contains
freed-live l number live = (ground arith, λ k ne. ground arith)
