-- ===== src/Lru/Ownership.antt =====
-- Who owns a frame: the free list, a resident page or a page that loads, and only one of them.
pub mod Change
pub mod Victim
pub mod Hits
pub mod Misses
pub mod Loads
pub mod Attempts
pub mod Returns
pub mod Clears
pub mod Traces
use skip_cell.Common.{
  ℕ, ◌+◌, ◌^◌, ◌≤◌, ◌<◌, ◌≡◌, refl, ltb, ◌==◌, length, one_if, count, key_count, tally, arith,
  length-indices, count-indices, count-nil, Option, none, some,
}
use skip_cell.Chunk.{Chunk, ChunkType}
use skip_cell.Lru.Types.{Entry, Pool}
use skip_cell.Lru.Capacity.{new}

-- How many owners a frame has.
abbrev pub owners : ℕ → Pool → ℕ
owners f p =
    count f p.free_frames + tally (λ e. e.frame == f) p.resident + tally (λ g. g == f) p.loading

-- How many entries wait for their first use.
abbrev pub unused : Pool → ℕ
unused p = tally (λ e. e.prefetched_unused) p.resident

-- A frame that the running call holds: taken from its old owner, and not handed on yet.
abbrev pub in_hand : Option ℕ → ℕ → ℕ
in_hand none f = 0
in_hand (some g) f = one_if (g == f)

abbrev pub hands : Option ℕ → ℕ
hands none = 0
hands (some g) = 1

-- Every frame below the capacity has one owner and no other frame has any; `lru_` lists each
-- resident page once; no page is resident and loading; unused prefetches are counted.
pub record IsHolding (hand : Option ℕ) (p : Pool) : Type 0 where
  pub small : p.capacity_pages < 2 ^ 62
  pub total :
      length p.free_frames + length p.resident + length p.loading + hands hand ≡ p.capacity_pages
  pub owned : (f : ℕ) → owners f p + in_hand hand f ≡ one_if (ltb f p.capacity_pages)
  pub listed : (page : ℕ) → count page p.lru ≡ key_count page p.resident
  pub single : (page : ℕ) → key_count page p.resident + key_count page p.loading ≤ 1
  pub counted : unused p ≡ p.prefetched_unused_count

abbrev pub IsValid : Pool → Type 0
IsValid p = IsHolding none p

-- A fresh pool of fewer than 2 ^ 62 pages is valid.
pub new-IsValid :
    (capacity : ℕ) (type : ChunkType) (frames : ℕ → Chunk)
    → capacity < 2 ^ 62
    → IsValid (new capacity type frames)
unfolding new tally key_count
new-IsValid capacity type frames h = record {
  small = h;
  total = omega (arith, length-indices capacity);
  owned = λ f. omega (arith, count-indices f capacity);
  listed = λ page. count-nil page;
  single = λ page. omega arith;
  counted = refl;
}
