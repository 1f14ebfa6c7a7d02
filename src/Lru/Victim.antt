-- ===== src/Lru/Victim.antt =====
-- `select_victim` of `reserve_locked`: the search for a frame to evict, and the eviction.
use skip_cell.Common.{
  ℕ, ◌-◌, Bool, not, ◌&&◌, ◌||◌, List, [], ◌∷◌, reverse, Option, none, some, ◌==◌, if◌then◌else◌,
  Result, ok, throws, logic_error, undefined, lookup, erase, remove,
}
use skip_cell.Common.Calls.{Call, ◌>>=◌, ◌>>◌, pure, raise, get, modify, when, lift}
use skip_cell.Lru.Types.{Entry, Pool, bump}

-- A victim is not pinned and, where only unused prefetches may go, is one.
abbrev pub may_go : Pool → Bool → Entry → Bool
may_go p require_unused_prefetch e = not (
    not ((p.frames e.frame).pin_count == 0) || (require_unused_prefetch && not e.prefetched_unused))

-- The walk along `lru_` from its back. A page of the list with no entry is undefined behaviour.
unfoldable pub find_victim : Pool → Bool → List ℕ → Result (Option (ℕ × Entry))
find_victim p require [] = ok none
find_victim p require (page ∷ pages) =
    let rest = find_victim p require pages in
    elim (lookup page p.resident) [
      | none ↦ throws undefined
      | some e ↦ if may_go p require e then ok (some (page, e)) else rest
    ]

-- The count of unused prefetches and the credit statistics of a victim.
unfoldable pub drop_unused : Call Pool (Unit {0})
drop_unused = do
  n ← get (λ p. p.prefetched_unused_count)
  if n == 0
      then raise logic_error
      else modify (λ p. record p {
        prefetched_unused_count = p.prefetched_unused_count - 1;
        stats = record p.stats {
          prefetch_pollution_evictions = bump p.stats.prefetch_pollution_evictions;
        };
      })

-- The page leaves `lru_` at its last position and the dictionary.
unfoldable pub forget : ℕ → Pool → Pool
forget page p = record p {
  lru = reverse (remove page (reverse p.lru));
  resident = erase page p.resident;
  stats = record p.stats { evictions = bump p.stats.evictions };
}

unfoldable pub evict : ℕ → Entry → Call Pool (Option ℕ)
unfolding drop_unused forget
evict page e = do when e.prefetched_unused drop_unused; modify (forget page); pure (some e.frame)

unfoldable pub select_victim : Bool → Call Pool (Option ℕ)
unfolding find_victim evict
select_victim require p =
    (do
      found ← lift (find_victim p require (reverse p.lru))
      elim found [ none ↦ pure none | some (page, e) ↦ evict page e ])
      p
