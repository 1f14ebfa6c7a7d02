-- ===== src/Lru/Ownership/Clears.antt =====
-- `clear` and `reset_capacity` on a valid pool.
use skip_cell.Common.{
  ℕ, ◌≡◌, refl, sym, ap, subst, ◌∙◌, ◌⊎◌, inl, inr, true, false, List, [], ◌∷◌, none, if◌then◌else◌,
  ◌==◌, arith, Result, ok, throws, logic_error, Bool-cases, tally, key_count, length-indices,
  count-indices, count-nil, indices,
}
use skip_cell.Common.Calls.{◌>>◌, modify, bind_ok, bind_throws}
use skip_cell.Chunk.{Chunk, free, set_chunk_state}
use skip_cell.Lru.Types.{Entry, Pool, no_stats, on_frame}
use skip_cell.Lru.Capacity.{free_each, emptied, clear, none_pinned}
use skip_cell.Lru.Ownership.{IsValid}
use skip_cell.Lru.Ownership.Change.{same_owners}

none_pinned-same :
    (p : Pool) (frames : ℕ → Chunk) (entries : List (ℕ × Entry))
    → ((f : ℕ) → (frames f).pin_count ≡ (p.frames f).pin_count)
    → none_pinned (record p { frames = frames }) entries ≡ none_pinned p entries
unfolding none_pinned
none_pinned-same p frames [] h = refl
none_pinned-same p frames ((page, e) ∷ entries) h =
    rw (h e.frame) (ground (arith, none_pinned-same p frames entries h))

-- What the loop of `clear` leaves: control bodies with the same pins.
FreesEach : Pool → List (ℕ × Entry) → Type 0
FreesEach p entries =
    (frames : ℕ → Chunk) × (free_each entries p
      ≡ (record p { frames = frames }, if none_pinned p entries then ok tt else throws logic_error))
    × ((f : ℕ) → (frames f).pin_count ≡ (p.frames f).pin_count)

free_each-FreesEach : (p : Pool) (entries : List (ℕ × Entry)) → FreesEach p entries
unfolding FreesEach free_each none_pinned set_chunk_state
free_each-FreesEach p [] = (p.frames, refl, λ f. refl)
free_each-FreesEach p ((page, e) ∷ entries) =
    elim (Bool-cases ((p.frames e.frame).pin_count == 0)) [
      | inr pinned ↦ (p.frames, rw pinned, λ f. refl)
      | inl idle ↦
          let next : Pool = on_frame e.frame (set_chunk_state free) p in
          let pins : (f : ℕ) → (next.frames f).pin_count ≡ (p.frames f).pin_count =
            λ f. ground arith in
          let (frames, runs, same) = free_each-FreesEach next entries in
          (
            frames,
            rw idle (
                runs
                ∙ ap (λ b. (record p { frames = frames }, if b then ok tt else throws logic_error))
                    (none_pinned-same p next.frames entries pins)),
            λ f. same f ∙ pins f,
          )
    ]

-- An idle pool: nothing loads and no resident page is pinned.
abbrev pub IsIdle : Pool → Type 0
IsIdle p = (p.loading ≡ []) × (none_pinned p p.resident ≡ true)

-- The pool is empty: every frame is free, and no page, credit or counter is left over.
pub record IsEmpty (p : Pool) : Type 0 where
  pub nothing_resident : p.resident ≡ []
  pub nothing_loads : p.loading ≡ []
  pub nothing_listed : p.lru ≡ []
  pub all_free : p.free_frames ≡ indices p.capacity_pages
  pub credited : p.prefetch_admission_credit ≡ true
  pub none_unused : p.prefetched_unused_count ≡ 0
  pub counters_reset : p.stats ≡ no_stats

abbrev pub Cleared : Pool → Pool × Result (Unit {0}) → Type 0
Cleared p (q, r) =
    IsValid q
    × ((IsIdle p × (r ≡ ok tt) × IsEmpty q × (q.capacity_pages ≡ p.capacity_pages))
        ⊎ ((¬ IsIdle p)
            × (r ≡ throws logic_error)
            × (q.resident ≡ p.resident)
            × (q.loading ≡ p.loading)
            × (q.lru ≡ p.lru)
            × (q.free_frames ≡ p.free_frames)
            × (q.stats ≡ p.stats)))

emptied-IsValid : (p : Pool) → IsValid p → p.loading ≡ [] → IsValid (emptied p)
unfolding emptied tally key_count
emptied-IsValid p v e = record {
  small = v.small;
  total = rw e (omega (arith, length-indices p.capacity_pages));
  owned = λ f. rw e (omega (arith, count-indices f p.capacity_pages));
  listed = λ page. count-nil page;
  single = λ page. rw e (omega arith);
  counted = refl;
}

clear-empty : (p : Pool) → p.loading ≡ [] → clear p ≡ (do free_each p.resident; modify emptied) p
unfolding clear
clear-empty p e = ground arith

clear-busy :
    (p : Pool) (l : ℕ × ℕ) (ls : List (ℕ × ℕ))
    → p.loading ≡ l ∷ ls
    → clear p ≡ (p, throws logic_error)
unfolding clear
clear-busy p l ls e = ground arith

-- `clear` on a valid pool: an idle pool is emptied, every frame is free again and the counters are
-- zero. While a page loads or a single resident page is pinned it throws a logic error instead and
-- drops nothing, the unpinned pages included, and resets no counter. Either way the pool stays valid.
pub clear-Cleared : (p : Pool) → IsValid p → Cleared p (clear p)
unfolding FreesEach emptied
clear-Cleared p v = by_loading p.loading refl
  where
    throwing :
        (frames : ℕ → Chunk)
        → p.loading ≡ []
        → none_pinned p p.resident ≡ false
        → free_each p.resident p ≡ (record p { frames = frames }, throws logic_error)
        → Cleared p (clear p)
    throwing frames e pinned runs =
        subst (Cleared p)
          (sym (clear-empty p e ∙ bind_throws (free_each p.resident) (λ _. modify emptied) runs))
          (
            same_owners p none frames _ _ v,
            inr (λ idle. cc (idle.1), refl, refl, refl, refl, refl, refl),
          )

    emptying :
        (frames : ℕ → Chunk)
        → p.loading ≡ []
        → none_pinned p p.resident ≡ true
        → free_each p.resident p ≡ (record p { frames = frames }, ok tt)
        → Cleared p (clear p)
    emptying frames e idle runs =
        subst (Cleared p)
          (sym (clear-empty p e ∙ bind_ok (free_each p.resident) (λ _. modify emptied) runs))
          (
            emptied-IsValid (record p { frames = frames }) (same_owners p none frames _ _ v) e,
            inl (
              (e, idle),
              refl,
              record {
                nothing_resident = refl;
                nothing_loads = e;
                nothing_listed = refl;
                all_free = refl;
                credited = refl;
                none_unused = refl;
                counters_reset = refl;
              },
              refl,
            ),
          )

    by_pins : p.loading ≡ [] → FreesEach p p.resident → Cleared p (clear p)
    by_pins e (frames, runs, same) = elim (Bool-cases (none_pinned p p.resident)) [
      | inl idle ↦ emptying frames e idle (runs ∙ rw idle)
      | inr pinned ↦ throwing frames e pinned (runs ∙ rw pinned)
    ]

    by_loading : (ls : List (ℕ × ℕ)) → p.loading ≡ ls → Cleared p (clear p)
    by_loading [] e = by_pins e (free_each-FreesEach p p.resident)
    by_loading (l ∷ ls) e =
        subst (Cleared p) (sym (clear-busy p l ls e))
          (v, inr (λ idle. cc (idle.0), refl, refl, refl, refl, refl, refl))
