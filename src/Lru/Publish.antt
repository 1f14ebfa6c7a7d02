-- ===== src/Lru/Publish.antt =====
-- `publish`, `release` and their batches.
use skip_cell.Common.{
  ℕ, Bool, List, [], ◌∷◌, ◌++◌, Option, none, some, ◌==◌, if◌then◌else◌, logic_error, lookup, erase,
  emplace,
}
use skip_cell.Common.Calls.{Call, ◌>>=◌, ◌>>◌, pure, raise, get, modify}
use skip_cell.Chunk.{free, resident, dec_pin_count, set_chunk_state}
use skip_cell.Lru.Types.{load, bypass, Access, is_prefetch, Reservation, Pool, bump, on_frame}

-- The frame of a reservation that `publish` acts on.
abbrev pub loaded_frame : Reservation → Option ℕ
loaded_frame r = elim r.state [ load ↦ r.frame | _ ↦ none ]

-- The frame of a reservation that `release` acts on.
abbrev pub pinned_frame : Reservation → Option ℕ
pinned_frame r = elim r.state [ bypass ↦ none | _ ↦ r.frame ]

-- The page becomes resident: a demanded page at the front of `lru_`, a prefetched one at its back.
unfoldable pub expose : ℕ → ℕ → Access → Pool → Pool
expose page f access p =
    let q = on_frame f (set_chunk_state resident) p in
    record q {
      lru = if is_prefetch access then q.lru ++ (page ∷ []) else page ∷ q.lru;
      resident =
          emplace page (record { frame = f; prefetched_unused = is_prefetch access }) q.resident;
      prefetched_unused_count =
          if is_prefetch access then bump q.prefetched_unused_count else q.prefetched_unused_count;
    }

-- A load that failed: the frame goes back unexposed.
unfoldable pub roll_back : ℕ → Pool → Pool
roll_back f p =
    let q = on_frame f (λ c. dec_pin_count (set_chunk_state free c)) p in
    record q {
      free_frames = f ∷ q.free_frames;
      stats = record q.stats { failed_loads = bump q.stats.failed_loads };
    }

-- The load is over: the page leaves the dictionary of loads.
unfoldable pub settled : ℕ → ℕ → Access → Bool → Pool → Pool
unfolding expose roll_back
settled page f access success p =
    let q = record p { loading = erase page p.loading } in
    if success then expose page f access q else roll_back f q

-- The frame that is in flight for the page, if any, has to be that of the reservation.
abbrev pub settle : ℕ → ℕ → Access → Bool → Option ℕ → Call Pool (Unit {0})
settle page f access success none = raise logic_error
settle page f access success (some g) =
    if g == f then modify (settled page f access success) else raise logic_error

unfoldable pub publish_frame : ℕ → ℕ → Access → Bool → Call Pool (Unit {0})
publish_frame page f access success p = settle page f access success (lookup page p.loading) p

abbrev pub publish_loaded : Reservation → Bool → Option ℕ → Call Pool (Unit {0})
publish_loaded r success none = pure tt
publish_loaded r success (some f) = publish_frame r.page_id f r.access success

unfoldable pub publish : Reservation → Bool → Call Pool (Unit {0})
publish r success = publish_loaded r success (loaded_frame r)

unfoldable pub publish_many : List Reservation → Bool → Call Pool (Unit {0})
publish_many [] success = pure tt
publish_many (r ∷ rs) success = do publish r success; publish_many rs success

unfoldable pub release_frame : ℕ → Call Pool (Unit {0})
release_frame f = do
  pins ← get (λ p. (p.frames f).pin_count)
  if pins == 0 then raise logic_error else modify (on_frame f dec_pin_count)

abbrev pub release_pinned : Option ℕ → Call Pool (Unit {0})
release_pinned none = pure tt
release_pinned (some f) = release_frame f

unfoldable pub release : Reservation → Call Pool (Unit {0})
release r = release_pinned (pinned_frame r)

unfoldable pub release_many : List Reservation → Call Pool (Unit {0})
release_many [] = pure tt
release_many (r ∷ rs) = do release r; release_many rs
