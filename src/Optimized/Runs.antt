-- ===== src/Optimized/Runs.antt =====
-- `make_io_page_runs`: the pages of a request as runs of consecutive pages. The head of the loop's runs,
-- `runs.back()`, is the run under construction.
use skip_cell.Common.{
  ℕ, zero, suc, ◌+◌, ◌-◌, ◌≤◌, ◌<◌, ◌≡◌, refl, sym, ap, subst, ◌∙◌, Bool, ◌&&◌, ◌⊎◌, inl, inr,
  Bool-cases, List, [], ◌∷◌, ◌++◌, ltb, leb, ◌==◌, if◌then◌else◌, arith,
}
use skip_cell.Common.Sets.{sort_unique, sort_unique-IsStrict, IsStrict}
use skip_cell.Optimized.{PageRun}

-- `UINT32_MAX` and `UINT64_MAX`.
abbrev pub uint32_max : ℕ
uint32_max = 4294967295

abbrev pub uint64_max : ℕ
uint64_max = 18446744073709551615

unfoldable pub can_extend : PageRun → ℕ → Bool
can_extend run page =
    ltb run.page_count uint32_max
    && leb run.first_page (uint64_max - run.page_count)
    && page == run.first_page + run.page_count

abbrev single : ℕ → PageRun
single page = record { first_page = page; page_count = 1 }

abbrev longer : PageRun → PageRun
longer run = record { first_page = run.first_page; page_count = run.page_count + 1 }

-- The runs from the one under construction on.
unfoldable pub runs_from : PageRun → List ℕ → List PageRun
unfolding can_extend
runs_from run [] = run ∷ []
runs_from run (page ∷ pages) =
    let extended = runs_from (longer run) pages in
    let fresh = run ∷ runs_from (single page) pages in
    if can_extend run page then extended else fresh

abbrev runs_of : List ℕ → List PageRun
runs_of [] = []
runs_of (page ∷ pages) = runs_from (single page) pages

unfoldable pub make_io_page_runs : List ℕ → List PageRun
unfolding sort_unique runs_from
make_io_page_runs page_ids = runs_of (sort_unique page_ids)

-- The pages of a run, and of all runs.
unfoldable pub pages_from : ℕ → ℕ → List ℕ
pages_from first zero = []
pages_from first (suc n) = first ∷ pages_from (first + 1) n

unfoldable pub pages_of : List PageRun → List ℕ
unfolding pages_from
pages_of [] = []
pages_of (run ∷ runs) = pages_from run.first_page run.page_count ++ pages_of runs

-- Two runs in a row leave a gap, or the first one is as long as a run can be, or ends with the last page
-- that there can be.
abbrev pub Apart : PageRun → PageRun → Type 0
Apart run later =
    (run.first_page + run.page_count < later.first_page)
    ⊎ ((run.page_count ≡ uint32_max) ⊎ (uint64_max < run.first_page + run.page_count))

-- The runs hold at least a page each, fit their width, and none could be joined with the next.
unfoldable pub AreMaximal : List PageRun → Type 0
AreMaximal [] = Unit {0}
AreMaximal (run ∷ []) = (0 < run.page_count) × (run.page_count ≤ uint32_max)
AreMaximal (run ∷ later ∷ runs) =
    (0 < run.page_count)
    × (run.page_count ≤ uint32_max)
    × Apart run later
    × AreMaximal (later ∷ runs)

pages_from-snoc :
    (first n : ℕ) (rest : List ℕ)
    → pages_from first (n + 1) ++ rest ≡ pages_from first n ++ ((first + n) ∷ rest)
unfolding pages_from
pages_from-snoc first zero rest = ap (λ k. k ∷ rest) (omega arith)
pages_from-snoc first (suc n) rest =
    let longer_by_one : suc n + 1 ≡ suc (n + 1) = omega arith in
    ap (λ k. pages_from first k ++ rest) longer_by_one
    ∙ ap (λ ps. first ∷ ps) (pages_from-snoc (first + 1) n rest)
    ∙ ap (λ k. first ∷ (pages_from (first + 1) n ++ (k ∷ rest))) (omega arith)

pages_of-runs_from :
    (run : PageRun) (pages : List ℕ)
    → pages_of (runs_from run pages) ≡ pages_from run.first_page run.page_count ++ pages
unfolding pages_of runs_from
pages_of-runs_from run [] = refl
pages_of-runs_from run (page ∷ pages) = elim (Bool-cases (can_extend run page)) [
  | inl joins ↦
      let e : page ≡ run.first_page + run.page_count = ground (arith, joins) in
      rw joins (
        pages_of-runs_from (longer run) pages
        ∙ pages_from-snoc run.first_page run.page_count pages
        ∙ ap (λ p. pages_from run.first_page run.page_count ++ (p ∷ pages)) (sym e))
  | inr breaks ↦ rw breaks (
      ap (λ ps. pages_from run.first_page run.page_count ++ ps)
        (pages_of-runs_from (single page) pages ∙ refl))
]

-- The first run begins where the run under construction does.
runs_from-first :
    (run : PageRun) (pages : List ℕ)
    → (r : PageRun) × (rs : List PageRun) × (runs_from run pages ≡ r ∷ rs)
      × (r.first_page ≡ run.first_page)
unfolding runs_from
runs_from-first run [] = (run, [], refl, refl)
runs_from-first run (page ∷ pages) = elim (Bool-cases (can_extend run page)) [
  | inl joins ↦ rw joins (runs_from-first (longer run) pages)
  | inr breaks ↦ (run, runs_from (single page) pages, rw breaks refl, refl)
]

runs_from-AreMaximal :
    (run : PageRun) (pages : List ℕ)
    → 0 < run.page_count
    → run.page_count ≤ uint32_max
    → IsStrict (run.first_page + run.page_count) pages
    → AreMaximal (runs_from run pages)
unfolding runs_from AreMaximal
runs_from-AreMaximal run [] some small strict = (some, small)
runs_from-AreMaximal run (page ∷ pages) some small (next, strict) =
    elim (Bool-cases (can_extend run page)) [
      | inl joins ↦
          let after : suc page ≡ run.first_page + (run.page_count + 1) = ground (arith, joins) in
          rw joins (
            runs_from-AreMaximal (longer run) pages (omega arith) (ground (arith, joins))
              (subst (λ b. IsStrict b pages) after strict))
      | inr breaks ↦
          let (later, rest, e, f) = runs_from-first (single page) pages in
          let all : AreMaximal (runs_from (single page) pages) =
            runs_from-AreMaximal (single page) pages (omega arith) (omega arith)
              (subst (λ b. IsStrict b pages) (omega arith) strict) in
          let gap : Apart run later = ground (arith, breaks, f, next, small) in
          rw breaks
            (subst (λ rs. AreMaximal (run ∷ rs)) (sym e) (some, small, gap, subst AreMaximal e all))
    ]

runs_of-IsSplit :
    (b : ℕ) (pages : List ℕ)
    → IsStrict b pages
    → (pages_of (runs_of pages) ≡ pages) × AreMaximal (runs_of pages)
unfolding pages_of AreMaximal
runs_of-IsSplit b [] strict = (refl, tt)
runs_of-IsSplit b (page ∷ pages) (_, strict) = (
  pages_of-runs_from (single page) pages,
  runs_from-AreMaximal (single page) pages (omega arith) (omega arith)
      (subst (λ k. IsStrict k pages) (omega arith) strict),
)

-- The runs of a request hold each of its pages once, in ascending order, and nothing else; each run has
-- a page at least and fits 32 bits, and no run could be joined with the next.
pub make_io_page_runs-pages :
    (page_ids : List ℕ)
    → (pages_of (make_io_page_runs page_ids) ≡ sort_unique page_ids)
      × AreMaximal (make_io_page_runs page_ids)
unfolding make_io_page_runs
make_io_page_runs-pages page_ids =
    runs_of-IsSplit 0 (sort_unique page_ids) (sort_unique-IsStrict page_ids)
