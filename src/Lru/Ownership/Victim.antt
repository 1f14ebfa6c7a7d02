-- ===== src/Lru/Ownership/Victim.antt =====
-- `select_victim` evicts the least recently used page that may go.
use mathlib.Core.List.{reverse-append, reverse-cons, reverse-reverse, append_assoc}
use skip_cell.Common.{
  ℕ, ◌<◌, ◌≡◌, refl, sym, ap, ◌∙◌, ◌⊎◌, inl, inr, Bool, true, false, List, [], ◌∷◌, ◌++◌, reverse,
  Option, none, some, ◌==◌, count, count-reverse, count-cons, key_count, lookup, arith, Result, ok,
  Bool-cases, Option-cases, key_count_of_none,
}
use skip_cell.Lru.Types.{Entry, Pool}
use skip_cell.Lru.Victim.{may_go, find_victim, select_victim}
use skip_cell.Lru.Ownership.{IsHolding, IsValid}
use skip_cell.Lru.Ownership.Change.{evicted, evict-ok}

-- No entry of the page may go.
abbrev pub Stays : Pool → Bool → ℕ → Type 0
Stays p require page = (e : Entry) → lookup page p.resident ≡ some e → may_go p require e ≡ false

-- Nothing in the list may go.
abbrev pub AllStay : Pool → Bool → List ℕ → Type 0
AllStay p require pages = (page : ℕ) → 0 < count page pages → Stays p require page

-- The first page of the list that may go, with its entry.
record IsFirst (p : Pool) (require : Bool) (pages : List ℕ) (page : ℕ) (e : Entry)
    (front after : List ℕ) : Type 0 where
  split : pages ≡ front ++ (page ∷ after)
  entry : lookup page p.resident ≡ some e
  may : may_go p require e ≡ true
  stay : AllStay p require front

AllStay-cons :
    (p : Pool) (require : Bool) (page : ℕ) (pages : List ℕ)
    → Stays p require page
    → AllStay p require pages
    → AllStay p require (page ∷ pages)
AllStay-cons p require page pages here rest q h = elim (Bool-cases (q == page)) [
  | inl same ↦ let e : q ≡ page = ground arith in rw e here
  | inr other ↦ rest q (ground (arith, count-cons q page pages))
]

Found : Pool → Bool → List ℕ → Result (Option (ℕ × Entry)) → Type 0
Found p require pages r =
    ((r ≡ ok none) × AllStay p require pages)
    ⊎ ((page : ℕ) × (e : Entry) × (front : List ℕ) × (after : List ℕ) × (r ≡ ok (some (page, e)))
        × IsFirst p require pages page e front after)

find_victim-Found :
    (p : Pool) (require : Bool) (pages : List ℕ)
    → ((page : ℕ) → 0 < count page pages → 0 < key_count page p.resident)
    → Found p require pages (find_victim p require pages)
unfolding find_victim Found count
find_victim-Found p require [] h = inl (refl, λ page c. absurd (omega arith))
find_victim-Found p require (page ∷ pages) h = elim (Option-cases (lookup page p.resident)) [
  | inl missing ↦ absurd (ground (arith, h page, key_count_of_none page p.resident missing))
  | inr (e, found) ↦ elim (Bool-cases (may_go p require e)) [
    | inl goes ↦ inr (
      page,
      e,
      [],
      pages,
      rw (found, find_victim) (rw goes),
      record { split = refl; entry = found; may = goes; stay = λ q c. absurd (omega arith) },
    )
    | inr stays ↦ step e found stays (find_victim-Found p require pages (λ q c. h q (omega arith)))
  ]
]
  where
    here :
        (e : Entry)
        → lookup page p.resident ≡ some e
        → may_go p require e ≡ false
        → Stays p require page
    here e found stays x other = let same : e ≡ x = cc in rw (← same) stays

    step :
        (e : Entry)
        → lookup page p.resident ≡ some e
        → may_go p require e ≡ false
        → Found p require pages (find_victim p require pages)
        → Found p require (page ∷ pages) (find_victim p require (page ∷ pages))
    step e found stays (inl (r, all)) = inl (
      rw (found, find_victim) (rw (stays, r)),
      AllStay-cons p require page pages (here e found stays) all,
    )
    step e found stays (inr (q, x, front, after, r, first)) = inr (
      q,
      x,
      page ∷ front,
      after,
      rw (found, find_victim) (rw (stays, r)),
      record {
        split = ap (◌∷◌ page) first.split;
        entry = first.entry;
        may = first.may;
        stay = AllStay-cons p require page front (here e found stays) first.stay;
      },
    )

-- What `select_victim` comes to: nothing, as every page of `lru_` stays; or the page that stands
-- before pages that all stay, counted from the back, is evicted and its frame is in hand.
abbrev pub Selected : Pool → Bool → Pool × Result (Option ℕ) → Type 0
Selected p require out =
    ((out ≡ (p, ok none)) × AllStay p require p.lru)
    ⊎ ((page : ℕ) × (e : Entry) × (newer : List ℕ) × (older : List ℕ) × (out
          ≡ (evicted page e p, ok (some e.frame)))
        × (p.lru ≡ newer ++ (page ∷ older))
        × (lookup page p.resident ≡ some e)
        × (may_go p require e ≡ true)
        × AllStay p require older
        × IsHolding (some e.frame) (evicted page e p))

AllStay-reverse :
    (p : Pool) (require : Bool) (pages : List ℕ)
    → AllStay p require (reverse pages)
    → AllStay p require pages
AllStay-reverse p require pages all q c = all q (rw (count-reverse q pages) c)

split-reverse :
    (xs front after : List ℕ) (page : ℕ)
    → reverse xs ≡ front ++ (page ∷ after)
    → xs ≡ reverse after ++ (page ∷ reverse front)
split-reverse xs front after page e =
    sym (reverse-reverse xs)
    ∙ ap reverse e
    ∙ reverse-append front (page ∷ after)
    ∙ ap (λ ys. ys ++ reverse front) (reverse-cons page after)
    ∙ append_assoc (reverse after) (page ∷ []) (reverse front)

-- On a valid pool the selection throws nothing. It evicts the least recently used page that may go
-- and holds its frame, or finds that no page may go and changes nothing.
pub select_victim-Selected :
    (p : Pool) (require : Bool) → IsValid p → Selected p require (select_victim require p)
unfolding select_victim Found
select_victim-Selected p require v = by_search (
    find_victim-Found p require (reverse p.lru)
      (λ q c. ground (arith, v.listed q, count-reverse q p.lru)))
  where
    by_search :
        Found p require (reverse p.lru) (find_victim p require (reverse p.lru))
        → Selected p require (select_victim require p)
    by_search (inl (r, all)) = inl (rw (r, select_victim), AllStay-reverse p require p.lru all)
    by_search (inr (page, e, front, after, r, first)) =
        let (runs, holding) = evict-ok p page e v first.entry in
        inr (
          page,
          e,
          reverse after,
          reverse front,
          rw (r, select_victim, runs),
          split-reverse p.lru front after page first.split,
          first.entry,
          first.may,
          AllStay-reverse p require (reverse front) (rw (reverse-reverse front) first.stay),
          holding,
        )
