-- ===== src/Cells/Observations.antt =====
-- Observing queries leaves the table of cells as it is.
use skip_cell.Common.{
  ℕ, ◌≡◌, subst, Bool, not, ◌&&◌, inl, inr, Bool-cases, List, [], ◌∷◌, ◌==◌, ok, ◌>>=◌, ok_bind,
  arith,
}
use skip_cell.Common.Sets.{sort_unique}
use skip_cell.Cells.{Floating, View, Pair, Runtime, acquire, cell, accepts_observations}
use skip_cell.Cells.Observe.{
  Sample, observe, observed, observe_candidate, observe_candidates, observe_query, observe_pair,
  observe_views, binary_search, sample_of, force_first, candidate_at, query_candidates,
}
use skip_cell.Cells.Published.{Unchanged, Unchanged-refl, Unchanged-trans}

ok_inj {ℓ} : {A : Type ℓ} {a b : A} → ok a ≡ ok b → a ≡ b
ok_inj p = cc

module _ {D : Type 0} where
  pub observe-Unchanged :
      (candidate : ℕ) (s : Sample) (r : Runtime D) → Unchanged r (observe candidate s r)
  unfolding observe
  observe-Unchanged candidate s r = ground arith

  module _ ⦃f : Floating D⦄ where
    observed-Unchanged :
        (candidate : ℕ) (s : Sample) (r : Runtime D) → Unchanged r (observed candidate s r)
    unfolding observed
    observed-Unchanged candidate s r = ground (arith, observe-Unchanged candidate s r)

    force_first-Unchanged : (cs : List ℕ) (r : Runtime D) → Unchanged r (force_first cs r)
    unfolding force_first
    force_first-Unchanged [] r = Unchanged-refl r
    force_first-Unchanged (c ∷ cs) r = ground arith

    observe_views-Unchanged :
        (left_loaded right_loaded : Bool) (c : ℕ) (r : Runtime D) (left right : View)
        → Unchanged r (observe_views left_loaded right_loaded c r left right)
    unfolding observe_views
    observe_views-Unchanged left_loaded right_loaded c r left right =
        elim (Bool-cases (left.view_id == right.view_id)) [
          | inl same ↦ rw same (Unchanged-refl r)
          | inr other ↦
              rw other (observed-Unchanged c (sample_of left_loaded right_loaded left right) r)
        ]

    observe_pair-Unchanged :
        (loaded : List ℕ) (c : ℕ) (r : Runtime D) (pair : Pair) {after : Runtime D}
        → observe_pair loaded c r pair ≡ ok after
        → Unchanged r after
    unfolding observe_pair
    observe_pair-Unchanged loaded c r pair {after} e =
        let ll = binary_search pair.left_cell loaded in
        let rl = binary_search pair.right_cell loaded in
        elim (Bool-cases (not ll && not rl)) [
          | inl neither ↦
              let p : r ≡ after = ok_inj (rw neither at e) in
              subst (Unchanged r) p (Unchanged-refl r)
          | inr loads ↦
              let (left, _, f) =
                ok_bind (cell (acquire r) pair.left_cell)
                  (λ left. cell (acquire r) pair.right_cell >>= λ right.
                    ok (observe_views ll rl c r left right))
                  (rw loads at e) in
              let (right, _, g) =
                ok_bind (cell (acquire r) pair.right_cell)
                  (λ right. ok (observe_views ll rl c r left right)) f in
              subst (Unchanged r) (ok_inj g) (observe_views-Unchanged ll rl c r left right)
        ]

    observe_candidate-Unchanged :
        (loaded : List ℕ) (c : ℕ) (r : Runtime D) {after : Runtime D}
        → observe_candidate loaded c r ≡ ok after
        → Unchanged r after
    unfolding observe_candidate
    observe_candidate-Unchanged loaded c r e =
        let (pair, _, f) = ok_bind (candidate_at r c) (observe_pair loaded c r) e in
        observe_pair-Unchanged loaded c r pair f

    observe_candidates-Unchanged :
        (loaded cs : List ℕ) (r : Runtime D) {after : Runtime D}
        → observe_candidates loaded cs r ≡ ok after
        → Unchanged r after
    unfolding observe_candidates
    observe_candidates-Unchanged loaded [] r e = subst (Unchanged r) (ok_inj e) (Unchanged-refl r)
    observe_candidates-Unchanged loaded (c ∷ cs) r {after} e =
        elim (Bool-cases (accepts_observations r)) [
          | inr done ↦
              let p : r ≡ after = ok_inj (rw done at e) in subst (Unchanged r) p (Unchanged-refl r)
          | inl more ↦
              let (next, first, rest) =
                ok_bind (observe_candidate loaded c r) (observe_candidates loaded cs)
                  (rw more at e) in
              Unchanged-trans (observe_candidate-Unchanged loaded c r first)
                (observe_candidates-Unchanged loaded cs next rest)
        ]

    pub observe_query-Unchanged :
        (loaded : List ℕ) (r : Runtime D) {after : Runtime D}
        → observe_query loaded r ≡ ok after
        → Unchanged r after
    unfolding observe_query
    observe_query-Unchanged [] r e = subst (Unchanged r) (ok_inj e) (Unchanged-refl r)
    observe_query-Unchanged (l ∷ ls) r {after} e =
        let cs = sort_unique (query_candidates r.candidates_by_cell (l ∷ ls)) in
        elim (Bool-cases (accepts_observations r)) [
          | inr closed ↦
              let p : r ≡ after = ok_inj (rw closed at e) in
              subst (Unchanged r) p (Unchanged-refl r)
          | inl open_ ↦
              Unchanged-trans (force_first-Unchanged cs r)
                (observe_candidates-Unchanged (l ∷ ls) cs (force_first cs r) (rw open_ at e))
        ]
