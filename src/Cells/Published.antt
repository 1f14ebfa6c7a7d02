-- ===== src/Cells/Published.antt =====
-- A runtime whose snapshots are sound, and `try_publish` on it.
use skip_cell.Common.{
  ℕ, ◌<◌, ◌≡◌, refl, sym, ap, subst, ◌∙◌, Bool, false, inl, inr, Bool-cases, Option, none, some,
  ◌==◌, if◌then◌else◌, get_elem?, Result, ok, throws, invalid_argument, arith,
}
use skip_cell.Common.Sets.{get_elem?-some}
use skip_cell.Cells.{Floating, View, Snapshot, Pair, Runtime, acquire}
use skip_cell.Cells.Observe.{candidate_at}
use skip_cell.Cells.Publish.{
  Attempt, attempted, with_object, new_attempt, admitted, placed, prepare, built_next,
}
use skip_cell.Cells.Built.{IsSound, Replaced, Built, refuses, overfull, builds, built_next-Built}

module _ {D : Type 0} where
  -- Every snapshot that stands at an address is sound, the current one among them; candidates name cells
  -- that are there; the generation counts the publications.
  pub record IsValid (size : ℕ) (populations : ℕ → ℕ) (r : Runtime D) : Type 0 where
    pub allocated : r.snapshot < r.next_address
    pub sound : (a : ℕ) → a < r.next_address → IsSound size populations (r.objects a)
    pub pairs :
        (c : ℕ) (p : Pair)
        → get_elem? r.candidates c ≡ some p
        → (p.left_cell < size) × (p.right_cell < size)
    pub counted : (acquire r).generation ≡ r.successful_publishes

  -- The table and its objects are as they were.
  pub record Unchanged (r after : Runtime D) : Type 0 where
    pub snapshot : after.snapshot ≡ r.snapshot
    pub objects : after.objects ≡ r.objects
    pub next_address : after.next_address ≡ r.next_address
    pub candidates : after.candidates ≡ r.candidates
    pub publishes : after.successful_publishes ≡ r.successful_publishes

  pub Unchanged-refl : (r : Runtime D) → Unchanged r r
  Unchanged-refl r = record {
    snapshot = refl;
    objects = refl;
    next_address = refl;
    candidates = refl;
    publishes = refl;
  }

  pub attempted-Unchanged : (r : Runtime D) → Unchanged r (attempted r)
  attempted-Unchanged r = record {
    snapshot = refl;
    objects = refl;
    next_address = refl;
    candidates = refl;
    publishes = refl;
  }

  pub Unchanged-trans : {r s t : Runtime D} → Unchanged r s → Unchanged s t → Unchanged r t
  Unchanged-trans u v = record {
    snapshot = v.snapshot ∙ u.snapshot;
    objects = v.objects ∙ u.objects;
    next_address = v.next_address ∙ u.next_address;
    candidates = v.candidates ∙ u.candidates;
    publishes = v.publishes ∙ u.publishes;
  }

  module _ (size : ℕ) (populations : ℕ → ℕ) where
    pub Unchanged-IsValid :
        (r after : Runtime D)
        → Unchanged r after
        → IsValid size populations r
        → IsValid size populations after
    Unchanged-IsValid r after u v = record {
      allocated = omega (arith, u.snapshot, u.next_address, v.allocated);
      sound = λ a h.
          subst (λ o. IsSound size populations (o a)) (sym u.objects)
            (v.sound a (omega (arith, u.next_address, h)));
      pairs = λ c p e. v.pairs c p (ap (λ ps. get_elem? ps c) (sym u.candidates) ∙ e);
      counted =
          ap (λ a. (after.objects a).generation) u.snapshot
          ∙ ap (λ o. (o r.snapshot).generation) u.objects
          ∙ v.counted
          ∙ sym u.publishes;
    }

    -- A sound object at a fresh address.
    pub with_object-IsValid :
        (next : Snapshot) (r : Runtime D)
        → IsSound size populations next
        → IsValid size populations r
        → IsValid size populations (with_object next r)
    with_object-IsValid next r s v =
        let old : (r.next_address == r.snapshot) ≡ false = ground (arith, v.allocated) in
        record {
          allocated = omega (arith, v.allocated);
          sound = λ a h. elim (Bool-cases (r.next_address == a)) [
            | inl new ↦ rw new s
            | inr other ↦ rw other (v.sound a (ground (arith, h, other)))
          ];
          pairs = v.pairs;
          counted = ap (λ b. (if b then next else r.objects r.snapshot).generation) old ∙ v.counted;
        }

    -- The outcomes of `prepare` for a replacement.
    pub data Prepared (r : Runtime D) (candidate : ℕ) (replacement : View)
        : Runtime D × Result (Option Attempt) → Type 0 where
      idles :
          (after : Runtime D)
          → Unchanged r after
          → Prepared r candidate replacement (after, ok none)
      fails :
          (after : Runtime D)
          → Unchanged r after
          → 512 < replacement.node_count
          → Prepared r candidate replacement (after, throws invalid_argument)
      makes :
          (next : Snapshot) (pair : Pair)
          → get_elem? r.candidates candidate ≡ some pair
          → Replaced size populations (acquire r) pair replacement next
          → Prepared r candidate replacement
              (with_object next (attempted r), ok (some (new_attempt replacement (attempted r))))

    module _ ⦃f : Floating D⦄ where
      placed-Prepared :
          (r : Runtime D) (candidate : ℕ) (replacement : View) (pair : Pair)
          (result : Result (Option Snapshot))
          → get_elem? r.candidates candidate ≡ some pair
          → Built size populations (acquire r) pair replacement result
          → Prepared r candidate replacement (placed replacement (attempted r) result)
      unfolding placed
      placed-Prepared r candidate replacement pair result e refuses =
          idles (attempted r) (attempted-Unchanged r)
      placed-Prepared r candidate replacement pair result e (overfull large) =
          fails (attempted r) (attempted-Unchanged r) large
      placed-Prepared r candidate replacement pair result e (builds next replaced) =
          makes next pair e replaced

      pub prepare-Prepared :
          (r : Runtime D) (candidate : ℕ) (replacement : View) (force : Bool)
          → IsValid size populations r
          → Prepared r candidate replacement (prepare candidate (some replacement) force r)
      unfolding prepare
      prepare-Prepared r candidate replacement force v =
          elim (Bool-cases (admitted candidate force r)) [
            | inr refused ↦ rw refused (idles r (Unchanged-refl r))
            | inl accepted ↦
                let (pair, e) = get_elem?-some r.candidates candidate (ground (arith, accepted)) in
                let inside = v.pairs candidate pair e in
                let found : candidate_at r candidate ≡ ok pair = rw (e, candidate_at) refl in
                rw accepted (
                  rw found (
                    placed-Prepared r candidate replacement pair
                      (built_next (acquire r) pair replacement) e
                      (built_next-Built size populations (acquire r) pair replacement
                        (v.sound r.snapshot v.allocated) inside.0 inside.1)))
          ]
