-- ===== src/Cells/Exchanges.antt =====
-- The exchange of the snapshot, apart from the call that it ends: what is at an address stays there, so
-- an attempt may wait while other threads publish.
use skip_cell.Common.{
  ℕ, ◌≤◌, ◌<◌, ◌≡◌, refl, sym, ap, subst, ◌∙◌, Bool, true, false, inl, inr, Bool-cases, Option,
  some, ◌==◌, ==_iff, get_elem?, Result, ok, throws, invalid_argument, arith,
}
use skip_cell.Cells.{Floating, View, Snapshot, Pair, Runtime, acquire}
use skip_cell.Cells.Observe.{add64}
use skip_cell.Cells.Publish.{
  Attempt, attempted, with_object, new_attempt, prepare, commit, committed, try_publish,
}
use skip_cell.Cells.Built.{Replaced}
use skip_cell.Cells.Published.{
  IsValid, Unchanged, attempted-Unchanged, Unchanged-IsValid, with_object-IsValid, Prepared, idles,
  fails, makes, prepare-Prepared,
}

module _ {D : Type 0} where
  -- A waiting attempt has its snapshot at its address, one generation on from that it was made from.
  pub record IsWaiting (r : Runtime D) (a : Attempt) : Type 0 where
    pub made_from : a.expected < r.next_address
    pub made : a.desired < r.next_address
    pub follows : (r.objects a.desired).generation ≡ add64 (r.objects a.expected).generation 1

  -- The objects that were there still are.
  pub record Keeps (r after : Runtime D) : Type 0 where
    pub grows : r.next_address ≤ after.next_address
    pub objects : (b : ℕ) → b < r.next_address → after.objects b ≡ r.objects b

  pub Keeps-trans : {r s t : Runtime D} → Keeps r s → Keeps s t → Keeps r t
  Keeps-trans k l = record {
    grows = omega (arith, k.grows, l.grows);
    objects = λ b h. l.objects b (omega (arith, k.grows, h)) ∙ k.objects b h;
  }

  pub Keeps-Unchanged : (r after : Runtime D) → Unchanged r after → Keeps r after
  Keeps-Unchanged r after u = record {
    grows = omega (arith, u.next_address);
    objects = λ b h. ap (λ o. o b) u.objects;
  }

  pub Keeps-with_object : (next : Snapshot) (r : Runtime D) → Keeps r (with_object next r)
  Keeps-with_object next r = record { grows = omega arith; objects = λ b h. ground (arith, h) }

  pub Keeps-commit : (a : Attempt) (r : Runtime D) → Keeps r (commit a r).0
  unfolding commit
  Keeps-commit a r = elim (Bool-cases (r.snapshot == a.expected)) [
    | inl same ↦ rw same (record { grows = omega arith; objects = λ b h. refl })
    | inr other ↦ rw other (record { grows = omega arith; objects = λ b h. refl })
  ]

  pub IsWaiting-Keeps :
      (r after : Runtime D) (a : Attempt) → Keeps r after → IsWaiting r a → IsWaiting after a
  IsWaiting-Keeps r after a k w = record {
    made_from = omega (arith, k.grows, w.made_from);
    made = omega (arith, k.grows, w.made);
    follows =
        ap (λ s. s.generation) (k.objects a.desired w.made)
        ∙ w.follows
        ∙ ap (λ s. add64 s.generation 1) (sym (k.objects a.expected w.made_from));
  }

  module _ (size : ℕ) (populations : ℕ → ℕ) where
    pub commit-IsValid :
        (a : Attempt) (r : Runtime D)
        → IsValid size populations r
        → IsWaiting r a
        → IsValid size populations (commit a r).0
    unfolding commit
    commit-IsValid a r v w = elim (Bool-cases (r.snapshot == a.expected)) [
      | inl same ↦
          let e : r.snapshot ≡ a.expected = (==_iff r.snapshot a.expected).0 same in
          rw same (record {
            allocated = w.made;
            sound = v.sound;
            pairs = v.pairs;
            counted =
                w.follows
                ∙ ap (λ b. add64 (r.objects b).generation 1) (sym e)
                ∙ ap (λ g. add64 g 1) v.counted;
          })
      | inr other ↦ rw other (record {
        allocated = v.allocated;
        sound = v.sound;
        pairs = v.pairs;
        counted = v.counted;
      })
    ]

    pub new_attempt-IsWaiting :
        (r : Runtime D) (pair : Pair) (v : View) (next : Snapshot)
        → IsValid size populations r
        → Replaced size populations (acquire r) pair v next
        → IsWaiting (with_object next (attempted r)) (new_attempt v (attempted r))
    new_attempt-IsWaiting r pair v next valid replaced =
        let new : (r.next_address == r.next_address) ≡ true = ground arith in
        let old : (r.next_address == r.snapshot) ≡ false = ground (arith, valid.allocated) in
        record {
          made_from = omega (arith, valid.allocated);
          made = omega arith;
          follows = rw new (rw old replaced.succeeds);
        }

    -- `try_publish` declines and leaves the table, throws for a population of more than 512 and leaves
    -- it too, or publishes the replacement in place of the parents.
    pub data Published (r : Runtime D) (candidate : ℕ) (replacement : View)
        : Runtime D × Result Bool → Type 0 where
      declines :
          (after : Runtime D)
          → Unchanged r after
          → Published r candidate replacement (after, ok false)
      overflows :
          (after : Runtime D)
          → Unchanged r after
          → 512 < replacement.node_count
          → Published r candidate replacement (after, throws invalid_argument)
      publishes :
          (after : Runtime D) (pair : Pair)
          → get_elem? r.candidates candidate ≡ some pair
          → Replaced size populations (acquire r) pair replacement (acquire after)
          → Keeps r after
          → IsValid size populations after
          → after.successful_publishes ≡ add64 r.successful_publishes 1
          → Published r candidate replacement (after, ok true)

    committed-Published :
        (r : Runtime D) (candidate : ℕ) (replacement : View)
        (prepared : Runtime D × Result (Option Attempt))
        → IsValid size populations r
        → Prepared size populations r candidate replacement prepared
        → Published r candidate replacement (committed prepared)
    unfolding committed commit
    committed-Published r candidate replacement prepared v (idles after u) = declines after u
    committed-Published r candidate replacement prepared v (fails after u large) =
        overflows after u large
    committed-Published r candidate replacement prepared v (makes next pair e replaced) =
        let made = with_object next (attempted r) in
        let a = new_attempt replacement (attempted r) in
        let same : (r.snapshot == r.snapshot) ≡ true = ground arith in
        let new : (r.next_address == r.next_address) ≡ true = ground arith in
        let held : acquire (commit a made).0 ≡ next = rw same (rw new refl) in
        let counts : (commit a made).0.successful_publishes ≡ add64 r.successful_publishes 1 =
          rw same refl in
        let valid : IsValid size populations (commit a made).0 =
          commit-IsValid a made
            (with_object-IsValid size populations next (attempted r) replaced.sound
              (Unchanged-IsValid size populations r (attempted r) (attempted-Unchanged r) v))
            (new_attempt-IsWaiting r pair replacement next v replaced) in
        let keeps : Keeps r (commit a made).0 =
          Keeps-trans (Keeps-Unchanged r (attempted r) (attempted-Unchanged r))
            (Keeps-trans (Keeps-with_object next (attempted r)) (Keeps-commit a made)) in
        let swapped : (commit a made).1 ≡ true = rw same refl in
        let whole : Published r candidate replacement ((commit a made).0, ok true) =
          publishes (commit a made).0 pair e
            (subst (Replaced size populations (acquire r) pair replacement) (sym held) replaced)
            keeps valid counts in
        subst (λ b. Published r candidate replacement ((commit a made).0, ok b)) (sym swapped) whole

    module _ ⦃f : Floating D⦄ where
      -- On a valid runtime try_publish declines and leaves the table as it is, or throws an invalid
      -- argument for a replacement of more than 512 nodes and leaves it too, or publishes: then the
      -- replacement is the view of the cells that it lists, both parents among them, every other cell
      -- keeps its view, a node of the replacement's directory is found where that says and any other
      -- node where it was, older snapshots stay as they are, one more publication is counted, and the
      -- runtime is valid.
      pub try_publish-Published :
          (r : Runtime D) (candidate : ℕ) (replacement : View) (force : Bool)
          → IsValid size populations r
          → Published r candidate replacement (try_publish candidate (some replacement) force r)
      unfolding try_publish
      try_publish-Published r candidate replacement force v =
          committed-Published r candidate replacement (prepare candidate (some replacement) force r)
            v (prepare-Prepared size populations r candidate replacement force v)
