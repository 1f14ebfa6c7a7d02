-- ===== src/Cells/Histories.antt =====
-- Calls of any threads in any order, with an exchange apart from the call that it ends: the attempts
-- that wait for it are a list, and other calls may come in between. A `noexcept` call that throws ends
-- the program, so the runtime stays as it was before.
use skip_cell.Common.{
  ℕ, zero, suc, ◌≡◌, refl, sym, ap, subst, ◌∙◌, Bool, inl, inr, Option-cases, List, [], ◌∷◌, Option,
  none, some, Result, ok, throws, arith,
}
use skip_cell.Cells.{Floating, View, Runtime}
use skip_cell.Cells.Observe.{Sample, observe, observe_query}
use skip_cell.Cells.Publish.{Attempt, attempted, with_object, prepare, commit}
use skip_cell.Cells.Published.{
  IsValid, Unchanged, Unchanged-refl, Unchanged-IsValid, with_object-IsValid, Prepared, idles,
  fails, makes, prepare-Prepared, attempted-Unchanged,
}
use skip_cell.Cells.Observations.{observe-Unchanged, observe_query-Unchanged}
use skip_cell.Cells.Exchanges.{
  IsWaiting, Keeps, Keeps-trans, Keeps-Unchanged, Keeps-with_object, Keeps-commit, IsWaiting-Keeps,
  commit-IsValid, new_attempt-IsWaiting,
}

-- A step of a thread.
pub data Op : Type 0 where
  prepares : ℕ → Option View → Bool → Op
  commits : ℕ → Op
  samples : ℕ → Sample → Op
  queries : List ℕ → Op

-- The runtime and the attempts that wait for their exchange.
pub record Shared (D : Type 0) : Type 0 where
  pub runtime : Runtime D
  pub waiting : List Attempt

abbrev passed : Attempt → Option (Attempt × List Attempt) → Option (Attempt × List Attempt)
passed a none = none
passed a (some (b, bs)) = some (b, a ∷ bs)

-- The attempt at a place in the list, and the others.
unfoldable pub pick : ℕ → List Attempt → Option (Attempt × List Attempt)
pick i [] = none
pick zero (a ∷ others) = some (a, others)
pick (suc i) (a ∷ others) = passed a (pick i others)

module _ {D : Type 0} where
  abbrev queued : List Attempt → Runtime D × Result (Option Attempt) → Shared D
  queued others (r, throws e) = record { runtime = r; waiting = others }
  queued others (r, ok none) = record { runtime = r; waiting = others }
  queued others (r, ok (some a)) = record { runtime = r; waiting = a ∷ others }

  abbrev exchanged : Shared D → Option (Attempt × List Attempt) → Shared D
  exchanged s none = s
  exchanged s (some (a, others)) = record { runtime = (commit a s.runtime).0; waiting = others }

  abbrev or_same : Runtime D → Result (Runtime D) → Runtime D
  or_same r (ok after) = after
  or_same r (throws e) = r

  module _ ⦃f : Floating D⦄ where
    unfoldable pub step : Op → Shared D → Shared D
    unfolding prepare commit pick observe observe_query
    step (prepares candidate replacement force) s =
        queued s.waiting (prepare candidate replacement force s.runtime)
    step (commits i) s = exchanged s (pick i s.waiting)
    step (samples candidate sample) s = record s { runtime = observe candidate sample s.runtime }
    step (queries loaded) s = record s {
      runtime = or_same s.runtime (observe_query loaded s.runtime);
    }

    unfoldable pub run : List Op → Shared D → Shared D
    unfolding step
    run [] s = s
    run (op ∷ ops) s = run ops (step op s)

  -- Each attempt was made from a snapshot that is still there.
  abbrev pub AllWaiting : Runtime D → List Attempt → Type 0
  AllWaiting r [] = Unit {0}
  AllWaiting r (a ∷ others) = IsWaiting r a × AllWaiting r others

  pub record IsConsistent (size : ℕ) (populations : ℕ → ℕ) (s : Shared D) : Type 0 where
    pub valid : IsValid size populations s.runtime
    pub waits : AllWaiting s.runtime s.waiting

  AllWaiting-Keeps :
      (r after : Runtime D) (others : List Attempt)
      → Keeps r after
      → AllWaiting r others
      → AllWaiting after others
  AllWaiting-Keeps r after [] k w = tt
  AllWaiting-Keeps r after (a ∷ others) k w =
      (IsWaiting-Keeps r after a k w.0, AllWaiting-Keeps r after others k w.1)

  pick-AllWaiting :
      (r : Runtime D) (i : ℕ) (others : List Attempt) {a : Attempt} {rest : List Attempt}
      → pick i others ≡ some (a, rest)
      → AllWaiting r others
      → IsWaiting r a × AllWaiting r rest
  unfolding pick
  pick-AllWaiting r i [] e w = absurd (ground (arith, e))
  pick-AllWaiting r zero (b ∷ bs) {a} {rest} e w =
      let p : ◌≡◌ {A = Attempt × List Attempt} (b, bs) (a, rest) = cc in
      subst (λ q. IsWaiting r q.0 × AllWaiting r q.1) p w
  pick-AllWaiting r (suc i) (b ∷ bs) {a} {rest} e w = elim (Option-cases (pick i bs)) [
    | inl none_left ↦ absurd (ground (arith, e, none_left))
    | inr ((c, cs), found) ↦
        let both = pick-AllWaiting r i bs found w.1 in
        let q : passed b (some (c, cs)) ≡ some (a, rest) = ap (passed b) (sym found) ∙ e in
        let p : ◌≡◌ {A = Attempt × List Attempt} (c, b ∷ cs) (a, rest) = cc in
        subst (λ t. IsWaiting r t.0 × AllWaiting r t.1) p (both.0, (w.0, both.1))
  ]

  module _ ⦃f : Floating D⦄ where
    or_same-Unchanged :
        (loaded : List ℕ) (r : Runtime D) (result : Result (Runtime D))
        → observe_query loaded r ≡ result
        → Unchanged r (or_same r result)
    or_same-Unchanged loaded r (ok after) e = observe_query-Unchanged loaded r e
    or_same-Unchanged loaded r (throws x) e = Unchanged-refl r

    module _ (size : ℕ) (populations : ℕ → ℕ) where
      Unchanged-IsConsistent :
          (s : Shared D) (after : Runtime D)
          → Unchanged s.runtime after
          → IsConsistent size populations s
          → IsConsistent size populations (record { runtime = after; waiting = s.waiting })
      Unchanged-IsConsistent s after u c = record {
        valid = Unchanged-IsValid size populations s.runtime after u c.valid;
        waits =
            AllWaiting-Keeps s.runtime after s.waiting (Keeps-Unchanged s.runtime after u) c.waits;
      }

      queued-IsConsistent :
          (s : Shared D) (candidate : ℕ) (v : View) (prepared : Runtime D × Result (Option Attempt))
          → IsConsistent size populations s
          → Prepared size populations s.runtime candidate v prepared
          → IsConsistent size populations (queued s.waiting prepared)
            × Keeps s.runtime (queued s.waiting prepared).runtime
      queued-IsConsistent s candidate v prepared c (idles after u) =
          (Unchanged-IsConsistent s after u c, Keeps-Unchanged s.runtime after u)
      queued-IsConsistent s candidate v prepared c (fails after u large) =
          (Unchanged-IsConsistent s after u c, Keeps-Unchanged s.runtime after u)
      queued-IsConsistent s candidate v prepared c (makes next pair e replaced) =
          let r = s.runtime in
          let u = attempted-Unchanged r in
          let kept : Keeps r (with_object next (attempted r)) =
            Keeps-trans (Keeps-Unchanged r (attempted r) u)
              (Keeps-with_object next (attempted r)) in
          (
            record {
              valid =
                  with_object-IsValid size populations next (attempted r) replaced.sound
                    (Unchanged-IsValid size populations r (attempted r) u c.valid);
              waits = (
                new_attempt-IsWaiting size populations r pair v next c.valid replaced,
                AllWaiting-Keeps r (with_object next (attempted r)) s.waiting kept c.waits,
              );
            },
            kept,
          )

      exchanged-IsConsistent :
          (s : Shared D) (i : ℕ)
          → IsConsistent size populations s
          → IsConsistent size populations (exchanged s (pick i s.waiting))
            × Keeps s.runtime (exchanged s (pick i s.waiting)).runtime
      exchanged-IsConsistent s i c = elim (Option-cases (pick i s.waiting)) [
        | inl absent ↦ rw absent (c, Keeps-Unchanged s.runtime s.runtime (Unchanged-refl s.runtime))
        | inr ((a, rest), found) ↦
            let both = pick-AllWaiting s.runtime i s.waiting found c.waits in
            let kept = Keeps-commit a s.runtime in
            rw found (
              record {
                valid = commit-IsValid size populations a s.runtime c.valid both.0;
                waits = AllWaiting-Keeps s.runtime (commit a s.runtime).0 rest kept both.1;
              },
              kept,
            )
      ]

      step-IsConsistent :
          (op : Op) (s : Shared D)
          → IsConsistent size populations s
          → IsConsistent size populations (step op s) × Keeps s.runtime (step op s).runtime
      unfolding step
      step-IsConsistent (prepares candidate none force) s c =
          (c, Keeps-Unchanged s.runtime s.runtime (Unchanged-refl s.runtime))
      step-IsConsistent (prepares candidate (some v) force) s c =
          queued-IsConsistent s candidate v (prepare candidate (some v) force s.runtime) c
            (prepare-Prepared size populations s.runtime candidate v force c.valid)
      step-IsConsistent (commits i) s c = exchanged-IsConsistent s i c
      step-IsConsistent (samples candidate sample) s c =
          let u = observe-Unchanged candidate sample s.runtime in
          (
            Unchanged-IsConsistent s (observe candidate sample s.runtime) u c,
            Keeps-Unchanged s.runtime (observe candidate sample s.runtime) u,
          )
      step-IsConsistent (queries loaded) s c =
          let after = or_same s.runtime (observe_query loaded s.runtime) in
          let u = or_same-Unchanged loaded s.runtime (observe_query loaded s.runtime) refl in
          (Unchanged-IsConsistent s after u c, Keeps-Unchanged s.runtime after u)

      pub run-IsConsistent :
          (ops : List Op) (s : Shared D)
          → IsConsistent size populations s
          → IsConsistent size populations (run ops s) × Keeps s.runtime (run ops s).runtime
      unfolding run
      run-IsConsistent [] s c = (c, Keeps-Unchanged s.runtime s.runtime (Unchanged-refl s.runtime))
      run-IsConsistent (op ∷ ops) s c =
          let now = step-IsConsistent op s c in
          let later = run-IsConsistent ops (step op s) now.0 in (later.0, Keeps-trans now.1 later.1)
