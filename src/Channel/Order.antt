-- ===== src/Channel/Order.antt =====
-- The values come out in the order in which they went in.
use mathlib.Core.List.{append_assoc, append-nil}
use skip_cell.Common.{◌≡◌, refl, sym, ap, ◌∙◌, List, [], ◌∷◌, ◌++◌}
use skip_cell.Channel.{Channel, Op, pushes, inserts, pops, push, insert, pop, step, run}

module _ {ℓ} {T : Type ℓ} where
  -- What the calls put in, in their order.
  unfoldable pub given : List (Op T) → List T
  given [] = []
  given (pushes x ∷ ops) = x ∷ given ops
  given (inserts xs ∷ ops) = xs ++ given ops
  given (pops ∷ ops) = given ops

  -- The value that a pop takes off the queue, if there is one.
  unfoldable pub taken_off : Channel T → List T
  taken_off c = elim c.q [ [] ↦ [] | _ ∷ _ ↦ (pop c).0 ∷ [] ]

  -- What the pops of the calls take off the queue, in their order.
  unfoldable pub taken : List (Op T) → Channel T → List T
  taken [] c = []
  taken (pushes x ∷ ops) c = taken ops (step (pushes x) c)
  taken (inserts xs ∷ ops) c = taken ops (step (inserts xs) c)
  taken (pops ∷ ops) c = taken_off c ++ taken ops (step pops c)

  insert-q : (xs : List T) (c : Channel T) → (insert xs c).q ≡ c.q ++ xs
  unfolding insert
  insert-q [] c = sym (append-nil c.q)
  insert-q (x ∷ xs) c = insert-q xs (push x c) ∙ append_assoc c.q (x ∷ []) xs

  pop-q : (c : Channel T) → taken_off c ++ (pop c).1.q ≡ c.q
  unfolding pop taken_off
  pop-q c = by_q c.q refl
    where
      by_q : (xs : List T) → c.q ≡ xs → taken_off c ++ (pop c).1.q ≡ c.q
      by_q [] e = rw (e, pop, taken_off) (rw e refl)
      by_q (x ∷ xs) e =
          let head : (pop c).0 ≡ x = rw (e, pop) refl in
          rw (e, pop, taken_off) (ap (λ y. y ∷ xs) head)

  -- After any calls, what was taken off the queue, and then what is left in it, is what it held, and
  -- then what was put in, in that order: nothing is lost, doubled or overtaken.
  pub run-in_order :
      (ops : List (Op T)) (c : Channel T) → taken ops c ++ (run ops c).q ≡ c.q ++ given ops
  unfolding run given taken
  run-in_order [] c = sym (append-nil c.q)
  run-in_order (pushes x ∷ ops) c =
      run-in_order ops (push x c) ∙ append_assoc c.q (x ∷ []) (given ops)
  run-in_order (inserts xs ∷ ops) c =
      run-in_order ops (insert xs c)
      ∙ ap (λ ys. ys ++ given ops) (insert-q xs c)
      ∙ append_assoc c.q xs (given ops)
  run-in_order (pops ∷ ops) c =
      append_assoc (taken_off c) (taken ops (step pops c)) (run ops (step pops c)).q
      ∙ ap (λ ys. taken_off c ++ ys) (run-in_order ops (pop c).1)
      ∙ sym (append_assoc (taken_off c) (pop c).1.q (given ops))
      ∙ ap (λ ys. ys ++ given ops) (pop-q c)
