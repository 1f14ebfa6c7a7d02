-- ===== src/Channel.antt =====
-- include/common/concurrent_queue.h: a queue behind a mutex. Each call is one step, so the calls of
-- several threads are a list of them in some order. Waits and notifications change nothing.
pub mod Order
mod Tests
use skip_cell.Common.{List, [], ◌∷◌, ◌++◌, Option, none, some}

pub record Channel {ℓ} (T : Type ℓ) : Type ℓ where
  pub q : List T
  pub null_t : T

pub data Op {ℓ} (T : Type ℓ) : Type ℓ where
  pushes : T → Op T
  inserts : List T → Op T
  pops : Op T

module _ {ℓ} {T : Type ℓ} where
  unfoldable pub push : T → Channel T → Channel T
  push new_val c = record c { q = c.q ++ new_val ∷ [] }

  -- The loop of `insert`.
  unfoldable pub insert : List T → Channel T → Channel T
  unfolding push
  insert [] c = c
  insert (x ∷ xs) c = insert xs (push x c)

  -- An empty queue gives the null value.
  unfoldable pub pop : Channel T → T × Channel T
  pop c = elim c.q [ [] ↦ (c.null_t, c) | x ∷ xs ↦ (x, record c { q = xs }) ]

  unfoldable pub step : Op T → Channel T → Channel T
  unfolding push insert pop
  step (pushes x) c = push x c
  step (inserts xs) c = insert xs c
  step pops c = (pop c).1

  unfoldable pub run : List (Op T) → Channel T → Channel T
  unfolding step
  run [] c = c
  run (op ∷ ops) c = run ops (step op c)
