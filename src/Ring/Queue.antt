-- ===== src/Ring/Queue.antt =====
-- What `RingBuffer` promises: a first-in first-out queue of at most `static_size` values.
use jevmachopp.Base.{ℕ, suc, List, [], ◌∷◌, ◌++◌, length, Option, none, some, ltb, if◌then◌else◌}

pub data Op {ℓ} (A : Type ℓ) : Type ℓ where
  push : A → Op A
  pop : Op A

-- How many values the calls push.
abbrev pub pushes {ℓ} : {A : Type ℓ} → List (Op A) → ℕ
pushes [] = 0
pushes (push x ∷ ops) = suc (pushes ops)
pushes (pop ∷ ops) = pushes ops

-- What a client's calls return, a push nothing and a pop its value, and what is left.
abbrev pub Answers {ℓ} : Type ℓ → Type ℓ
Answers A = List (Option A) × List A

module _ {ℓ} {A : Type ℓ} where
  unfoldable pub dequeue : List A → Option A × List A
  dequeue [] = (none, [])
  dequeue (x ∷ q) = (some x, q)

  abbrev pub answer : Option A → Option (Answers A) → Option (Answers A)
  answer a none = none
  answer a (some (outs, q)) = some (a ∷ outs, q)

  -- The calls in order; `none` if one pushes onto a full queue.
  unfoldable pub serve : ℕ → List A → List (Op A) → Option (Answers A)
  serve limit q [] = some ([], q)
  serve limit q (push x ∷ ops) =
      let rest = serve limit (q ++ (x ∷ [])) ops in
      if ltb (length q) limit then answer none rest else none
  serve limit q (pop ∷ ops) = answer (dequeue q).0 (serve limit (dequeue q).1 ops)
