-- ===== src/Prelude/Deque.antt =====
-- Python's `deque(maxlen=n)` as a list, the oldest element first.
use Prim.Native.Nat.{ℕ, suc, ◌-◌, ◌≤◌}
use mathlib.Core.Path.{◌≡◌, refl}
use mathlib.Core.List.{List, [], ◌∷◌, ◌++◌}
use native.Mathlib.Omega.{arith}
use mmp_meridian.Prelude.Tests.{ltb, if◌then◌else◌}
use mmp_meridian.Prelude.Lists.{length, length-append}

module _ {A : Type 0} where
  abbrev pub popleft : List A → List A
  popleft [] = []
  popleft (x ∷ xs) = xs

  -- `append`: the oldest element leaves a full queue.
  abbrev pub append : ℕ → List A → A → List A
  append n xs x = if ltb (length xs) n then xs ++ x ∷ [] else popleft (xs ++ x ∷ [])

  -- `for x in ys: xs.append(x)`
  abbrev pub extend : ℕ → List A → List A → List A
  extend n xs [] = xs
  extend n xs (y ∷ ys) = extend n (append n xs y) ys

  -- The last element, if there is one.
  abbrev pub last_or : A → List A → A
  last_or d [] = d
  last_or d (x ∷ xs) = last_or x xs

  pub length-popleft : (xs : List A) → length (popleft xs) ≡ length xs - 1
  length-popleft [] = refl
  length-popleft (x ∷ xs) = ground arith

  -- A queue grows by one until it is full, and then keeps its length.
  pub length-append_deque :
      (n : ℕ) (xs : List A) (x : A)
      → length xs ≤ n
      → length (append n xs x) ≡ (if ltb (length xs) n then suc (length xs) else n)
  length-append_deque n xs x h =
      ground (arith, h, length-append xs (x ∷ []), length-popleft (xs ++ x ∷ []))

  pub length-extend_le : (n : ℕ) (xs ys : List A) → length xs ≤ n → length (extend n xs ys) ≤ n
  length-extend_le n xs [] h = h
  length-extend_le n xs (y ∷ ys) h =
      length-extend_le n (append n xs y) ys (ground (arith, h, length-append_deque n xs y h))
