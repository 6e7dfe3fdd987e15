-- ===== src/Base/Members.antt =====
-- Membership in a list of numbers, as a test.
use Prim.Native.Nat.{ℕ, ◌<◌}
use mathlib.Core.Path.{◌≡◌}
use mathlib.Core.Bool.{Bool, true, false, ◌||◌}
use mathlib.Core.List.{List, [], ◌∷◌}
use native.Mathlib.Omega.{arith}
use truth.Base.Tests.{◌==◌}
use truth.Base.Lists.{All}

-- `xs` has the number `j`.
unfoldable pub member : ℕ → List ℕ → Bool
member j [] = false
member j (x ∷ xs) = x == j || member j xs

-- A property of every member that is below `n`.
pub All-member {κ} :
    (P : ℕ → Type κ) (n : ℕ) (xs : List ℕ)
    → ((x : ℕ) → x < n → member x xs ≡ true → P x)
    → All (λ x. x < n) xs
    → All P xs
unfolding member
All-member P n [] f h = tt
All-member P n (x ∷ xs) f h =
    (f x h.0 (ground arith), All-member P n xs (λ y p q. f y p (ground arith)) h.1)
