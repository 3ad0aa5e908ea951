-- ===== src/Base/Outcomes.antt =====
-- What running a piece of code gives: a value, or undefined behaviour of C and C++ (an access
-- outside a buffer, the front of an empty deque, a variable read before it is set). A loop on fuel
-- that is not over when the fuel is spent is `unfinished`.
use mathlib.Core.List.{List, [], ◌∷◌, ◌++◌}

pub data Outcome {ℓ} (A : Type ℓ) : Type ℓ where
  defined : A → Outcome A
  undefined : Outcome A
  unfinished : Outcome A

infixl 5 ◌>>=◌
abbrev pub ◌>>=◌ {ℓ κ} : {A : Type ℓ} {B : Type κ} → Outcome A → (A → Outcome B) → Outcome B
defined a >>= f = f a
undefined >>= f = undefined
unfinished >>= f = unfinished

-- The outcome is a value, and the value satisfies `P`.
abbrev pub Returns {ℓ} : {A : Type ℓ} → (A → Type 0) → Outcome A → Type 0
Returns P (defined a) = P a
Returns P undefined = ⊥
Returns P unfinished = ⊥

-- The code ends; if it ends with a value, the value satisfies `P`.
abbrev pub Ends {ℓ} : {A : Type ℓ} → (A → Type 0) → Outcome A → Type 0
Ends P (defined a) = P a
Ends P undefined = Unit {0}
Ends P unfinished = ⊥

-- Every element satisfies `P`.
abbrev pub All {ℓ κ} : {A : Type ℓ} → (A → Type κ) → List A → Type κ
All P [] = Unit
All P (x ∷ xs) = P x × All P xs

pub Returns-Ends {ℓ} : {A : Type ℓ} (P : A → Type 0) (o : Outcome A) → Returns P o → Ends P o
Returns-Ends P (defined a) h = h
Returns-Ends P undefined h = tt
Returns-Ends P unfinished h = h

pub Ends->>= {ℓ κ} :
    {A : Type ℓ} {B : Type κ} (P : A → Type 0) (Q : B → Type 0) (f : A → Outcome B)
    → ((a : A) → P a → Ends Q (f a))
    → (o : Outcome A) → Ends P o
    → Ends Q (o >>= f)
Ends->>= P Q f h (defined a) p = h a p
Ends->>= P Q f h undefined p = tt
Ends->>= P Q f h unfinished p = p

pub Returns->>= {ℓ κ} :
    {A : Type ℓ} {B : Type κ} (P : A → Type 0) (Q : B → Type 0) (f : A → Outcome B)
    → ((a : A) → P a → Returns Q (f a))
    → (o : Outcome A) → Returns P o
    → Returns Q (o >>= f)
Returns->>= P Q f h (defined a) p = h a p
Returns->>= P Q f h undefined p = p
Returns->>= P Q f h unfinished p = p

pub Returns-both {ℓ} :
    {A : Type ℓ} (P Q : A → Type 0) (o : Outcome A)
    → Ends P o
    → Returns Q o
    → Returns (λ a. P a × Q a) o
Returns-both P Q (defined a) p q = (p, q)
Returns-both P Q undefined p q = q
Returns-both P Q unfinished p q = q

pub All-append {ℓ} :
    {A : Type ℓ} (P : A → Type 0) (xs ys : List A) → All P xs → All P ys → All P (xs ++ ys)
All-append P [] ys hx hy = hy
All-append P (x ∷ xs) ys hx hy = (hx.0, All-append P xs ys hx.1 hy)
