-- ===== src/Kernel/Run.antt =====
-- Code that reads and changes a state: it ends with a result, it faults (a pointer that is null or
-- freed is used), or a loop's fuel runs out.

pub data Run (S A : Type 0) : Type 0 where
  done : A → S → Run S A
  fault : Run S A
  out_of_fuel : Run S A

abbrev pub M : Type 0 → Type 0 → Type 0
M S A = S → Run S A

module _ {S A : Type 0} where
  abbrev pub pure : A → M S A
  pure a s = done a s

  abbrev pub crash : M S A
  crash s = fault

  abbrev pub starve : M S A
  starve s = out_of_fuel

module _ {S A B : Type 0} where
  abbrev pub and_then : Run S A → (A → M S B) → Run S B
  and_then (done a s) k = k a s
  and_then fault k = fault
  and_then out_of_fuel k = out_of_fuel

  infixl 5 ◌>>=◌ ◌>>◌
  abbrev pub ◌>>=◌ : M S A → (A → M S B) → M S B
  ◌>>=◌ m k s = and_then (m s) k

  abbrev pub ◌>>◌ : M S A → M S B → M S B
  ◌>>◌ m k s = and_then (m s) (λ _. k)

-- Total correctness: the run ends with a result, and `P` holds of it and the state.
module _ {S A : Type 0} where
  abbrev pub Returns : (A → S → Type 0) → Run S A → Type 0
  Returns P (done a s) = P a s
  Returns P fault = ⊥
  Returns P out_of_fuel = ⊥

  pub Returns-mono :
      (P Q : A → S → Type 0) (r : Run S A)
      → ((a : A) (s : S) → P a s → Q a s)
      → Returns P r
      → Returns Q r
  Returns-mono P Q (done a s) f h = f a s h
  Returns-mono P Q fault f h = h
  Returns-mono P Q out_of_fuel f h = h

  pub Returns-both :
      (P Q : A → S → Type 0) (r : Run S A)
      → Returns P r
      → Returns Q r
      → Returns (λ a s. P a s × Q a s) r
  Returns-both P Q (done a s) h k = (h, k)
  Returns-both P Q fault h k = h
  Returns-both P Q out_of_fuel h k = h

pub Returns-and_then :
    {S A B : Type 0} (P : A → S → Type 0) (Q : B → S → Type 0) (r : Run S A) (k : A → M S B)
    → Returns P r
    → ((a : A) (s : S) → P a s → Returns Q (k a s))
    → Returns Q (and_then r k)
Returns-and_then P Q (done a s) k h f = f a s h
Returns-and_then P Q fault k h f = absurd h
Returns-and_then P Q out_of_fuel k h f = absurd h

-- Partial correctness: `P` holds of the result and the state of a run that ends.
module _ {S A : Type 0} where
  abbrev pub Ends : (A → S → Type 0) → Run S A → Type 0
  Ends P (done a s) = P a s
  Ends P fault = Unit
  Ends P out_of_fuel = Unit

pub Ends-and_then :
    {S A B : Type 0} (P : A → S → Type 0) (Q : B → S → Type 0) (r : Run S A) (k : A → M S B)
    → Ends P r
    → ((a : A) (s : S) → P a s → Ends Q (k a s))
    → Ends Q (and_then r k)
Ends-and_then P Q (done a s) k h f = f a s h
Ends-and_then P Q fault k h f = tt
Ends-and_then P Q out_of_fuel k h f = tt

pub Ends-mono :
    {S A : Type 0} (P Q : A → S → Type 0) (r : Run S A)
    → ((a : A) (s : S) → P a s → Q a s)
    → Ends P r
    → Ends Q r
Ends-mono P Q (done a s) f h = f a s h
Ends-mono P Q fault f h = tt
Ends-mono P Q out_of_fuel f h = tt
