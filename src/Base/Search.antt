-- ===== src/Base/Search.antt =====
-- What a search over a range of numbers promises: the first hit, or that there is none.
use Prim.Native.Nat.{ℕ, ◌≤◌, ◌<◌}
use mathlib.Core.Path.{◌≡◌}
use mathlib.Core.Bool.{Bool, true, false}
use mathlib.Core.Option.{Option, none, some}
use native.Mathlib.Omega.{arith}

-- No number of [lo, hi) has the property.
abbrev pub NoneIn : (ℕ → Bool) → ℕ → ℕ → Type 0
NoneIn p lo hi = (j : ℕ) → lo ≤ j → j < hi → p j ≡ false

-- The first number of [lo, hi) with the property, or none.
abbrev pub IsFirst : (ℕ → Bool) → ℕ → ℕ → Option ℕ → Type 0
IsFirst p lo hi none = NoneIn p lo hi
IsFirst p lo hi (some i) = (lo ≤ i) × (i < hi) × (p i ≡ true) × NoneIn p lo i

pub NoneIn-append :
    (p : ℕ → Bool) (lo mid hi : ℕ) → NoneIn p lo mid → NoneIn p mid hi → NoneIn p lo hi
NoneIn-append p lo mid hi below above j h k = ground (arith, below j, above j)

-- A search that found nothing below `mid` goes on there.
pub IsFirst-append :
    (p : ℕ → Bool) (lo mid hi : ℕ) (r : Option ℕ)
    → lo ≤ mid
    → NoneIn p lo mid
    → IsFirst p mid hi r
    → IsFirst p lo hi r
IsFirst-append p lo mid hi none h below above = NoneIn-append p lo mid hi below above
IsFirst-append p lo mid hi (some i) h below above =
    (omega arith, omega arith, above.2, NoneIn-append p lo mid i below above.3)

-- A hit below `mid` is a hit below any later end.
pub IsFirst-extend :
    (p : ℕ → Bool) (lo mid hi i : ℕ)
    → mid ≤ hi
    → IsFirst p lo mid (some i)
    → IsFirst p lo hi (some i)
IsFirst-extend p lo mid hi i h f = (f.0, omega arith, f.2, f.3)

-- A search in two parts, the second tried if the first finds nothing.
pub IsFirst-or_else :
    (p : ℕ → Bool) (lo mid hi : ℕ) (here next : Option ℕ)
    → lo ≤ mid
    → mid ≤ hi
    → IsFirst p lo mid here
    → IsFirst p mid hi next
    → IsFirst p lo hi (elim here [ none ↦ next | some r ↦ some r ])
IsFirst-or_else p lo mid hi none next h k f g = IsFirst-append p lo mid hi next h f g
IsFirst-or_else p lo mid hi (some r) next h k f g = IsFirst-extend p lo mid hi r k f

-- The property fails from `mid` on, so the range may end there.
pub IsFirst-shrink :
    (p : ℕ → Bool) (lo mid hi : ℕ) (r : Option ℕ)
    → mid ≤ hi
    → ((j : ℕ) → p j ≡ true → j < mid)
    → IsFirst p lo hi r
    → IsFirst p lo mid r
IsFirst-shrink p lo mid hi none h ends f = λ j a b. f j a (omega arith)
IsFirst-shrink p lo mid hi (some i) h ends f = (f.0, ends i f.2, f.2, f.3)
