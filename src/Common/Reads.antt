-- ===== src/Common/Reads.antt =====
-- Reads and writes of buffers. An access at or past the end of a buffer, which in C++ is undefined, is
-- the result `fault`.
use Prim.Native.Nat.{ℕ, zero, suc, ◌<◌}
use mathlib.Core.Path.{◌≡◌, refl, subst}
use mathlib.Core.Bool.{Bool, true, false}
use mathlib.Core.Option.{Option, none, some}
use mathlib.Core.List.{List, [], ◌∷◌, ◌++◌}
use native.Mathlib.Omega.{arith}
use degoonification.Common.Tests.{ltb, if◌then◌else◌, lt→ltb}
use degoonification.Common.Lists.{length, get_elem?, set, length-set}
use degoonification.Common.Chars.{Bytes}

pub data Reads (A : Type 0) : Type 0 where
  fault : Reads A
  got : A → Reads A

infixl 5 ◌>>=◌
abbrev pub ◌>>=◌ : {A B : Type 0} → Reads A → (A → Reads B) → Reads B
fault >>= f = fault
got a >>= f = f a

abbrev of_option : Option ℕ → Reads ℕ
of_option none = fault
of_option (some b) = got b

-- `data[i]`
unfoldable pub read : Bytes → ℕ → Reads ℕ
read data' i = of_option (get_elem? data' i)

abbrev pub is_got : {A : Type 0} → Reads A → Bool
is_got fault = false
is_got (got a) = true

pub read_within : (d : Bytes) (i : ℕ) → i < length d → (b : ℕ) × (read d i ≡ got b)
unfolding read
read_within [] i h = elim h [ ]
read_within (b ∷ d) zero h = (b, refl)
read_within (b ∷ d) (suc i) h = read_within d i (omega arith)

-- The byte that stands behind a prefix of a buffer.
pub read-append : (pre : Bytes) (b : ℕ) (rest : Bytes) → read (pre ++ b ∷ rest) (length pre) ≡ got b
unfolding read
read-append [] b rest = refl
read-append (c ∷ pre) b rest = read-append pre b rest

-- `buffer[i] = a`
unfoldable pub write : {A : Type 0} → List A → ℕ → A → Reads (List A)
write buffer i a = if ltb i (length buffer) then got (set buffer i a) else fault

-- The computation makes no access out of bounds, and its result has a property.
abbrev pub Returns : {A : Type 0} → (A → Type 0) → Reads A → Type 0
Returns P fault = ⊥
Returns P (got a) = P a

pub Returns-bind :
    {A B : Type 0} (P : A → Type 0) (Q : B → Type 0) (m : Reads A) (k : A → Reads B)
    → Returns P m
    → ((a : A) → P a → Returns Q (k a))
    → Returns Q (m >>= k)
Returns-bind P Q fault k h next = h
Returns-bind P Q (got a) k h next = next a h

pub Returns-weaken :
    {A : Type 0} (P Q : A → Type 0) (m : Reads A)
    → Returns P m
    → ((a : A) → P a → Q a)
    → Returns Q m
Returns-weaken P Q fault h k = h
Returns-weaken P Q (got a) h k = k a h

abbrev pub Anything : {A : Type 0} → A → Type 0
Anything a = Unit {0}

pub read-Returns : (d : Bytes) (i : ℕ) → i < length d → Returns Anything (read d i)
read-Returns d i h = let (b, e) = read_within d i h in rw e tt

pub write-Returns :
    {A : Type 0} (buffer : List A) (i : ℕ) (a : A)
    → i < length buffer
    → Returns (λ after. length after ≡ length buffer) (write buffer i a)
unfolding write
write-Returns buffer i a h = rw (lt→ltb i (length buffer) h) (length-set buffer i a)

-- Where the computation makes no access out of bounds, its result has a property.
abbrev pub Gives : {A : Type 0} → (A → Type 0) → Reads A → Type 0
Gives P fault = Unit {0}
Gives P (got a) = P a

pub Gives-bind :
    {A B : Type 0} (P : A → Type 0) (Q : B → Type 0) (m : Reads A) (k : A → Reads B)
    → Gives P m
    → ((a : A) → P a → Gives Q (k a))
    → Gives Q (m >>= k)
Gives-bind P Q fault k h next = tt
Gives-bind P Q (got a) k h next = next a h

pub Gives-if :
    {A : Type 0} (P : A → Type 0) (b : Bool) (m n : Reads A)
    → Gives P m
    → Gives P n
    → Gives P (if b then m else n)
Gives-if P true m n h k = h
Gives-if P false m n h k = k

pub Gives-weaken :
    {A : Type 0} (P Q : A → Type 0) (m : Reads A) → Gives P m → ((a : A) → P a → Q a) → Gives Q m
Gives-weaken P Q fault h k = tt
Gives-weaken P Q (got a) h k = k a h

pub Gives-of : {A : Type 0} (P : A → Type 0) (m : Reads A) (a : A) → m ≡ got a → Gives P m → P a
Gives-of P m a e h = subst (Gives P) e h
