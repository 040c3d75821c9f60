-- ===== src/Base/Results.antt =====
-- Rust's `Result`, with the `?` operator as a bind.
use mathlib.Core.Path.{◌≡◌, refl, ap, subst}
use mathlib.Core.Logic.{◌⊎◌, inl, inr}
use mathlib.Core.Bool.{Bool, true, false}
use mathlib.Core.Option.{Option, none, some}

pub data Result (E A : Type 0) : Type 0 where
  ok : A → Result E A
  err : E → Result E A

-- `if !test { return Err(failure) }`
abbrev pub guard : {E : Type 0} → Bool → E → Result E (Unit {0})
guard false failure = err failure
guard true failure = ok tt

infixl 5 ◌>>=◌ ◌>>◌
abbrev pub ◌>>=◌ : {E A B : Type 0} → Result E A → (A → Result E B) → Result E B
err failure >>= next = err failure
ok value >>= next = next value

abbrev pub ◌>>◌ : {E B : Type 0} → Result E (Unit {0}) → Result E B → Result E B
first >> second = first >>= λ done. second

-- `Option::ok_or_else`
abbrev pub ok_or : {E A : Type 0} → Option A → E → Result E A
ok_or none e = err e
ok_or (some a) e = ok a

abbrev pub map_err : {E F A : Type 0} → (E → F) → Result E A → Result F A
map_err f (ok a) = ok a
map_err f (err e) = err (f e)

pub >>=-eq-ok :
    {E A B : Type 0} (m : Result E A) (f : A → Result E B) {b : B}
    → (m >>= f) ≡ ok b
    → (a : A) × (m ≡ ok a) × (f a ≡ ok b)
>>=-eq-ok (err failure) f h = cc
>>=-eq-ok (ok value) f h = (value, refl, h)

pub guard-eq-ok : {E : Type 0} (b : Bool) (e : E) {u : Unit {0}} → guard b e ≡ ok u → b ≡ true
guard-eq-ok true e h = refl
guard-eq-ok false e h = cc

pub ok_or-eq-ok : {E A : Type 0} (o : Option A) (e : E) {a : A} → ok_or o e ≡ ok a → o ≡ some a
ok_or-eq-ok none e h = cc
ok_or-eq-ok (some a) e h = cc

pub map_err-eq-ok :
    {E F A : Type 0} (f : E → F) (m : Result E A) {a : A} → map_err f m ≡ ok a → m ≡ ok a
map_err-eq-ok f (ok a) h = cc
map_err-eq-ok f (err e) h = cc

pub Result-cases :
    {E A : Type 0} (r : Result E A) → ((a : A) × (r ≡ ok a)) ⊎ ((e : E) × (r ≡ err e))
Result-cases (ok a) = inl (a, refl)
Result-cases (err e) = inr (e, refl)

-- An error of a bind whose second part makes none is the first part's.
pub >>=-eq-err :
    {E A B : Type 0} (m : Result E A) (f : A → Result E B) {e : E}
    → ((a : A) → ¬ (f a ≡ err e))
    → (m >>= f) ≡ err e
    → m ≡ err e
>>=-eq-err (ok a) f h r = absurd (h a r)
>>=-eq-err (err e) f h r = cc

-- If the computation returns a value, the value satisfies `P`.
pub data Returns {E A : Type 0} (P : A → Type 0) : Result E A → Type 0 where
  returns : {a : A} → P a → Returns P (ok a)
  fails : {e : E} → Returns P (err e)

pub Returns-bind :
    {E A B : Type 0} {P : B → Type 0} (m : Result E A) (f : A → Result E B)
    → ((a : A) → m ≡ ok a → Returns P (f a))
    → Returns P (m >>= f)
Returns-bind (ok a) f h = h a refl
Returns-bind (err e) f h = fails

pub Returns-guard :
    {E B : Type 0} {P : B → Type 0} (b : Bool) (e : E) (k : Result E B)
    → (b ≡ true → Returns P k)
    → Returns P (guard b e >> k)
Returns-guard true e k h = h refl
Returns-guard false e k h = fails

Returns-cases :
    {E A : Type 0} {P : A → Type 0} {r : Result E A}
    → Returns P r
    → ((a : A) × (r ≡ ok a) × P a) ⊎ ((e : E) × (r ≡ err e))
Returns-cases (returns {a = a} p) = inl (a, refl, p)
Returns-cases (fails {e = e}) = inr (e, refl)

pub Returns-ok :
    {E A : Type 0} (P : A → Type 0) {r : Result E A} {a : A} → Returns P r → r ≡ ok a → P a
Returns-ok P h e = elim (Returns-cases h) [
  | inl (b, q, p) ↦ subst P (cc (q, e)) p
  | inr (x, q) ↦ cc (q, e)
]

pub ok-injective : {E A : Type 0} {a b : A} → Path (Result E A) (ok a) (ok b) → a ≡ b
ok-injective {a = a} e = ap (λ r. elim r [ ok b ↦ b | err e ↦ a ]) e

pub guard-Returns :
    {E : Type 0} {P : Unit {0} → Type 0} (b : Bool) (e : E)
    → (b ≡ true → P tt)
    → Returns P (guard b e)
guard-Returns true e h = returns (h refl)
guard-Returns false e h = fails

pub Returns-of :
    {E A : Type 0} {P : A → Type 0} (r : Result E A) → ((a : A) → r ≡ ok a → P a) → Returns P r
Returns-of (ok a) h = returns (h a refl)
Returns-of (err e) h = fails
