-- ===== src/Common/Outcome.antt =====
-- Rust's `Result`, with a panic as a third outcome: a panic or an error ends the message, and the
-- host then drops every write that the message made.
use mathlib.Core.Path.{◌≡◌, refl}
use mathlib.Core.Logic.{◌≢◌, ◌⊎◌, inl, inr}
use native.Mathlib.Omega.{arith}
use mathlib.Core.Bool.{Bool, true, false}

pub data Result {ℓ} (E : Type 0) (A : Type ℓ) : Type ℓ where
  ok : A → Result E A
  err : E → Result E A
  panic : Result E A

infixl 5 ◌>>=◌ ◌>>◌
abbrev pub ◌>>=◌ {ℓ κ} :
    {E : Type 0} {V : Type ℓ} {W : Type κ} → Result E V → (V → Result E W) → Result E W
panic >>= next = panic
err reason >>= next = err reason
ok value >>= next = next value

abbrev pub ◌>>◌ {ℓ} : {E : Type 0} {B : Type ℓ} → Result E (Unit {0}) → Result E B → Result E B
m >> k = m >>= λ _. k

-- `if test { return Err(e) }`
abbrev pub fail_if : {E : Type 0} → Bool → E → Result E (Unit {0})
fail_if true e = err e
fail_if false e = ok tt

-- `map_err`, which `?` applies when the error types differ
abbrev pub map_err {ℓ} : {E F : Type 0} {A : Type ℓ} → (E → F) → Result E A → Result F A
map_err f (ok a) = ok a
map_err f (err e) = err (f e)
map_err f panic = panic

-- Inversion of a bind that succeeds.
pub >>=-eq-ok {ℓ κ} :
    {E : Type 0} {V : Type ℓ} {W : Type κ} (first : Result E V) (next : V → Result E W) {end : W}
    → (first >>= next) ≡ ok end
    → (mid : V) × (first ≡ ok mid) × (next mid ≡ ok end)
>>=-eq-ok panic next run = cc
>>=-eq-ok (err _) next run = cc
>>=-eq-ok (ok mid) next run = (mid, refl, run)

-- The same where `?` converts the error.
pub try-eq-ok {ℓ κ} :
    {E F : Type 0} {V : Type ℓ} {W : Type κ} (convert : E → F) (first : Result E V)
    (next : V → Result F W) {end : W}
    → (map_err convert first >>= next) ≡ ok end
    → (mid : V) × (first ≡ ok mid) × (next mid ≡ ok end)
try-eq-ok convert panic next run = cc
try-eq-ok convert (err _) next run = cc
try-eq-ok convert (ok mid) next run = (mid, refl, run)

-- A guard that is passed.
pub fail_if-eq-ok {κ} :
    {E : Type 0} {B : Type κ} (t : Bool) (e : E) (k : Result E B) {b : B}
    → (fail_if t e >> k) ≡ ok b
    → (t ≡ false) × (k ≡ ok b)
fail_if-eq-ok true e k h = cc
fail_if-eq-ok false e k h = (refl, h)

-- A result that is a value or a panic.
abbrev pub NoErr {ℓ} : {E : Type 0} {A : Type ℓ} → Result E A → Type 0
NoErr (ok _) = Unit
NoErr (err _) = ⊥
NoErr panic = Unit

pub NoErr-bind {ℓ κ} :
    {E : Type 0} {A : Type ℓ} {B : Type κ} (m : Result E A) (f : A → Result E B)
    → NoErr m
    → ((a : A) → m ≡ ok a → NoErr (f a))
    → NoErr (m >>= f)
NoErr-bind (ok a) f h k = k a refl
NoErr-bind (err e) f h k = h
NoErr-bind panic f h k = tt

pub NoErr-map_err {ℓ} :
    {E F : Type 0} {A : Type ℓ} (g : E → F) (m : Result E A) → NoErr m → NoErr (map_err g m)
NoErr-map_err g (ok a) h = tt
NoErr-map_err g (err e) h = h
NoErr-map_err g panic h = tt

pub NoErr-ne {ℓ} : {E : Type 0} {A : Type ℓ} (m : Result E A) (e : E) → NoErr m → m ≢ err e
NoErr-ne (ok a) e h = λ p. cc
NoErr-ne (err e') e h = absurd h
NoErr-ne panic e h = λ p. cc

pub NoErr-of_ne {ℓ} : {E : Type 0} {A : Type ℓ} (m : Result E A) → ((e : E) → m ≢ err e) → NoErr m
NoErr-of_ne (ok a) h = tt
NoErr-of_ne (err e) h = h e refl
NoErr-of_ne panic h = tt

pub map_err-eq-ok {ℓ} :
    {E F : Type 0} {A : Type ℓ} (g : E → F) (m : Result E A) {a : A} → map_err g m ≡ ok a → m ≡ ok a
map_err-eq-ok g (ok a) h = ground arith
map_err-eq-ok g (err e) h = cc
map_err-eq-ok g panic h = cc

pub Result-cases {ℓ} :
    {E : Type 0} {A : Type ℓ} (m : Result E A)
    → ((a : A) × (m ≡ ok a)) ⊎ (((e : E) × (m ≡ err e)) ⊎ (m ≡ panic))
Result-cases (ok a) = inl (a, refl)
Result-cases (err e) = inr (inl (e, refl))
Result-cases panic = inr (inr refl)
