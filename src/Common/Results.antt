-- ===== src/Common/Results.antt =====
-- `Result<T, E>` and its monad: `?` of the source is a bind.
use mathlib.Core.Path.{◌≡◌, refl}
use mathlib.Core.Bool.{Bool, true, false}
use mathlib.Core.Option.{Option, none, some}

pub data Result {ℓ} (E A : Type ℓ) : Type ℓ where
  ok : A → Result E A
  err : E → Result E A

infixl 5 ◌>>=◌ ◌>>◌
unfoldable pub ◌>>=◌ {ℓ} : {E A B : Type ℓ} → Result E A → (A → Result E B) → Result E B
ok a >>= f = f a
err e >>= f = err e

unfoldable pub ◌>>◌ : {E B : Type 0} → Result E (Unit {0}) → Result E B → Result E B
ok _ >> k = k
err e >> k = err e

-- `if broken { return Err(e); }`
abbrev pub reject_if : {E : Type 0} → Bool → E → Result E (Unit {0})
reject_if true e = err e
reject_if false e = ok tt

-- `option.ok_or(e)`
abbrev pub ok_or : {E A : Type 0} → Option A → E → Result E A
ok_or none e = err e
ok_or (some a) e = ok a

-- `result.map_err(f)`
abbrev pub map_err : {E F A : Type 0} → (E → F) → Result E A → Result F A
map_err f (ok a) = ok a
map_err f (err e) = err (f e)

-- `option.map(f).transpose()`
unfoldable pub transpose_map : {E A B : Type 0} → (A → Result E B) → Option A → Result E (Option B)
unfolding ◌>>=◌
transpose_map f none = ok none
transpose_map f (some a) = f a >>= λ b. ok (some b)

-- What a chain that succeeds has passed. The binds are shut, so that a proof can walk along it.
pub >>=-eq-ok :
    {E A B : Type 0} (m : Result E A) (f : A → Result E B) {b : B}
    → (m >>= f) ≡ ok b
    → (a : A) × (m ≡ ok a) × (f a ≡ ok b)
unfolding ◌>>=◌
>>=-eq-ok (ok a) f h = (a, refl, h)
>>=-eq-ok (err e) f h = cc

pub >>-eq-ok :
    {E B : Type 0} (m : Result E (Unit {0})) (k : Result E B) {b : B}
    → (m >> k) ≡ ok b
    → (m ≡ ok tt) × (k ≡ ok b)
unfolding ◌>>◌
>>-eq-ok (ok tt) k h = (refl, h)
>>-eq-ok (err e) k h = cc

pub reject_if-eq-ok :
    {E B : Type 0} (b : Bool) (e : E) (k : Result E B) {r : B}
    → (reject_if b e >> k) ≡ ok r
    → (b ≡ false) × (k ≡ ok r)
unfolding ◌>>◌
reject_if-eq-ok true e k h = cc
reject_if-eq-ok false e k h = (refl, h)

pub reject_if-ok : {E : Type 0} (b : Bool) (e : E) {r : Unit {0}} → reject_if b e ≡ ok r → b ≡ false
reject_if-ok true e h = cc
reject_if-ok false e h = refl

pub map_err-eq-ok :
    {E F A : Type 0} (f : E → F) (m : Result E A) {a : A} → map_err f m ≡ ok a → m ≡ ok a
map_err-eq-ok f (ok b) h = cc
map_err-eq-ok f (err e) h = cc
