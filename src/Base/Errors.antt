-- ===== src/Base/Errors.antt =====
-- What a Go function with result `(T, error)` does: it returns the value, or an error with its text,
-- or it panics.
use Prim.Native.Nat.{ℕ}
use mathlib.Core.Path.{◌≡◌, refl}
use mathlib.Core.List.{List, ◌++◌}

pub data Result {ℓ} (V : Type ℓ) : Type ℓ where
  panic : Result V
  err : List ℕ → Result V
  ok : V → Result V

-- `fmt.Errorf("…: %w", cause)`: the text in front of the error's own.
abbrev pub wrap_err {ℓ} : {V : Type ℓ} → List ℕ → Result V → Result V
wrap_err prefix panic = panic
wrap_err prefix (err cause) = err (prefix ++ cause)
wrap_err prefix (ok v) = ok v

infixl 5 ◌>>=◌
abbrev pub ◌>>=◌ {ℓ κ} : {V : Type ℓ} {W : Type κ} → Result V → (V → Result W) → Result W
panic >>= next = panic
err cause >>= next = err cause
ok v >>= next = next v

pub >>=-eq-ok {ℓ κ} :
    {V : Type ℓ} {W : Type κ} (m : Result V) (next : V → Result W) {w : W}
    → (m >>= next) ≡ ok w
    → (v : V) × (m ≡ ok v) × (next v ≡ ok w)
>>=-eq-ok panic next h = cc
>>=-eq-ok (err cause) next h = cc
>>=-eq-ok (ok v) next h = (v, refl, h)

pub wrap_err-eq-ok {ℓ} :
    {V : Type ℓ} (prefix : List ℕ) (m : Result V) {v : V} → wrap_err prefix m ≡ ok v → m ≡ ok v
wrap_err-eq-ok prefix panic h = cc
wrap_err-eq-ok prefix (err cause) h = cc
wrap_err-eq-ok prefix (ok w) h = h
