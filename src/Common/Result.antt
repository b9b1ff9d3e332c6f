-- ===== src/Common/Result.antt =====
-- What a call gives: a value, an exception, or a departure from the defined behaviour of the
-- language, which no handler catches. Exceptions are those derived from `std::exception`, with the
-- text that `what()` gives.
use mathlib.Core.Path.{◌≡◌, refl}
use mathlib.Core.Logic.{◌↔◌}
use ctask.Common.ByteText.{Bytes}

pub data Exception : Type 0 where
  invalid_argument runtime_error out_of_range external : Bytes → Exception

abbrev pub what : Exception → Bytes
what (invalid_argument m) = m
what (runtime_error m) = m
what (out_of_range m) = m
what (external m) = m

pub data Result {ℓ} (A : Type ℓ) : Type ℓ where
  ok : A → Result A
  thrown : Exception → Result A
  undefined : Result A

infixl 5 ◌>>=◌ ◌>>◌
abbrev pub ◌>>=◌ {ℓ κ} : {A : Type ℓ} {B : Type κ} → Result A → (A → Result B) → Result B
undefined >>= next = undefined
thrown error >>= next = thrown error
ok value >>= next = next value

abbrev pub ◌>>◌ {ℓ} : {B : Type ℓ} → Result (Unit {0}) → Result B → Result B
first >> second = first >>= λ _. second

-- A chain gives a value exactly when both of its steps do.
pub bind_iff {ℓ κ} :
    {A : Type ℓ} {B : Type κ} (first : Result A) (next : A → Result B) (out : B)
    → ((first >>= next) ≡ ok out) ↔ ((a : A) × (first ≡ ok a) × (next a ≡ ok out))
bind_iff undefined next out = (λ e. cc, λ w. cc (w.1))
bind_iff (thrown error) next out = (λ e. cc, λ w. cc (w.1))
bind_iff (ok value) next out =
    (λ e. (value, refl, e), λ w. let same : value ≡ w.0 = cc (w.1) in rw same (w.2))
