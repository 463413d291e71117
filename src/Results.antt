-- ===== src/Results.antt =====
-- Blocks of calls that may raise and change no state.
use bulk_processing_service.Base.{ap, refl, some, ◌≡◌}
use bulk_processing_service.Storage.{Error, Result, err, ok}

abbrev pub after : {A B : Type 0} → (A → Result B) → Result A → Result B
after next (ok value) = next value
after next (err raised) = err raised

infixl 5 ◌>>=◌
abbrev pub ◌>>=◌ : {A B : Type 0} → Result A → (A → Result B) → Result B
call >>= next = after next call

-- What a block that returned has gone through.
pub >>=-eq-ok :
    {A B : Type 0} (call : Result A) (next : A → Result B) {b : B}
    → (call >>= next) ≡ ok b
    → (value : A) × (call ≡ ok value) × (next value ≡ ok b)
>>=-eq-ok (ok value) next h = (value, refl, h)
>>=-eq-ok (err raised) next h = cc

pub ok_injective : {A : Type 0} {x y : A} → ok x ≡ ok y → x ≡ y
ok_injective e = cc

-- A block goes on after a call that returns.
pub >>=-ok :
    {A B : Type 0} {call : Result A} {value : A} (next : A → Result B)
    → call ≡ ok value
    → (call >>= next) ≡ next value
>>=-ok next e = ap (after next) e

pub ok_some_injective : {A : Type 0} {x y : A} → ok (some x) ≡ ok (some y) → x ≡ y
ok_some_injective e = cc

-- A block ends with the first call that raises.
pub >>=-err :
    {A B : Type 0} {call : Result A} {raised : Error} (next : A → Result B)
    → call ≡ err raised
    → (call >>= next) ≡ err raised
>>=-err next h = ap (after next) h
