-- ===== src/Prelude/Text/Laws.antt =====
-- Splitting at dots undoes joining by dots, and a decimal number has no dot.
use Prim.Native.Nat.{ℕ, zero, suc, ◌+◌, ◌/◌, ◌%◌, min}
use Prim.Native.Char.{code}
use Prim.Native.String.{String}
use Prim.Native.String.append
use mathlib.Core.Path.{◌≡◌, refl}
use mathlib.Core.Bool.{true, false}
use mathlib.Core.Logic.{inl, inr}
use mathlib.Core.List.{[], ◌∷◌}
use native.Mathlib.Omega.{arith}
use finance_engine.Prelude.Tests.{ltb, nat_beq, Bool-cases}
use finance_engine.Prelude.Text.{◌+++◌, split_dot, dot_free, digit, show_from, show}

pub split_dot-append :
    (s t : String) → dot_free s ≡ true → split_dot (s +++ ("." +++ t)) ≡ s ∷ split_dot t
unfolding split_dot dot_free
split_dot-append String.[] t h =
    rw (append.nil ("." +++ t), append.cons "." "" t) (rw (append.nil t))
split_dot-append (String.◌∷◌ c s) t h =
    rw (append.cons c s ("." +++ t)) (ground (arith, split_dot-append s t))

pub split_dot-dot_free : (s : String) → dot_free s ≡ true → split_dot s ≡ s ∷ []
unfolding split_dot dot_free
split_dot-dot_free String.[] h = refl
split_dot-dot_free (String.◌∷◌ c s) h = ground (arith, split_dot-dot_free s)

pub code-digit : (d : ℕ) → code (digit d) ≡ 48 + min d 9
code-digit zero = refl
code-digit (suc zero) = refl
code-digit (suc (suc zero)) = refl
code-digit (suc (suc (suc zero))) = refl
code-digit (suc (suc (suc (suc zero)))) = refl
code-digit (suc (suc (suc (suc (suc zero))))) = refl
code-digit (suc (suc (suc (suc (suc (suc zero)))))) = refl
code-digit (suc (suc (suc (suc (suc (suc (suc zero))))))) = refl
code-digit (suc (suc (suc (suc (suc (suc (suc (suc zero)))))))) = refl
code-digit (suc (suc (suc (suc (suc (suc (suc (suc (suc d))))))))) = omega arith

digit-dot_free : (d : ℕ) → nat_beq (code (digit d)) b'.' ≡ false
digit-dot_free d = rw (code-digit d) (ground arith)

show_from-dot_free :
    (fuel n : ℕ) (acc : String) → dot_free acc ≡ true → dot_free (show_from fuel n acc) ≡ true
unfolding show_from dot_free
show_from-dot_free zero n acc h = h
show_from-dot_free (suc fuel) n acc h = elim (Bool-cases (ltb n 10)) [
  | inl small ↦ rw (small, digit-dot_free n) h
  | inr large ↦ rw large (show_from-dot_free fuel (n / 10) _ (rw (digit-dot_free (n % 10)) h))
]

pub show-dot_free : (n : ℕ) → dot_free (show n) ≡ true
unfolding show dot_free
show-dot_free n = show_from-dot_free (suc n) n "" refl
