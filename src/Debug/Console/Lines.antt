-- ===== src/Debug/Console/Lines.antt =====
-- The number in a line of the console log.
use native.Mathlib.Nat.{pow-suc}
use winsvc.Prelude.{
  ℕ, zero, suc, ◌+◌, ◌*◌, ◌-◌, ◌/◌, ◌%◌, ◌<◌, ◌^◌, ◌≡◌, refl, [], ◌∷◌, ◌++◌, arith, ltb,
  if◌then◌else◌, Bool-cases, inl, inr, lt→ltb,
}
use winsvc.Unicode.{GoString}
use winsvc.Debug.Console.{itoa_loop, itoa}

-- The number that a text of decimal digits stands for.
abbrev pub read_digits : ℕ → GoString → ℕ
read_digits acc [] = acc
read_digits acc (d ∷ ds) = read_digits (acc * 10 + (d - b'0')) ds

read_digits-append :
    (acc : ℕ) (s t : GoString) → read_digits acc (s ++ t) ≡ read_digits (read_digits acc s) t
read_digits-append acc [] t = refl
read_digits-append acc (d ∷ ds) t = read_digits-append (acc * 10 + (d - b'0')) ds t

itoa_loop_step :
    (k n : ℕ)
    → itoa_loop (suc k) n
      ≡ (if ltb n 10 then (b'0' + n) ∷ [] else itoa_loop k (n / 10) ++ (b'0' + n % 10) ∷ [])
unfolding itoa_loop
itoa_loop_step k n = refl

last_digit : (m d : ℕ) → read_digits m ((b'0' + d) ∷ []) ≡ m * 10 + d
last_digit m d = omega arith

read_digits-itoa_loop : (k n : ℕ) → n < 10 ^ suc k → read_digits 0 (itoa_loop (suc k) n) ≡ n
read_digits-itoa_loop zero n h = rw (itoa_loop_step, lt→ltb n 10 h) (omega arith)
read_digits-itoa_loop (suc k) n h = elim (Bool-cases (ltb n 10)) [
  | inl small ↦ rw (itoa_loop_step, small) (omega arith)
  | inr large ↦
      rw (itoa_loop_step, large, read_digits-append)
        (rw (read_digits-itoa_loop k (n / 10) (omega (arith, pow-suc 10 (suc k)))) (omega arith))
]

-- The number in a line of the console log is the event id.
pub read_digits-itoa : (n : ℕ) → n < 10 ^ 20 → read_digits 0 (itoa n) ≡ n
unfolding itoa
read_digits-itoa n h = read_digits-itoa_loop 19 n h
