-- ===== src/Svc/FuncPc.antt =====
-- svc/go13.go: the entry of servicemain, read out of the memory behind a func value. The width of a
-- uintptr, 32 or 64, is an argument; memory is the word at each address.
use winsvc.Prelude.{ℕ, ◌≡◌, refl, ◌+◌, ◌-◌, ◌*◌, ◌/◌, ◌%◌, ◌^◌, ◌==◌, if◌then◌else◌}
use winsvc.Svc.Machine.{Isa, x86, amd64, word}

-- `4 << (^uintptr(0) >> 63)`
abbrev pub ptr_size : (width : ℕ) → ℕ
ptr_size width = 4 * 2 ^ ((2 ^ width - 1) / 2 ^ 63)

unfoldable pub add : (width p x : ℕ) → ℕ
add width p x = (p + x) % 2 ^ width

-- The interface value f stands at an address.
unfoldable pub func_pc : (width : ℕ) → (memory : ℕ → ℕ) → (f : ℕ) → ℕ
unfolding add
func_pc width memory f = memory (memory (add width f (ptr_size width)))

-- The memory behind `*r = funcPC(servicemain)`.
unfoldable pub get_service_main : (width : ℕ) → (memory : ℕ → ℕ) → (f r : ℕ) → ℕ → ℕ
unfolding func_pc
get_service_main width memory f r a = if a == r then func_pc width memory f else memory a

abbrev pub bits : Isa → ℕ
bits x86 = 32
bits amd64 = 64

-- An interface that holds a function: a word for its type, and then a pointer to the function's
-- value, whose first word is the entry.
pub record HoldsFunction (isa : Isa) (memory : ℕ → ℕ) (f entry : ℕ) : Type 0 where
  pub value : ℕ
  pub points : memory ((f + word isa) % 2 ^ bits isa) ≡ value
  pub enters : memory value ≡ entry

-- On both processors getServiceMain stores the entry of the function, and nothing else.
pub get_service_main-entry :
    (isa : Isa) (memory : ℕ → ℕ) (f r entry a : ℕ)
    → HoldsFunction isa memory f entry
    → get_service_main (bits isa) memory f r a ≡ (if a == r then entry else memory a)
unfolding get_service_main
get_service_main-entry x86 memory f r entry a h = rw (h.points, h.enters) refl
get_service_main-entry amd64 memory f r entry a h = rw (h.points, h.enters) refl
