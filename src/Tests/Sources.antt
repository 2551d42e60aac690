-- ===== src/Tests/Sources.antt =====
-- A Windows that stores event sources, and refuses plain strings as values.
use winsvc.Prelude.{
  ℕ, List, ◌≡◌, refl, arith, Bool, true, false, none, some, [], ◌∷◌, ◌+◌, ◌==◌, length,
  if◌then◌else◌,
}
use winsvc.Unicode.{codes, encode, encode_rune, has_nul, same_text}
use winsvc.Winapi.Constants
use winsvc.Winapi.Types.{StringPtr}
use winsvc.Winapi.System.{Call, Os, Trace, ok, err, errno}
use winsvc.EventLog.Source.{install, remove, set_values}
use winsvc.EventLog.Source.Stored.{registered, Registers}
use winsvc.EventLog.Source.Sources.{already_exists}
use winsvc.EventLog.Source.History.{
  Action, installing, removing, history, Obeys, stored, history-Obeys,
}
use winsvc.Tests.Data.{reply}

abbrev nothing : List ℕ → Bool
nothing n = false

abbrev has : StringPtr → Trace → Bool
has none t = false
has (some n) t = registered same_text nothing n t

abbrev keeper : Os
keeper t (Call.reg_create_key_ex args) =
    reply 0 0 (100 + length t) (if has args.subkey t then Constants.reg_opened_existing_key else 1)
keeper t (Call.reg_delete_key k subkey) = reply (if has subkey t then 0 else 2) 0 0 0
keeper t (Call.reg_set_value_ex args) =
    reply (if args.vtype == Constants.reg_sz then 5 else 0) 0 0 0
keeper t _ = reply 0 0 (100 + length t) 0

same_text_refl : (n : List ℕ) → same_text n n ≡ true
unfolding same_text
same_text_refl [] = refl
same_text_refl (u ∷ n) = ground (arith, same_text_refl n)

keeper-Registers : Registers keeper same_text nothing
keeper-Registers = record {
  same-refl = same_text_refl;
  opens = λ t. refl;
  creates = λ t args n is_name k e. ground (arith, e);
  deletes = λ t k n is_name known old. ground (arith, old);
  misses = λ t k n is_name known new. ground (arith, new);
}

-- The first Install fails at its second value, and so does the next, at the key.
abbrev actions : List Action
actions =
    installing (codes "a") (codes "m") false 7
    ∷ installing (codes "a") (codes "m") true 7
    ∷ removing (codes "a")
    ∷ installing (codes "a") (codes "m") true 7
    ∷ removing (codes "b")
    ∷ []

history_test :
    (history actions keeper []).0
    ≡ err (errno 5) ∷ err (already_exists (codes "a")) ∷ ok tt ∷ ok tt ∷ err (errno 2) ∷ []
unfolding history install remove set_values has_nul same_text encode encode_rune
history_test = refl

history-Obeys_example :
    Obeys same_text
      (stored same_text nothing [])
      actions
      (history actions keeper []).0
      (stored same_text nothing (history actions keeper []).1)
unfolding has_nul encode encode_rune
history-Obeys_example =
    history-Obeys keeper same_text nothing keeper-Registers actions [] (ground arith)
