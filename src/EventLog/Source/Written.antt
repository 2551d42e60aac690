-- ===== src/EventLog/Source/Written.antt =====
-- Which values Install sets.
use Prim.Native.String.{String}
use winsvc.Prelude.{
  ℕ, ◌≡◌, refl, Bool, true, false, none, some, List, [], ◌∷◌, ◌++◌, length, arith, ◌*◌, ◌%◌, ◌==◌,
  if◌then◌else◌,
}
use winsvc.Unicode.{GoString, codes, encode}
use winsvc.Registry.{Key, dword_bytes, unit_bytes}
use winsvc.Winapi.Constants
use winsvc.Winapi.Types.{RegCreateKeyExArgs, RegSetValueExArgs}
use winsvc.Winapi.System.{Call, Reply, Os, Trace, Outcome, ok, err, panic}
use winsvc.EventLog.Source.{add_key_name, set_values, install}

-- The values that were set, the latest first.
abbrev pub wrote : Trace → List RegSetValueExArgs
wrote [] = []
wrote ((Call.reg_set_value_ex args, r) ∷ t) = args ∷ wrote t
wrote ((_, r) ∷ t) = wrote t

abbrev pub dword_value : Key → String → ℕ → RegSetValueExArgs
dword_value k name v = record {
  key = k.handle;
  value_name = some (encode (codes name) ++ 0 ∷ []);
  reserved = 0;
  vtype = Constants.reg_dword;
  buf = dword_bytes v;
  bufsize = 4;
}

abbrev pub text_value : Key → String → GoString → ℕ → RegSetValueExArgs
text_value k name v valtype = record {
  key = k.handle;
  value_name = some (encode (codes name) ++ 0 ∷ []);
  reserved = 0;
  vtype = valtype;
  buf = unit_bytes (encode v ++ 0 ∷ []);
  bufsize = length (encode v ++ 0 ∷ []) * 2 % 0x100000000;
}

-- The three values of a source, the latest first.
abbrev pub source_values : Key → GoString → Bool → ℕ → List RegSetValueExArgs
source_values k msg_file use_expand_key events =
    dword_value k "TypesSupported" events
    ∷ text_value k "EventMessageFile" msg_file
        (if use_expand_key then Constants.reg_expand_sz else Constants.reg_sz)
    ∷ dword_value k "CustomSource" 1
    ∷ []

-- The trace once the log's key is open, and the answer to the creation of the source's key.
abbrev pub open_call : Call
open_call =
    Call.reg_open_key_ex Constants.hkey_local_machine (some (encode add_key_name ++ 0 ∷ [])) 0
      Constants.key_all_access

abbrev pub opened : Os → Trace → Trace
opened os t = (open_call, os t open_call) ∷ t

abbrev pub create_args : Os → Trace → GoString → RegCreateKeyExArgs
create_args os t src = record {
  key = (os t open_call).handle;
  subkey = some (encode src ++ 0 ∷ []);
  reserved = 0;
  class = none;
  options = Constants.reg_option_non_volatile;
  desired = Constants.key_all_access;
  sa = 0;
}

abbrev pub create_call : Os → Trace → GoString → Call
create_call os t src = Call.reg_create_key_ex (create_args os t src)

abbrev pub creation : Os → Trace → GoString → Reply
creation os t src = os (opened os t) (create_call os t src)

abbrev pub created : Os → Trace → GoString → Trace
created os t src = (create_call os t src, creation os t src) ∷ opened os t

-- A success has set the three values of a key that was new; and where the key was there before,
-- nothing was set.
abbrev pub EndsWritten :
    Key → (existed : Bool) → GoString → Bool → ℕ → Trace → Outcome (Unit {0}) × Trace → Type 0
EndsWritten k existed msg_file use_expand_key events before (ok u, t) =
    (existed ≡ false) × (wrote t ≡ source_values k msg_file use_expand_key events ++ wrote before)
EndsWritten k existed msg_file use_expand_key events before (err e, t) =
    existed ≡ true → wrote t ≡ wrote before
EndsWritten k existed msg_file use_expand_key events before (panic, t) =
    existed ≡ true → wrote t ≡ wrote before

set_values-EndsWritten :
    (src msg_file : GoString) (use_expand_key : Bool) (events : ℕ) (k : Key) (existed : Bool)
    (os : Os) (t : Trace)
    → EndsWritten k existed msg_file use_expand_key events t
        (set_values src msg_file use_expand_key events (k, existed) os t)
unfolding set_values
set_values-EndsWritten src msg_file true events k false os t = ground arith
set_values-EndsWritten src msg_file false events k false os t = ground arith
set_values-EndsWritten src msg_file use_expand_key events k true os t = λ _. refl

-- When Install succeeds it has set exactly three values, all under the key of the source, which
-- was new: CustomSource, the message file, of the type asked for, and TypesSupported. When the
-- key was there before, it sets nothing and does not succeed.
pub install-EndsWritten :
    (src msg_file : GoString) (use_expand_key : Bool) (events : ℕ) (os : Os) (t : Trace)
    → EndsWritten
        (record { handle = (creation os t src).handle })
        ((creation os t src).dword == Constants.reg_opened_existing_key)
        msg_file
        use_expand_key
        events
        t
        (install src msg_file use_expand_key events os t)
unfolding install encode
install-EndsWritten src msg_file use_expand_key events os t = ground (
  arith,
  set_values-EndsWritten src msg_file use_expand_key events
      (record { handle = (creation os t src).handle })
      ((creation os t src).dword == Constants.reg_opened_existing_key) os (created os t src),
)
