-- ===== src/EventLog/Source/History.antt =====
-- eventlog/install.go: sequences of Install and Remove, as operations on a set of sources.
use winsvc.Prelude.{
  ℕ, ◌≡◌, refl, sym, not, ◌&&◌, ◌||◌, Bool, true, false, List, [], ◌∷◌, All, if◌then◌else◌,
}
use winsvc.Unicode.{GoString, has_nul}
use winsvc.Winapi.System.{Os, Trace, M, Outcome, ok, err}
use winsvc.EventLog.Source.{install, remove}
use winsvc.EventLog.Source.Stored.{registered, IsKeyName, Registers}
use winsvc.EventLog.Source.Sources

pub data Action : Type 0 where
  installing : (src msg_file : GoString) → (use_expand_key : Bool) → (events_supported : ℕ) → Action
  removing : (src : GoString) → Action

abbrev pub perform : Action → M (Unit {0})
perform (installing src msg_file use_expand_key events) = install src msg_file use_expand_key events
perform (removing src) = remove src

-- The outcome of each action, whether the ones before it succeeded or not.
abbrev pub next_outcome :
    (Trace → List (Outcome (Unit {0})) × Trace)
    → Outcome (Unit {0}) × Trace
    → List (Outcome (Unit {0})) × Trace
next_outcome rest (o, t) = let later = rest t in (o ∷ later.0, later.1)

unfoldable pub history : List Action → Os → Trace → List (Outcome (Unit {0})) × Trace
history [] os t = ([], t)
history (a ∷ actions) os t = next_outcome (history actions os) (perform a os t)

-- The source names one key, and no string of the action has a NUL in it.
abbrev pub IsPlain : Action → Type 0
IsPlain (installing src msg_file use_expand_key events) =
    (has_nul src ≡ false) × IsKeyName (Sources.key_name src) × (has_nul msg_file ≡ false)
IsPlain (removing src) = (has_nul src ≡ false) × IsKeyName (Sources.key_name src)

abbrev pub SourceSet : Type 0
SourceSet = List ℕ → Bool

module _ (same : List ℕ → List ℕ → Bool) where
  -- Install adds the source, also where it fails at a value; Remove takes one away that is there.
  abbrev pub sources_after : Action → SourceSet → SourceSet
  sources_after (installing src msg_file use_expand_key events) sources n =
      if sources (Sources.key_name src)
      then sources n
      else same (Sources.key_name src) n || sources n
  sources_after (removing src) sources n =
      not (sources (Sources.key_name src) && same (Sources.key_name src) n) && sources n

  -- Install of a source that is there is refused as such, and another one ends with its values or
  -- with the error of Windows that refused one; Remove succeeds just where the source is there.
  abbrev pub Allows : Action → Bool → Outcome (Unit {0}) → Type 0
  Allows (installing src msg_file use_expand_key events) true o =
      o ≡ err (Sources.already_exists src)
  Allows (installing src msg_file use_expand_key events) false o = Sources.Sets o
  Allows (removing src) true o = o ≡ ok tt
  Allows (removing src) false o = Sources.IsRefused o

  abbrev pub source_of : Action → List ℕ
  source_of (installing src msg_file use_expand_key events) = Sources.key_name src
  source_of (removing src) = Sources.key_name src

  -- The outcomes are allowed one after the other, and these are the sources at the end.
  abbrev pub Obeys : SourceSet → List Action → List (Outcome (Unit {0})) → SourceSet → Type 0
  Obeys sources [] [] final = final ≡ sources
  Obeys sources (a ∷ actions) (o ∷ outcomes) final =
      Allows a (sources (source_of a)) o × Obeys (sources_after a sources) actions outcomes final
  Obeys sources _ _ final = ⊥

-- The sources behind a trace.
abbrev pub stored : (List ℕ → List ℕ → Bool) → SourceSet → Trace → SourceSet
stored same first t n = registered same first n t

module _ (os : Os) (same : List ℕ → List ℕ → Bool) (first : List ℕ → Bool)
    (os_registers : Registers os same first) where
  perform-Allows :
      (a : Action) (t : Trace) (known : Bool)
      → IsPlain a
      → stored same first t (source_of same a) ≡ known
      → Allows same a known (perform a os t).0
  perform-Allows (installing src msg_file use_expand_key events) t true (nul, key, nul') e =
      Sources.install_exists os same first os_registers src msg_file use_expand_key events t nul key
        e
  perform-Allows (installing src msg_file use_expand_key events) t false (nul, key, nul') e =
      Sources.install-Sets os same first os_registers src msg_file use_expand_key events t nul key
        nul' e
  perform-Allows (removing src) t true (nul, key) e =
      Sources.remove_exists os same first os_registers src t nul key e
  perform-Allows (removing src) t false (nul, key) e =
      Sources.remove_misses os same first os_registers src t nul key e

  perform-sources :
      (a : Action) (t : Trace)
      → IsPlain a
      → stored same first (perform a os t).1 ≡ sources_after same a (stored same first t)
  perform-sources (installing src msg_file use_expand_key events) t (nul, key, nul') i n =
      Sources.install-registered os same first os_registers src msg_file use_expand_key events t n
        nul key i
  perform-sources (removing src) t (nul, key) i n =
      Sources.remove-registered os same first os_registers src t n nul key i

  -- Over a Windows that stores the log's keys and refuses neither to open, to create nor to delete
  -- one, which it would where a source had keys below it, every sequence of Install and Remove, for sources of 1 to 255 units without a backslash and
  -- strings without NUL, is one of operations on the set of registered sources. Install of a source
  -- that is there fails as such and changes nothing; of another one it adds it, whether it succeeds
  -- or fails with the error of Windows that refused a value, so that a failed Install stands in the
  -- way of the next. Remove takes away a source that is there, and fails for another one.
  pub history-Obeys :
      (actions : List Action) (t : Trace)
      → All IsPlain actions
      → Obeys same
          (stored same first t)
          actions
          (history actions os t).0
          (stored same first (history actions os t).1)
  unfolding history
  history-Obeys [] t plain = refl
  history-Obeys (a ∷ actions) t (plain, plains) = (
    perform-Allows a t (stored same first t (source_of same a)) plain refl,
    rw (sym (perform-sources a t plain)) (history-Obeys actions (perform a os t).1 plains),
  )
