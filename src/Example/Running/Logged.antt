-- ===== src/Example/Running/Logged.antt =====
-- What runService writes to its log.
use winsvc.Prelude.{◌≡◌, ◌≢◌, refl, ap, ◌∙◌, false, ◌||◌, List, [], ◌∷◌, ◌++◌, arith}
use winsvc.Unicode.{GoString, codes, has_nul}
use winsvc.Winapi.System.{Error, Os, Outcome, ok, err, panic}
use winsvc.Debug.Console
use winsvc.Debug.Log.{World, Program, drop_error, settle, resume, Log}
use winsvc.Debug.Log.Journal.{Journal, information, failure}
use winsvc.Example.Running.{
  ErrnoText, error_text, starting, stopped_text, failed_text, report_end, run_with,
}

has_nul-append : (s t : GoString) → has_nul (s ++ t) ≡ (has_nul s || has_nul t)
unfolding has_nul
has_nul-append [] t = refl
has_nul-append (r ∷ s) t = ground (arith, has_nul-append s t)

starting-clean : (name : GoString) → has_nul name ≡ false → has_nul (starting name) ≡ false
unfolding has_nul
starting-clean name n = has_nul-append name (codes " service") ∙ ap (λ b. b || false) n

stopped_text-clean : (name : GoString) → has_nul name ≡ false → has_nul (stopped_text name) ≡ false
unfolding has_nul
stopped_text-clean name n = has_nul-append name (codes " service stopped") ∙ ap (λ b. b || false) n

failed_text-clean :
    (name text : GoString)
    → has_nul name ≡ false
    → has_nul text ≡ false
    → has_nul (failed_text name text) ≡ false
unfolding has_nul
failed_text-clean name text n k =
    has_nul-append name (codes " service failed: " ++ text) ∙ ap (λ b. b || has_nul text) n ∙ k

drop_error-world : {A : Type 0} (x : Outcome A × World) → (drop_error x).1 ≡ x.1
drop_error-world (ok a, w) = refl
drop_error-world (err e, w) = refl
drop_error-world (panic, w) = refl

resume-drop_error :
    {A B : Type 0} (x : Outcome A × World) (f : Unit {0} → Program B) (os : Os)
    (console : Console.Console)
    → x.0 ≢ panic
    → resume (drop_error x) f os console ≡ f tt os console x.1
resume-drop_error (ok a, w) f os console k = refl
resume-drop_error (err e, w) f os console k = refl
resume-drop_error (panic, w) f os console k = absurd (k refl)

module _ (texts : ErrnoText) (l : Log) (j : Journal l) (run : GoString → Program (Unit {0}))
    (name : GoString) where
  -- The entry for the end of the run, by how it ended; a panic has none.
  abbrev pub with_end : Outcome (Unit {0}) → List j.Entry → List j.Entry
  with_end (ok u) before = j.entry information 1 (stopped_text name) ∷ before
  with_end (err e) before = j.entry failure 1 (failed_text name (error_text texts e)) ∷ before
  with_end panic before = before

  -- The world behind the first report.
  abbrev pub started : Os → Console.Console → World → World
  started os console w = (l.info 1 (starting name) os console w).1

  report_end-entries :
      (os : Os) (console : Console.Console) (y : Outcome (Unit {0}) × World)
      → has_nul name ≡ false
      → ((e : Error) → y.0 ≡ err e → has_nul (error_text texts e) ≡ false)
      → j.entries (resume (settle y) (report_end texts l name) os console).1
        ≡ with_end y.0 (j.entries y.1)
  unfolding report_end
  report_end-entries os console (ok u, w) n clean =
      ap j.entries (drop_error-world (l.info 1 (stopped_text name) os console w))
      ∙ j.entries-report information 1 (stopped_text name) os console w (stopped_text-clean name n)
  report_end-entries os console (err e, w) n clean =
      let msg = failed_text name (error_text texts e) in
      ap j.entries (drop_error-world (l.error 1 msg os console w))
      ∙ j.entries-report failure 1 msg os console w
          (failed_text-clean name (error_text texts e) n (clean e refl))
  report_end-entries os console (panic, w) n clean = refl

  -- The run starts behind the first entry, and the entry of its end comes behind its own.
  abbrev pub IsLogged : Os → Console.Console → World → Type 0
  IsLogged os console w =
      let y = run name os console (started os console w) in
      (j.entries (started os console w) ≡ j.entry information 1 (starting name) ∷ j.entries w)
      × (j.entries (run_with texts l run name os console w).1 ≡ with_end y.0 (j.entries y.1))

  -- Around any run, and whatever it writes to the same log, runService first writes that the service
  -- starts, and the run follows; the entry of how the run ended, with its error where it failed, is
  -- then added to those that the run left, and nothing else. This holds for each log that keeps the
  -- contract of a journal, for a name and an error without NUL, and whether the writes fail or not.
  pub run_with-IsLogged :
      (os : Os) (console : Console.Console) (w : World)
      → has_nul name ≡ false
      → ((e : Error)
          → (run name os console (started os console w)).0 ≡ err e
          → has_nul (error_text texts e) ≡ false)
      → IsLogged os console w
  unfolding run_with
  run_with-IsLogged os console w n clean =
      let first = l.info 1 (starting name) os console w in
      let clean_start : has_nul (starting name) ≡ false = starting-clean name n in
      (
        j.entries-report information 1 (starting name) os console w clean_start,
        (ap j.entries (drop_error-world (l.close os console _))
            ∙ j.entries-close os console _
            ∙ ap (λ x. j.entries x.1)
                (resume-drop_error first _ os console
                  (j.report_returns information 1 (starting name) os console w clean_start))
            ∙ report_end-entries os console (run name os console first.1) n clean),
      )
