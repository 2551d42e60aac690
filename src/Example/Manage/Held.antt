-- ===== src/Example/Manage/Held.antt =====
-- The handles that the example's commands hold.
use winsvc.Prelude.{ℕ, ◌≡◌, refl, ◌∙◌, Bool, List, [], ◌∷◌, arith}
use winsvc.Unicode.{GoString, codes}
use winsvc.Winapi.System.{Trace, Outcome, ok, err, panic, M, ignore}
use winsvc.Winapi.Resources.{sc_handle, live}
use winsvc.Winapi.Resources.Bracket.{
  KeepsLive, bind-KeepsLive, Acquires, Releases, bracket-KeepsLive,
}
use winsvc.Mgr.Manager.{Mgr, Service, connect, disconnect, open_service}
use winsvc.Mgr.Control
use winsvc.Svc.Types.{Status}
use winsvc.Example.Manage.{
  wrap, explained, with_service, start_service, program_args, query_now, send, poll, send_and_poll,
  control_service,
}

pub connect-Acquires : Acquires (λ m. sc_handle m.handle) connect
unfolding connect
connect-Acquires os t = ground arith

pub disconnect-Releases : Releases (λ (m : Mgr). sc_handle m.handle) (λ m. ignore (disconnect m))
unfolding disconnect
disconnect-Releases m os t held h = ground arith

pub close-Releases : Releases (λ (s : Service). sc_handle s.handle) (λ s. ignore (Control.close s))
unfolding Control.close
close-Releases s os t held h = ground arith

wrap-live : {A : Type 0} (text : GoString) (x : Outcome A × Trace) → live (wrap text x).1 ≡ live x.1
wrap-live text (ok a, t) = refl
wrap-live text (err e, t) = refl
wrap-live text (panic, t) = refl

pub explained-KeepsLive :
    {A : Type 0} (text : GoString) (m : M A) → KeepsLive m → KeepsLive (explained text m)
explained-KeepsLive text m k os t = wrap-live text (m os t) ∙ k os t

open_service-Acquires :
    (text : GoString) (m : Mgr) (name : GoString)
    → Acquires (λ s. sc_handle s.handle) (explained text (open_service m name))
unfolding open_service
open_service-Acquires text m name os t = ground arith

pub with_service-KeepsLive :
    {A : Type 0} (name : GoString) (body : Service → M A)
    → ((s : Service) → KeepsLive (body s))
    → KeepsLive (with_service name body)
unfolding with_service
with_service-KeepsLive name body keeps =
    bracket-KeepsLive (λ m. sc_handle m.handle) connect (λ m. ignore (disconnect m)) _
      connect-Acquires disconnect-Releases
      (λ m.
        bracket-KeepsLive (λ s. sc_handle s.handle) (explained _ (open_service m name))
          (λ s. ignore (Control.close s)) body (open_service-Acquires _ m name) close-Releases
          keeps)

query-KeepsLive : (s : Service) → KeepsLive (query_now s)
unfolding Control.query
query-KeepsLive s os t = ground arith

send-KeepsLive : (s : Service) (c : ℕ) → KeepsLive (send c s)
unfolding Control.control
send-KeepsLive s c os t = ground arith

arg_pointers-KeepsLive : (args : List GoString) → KeepsLive (Control.arg_pointers args)
unfolding Control.arg_pointers
arg_pointers-KeepsLive [] os t = refl
arg_pointers-KeepsLive (a ∷ args) os t = ground (arith, arg_pointers-KeepsLive args os t)

start-KeepsLive : (s : Service) (args : List GoString) → KeepsLive (Control.start s args)
unfolding Control.start
start-KeepsLive s args os t = ground (arith, arg_pointers-KeepsLive args os t)

poll-KeepsLive :
    (s : Service) (to : ℕ) (clock : List Bool) (status : Status)
    → KeepsLive (poll s to clock status)
unfolding poll
poll-KeepsLive s to [] status os t = refl
poll-KeepsLive s to (late ∷ clock) status os t = ground (
  arith,
  bind-KeepsLive (query_now s) (poll s to clock) (query-KeepsLive s) (poll-KeepsLive s to clock) os
      t,
)

-- However it ends, controlService has closed both handles that it opened.
pub control_service-KeepsLive :
    (name : GoString) (c to : ℕ) (clock : List Bool) → KeepsLive (control_service name c to clock)
unfolding control_service send_and_poll
control_service-KeepsLive name c to clock = with_service-KeepsLive name _ (λ s.
    bind-KeepsLive (send c s) (poll s to clock) (send-KeepsLive s c) (poll-KeepsLive s to clock))

-- However it ends, startService has closed both handles that it opened.
pub start_service-KeepsLive : (name : GoString) → KeepsLive (start_service name)
unfolding start_service
start_service-KeepsLive name = with_service-KeepsLive name _ (λ s.
    explained-KeepsLive (codes "could not start service: ") (Control.start s program_args)
      (start-KeepsLive s program_args))
