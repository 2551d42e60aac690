-- ===== src/Debug/Session/Hangs.antt =====
-- Where a handler on the console waits for ever.
use winsvc.Prelude.{◌≡◌, refl, ◌∙◌, none, sym}
use winsvc.Svc.Handler.{Act, sends, receives, works, returns}
use winsvc.Debug.Pump.{selecting, sending}
use winsvc.Debug.Session.{
  State, Step, signalled, delivered, changed, worked, returned, Reach, here, next,
}

-- What a handler does in states of which it only sends, or goes on to such states.
abbrev pub Keeps : {S : Type 0} → (S → Type 0) → Act S → Type 0
Keeps Quiet (sends st h) = Unit
Keeps Quiet (receives c h) = ⊥
Keeps Quiet (works h) = Quiet h
Keeps Quiet (returns ec h) = ⊥

selecting-sending : selecting ≡ sending → ⊥
selecting-sending h = cc

module _ {S : Type 0} (May : S → Act S → Type 0) (Quiet : S → Type 0)
    (quiet : (h : S) (a : Act S) → Quiet h → May h a → Keeps Quiet a) where
  -- The goroutine is in its send of a stop request, and Execute, which does not receive it, has
  -- not returned.
  abbrev pub IsHung : State S → Type 0
  IsHung t = (t.pump.place ≡ sending) × Quiet t.handler × (t.result ≡ none)

  Step-IsHung : {t u : State S} → Step May t u → IsHung t → IsHung u × (u.pump ≡ t.pump)
  Step-IsHung {t} {u} (signalled e same) (p, q, r) = absurd (selecting-sending (sym e ∙ p))
  Step-IsHung {t} {u} (delivered h e m same) (p, q, r) = absurd (quiet t.handler _ q m)
  Step-IsHung {t} {u} (changed st h e m same) (p, q, r) = absurd (selecting-sending (sym e ∙ p))
  Step-IsHung {t} {u} (worked h m same) (p, q, r) =
      rw same ((p, quiet t.handler (works h) q m, r), refl)
  Step-IsHung {t} {u} (returned ec h e m same) (p, q, r) = absurd (quiet t.handler _ q m)

  pub Reach-IsHung : {t u : State S} → Reach May t u → IsHung t → IsHung u × (u.pump ≡ t.pump)
  Reach-IsHung here v = (v, refl)
  Reach-IsHung (next r st) v =
      let (w, e) = Reach-IsHung r v in let (x, f) = Step-IsHung st w in (x, f ∙ e)
