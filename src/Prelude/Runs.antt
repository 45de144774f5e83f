-- ===== src/Prelude/Runs.antt =====
-- Runs of a step function, and what a run that is a part of a larger one can reach.
use mathlib.Core.Path.{◌≡◌, refl, ap, ◌∙◌, sym, subst}
use mathlib.Core.Bool.{Bool, true, false}
use mathlib.Core.List.{List, [], ◌∷◌, ◌++◌}
use docker_baseimage_gui.Prelude.Tests.{if◌then◌else◌}

module _ {S E : Type 0} (step : E → S → S) where
  abbrev pub run_by : List E → S → S
  run_by [] s = s
  run_by (e ∷ es) s = run_by es (step e s)

  -- The state `t` is reached from `s` by some events.
  abbrev pub Reaches : S → S → Type 0
  Reaches s t = (es : List E) × (t ≡ run_by es s)

module _ {S E : Type 0} (step : E → S → S) where
  pub Reaches-refl : (s : S) → Reaches step s s
  Reaches-refl s = ([], refl)

  pub Reaches-step : (e : E) (s : S) → Reaches step s (step e s)
  Reaches-step e s = (e ∷ [], refl)

  pub run_by-append :
      (es fs : List E) (s : S) → run_by step (es ++ fs) s ≡ run_by step fs (run_by step es s)
  run_by-append [] fs s = refl
  run_by-append (e ∷ es) fs s = run_by-append es fs (step e s)

  pub Reaches-trans : {s t u : S} → Reaches step s t → Reaches step t u → Reaches step s u
  Reaches-trans {s} (es, p) (fs, q) =
      (es ++ fs, q ∙ ap (run_by step fs) p ∙ sym (run_by-append es fs s))

  pub Reaches-if :
      (b : Bool) {s t u : S}
      → Reaches step s t
      → Reaches step s u
      → Reaches step s (if b then t else u)
  Reaches-if true p q = p
  Reaches-if false p q = q

  run_by-keeps :
      (I : S → Type 0)
      → ((e : E) (s : S) → I s → I (step e s))
      → (es : List E) (s : S) → I s
      → I (run_by step es s)
  run_by-keeps I keeps [] s h = h
  run_by-keeps I keeps (e ∷ es) s h = run_by-keeps I keeps es (step e s) (keeps e s h)

  -- What every event keeps holds of every state that is reached.
  pub Reaches-keeps :
      (I : S → Type 0)
      → ((e : E) (s : S) → I s → I (step e s))
      → {s t : S} → Reaches step s t
      → I s
      → I t
  Reaches-keeps I keeps {s} (es, p) h = subst I (sym p) (run_by-keeps I keeps es s h)
