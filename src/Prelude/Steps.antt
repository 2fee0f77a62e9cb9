-- ===== src/Prelude/Steps.antt =====
-- Histories: sequences of steps of a system.

module _ {S : Type 0} (Step : S → S → Type 0) where
  pub data Reach (s : S) : S → Type 0 where
    here : Reach s s
    next : {t u : S} → Reach s t → Step t u → Reach s u

  -- What every step keeps holds after every history.
  pub Reach-keeps :
      (P : S → Type 0) → ((t u : S) → Step t u → P t → P u) → {s t : S} → P s → Reach s t → P t
  Reach-keeps P keep p here = p
  Reach-keeps P keep p (next {t = t} {u = u} r st) = keep t u st (Reach-keeps P keep p r)
