-- ===== src/Channel/Mpsc/Order.antt =====
-- Histories of a channel, and the order of the values over a whole history.
use mathlib.Core.Path.{subst}
use mathlib.Core.List.{append_assoc, append-nil, Sublistᴰ}
use mathlib.Core.List.Sublistᴰ
use runite.Prelude.{ℕ, ◌≡◌, refl, sym, ap, ◌∙◌, inl, List, [], ◌∷◌, ◌++◌, Option, Bool, true, false}
use runite.Channel.Mpsc.{new}
use runite.Channel.Mpsc.Users.{
  System, Event, arrived, delivered, withdrawn, refused, silent, Step, start,
}
use runite.Channel.Mpsc.Inv.{Inv, is_positive, new-Inv}
use runite.Channel.Mpsc.Fifo.{Fifo, enqueue, dequeue, withdraw, keep, cut, idle, pipeline}
use runite.Channel.Mpsc.Steps.{Own, Asked, Step-Inv, Step-Own, Step-Asked, Step-Fifo, Step-capacity}

module _ {A : Type 0} where
  pub data Trace : System A → List (Event A) → System A → Type 0 where
    done : {s : System A} → Trace s [] s
    then_step :
        {s t u : System A} {e : Event A} {es : List (Event A)}
        → Step s e t
        → Trace t es u
        → Trace s (e ∷ es) u

  -- The values that senders handed over, and those that the receiver got, in order.
  abbrev pub arrivals : List (Event A) → List A
  arrivals [] = []
  arrivals (arrived v ∷ es) = v ∷ arrivals es
  arrivals (delivered v ∷ es) = arrivals es
  arrivals (withdrawn ∷ es) = arrivals es
  arrivals (refused ∷ es) = arrivals es
  arrivals (silent ∷ es) = arrivals es

  abbrev pub deliveries : List (Event A) → List A
  deliveries [] = []
  deliveries (arrived v ∷ es) = deliveries es
  deliveries (delivered v ∷ es) = v ∷ deliveries es
  deliveries (withdrawn ∷ es) = deliveries es
  deliveries (refused ∷ es) = deliveries es
  deliveries (silent ∷ es) = deliveries es

  -- No send was cancelled and the channel was not closed.
  abbrev pub is_calm : List (Event A) → Bool
  is_calm [] = true
  is_calm (arrived v ∷ es) = is_calm es
  is_calm (delivered v ∷ es) = is_calm es
  is_calm (withdrawn ∷ es) = false
  is_calm (refused ∷ es) = false
  is_calm (silent ∷ es) = is_calm es

  -- Between two steps.
  pub record Ok (capacity : Option ℕ) (s : System A) : Type 0 where
    pub own : Own s
    pub asked : Asked s
    pub inner : Inv s.state
    pub same_capacity : s.state.capacity ≡ capacity

  Step-Ok :
      {c : Option ℕ} {s : System A} {e : Event A} {t : System A} → Step s e t → Ok c s → Ok c t
  Step-Ok {s = s} {e = e} {t = t} st k = record {
    own = Step-Own s e t st k.own k.asked k.inner;
    asked = Step-Asked s e t st k.own k.asked k.inner;
    inner = Step-Inv s e t st k.own k.inner;
    same_capacity = Step-capacity s e t st k.own k.inner ∙ k.same_capacity;
  }

  pub start-Ok : (c : Option ℕ) → is_positive c ≡ true → Ok c (start c)
  unfolding start new
  start-Ok c p = record { own = inl refl; asked = refl; inner = new-Inv c p; same_capacity = refl }

  pub Trace-Ok :
      {c : Option ℕ} {s : System A} {es : List (Event A)} {t : System A}
      → Trace s es t
      → Ok c s
      → Ok c t
  Trace-Ok done k = k
  Trace-Ok (then_step st tr) k = Trace-Ok tr (Step-Ok st k)

  -- One step of a queue before a history whose values keep their order.
  Step-order :
      (e : Event A) (es : List (Event A)) {p q : List A} (r : List A)
      → Fifo p e q
      → Sublistᴰ (deliveries es ++ r) (q ++ arrivals es)
      → Sublistᴰ (deliveries (e ∷ es) ++ r) (p ++ arrivals (e ∷ es))
  Step-order e es r (enqueue v q) h = rw (sym (append_assoc q (v ∷ []) (arrivals es))) h
  Step-order e es r (dequeue v q) h = Sublistᴰ.cons-cons refl h
  Step-order e es r (withdraw xs v ys) h = Sublistᴰ.trans h (
      Sublistᴰ.append (Sublistᴰ.append (Sublistᴰ.refl xs) (Sublistᴰ.cons (Sublistᴰ.refl ys)))
        (Sublistᴰ.refl (arrivals es)))
  Step-order e es r (keep q) h = h
  Step-order e es r (cut xs ys) h = Sublistᴰ.trans h (
      Sublistᴰ.append
        (subst (λ l. Sublistᴰ l (xs ++ ys)) (append-nil xs)
          (Sublistᴰ.append (Sublistᴰ.refl xs) (Sublistᴰ.nil-sublist ys)))
        (Sublistᴰ.refl (arrivals es)))
  Step-order e es r (idle q) h = h

  pub Trace-order :
      {c : Option ℕ} {s : System A} {es : List (Event A)} {t : System A}
      → Trace s es t
      → Ok c s
      → Sublistᴰ (deliveries es ++ pipeline t.state) (pipeline s.state ++ arrivals es)
  Trace-order done k = rw append-nil (Sublistᴰ.refl _)
  Trace-order {s = s} (then_step {t = t} {e = e} {es = es} st tr) k =
      Step-order e es _ (Step-Fifo s e t st k.own k.inner) (Trace-order tr (Step-Ok st k))

  -- The same as an equation, while nothing is withdrawn or refused.
  calm-step :
      (e : Event A) (es : List (Event A)) {p q : List A} (r : List A)
      → Fifo p e q
      → is_calm (e ∷ es) ≡ true
      → (is_calm es ≡ true → deliveries es ++ r ≡ q ++ arrivals es)
      → deliveries (e ∷ es) ++ r ≡ p ++ arrivals (e ∷ es)
  calm-step e es r (enqueue v q) c h = h c ∙ append_assoc q (v ∷ []) (arrivals es)
  calm-step e es r (dequeue v q) c h = ap (λ l. v ∷ l) (h c)
  calm-step e es r (withdraw xs v ys) c h = absurd (cc)
  calm-step e es r (keep q) c h = absurd (cc)
  calm-step e es r (cut xs ys) c h = absurd (cc)
  calm-step e es r (idle q) c h = h c

  pub Trace-calm :
      {c : Option ℕ} {s : System A} {es : List (Event A)} {t : System A}
      → Trace s es t
      → Ok c s
      → is_calm es ≡ true
      → deliveries es ++ pipeline t.state ≡ pipeline s.state ++ arrivals es
  Trace-calm {s = s} done k calm = sym (append-nil _)
  Trace-calm {s = s} (then_step {t = t} {e = e} {es = es} st tr) k calm =
      calm-step e es _ (Step-Fifo s e t st k.own k.inner) calm (λ c. Trace-calm tr (Step-Ok st k) c)
