-- ===== src/Sync/Step.antt =====
-- The tasks of src/sync/process as steps: a step changes the world it runs in (the database and what
-- has been sent) and gives a value or an error. An error keeps what was written before it.
use quantoxide.Prelude.{Result, err, map_err, ok, refl, ◌≡◌}

abbrev pub Step : Type 0 → Type 0 → Type 0 → Type 0
Step W E A = W → W × Result A E

module _ {W E A : Type 0} where
  abbrev pub pure : A → Step W E A
  pure a w = (w, ok a)

  abbrev pub throw : E → Step W E A
  throw e w = (w, err e)

  abbrev pub of_result : Result A E → Step W E A
  of_result r w = (w, r)

  -- `I` holds of the world where a step ends, and `Q` of the world and the value, if there is one.
  abbrev pub Ends : (W → Type 0) → (W → A → Type 0) → W × Result A E → Type 0
  Ends I Q (w, ok a) = I w × Q w a
  Ends I Q (w, err e) = I w

  pub of_result-Ends :
      (I : W → Type 0) (Q : W → A → Type 0) (r : Result A E) (w : W)
      → I w
      → ((a : A) → r ≡ ok a → Q w a)
      → Ends I Q (of_result r w)
  of_result-Ends I Q (ok a) w h k = (h, k a refl)
  of_result-Ends I Q (err e) w h k = h

module _ {W E F A : Type 0} where
  pub map_err-Ends :
      (I : W → Type 0) (Q : W → A → Type 0) (f : F → E) (r : Result A F) (w : W)
      → I w
      → ((a : A) → r ≡ ok a → Q w a)
      → Ends I Q (w, map_err f r)
  map_err-Ends I Q f (ok a) w h k = (h, k a refl)
  map_err-Ends I Q f (err e) w h k = h

module _ {W E A B : Type 0} where
  abbrev pub then_step : W × Result A E → (A → Step W E B) → W × Result B E
  then_step (w, ok a) f = f a w
  then_step (w, err e) f = (w, err e)

  infixl 5 ◌>>=◌ ◌>>◌
  abbrev pub ◌>>=◌ : Step W E A → (A → Step W E B) → Step W E B
  ◌>>=◌ m f w = then_step (m w) f

  abbrev pub ◌>>◌ : Step W E A → Step W E B → Step W E B
  m >> k = m >>= λ _. k

  -- What a step ensures, the step after it can rely on.
  pub then_step-Ends :
      (I : W → Type 0) (Q : W → A → Type 0) (R : W → B → Type 0) (r : W × Result A E)
      (f : A → Step W E B)
      → Ends I Q r
      → ((w : W) (a : A) → I w → Q w a → Ends I R (f a w))
      → Ends I R (then_step r f)
  then_step-Ends I Q R (w, ok a) f h k = k w a h.0 h.1
  then_step-Ends I Q R (w, err e) f h k = h
