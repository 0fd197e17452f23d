-- ===== src/Io/Action.antt =====
-- Stateful code: it reads the system, changes the world, and ends in an outcome. What was changed
-- before an error stays changed.
use secure_file_shredder_and.Base.{ℕ, ◌+◌, Option, none, some, List, ◌∷◌, Bytes}
use secure_file_shredder_and.Io.Outcome.{Outcome, ok, err, panic, out_of_fuel}
use secure_file_shredder_and.Io.Path.{FilePath}
use secure_file_shredder_and.Io.System.{System}

pub data Node : Type 0 where
  file : Bytes → Node
  dir : Node

abbrev pub Disk : Type 0
Disk = FilePath → Option Node

-- What the program has done, for statements about the order of its effects.
pub data Event : Type 0 where
  wrote : FilePath → ℕ → Bytes → Event
  synced : FilePath → Bytes → Event
  renamed : FilePath → FilePath → Event
  removed : FilePath → Bytes → Event
  progress : ℕ → ℕ → ℕ → Event
  file_done : ℕ → ℕ → Event

pub record World : Type 0 where
  pub disk : Disk
  pub now : ℕ
  -- the newest first
  pub trace : List Event

abbrev pub Action {ℓ κ} : Type ℓ → Type κ → Type (ℓ ⊔ κ)
Action E A = System → World → Outcome E A × World

module _ {ℓ κ} {E : Type ℓ} {A : Type κ} where
  unfoldable pub pure : A → Action E A
  pure a sys w = (ok a, w)

  unfoldable pub raise : E → Action E A
  raise e sys w = (err e, w)

  unfoldable pub lift : Outcome E A → Action E A
  lift r sys w = (r, w)

  -- A question to the system takes a moment.
  unfoldable pub ask : (System → ℕ → A) → Action E A
  ask f sys w = (ok (f sys w.now), record w { now = w.now + 1 })

module _ {ℓ} {E : Type ℓ} where
  unfoldable pub record_event : Event → Action E (Unit {0})
  record_event e sys w = (ok tt, record w { trace = e ∷ w.trace })

module _ {ℓ κ μ} {E : Type ℓ} {A : Type κ} {B : Type μ} where
  abbrev pub continue : Outcome E A → (A → Action E B) → Action E B
  continue (ok a) f sys w = f a sys w
  continue (err e) f sys w = (err e, w)
  continue panic f sys w = (panic, w)
  continue out_of_fuel f sys w = (out_of_fuel, w)

  infixl 10 ◌>>=◌
  unfoldable pub ◌>>=◌ : Action E A → (A → Action E B) → Action E B
  unfolding pure raise lift ask record_event
  ◌>>=◌ m f sys w = let (r, w') = m sys w in continue r f sys w'

module _ {ℓ μ} {E : Type ℓ} {B : Type μ} where
  infixl 10 ◌>>◌
  abbrev pub ◌>>◌ : Action E (Unit {0}) → Action E B → Action E B
  m >> n = m >>= λ _. n

module _ {ℓ κ μ} {E : Type ℓ} {F : Type κ} {A : Type μ} where
  abbrev pub mapped : (E → F) → Outcome E A → Outcome F A
  mapped f (ok a) = ok a
  mapped f (err e) = err (f e)
  mapped f panic = panic
  mapped f out_of_fuel = out_of_fuel

  -- `.map_err(f)`
  unfoldable pub map_err : (E → F) → Action E A → Action F A
  map_err f m sys w = let (r, w') = m sys w in (mapped f r, w')

  abbrev pub optional : Outcome E A → Outcome F (Option A)
  optional (ok a) = ok (some a)
  optional (err e) = ok none
  optional panic = panic
  optional out_of_fuel = out_of_fuel

  -- `.ok()`
  unfoldable pub try : Action E A → Action F (Option A)
  try m sys w = let (r, w') = m sys w in (optional r, w')

  abbrev pub ended : Outcome E A → Outcome F (Unit {0})
  ended (ok a) = ok tt
  ended (err e) = ok tt
  ended panic = panic
  ended out_of_fuel = out_of_fuel

  -- `let _ =`
  unfoldable pub ignore : Action E A → Action F (Unit {0})
  ignore m sys w = let (r, w') = m sys w in (ended r, w')
