-- ===== src/Io/Returns.antt =====
-- Outcomes of code that is given: they are a value or an error.
use secure_file_shredder_and.Base.{◌≡◌, refl, Option, none, some, List}
use secure_file_shredder_and.Io.Outcome.{Outcome, ok, err, panic, out_of_fuel, ok_or}
use secure_file_shredder_and.Io.System.{System}
use secure_file_shredder_and.Io.Action.{Disk, Event, lift}
use secure_file_shredder_and.Io.Triple.{Assertion, Triple}

-- Neither a panic nor spent fuel.
abbrev pub Returns {ℓ κ} : {E : Type ℓ} {A : Type κ} → Outcome E A → Type 0
Returns (ok a) = Unit
Returns (err e) = Unit
Returns panic = ⊥
Returns out_of_fuel = ⊥

pub ok_or-Returns {ℓ κ} : {E : Type ℓ} {A : Type κ} (o : Option A) (e : E) → Returns (ok_or o e)
ok_or-Returns none e = tt
ok_or-Returns (some a) e = tt

pub Triple-lift {ℓ κ} :
    {E : Type ℓ} {A : Type κ} {sys : System} {P : Assertion} {Q : A → Assertion} {R : E → Assertion}
    (r : Outcome E A)
    → Returns r
    → ((a : A) (d : Disk) (t : List Event) → r ≡ ok a → P d t → Q a d t)
    → ((e : E) (d : Disk) (t : List Event) → r ≡ err e → P d t → R e d t)
    → Triple sys P (lift r) Q R
unfolding lift
Triple-lift (ok a) h run fail = record { at = λ w p. run a _ _ refl p }
Triple-lift (err e) h run fail = record { at = λ w p. fail e _ _ refl p }
Triple-lift panic h run fail = elim h [ ]
Triple-lift out_of_fuel h run fail = elim h [ ]
