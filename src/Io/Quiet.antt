-- ===== src/Io/Quiet.antt =====
-- What an action does when the system refuses nothing: it ends with no error. Panics and spent fuel
-- are left to the triples of Io/Triple.antt; `NoError-Triple` puts the two together.
pub mod Calls
use secure_file_shredder_and.Base.{
  ℕ, ◌+◌, ◌≡◌, refl, Bool, true, false, Option, none, some, List, ◌∷◌, Bytes, if◌then◌else◌,
}
use secure_file_shredder_and.Io.Outcome.{Outcome, ok, err, panic, out_of_fuel}
use secure_file_shredder_and.Io.System.{System}
use secure_file_shredder_and.Io.Error.{IoError}
use secure_file_shredder_and.Io.Action.{
  Disk, Event, World, Action, pure, ask, ◌>>=◌, continue, map_err, mapped, try, optional, ignore,
  ended, record_event, lift,
}
use secure_file_shredder_and.Io.Files.{syscall}
use secure_file_shredder_and.Io.Triple.{Assertion, Post, Triple}

-- No system call fails, nobody cancels, and the system's random source answers.
pub record IsQuiet (sys : System) : Type 0 where
  pub no_fault : (t : ℕ) → sys.os.fault t ≡ none
  pub not_cancelled : (t : ℕ) → sys.os.cancel_requested t ≡ false
  pub random_ready : (t n : ℕ) → (bytes : Bytes) × (sys.os.os_random t n ≡ some bytes)

abbrev pub Ends {ℓ κ} : {E : Type ℓ} {A : Type κ} → (A → Assertion) → Outcome E A × World → Type 0
Ends Q (ok a, w) = Q a w.disk w.trace
Ends Q (err e, w) = ⊥
Ends Q (panic, w) = Unit
Ends Q (out_of_fuel, w) = Unit

pub record NoError {ℓ κ} {E : Type ℓ} {A : Type κ} (sys : System) (P : Assertion) (m : Action E A)
    (Q : A → Assertion) : Type 0 where
  pub at : (w : World) → P w.disk w.trace → Ends Q (m sys w)

module _ {ℓ κ} {E : Type ℓ} {A : Type κ} {sys : System} {P : Assertion} where
  pub NoError-pure :
      {Q : A → Assertion} (a : A)
      → ((d : Disk) (t : List Event) → P d t → Q a d t)
      → NoError {E = E} sys P (pure a) Q
  unfolding pure
  NoError-pure a h = record { at = λ w p. h _ _ p }

  pub NoError-ask :
      {Q : A → Assertion} (f : System → ℕ → A)
      → ((n : ℕ) (d : Disk) (t : List Event) → P d t → Q (f sys n) d t)
      → NoError {E = E} sys P (ask f) Q
  unfolding ask
  NoError-ask f h = record { at = λ w p. h w.now _ _ p }

  pub NoError-given :
      {m : Action E A} {Q : A → Assertion}
      → ((d : Disk) (t : List Event) → P d t → NoError sys P m Q)
      → NoError sys P m Q
  NoError-given h = record { at = λ w p. (h _ _ p).at w p }

  pub NoError-pre :
      {m : Action E A} {P' : Assertion} {Q : A → Assertion}
      → NoError sys P' m Q
      → ((d : Disk) (t : List Event) → P d t → P' d t)
      → NoError sys P m Q
  NoError-pre N pre = record { at = λ w p. N.at w (pre _ _ p) }

  -- The action ends with a value.
  pub NoError-Triple :
      {P' : Assertion} {m : Action E A} {Q Q' : A → Assertion} {R : E → Assertion}
      → Triple sys P m Q R
      → NoError sys P' m Q'
      → Triple sys (λ d t. P d t × P' d t) m (λ a d t. Q a d t × Q' a d t) (λ e d t. ⊥)
  NoError-Triple {m} {Q} {Q'} {R} T N = record {
    at = λ w p. both (m sys w) (T.at w p.0) (N.at w p.1);
  }
    where
      both :
          (r : Outcome E A × World)
          → Post Q R r
          → Ends Q' r
          → Post (λ a d t. Q a d t × Q' a d t) (λ e d t. ⊥) r
      both (ok a, w) p q = (p, q)
      both (err e, w) p q = q
      both (panic, w) p q = elim p [ ]
      both (out_of_fuel, w) p q = elim p [ ]

module _ {ℓ κ μ} {E : Type ℓ} {A : Type κ} {B : Type μ} {sys : System} {P : Assertion} where
  pub NoError-bind :
      {m : Action E A} {f : A → Action E B} {S : A → Assertion} {Q : B → Assertion}
      → NoError sys P m S
      → ((a : A) → NoError sys (S a) (f a) Q)
      → NoError sys P (m >>= f) Q
  unfolding ◌>>=◌
  NoError-bind {m} {f} {S} {Q} N F = record { at = λ w p. step (m sys w) (N.at w p) }
    where
      step : (r : Outcome E A × World) → Ends S r → Ends Q (continue r.0 f sys r.1)
      step (ok a, w) q = (F a).at w q
      step (err e, w) q = elim q [ ]
      step (panic, w) q = tt
      step (out_of_fuel, w) q = tt

module _ {ℓ κ μ} {E : Type ℓ} {F : Type κ} {A : Type μ} {sys : System} {P : Assertion} where
  pub NoError-map_err :
      {m : Action E A} {Q : A → Assertion} (g : E → F)
      → NoError sys P m Q
      → NoError sys P (map_err g m) Q
  unfolding map_err
  NoError-map_err {m} {Q} g N = record { at = λ w p. step (m sys w) (N.at w p) }
    where
      step : (r : Outcome E A × World) → Ends Q r → Ends Q (mapped g r.0, r.1)
      step (ok a, w) q = q
      step (err e, w) q = elim q [ ]
      step (panic, w) q = tt
      step (out_of_fuel, w) q = tt

  pub NoError-try :
      {m : Action E A} {Q : Assertion}
      → NoError sys P m (λ a. Q)
      → NoError {E = F} sys P (try m) (λ o. Q)
  unfolding try
  NoError-try {m} {Q} N = record { at = λ w p. step (m sys w) (N.at w p) }
    where
      step : (r : Outcome E A × World) → Ends (λ a. Q) r → Ends {E = F} (λ o. Q) (optional r.0, r.1)
      step (ok a, w) q = q
      step (err e, w) q = elim q [ ]
      step (panic, w) q = tt
      step (out_of_fuel, w) q = tt

  pub NoError-ignore :
      {m : Action E A} {Q : Assertion}
      → NoError sys P m (λ a. Q)
      → NoError {E = F} sys P (ignore m) (λ o. Q)
  unfolding ignore
  NoError-ignore {m} {Q} N = record { at = λ w p. step (m sys w) (N.at w p) }
    where
      step : (r : Outcome E A × World) → Ends (λ a. Q) r → Ends {E = F} (λ o. Q) (ended r.0, r.1)
      step (ok a, w) q = q
      step (err e, w) q = elim q [ ]
      step (panic, w) q = tt
      step (out_of_fuel, w) q = tt

module _ {ℓ} {E : Type ℓ} {sys : System} {P : Assertion} where
  pub NoError-event :
      {Q : Unit {0} → Assertion} (e : Event)
      → ((d : Disk) (t : List Event) → P d t → Q tt d (e ∷ t))
      → NoError {E = E} sys P (record_event e) Q
  unfolding record_event
  NoError-event e h = record { at = λ w p. h _ _ p }

module _ {ℓ κ} {E : Type ℓ} {A : Type κ} {sys : System} {P : Assertion} where
  pub NoError-lift :
      {Q : A → Assertion} (r : Outcome E A)
      → ((e : E) → ¬ (r ≡ err e))
      → ((a : A) (d : Disk) (t : List Event) → P d t → Q a d t)
      → NoError sys P (lift r) Q
  unfolding lift
  NoError-lift (ok a) h run = record { at = λ w p. run a _ _ p }
  NoError-lift (err e) h run = record { at = λ w p. absurd (h e refl) }
  NoError-lift panic h run = record { at = λ w p. tt }
  NoError-lift out_of_fuel h run = record { at = λ w p. tt }

  -- Spent fuel is no error; that there is enough is said elsewhere.
  pub NoError-spent : {Q : A → Assertion} → NoError {E = E} sys P (lift out_of_fuel) Q
  unfolding lift
  NoError-spent = record { at = λ w p. tt }

  pub NoError-post :
      {m : Action E A} {Q Q' : A → Assertion}
      → NoError sys P m Q'
      → ((a : A) (d : Disk) (t : List Event) → Q' a d t → Q a d t)
      → NoError sys P m Q
  NoError-post {m} {Q} {Q'} N post = record { at = λ w p. step (m sys w) (N.at w p) }
    where
      step : (r : Outcome E A × World) → Ends Q' r → Ends Q r
      step (ok a, w) q = post a _ _ q
      step (err e, w) q = q
      step (panic, w) q = tt
      step (out_of_fuel, w) q = tt

module _ {A : Type 0} {sys : System} {P : Assertion} where
  -- A call that the system does not refuse.
  pub NoError-syscall :
      {Q : A → Assertion} (f : World → Outcome IoError A × World)
      → IsQuiet sys
      → ((w : World) → P w.disk w.trace → Ends Q (f w))
      → NoError sys P (syscall f) Q
  unfolding syscall
  NoError-syscall {Q} f quiet run = record {
    at = λ w p. step w p (sys.os.fault w.now) (quiet.no_fault w.now);
  }
    where
      step :
          (w : World)
          → P w.disk w.trace
          → (o : Option IoError) → o ≡ none
          → let w' = record w { now = w.now + 1 } in
            Ends {E = IoError} Q (elim o [ none ↦ f w' | some e ↦ (err e, w') ])
      step w p none e = run _ p
      step w p (some x) e = cc
