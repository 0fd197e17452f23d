-- ===== src/Io/Triple.antt =====
-- Total Hoare triples over actions: from a world in which `P` holds, the action ends with a value
-- and `Q`, or with an error and `R`, and neither panics nor runs out of fuel. Assertions are about
-- the disk and the trace, not about the moment.
use secure_file_shredder_and.Base.{
  ℕ, ◌+◌, ◌≡◌, ◌⊎◌, inl, inr, refl, Bool, true, false, Option, none, some, List, ◌∷◌, if◌then◌else◌,
}
use secure_file_shredder_and.Io.Outcome.{Outcome, ok, err, panic, out_of_fuel, Ensures}
use secure_file_shredder_and.Io.System.{System}
use secure_file_shredder_and.Io.Error.{IoError}
use secure_file_shredder_and.Io.Action.{
  Disk, Event, World, Action, pure, raise, ask, ◌>>=◌, continue, map_err, mapped, try, optional,
  ignore, ended, record_event,
}
use secure_file_shredder_and.Io.Files.{syscall}

abbrev pub Assertion : Type 1
Assertion = Disk → List Event → Type 0

abbrev pub Post {ℓ κ} :
    {E : Type ℓ} {A : Type κ} → (A → Assertion) → (E → Assertion) → Outcome E A × World → Type 0
Post Q R (r, w) = Ensures (λ a. Q a w.disk w.trace) (λ e. R e w.disk w.trace) r

pub record Triple {ℓ κ} {E : Type ℓ} {A : Type κ} (sys : System) (P : Assertion) (m : Action E A)
    (Q : A → Assertion) (R : E → Assertion) : Type 0 where
  pub at : (w : World) → P w.disk w.trace → Post Q R (m sys w)

module _ {ℓ κ} {E : Type ℓ} {A : Type κ} {sys : System} where
  -- A value that the precondition gives.
  pub Triple-exists :
      {X : Type 0} {P' : X → Assertion} {m : Action E A} {Q : A → Assertion} {R : E → Assertion}
      → ((x : X) → Triple sys (P' x) m Q R)
      → Triple sys (λ d t. (x : X) × P' x d t) m Q R
  Triple-exists h = record { at = λ w (x, p). (h x).at w p }

  pub Triple-or :
      {P P' : Assertion} {m : Action E A} {Q : A → Assertion} {R : E → Assertion}
      → Triple sys P m Q R
      → Triple sys P' m Q R
      → Triple sys (λ d t. P d t ⊎ P' d t) m Q R
  Triple-or {P} {P'} {m} {Q} {R} T T' = record { at = step }
    where
      step : (w : World) → (P w.disk w.trace ⊎ P' w.disk w.trace) → Post Q R (m sys w)
      step w (inl p) = T.at w p
      step w (inr p) = T'.at w p

module _ {ℓ κ} {E : Type ℓ} {A : Type κ} {sys : System} {P : Assertion} where
  pub Triple-pure :
      {Q : A → Assertion} {R : E → Assertion} (a : A)
      → ((d : Disk) (t : List Event) → P d t → Q a d t)
      → Triple sys P (pure a) Q R
  unfolding pure
  Triple-pure a h = record { at = λ w p. h _ _ p }

  pub Triple-raise :
      {Q : A → Assertion} {R : E → Assertion} (e : E)
      → ((d : Disk) (t : List Event) → P d t → R e d t)
      → Triple sys P (raise {A = A} e) Q R
  unfolding raise
  Triple-raise e h = record { at = λ w p. h _ _ p }

  pub Triple-ask :
      {Q : A → Assertion} {R : E → Assertion} (f : System → ℕ → A)
      → ((n : ℕ) (d : Disk) (t : List Event) → P d t → Q (f sys n) d t)
      → Triple sys P (ask f) Q R
  unfolding ask
  Triple-ask f h = record { at = λ w p. h w.now _ _ p }

  -- What the precondition says of the world may be used to prove the triple.
  pub Triple-given :
      {m : Action E A} {Q : A → Assertion} {R : E → Assertion}
      → ((d : Disk) (t : List Event) → P d t → Triple sys P m Q R)
      → Triple sys P m Q R
  Triple-given h = record { at = λ w p. (h _ _ p).at w p }

  -- The world before may be named.
  pub Triple-fixed :
      {m : Action E A} {Q : A → Assertion} {R : E → Assertion}
      → ((d : Disk) (t : List Event) → P d t → Triple sys (λ d' t'. (d' ≡ d) × (t' ≡ t)) m Q R)
      → Triple sys P m Q R
  Triple-fixed h = record { at = λ w p. (h _ _ p).at w (refl, refl) }

  pub Triple-weaken :
      {m : Action E A} {P' : Assertion} {Q Q' : A → Assertion} {R R' : E → Assertion}
      → Triple sys P' m Q' R'
      → ((d : Disk) (t : List Event) → P d t → P' d t)
      → ((a : A) (d : Disk) (t : List Event) → Q' a d t → Q a d t)
      → ((e : E) (d : Disk) (t : List Event) → R' e d t → R e d t)
      → Triple sys P m Q R
  Triple-weaken {m} {Q} {Q'} {R} {R'} T pre post fail = record {
    at = λ w p. weaken (m sys w) (T.at w (pre _ _ p));
  }
    where
      weaken : (r : Outcome E A × World) → Post Q' R' r → Post Q R r
      weaken (ok a, w) q = post a _ _ q
      weaken (err e, w) q = fail e _ _ q
      weaken (panic, w) q = elim q [ ]
      weaken (out_of_fuel, w) q = elim q [ ]

  pub Triple-pre :
      {m : Action E A} {P' : Assertion} {Q : A → Assertion} {R : E → Assertion}
      → Triple sys P' m Q R
      → ((d : Disk) (t : List Event) → P d t → P' d t)
      → Triple sys P m Q R
  Triple-pre T pre = record { at = λ w p. T.at w (pre _ _ p) }

  pub Triple-if :
      {m n : Action E A} {Q : A → Assertion} {R : E → Assertion} (b : Bool)
      → (b ≡ true → Triple sys P m Q R)
      → (b ≡ false → Triple sys P n Q R)
      → Triple sys P (if b then m else n) Q R
  Triple-if true t e = t refl
  Triple-if false t e = e refl

module _ {ℓ κ μ} {E : Type ℓ} {A : Type κ} {B : Type μ} {sys : System} {P : Assertion} where
  pub Triple-bind :
      {m : Action E A} {f : A → Action E B} {S : A → Assertion} {Q : B → Assertion}
      {R : E → Assertion}
      → Triple sys P m S R
      → ((a : A) → Triple sys (S a) (f a) Q R)
      → Triple sys P (m >>= f) Q R
  unfolding ◌>>=◌
  Triple-bind {m} {f} {S} {Q} {R} T F = record { at = λ w p. step (m sys w) (T.at w p) }
    where
      step : (r : Outcome E A × World) → Post S R r → Post Q R (continue r.0 f sys r.1)
      step (ok a, w) q = (F a).at w q
      step (err e, w) q = q
      step (panic, w) q = elim q [ ]
      step (out_of_fuel, w) q = elim q [ ]

module _ {ℓ κ μ} {E : Type ℓ} {F : Type κ} {A : Type μ} {sys : System} {P : Assertion} where
  pub Triple-map_err :
      {m : Action E A} {Q : A → Assertion} {R : F → Assertion} (g : E → F)
      → Triple sys P m Q (λ e. R (g e))
      → Triple sys P (map_err g m) Q R
  unfolding map_err
  Triple-map_err {m} {Q} {R} g T = record { at = λ w p. step (m sys w) (T.at w p) }
    where
      step : (r : Outcome E A × World) → Post Q (λ e. R (g e)) r → Post Q R (mapped g r.0, r.1)
      step (ok a, w) q = q
      step (err e, w) q = q
      step (panic, w) q = elim q [ ]
      step (out_of_fuel, w) q = elim q [ ]

  pub Triple-try :
      {m : Action E A} {Q : Option A → Assertion} {R : F → Assertion}
      → Triple sys P m (λ a. Q (some a)) (λ e. Q none)
      → Triple sys P (try m) Q R
  unfolding try
  Triple-try {m} {Q} {R} T = record { at = λ w p. step (m sys w) (T.at w p) }
    where
      step :
          (r : Outcome E A × World)
          → Post (λ a. Q (some a)) (λ e. Q none) r
          → Post Q R (optional r.0, r.1)
      step (ok a, w) q = q
      step (err e, w) q = q
      step (panic, w) q = elim q [ ]
      step (out_of_fuel, w) q = elim q [ ]

  pub Triple-ignore :
      {m : Action E A} {Q : Unit {0} → Assertion} {R : F → Assertion}
      → Triple sys P m (λ a. Q tt) (λ e. Q tt)
      → Triple sys P (ignore m) Q R
  unfolding ignore
  Triple-ignore {m} {Q} {R} T = record { at = λ w p. step (m sys w) (T.at w p) }
    where
      step : (r : Outcome E A × World) → Post (λ a. Q tt) (λ e. Q tt) r → Post Q R (ended r.0, r.1)
      step (ok a, w) q = q
      step (err e, w) q = q
      step (panic, w) q = elim q [ ]
      step (out_of_fuel, w) q = elim q [ ]

module _ {ℓ} {E : Type ℓ} {sys : System} {P : Assertion} where
  pub Triple-event :
      {Q : Unit {0} → Assertion} {R : E → Assertion} (e : Event)
      → ((d : Disk) (t : List Event) → P d t → Q tt d (e ∷ t))
      → Triple sys P (record_event e) Q R
  unfolding record_event
  Triple-event e h = record { at = λ w p. h _ _ p }

module _ {A : Type 0} {sys : System} {P : Assertion} where
  pub Triple-syscall :
      {Q : A → Assertion} {R : IoError → Assertion} (f : World → Outcome IoError A × World)
      → ((w : World) → P w.disk w.trace → Post Q R (f w))
      → ((e : IoError) (d : Disk) (t : List Event) → P d t → R e d t)
      → Triple sys P (syscall f) Q R
  unfolding syscall
  Triple-syscall {Q} {R} f run fail = record { at = λ w p. step w p (sys.os.fault w.now) }
    where
      step :
          (w : World)
          → P w.disk w.trace
          → (o : Option IoError)
          → let w' = record w { now = w.now + 1 } in
            Post Q R (elim o [ none ↦ f w' | some e ↦ (err e, w') ])
      step w p none = run _ p
      step w p (some e) = fail e _ _ p
