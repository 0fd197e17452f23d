-- ===== src/Io/Frame.antt =====
-- Actions that leave a path as it is, however they end.
use secure_file_shredder_and.Base.{
  ℕ, ◌+◌, ◌≡◌, ◌≢◌, refl, ◌∙◌, Bool, true, false, Option, none, some, Bytes, take, if◌then◌else◌,
}
use secure_file_shredder_and.Io.Outcome.{Outcome, ok, err, panic, out_of_fuel}
use secure_file_shredder_and.Io.Path.{FilePath}
use secure_file_shredder_and.Io.Error.{IoError}
use secure_file_shredder_and.Io.System.{System}
use secure_file_shredder_and.Io.Action.{
  Node, file, dir, World, Action, pure, raise, lift, ask, ◌>>=◌, continue, map_err, mapped,
}
use secure_file_shredder_and.Io.Triple.{Assertion, Post, Triple}
use secure_file_shredder_and.Io.Files.{Handle, syscall, write_all, put, open_append, appended}
use secure_file_shredder_and.Io.Files.Laws.{update_ne}

-- What is known of a value.
abbrev pub Gives {ℓ κ} : {E : Type ℓ} {A : Type κ} → (A → Type 0) → Outcome E A → Type 0
Gives V (ok a) = V a
Gives V _ = Unit

pub Gives-Unit {ℓ κ} : {E : Type ℓ} {A : Type κ} (r : Outcome E A) → Gives (λ a. Unit) r
Gives-Unit (ok a) = tt
Gives-Unit (err e) = tt
Gives-Unit panic = tt
Gives-Unit out_of_fuel = tt

pub record Keeps {ℓ κ} {E : Type ℓ} {A : Type κ} (sys : System) (q : FilePath) (m : Action E A)
    (V : A → Type 0) : Type 0 where
  pub at : (w : World) → (m sys w).1.disk q ≡ w.disk q
  pub value : (w : World) → Gives V (m sys w).0

module _ {ℓ κ} {E : Type ℓ} {A : Type κ} {sys : System} {q : FilePath} where
  pub Keeps-pure : {V : A → Type 0} (a : A) → V a → Keeps sys q (pure {E = E} a) V
  unfolding pure
  Keeps-pure a v = record { at = λ w. refl; value = λ w. v }

  pub Keeps-raise : {V : A → Type 0} (e : E) → Keeps sys q (raise e) V
  unfolding raise
  Keeps-raise e = record { at = λ w. refl; value = λ w. tt }

  pub Keeps-lift : (r : Outcome E A) → Keeps sys q (lift r) (λ a. Unit)
  unfolding lift
  Keeps-lift r = record { at = λ w. refl; value = λ w. Gives-Unit r }

  pub Keeps-ask : (f : System → ℕ → A) → Keeps sys q (ask {E = E} f) (λ a. Unit)
  unfolding ask
  Keeps-ask f = record { at = λ w. refl; value = λ w. tt }

  pub Keeps-if :
      {m n : Action E A} {V : A → Type 0} (b : Bool)
      → Keeps sys q m V
      → Keeps sys q n V
      → Keeps sys q (if b then m else n) V
  Keeps-if true h k = h
  Keeps-if false h k = k

  -- What a triple says, and a path as it was.
  pub Keeps-Triple :
      {P : Assertion} {m : Action E A} {V : A → Type 0} {Q : A → Assertion} {R : E → Assertion}
      (v : Option Node)
      → Keeps sys q m V
      → Triple sys P m Q R
      → Triple sys
          (λ d t. P d t × (d q ≡ v))
          m
          (λ a d t. Q a d t × (d q ≡ v))
          (λ e d t. R e d t × (d q ≡ v))
  Keeps-Triple {m} {Q} {R} v K T = record { at = λ w p. both (m sys w) (T.at w p.0) (K.at w ∙ p.1) }
    where
      both :
          (r : Outcome E A × World)
          → Post Q R r
          → r.1.disk q ≡ v
          → Post (λ a d t. Q a d t × (d q ≡ v)) (λ e d t. R e d t × (d q ≡ v)) r
      both (ok a, w) p e = (p, e)
      both (err x, w) p e = (p, e)
      both (panic, w) p e = p
      both (out_of_fuel, w) p e = p

module _ {ℓ κ μ} {E : Type ℓ} {A : Type κ} {B : Type μ} {sys : System} {q : FilePath} where
  pub Keeps-bind :
      {m : Action E A} {f : A → Action E B} {V : A → Type 0} {W : B → Type 0}
      → Keeps sys q m V
      → ((a : A) → V a → Keeps sys q (f a) W)
      → Keeps sys q (m >>= f) W
  unfolding ◌>>=◌
  Keeps-bind {m} {f} {V} {W} K F = record {
    at = λ w. step (m sys w) (K.value w) ∙ K.at w;
    value = λ w. given (m sys w) (K.value w);
  }
    where
      step :
          (r : Outcome E A × World) → Gives V r.0 → (continue r.0 f sys r.1).1.disk q ≡ r.1.disk q
      step (ok a, w) v = (F a v).at w
      step (err e, w) v = refl
      step (panic, w) v = refl
      step (out_of_fuel, w) v = refl

      given : (r : Outcome E A × World) → Gives V r.0 → Gives W (continue r.0 f sys r.1).0
      given (ok a, w) v = (F a v).value w
      given (err e, w) v = tt
      given (panic, w) v = tt
      given (out_of_fuel, w) v = tt

module _ {ℓ κ μ} {E : Type ℓ} {F : Type κ} {A : Type μ} {sys : System} {q : FilePath} where
  pub Keeps-map_err :
      {m : Action E A} {V : A → Type 0} (g : E → F) → Keeps sys q m V → Keeps sys q (map_err g m) V
  unfolding map_err
  Keeps-map_err {m} {V} g K = record {
    at = λ w. K.at w;
    value = λ w. given (m sys w).0 (K.value w);
  }
    where
      given : (r : Outcome E A) → Gives V r → Gives V (mapped g r)
      given (ok a) v = v
      given (err e) v = tt
      given panic v = tt
      given out_of_fuel v = tt

-- A call's result and the path after it, together.
abbrev KeepsIn {κ} :
    {E : Type 0} {A : Type κ} → FilePath → (A → Type 0) → World → Outcome E A × World → Type 0
KeepsIn q V w r = (r.1.disk q ≡ w.disk q) × Gives V r.0

put-keeps :
    (q : FilePath) (h : Handle) (chunk : Bytes) (o : Option Node) (w : World)
    → q ≢ h.path
    → KeepsIn q (λ k. k.path ≡ h.path) w (put h chunk o w)
put-keeps q h chunk none w n = (refl, tt)
put-keeps q h chunk (some dir) w n = (refl, tt)
put-keeps q h chunk (some (file b)) w n = (update_ne _ _ _ _ n, refl)

module _ {sys : System} {q : FilePath} where
  pub Keeps-write_all :
      (h : Handle) (chunk : Bytes)
      → q ≢ h.path
      → Keeps sys q (write_all h chunk) (λ k. k.path ≡ h.path)
  unfolding write_all
  Keeps-write_all h chunk n = record {
    at = λ w. (step w (sys.os.fault w.now)).0;
    value = λ w. (step w (sys.os.fault w.now)).1;
  }
    where
      step :
          (w : World) (o : Option IoError)
          → let w' = record w { now = w.now + 1 } in
            let part = take (sys.os.written_before_fault w.now) chunk in
            let r : Outcome IoError Handle × World = elim o [
              | none ↦ put h chunk (w.disk h.path) w'
              | some e ↦ (err e, (put h part (w.disk h.path) w').1)
            ] in
            KeepsIn q (λ k. k.path ≡ h.path) w r
      step w none = put-keeps q h chunk (w.disk h.path) _ n
      step w (some e) = ((put-keeps q h _ (w.disk h.path) _ n).0, tt)

  pub Keeps-open_append : (p : FilePath) → q ≢ p → Keeps sys q (open_append p) (λ h. h.path ≡ p)
  unfolding open_append syscall
  Keeps-open_append p n = record {
    at = λ w. (step w (sys.os.fault w.now)).0;
    value = λ w. (step w (sys.os.fault w.now)).1;
  }
    where
      there : (w : World) (o : Option Node) → KeepsIn q (λ h. h.path ≡ p) w (appended p o w)
      there w none = (update_ne _ _ _ _ n, refl)
      there w (some (file b)) = (refl, refl)
      there w (some dir) = (refl, tt)

      step :
          (w : World) (o : Option IoError)
          → let w' = record w { now = w.now + 1 } in
            let r : Outcome IoError Handle × World = elim o [
              | none ↦ appended p (w'.disk p) w'
              | some e ↦ (err e, w')
            ] in
            KeepsIn q (λ h. h.path ≡ p) w r
      step w none = there _ (w.disk p)
      step w (some e) = (refl, tt)
