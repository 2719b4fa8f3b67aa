-- ===== src/Prelude/Outcome.antt =====
-- Go's errors as values, with panics beside them, and stateful code that may fail.
use Prim.Native.String.{String}
use mathlib.Core.Path.{◌≡◌, refl}
use mathlib.Core.Logic.{◌⊎◌, inl, inr}
use mathlib.Core.Bool.{Bool, true, false}

-- What `k8serrors.IsNotFound`, `k8serrors.IsAlreadyExists` and `err == AlreadyAssignedErr` tell.
pub data Kind : Type 0 where
  not_found already_exists already_assigned plain : Kind

-- A Go `error`: its kind, and the text that `Error()` returns.
pub record Error : Type 0 where
  pub kind : Kind
  pub message : String

abbrev pub is_not_found : Error → Bool
is_not_found e = elim e.kind [ not_found ↦ true | _ ↦ false ]

abbrev pub is_already_exists : Error → Bool
is_already_exists e = elim e.kind [ already_exists ↦ true | _ ↦ false ]

abbrev pub is_already_assigned : Error → Bool
is_already_assigned e = elim e.kind [ already_assigned ↦ true | _ ↦ false ]

-- `fmt.Errorf(…)`
abbrev pub errorf : String → Error
errorf text = record { kind = plain; message = text }

-- What a call gives back; `panic` is a run-time panic, which no caller in the program recovers.
pub data Result {ℓ} (A : Type ℓ) : Type ℓ where
  ok : A → Result A
  err : Error → Result A
  panic : Result A

module _ {ℓ} {A : Type ℓ} where
  abbrev pub is_ok : Result A → Bool
  is_ok (ok a) = true
  is_ok _ = false

  pub Result-cases : (r : Result A) → ((a : A) × (r ≡ ok a)) ⊎ (is_ok r ≡ false)
  Result-cases (ok a) = inl (a, refl)
  Result-cases (err e) = inr refl
  Result-cases panic = inr refl

-- Code over a state, which keeps what was written before an error.
abbrev pub Exec {ℓ} : Type ℓ → Type ℓ → Type ℓ
Exec S A = S → Result A × S

module _ {ℓ} {S A : Type ℓ} where
  abbrev pub pure : A → Exec S A
  pure a s = (ok a, s)

  abbrev pub fail : Error → Exec S A
  fail e s = (err e, s)

  abbrev pub lift : Result A → Exec S A
  lift r s = (r, s)

-- A step beside a part of the state that it does not see.
abbrev pub beside : {W S A : Type 0} → Exec S A → Exec (W × S) A
beside m (w, s) = let (r, s') = m s in (r, (w, s'))

module _ {ℓ} {S A B : Type ℓ} where
  abbrev pub proceed : Result A → (A → Exec S B) → Exec S B
  proceed (ok a) f s = f a s
  proceed (err e) f s = (err e, s)
  proceed panic f s = (panic, s)

  infixl 5 ◌>>=◌
  abbrev pub ◌>>=◌ : Exec S A → (A → Exec S B) → Exec S B
  ◌>>=◌ m f s = let (r, s') = m s in proceed r f s'

  -- A property of the state after a step and after what follows it.
  pub proceed_keeps {κ} :
      (P : S → Type κ) (r : Result A) (f : A → Exec S B) (s : S)
      → P s
      → ((a : A) → r ≡ ok a → P (f a s).1)
      → P (proceed r f s).1
  proceed_keeps P (ok a) f s here after = after a refl
  proceed_keeps P (err e) f s here after = here
  proceed_keeps P panic f s here after = here
