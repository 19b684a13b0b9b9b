-- ===== src/Base/Results.antt =====
-- Errors as values. `fmt.Errorf` and the sentinel errors are constructors, with the text that
-- the message names; a wrapped error keeps what `errors.Is` can see.
use Prim.Native.Nat.{ℕ}
use mathlib.Core.Path.{◌≡◌, refl, subst}
use mathlib.Core.Logic.{◌≢◌, ◌⊎◌, inl, inr}
use mathlib.Core.Bool.{Bool, true, false}
use mathlib.Core.Option.{Option, none, some}
use semantic_intelligence_la.Base.Texts.{Text}

pub data Error : Type 0 where
  required : Text → Error  -- "<field> is required"
  unsupported : Text → Text → Error  -- "unsupported <what> %q"
  invalid : Text → Error
  not_found : Error  -- agents.ErrNotFound
  approval_required : Error  -- harness.ErrApprovalRequired
  policy_denied : Error  -- harness.ErrPolicyDenied
  cancelled : Error  -- ctx.Err()
  external : ℕ → Error  -- an error of the operating system or of a library
  wrapped : Text → Error → Error  -- fmt.Errorf("…: %w", err)

pub data Result {ℓ} (A : Type ℓ) : Type ℓ where
  ok : A → Result A
  err : Error → Result A

module _ {ℓ κ} {A : Type ℓ} {B : Type κ} where
  infixl 5 ◌>>=◌
  -- the chain `a, err := m; if err != nil { return err }; k(a)`
  abbrev pub ◌>>=◌ : Result A → (A → Result B) → Result B
  ◌>>=◌ (err e) k = err e
  ◌>>=◌ (ok a) k = k a

infixl 5 ◌>>◌
abbrev pub ◌>>◌ {ℓ} : {B : Type ℓ} → Result (Unit {0}) → Result B → Result B
◌>>◌ checked next = checked >>= λ _. next

-- `if test { return err }`
abbrev pub fail_if : Bool → Error → Result (Unit {0})
fail_if true e = err e
fail_if false e = ok tt

-- the context's state when a call starts: `some e` is a cancelled or expired context
abbrev pub check_context : Option Error → Result (Unit {0})
check_context none = ok tt
check_context (some e) = err e

pub fail_if-eq-ok : (b : Bool) (e : Error) {u : Unit {0}} → fail_if b e ≡ ok u → b ≡ false
fail_if-eq-ok true e h = cc
fail_if-eq-ok false e h = refl

pub Result-cases {ℓ} :
    {A : Type ℓ} (m : Result A) → ((a : A) × (m ≡ ok a)) ⊎ ((e : Error) × (m ≡ err e))
Result-cases (ok a) = inl (a, refl)
Result-cases (err e) = inr (e, refl)

-- every value that the result may hold has the property
abbrev pub Meets {ℓ κ} : {A : Type ℓ} → (A → Type κ) → Result A → Type κ
Meets P (ok a) = P a
Meets P (err e) = Unit

pub Meets-bind {ℓ κ μ} :
    {A : Type ℓ} {B : Type κ} (P : B → Type μ) (m : Result A) (k : A → Result B)
    → ((a : A) → Meets P (k a))
    → Meets P (m >>= k)
Meets-bind P (ok a) k h = h a
Meets-bind P (err e) k h = tt

-- as Meets-bind, for a value with a property
pub Meets-then {ℓ κ μ ν} :
    {A : Type ℓ} {B : Type κ} (Q : A → Type ν) (P : B → Type μ) (m : Result A) (k : A → Result B)
    → Meets Q m
    → ((a : A) → Q a → Meets P (k a))
    → Meets P (m >>= k)
Meets-then Q P (ok a) k q h = h a q
Meets-then Q P (err e) k q h = tt

pub Meets-eq-ok {ℓ κ} :
    {A : Type ℓ} (P : A → Type κ) (m : Result A) (a : A) → Meets P m → m ≡ ok a → P a
Meets-eq-ok P (ok b) a p h = subst P (cc) p
Meets-eq-ok P (err e) a p h = absurd (let no_value : err e ≢ ok a = λ x. cc in no_value h)

pub fail_if-Meets : (b : Bool) (e : Error) → Meets (λ _. b ≡ false) (fail_if b e)
fail_if-Meets true e = tt
fail_if-Meets false e = refl

pub Meets-self {ℓ} : {A : Type ℓ} (m : Result A) → Meets (λ a. m ≡ ok a) m
Meets-self (ok a) = refl
Meets-self (err e) = tt

-- as Meets-bind, and the value is that of the first part
pub Meets-keep {ℓ κ μ} :
    {A : Type ℓ} {B : Type κ} (P : B → Type μ) (m : Result A) (k : A → Result B)
    → ((a : A) → m ≡ ok a → Meets P (k a))
    → Meets P (m >>= k)
Meets-keep P m k h = Meets-then (λ a. m ≡ ok a) P m k (Meets-self m) h

pub Meets-const {ℓ κ} : {A : Type ℓ} (P : Type κ) (m : Result A) → P → Meets (λ _. P) m
Meets-const P (ok a) p = p
Meets-const P (err e) p = tt
