-- ===== src/Supervisor/Body.antt =====
-- src/supervisor.rs: bodies of functions that change the local variables of the loop and may
-- return an error early. The variables stay as they are at the return, since what was written to
-- the disk before an error is read again after it.
use procherd.Prelude.{◌≡◌, refl}
use procherd.Error.{AppError, Result, ok, err}

abbrev pub Body {ℓ κ} : Type ℓ → Type κ → Type (ℓ ⊔ κ)
Body S A = S → Result A × S

unfoldable pub continue {ℓ κ μ} :
    {S : Type ℓ} {A : Type κ} {B : Type μ} → Result A × S → (A → Body S B) → Result B × S
continue (ok a, s) f = f a s
continue (err e, s) f = (err e, s)

infixl 5 ◌>>=◌ ◌>>◌
abbrev pub ◌>>=◌ {ℓ κ μ} :
    {S : Type ℓ} {A : Type κ} {B : Type μ} → Body S A → (A → Body S B) → Body S B
(m >>= f) s = continue (m s) f

abbrev pub ◌>>◌ {ℓ κ μ} : {S : Type ℓ} {A : Type κ} {B : Type μ} → Body S A → Body S B → Body S B
m >> k = m >>= λ _. k

abbrev pub give {ℓ κ} : {S : Type ℓ} {A : Type κ} → A → Body S A
give a s = (ok a, s)

abbrev pub modify {ℓ} : {S : Type ℓ} → (S → S) → Body S (Unit {0})
modify f s = (ok tt, f s)

abbrev pub gets {ℓ κ} : {S : Type ℓ} {A : Type κ} → (S → A) → Body S A
gets f s = (ok (f s), s)

-- A call that changes no variable.
abbrev pub lift {ℓ κ} : {S : Type ℓ} {A : Type κ} → Result A → Body S A
lift r s = (r, s)

-- A body that keeps `P`, whether or not it returns an error.
abbrev pub Keeps {ℓ κ μ} : {S : Type ℓ} {A : Type κ} → (S → Type μ) → Body S A → Type (ℓ ⊔ μ)
Keeps P m = (s : _) → P s → P (m s).1

pub continue-keeps {ℓ κ μ ν} :
    {S : Type ℓ} {A : Type κ} {B : Type μ} (P : S → Type ν) (r : Result A × S) (f : A → Body S B)
    → P r.1
    → ((a : A) → Keeps P (f a))
    → P (continue r f).1
unfolding continue
continue-keeps P (ok a, s) f p k = k a s p
continue-keeps P (err e, s) f p k = p

-- The three kinds of step, with a condition on the result of the whole body.
pub continue-post {ℓ κ μ ν ξ} :
    {S : Type ℓ} {A : Type κ} {B : Type μ} (P : S → Type ν) (Q : Result B × S → Type ξ)
    (r : Result A × S) (f : A → Body S B)
    → P r.1
    → ((a : A) (s : S) → P s → Q (f a s))
    → ((e : AppError) (s : S) → P s → Q (err e, s))
    → Q (continue r f)
unfolding continue
continue-post P Q (ok a, s) f p k h = k a s p
continue-post P Q (err e, s) f p k h = h e s p

pub continue-ok {ℓ κ μ ξ} :
    {S : Type ℓ} {A : Type κ} {B : Type μ} (Q : Result B × S → Type ξ) (a : A) (s : S)
    (f : A → Body S B)
    → Q (f a s)
    → Q (continue (ok a, s) f)
unfolding continue
continue-ok Q a s f q = q

pub continue-lift {ℓ κ μ ξ} :
    {S : Type ℓ} {A : Type κ} {B : Type μ} (Q : Result B × S → Type ξ) (r : Result A) (s : S)
    (f : A → Body S B)
    → ((a : A) → r ≡ ok a → Q (f a s))
    → ((e : AppError) → Q (err e, s))
    → Q (continue (r, s) f)
unfolding continue
continue-lift Q (ok a) s f k h = k a refl
continue-lift Q (err e) s f k h = h e
