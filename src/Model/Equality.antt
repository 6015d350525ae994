-- ===== src/Model/Equality.antt =====
-- src/model.rs: the derived `==` of the readiness state and its parts. A value equals itself.
use package.text.Mathlib.Text.{◌==◌ as string_eq}
use package.text.Mathlib.TextEquality.{eq_iff}
use procherd.Prelude.{
  ℕ, ◌≡◌, refl, Bool, true, false, ◌&&◌, Option, none, some, List, [], ◌∷◌, ◌==◌, ==_iff, arith,
}
use procherd.Prelude.Texts.{Arg, text, num, Message, text_eq, text_eq_refl}
use procherd.Model.Readiness.{
  ReadinessStatus, not_configured, pending, ready, timed_out, failed, ReadinessCondition, tcp, http,
  file, log, port_lease, ReadinessCheck, ReadinessState,
}

-- A test that every value passes against itself.
abbrev pub Reflects {ℓ} : {A : Type ℓ} → (A → A → Bool) → Type ℓ
Reflects {A = A} eq = (a : A) → eq a a ≡ true

unfoldable pub list_eq {ℓ} : {A : Type ℓ} → (A → A → Bool) → List A → List A → Bool
list_eq eq [] [] = true
list_eq eq (x ∷ xs) (y ∷ ys) = eq x y && list_eq eq xs ys
list_eq eq _ _ = false

unfoldable pub option_eq {ℓ} : {A : Type ℓ} → (A → A → Bool) → Option A → Option A → Bool
option_eq eq none none = true
option_eq eq (some x) (some y) = eq x y
option_eq eq _ _ = false

abbrev num_eq : ℕ → ℕ → Bool
num_eq a b = a == b

arg_eq : Arg → Arg → Bool
arg_eq (text s) (text t) = text_eq s t
arg_eq (num a) (num b) = a == b
arg_eq _ _ = false

message_eq : Message → Message → Bool
unfolding arg_eq
message_eq m n = string_eq m.template n.template && list_eq arg_eq m.args n.args

condition_eq : ReadinessCondition → ReadinessCondition → Bool
condition_eq (tcp a) (tcp b) = text_eq a b
condition_eq (http a) (http b) = text_eq a b
condition_eq (file a) (file b) = text_eq a b
condition_eq (log a) (log b) = text_eq a b
condition_eq (port_lease a) (port_lease b) = text_eq a b
condition_eq _ _ = false

status_eq : ReadinessStatus → ReadinessStatus → Bool
status_eq not_configured not_configured = true
status_eq pending pending = true
status_eq ready ready = true
status_eq timed_out timed_out = true
status_eq failed failed = true
status_eq _ _ = false

check_eq : ReadinessCheck → ReadinessCheck → Bool
unfolding condition_eq message_eq
check_eq c d =
    (message_eq c.id d.id && condition_eq c.condition d.condition)
    && (option_eq num_eq c.ready_at_ms d.ready_at_ms && option_eq message_eq c.evidence d.evidence)

unfoldable pub readiness_eq : ReadinessState → ReadinessState → Bool
unfolding status_eq check_eq
readiness_eq s t =
    (status_eq s.status t.status && s.timeout_ms == t.timeout_ms)
    && ((option_eq num_eq s.deadline_at_ms t.deadline_at_ms
          && option_eq num_eq s.ready_at_ms t.ready_at_ms)
        && (option_eq string_eq s.failure_reason t.failure_reason
            && list_eq check_eq s.checks t.checks))

-- `==` on optional numbers.
unfoldable pub option_num_eq : Option ℕ → Option ℕ → Bool
unfolding option_eq
option_num_eq = option_eq num_eq

pub list_eq_refl {ℓ} :
    {A : Type ℓ} (eq : A → A → Bool) → Reflects eq → (xs : List A) → list_eq eq xs xs ≡ true
unfolding list_eq
list_eq_refl eq h [] = refl
list_eq_refl eq h (x ∷ xs) = rw (h x, list_eq_refl eq h xs) refl

option_eq_refl {ℓ} :
    {A : Type ℓ} (eq : A → A → Bool) → Reflects eq → (x : Option A) → option_eq eq x x ≡ true
unfolding option_eq
option_eq_refl eq h none = refl
option_eq_refl eq h (some x) = h x

num_eq_refl : Reflects num_eq
num_eq_refl a = (==_iff a a).1 refl

string_eq_refl : Reflects string_eq
string_eq_refl s = (eq_iff s s).1 refl

arg_eq_refl : Reflects arg_eq
unfolding arg_eq
arg_eq_refl (text s) = text_eq_refl s
arg_eq_refl (num a) = num_eq_refl a

message_eq_refl : Reflects message_eq
unfolding message_eq
message_eq_refl m = rw (string_eq_refl m.template, list_eq_refl arg_eq arg_eq_refl m.args) refl

condition_eq_refl : Reflects condition_eq
unfolding condition_eq
condition_eq_refl (tcp a) = text_eq_refl a
condition_eq_refl (http a) = text_eq_refl a
condition_eq_refl (file a) = text_eq_refl a
condition_eq_refl (log a) = text_eq_refl a
condition_eq_refl (port_lease a) = text_eq_refl a

status_eq_refl : Reflects status_eq
unfolding status_eq
status_eq_refl s = ground arith

both : (a b : Bool) → a ≡ true → b ≡ true → (a && b) ≡ true
both a b h k = ground arith

check_eq_refl : Reflects check_eq
unfolding check_eq
check_eq_refl c = both _ _ (both _ _ (message_eq_refl c.id) (condition_eq_refl c.condition)) (
    both _ _ (option_eq_refl num_eq num_eq_refl c.ready_at_ms)
      (option_eq_refl message_eq message_eq_refl c.evidence))

pub readiness_eq_refl : Reflects readiness_eq
unfolding readiness_eq
readiness_eq_refl s = both _ _ (both _ _ (status_eq_refl s.status) (num_eq_refl s.timeout_ms)) (
    both _ _
      (both _ _ (option_eq_refl num_eq num_eq_refl s.deadline_at_ms)
        (option_eq_refl num_eq num_eq_refl s.ready_at_ms))
      (both _ _ (option_eq_refl string_eq string_eq_refl s.failure_reason)
        (list_eq_refl check_eq check_eq_refl s.checks)))

pub option_num_eq_refl : Reflects option_num_eq
unfolding option_num_eq
option_num_eq_refl = option_eq_refl num_eq num_eq_refl
