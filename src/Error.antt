-- ===== src/Error.antt =====
-- src/error.rs: the error of every fallible operation, its exit-code classes and its document.
-- A message is kept as its format literal with the interpolated values. The texts of errors that
-- other code makes (the operating system's, the JSON reader's) are values of a message.
use Prim.Native.String.{◌++◌}
use mathlib.Core.Path.{subst}
use procherd.Prelude.{
  ℕ, String, ◌≡◌, ◌⊎◌, inl, inr, refl, Bool, true, false, Option, none, some, List, [], ◌∷◌, All,
  arith,
}
use procherd.Prelude.Texts.{Text, Message, codes, text, format}

-- The `&'static str` kinds that the code uses.
pub data Kind : Type 0 where
  usage timeout not_found integrity io : Kind
  state_directory gc_live_run lease_path port_lease supervisor_launch process_spawn : Kind
  log_drain_timeout start_failed supervisor_exit orphaned readiness_failed randomness : Kind

-- The text of a kind, as documents store it.
abbrev pub kind_name : Kind → Text
kind_name usage = codes "usage"
kind_name timeout = codes "timeout"
kind_name not_found = codes "not_found"
kind_name integrity = codes "integrity"
kind_name io = codes "io"
kind_name state_directory = codes "state_directory"
kind_name gc_live_run = codes "gc_live_run"
kind_name lease_path = codes "lease_path"
kind_name port_lease = codes "port_lease"
kind_name supervisor_launch = codes "supervisor_launch"
kind_name process_spawn = codes "process_spawn"
kind_name log_drain_timeout = codes "log_drain_timeout"
kind_name start_failed = codes "start_failed"
kind_name supervisor_exit = codes "supervisor_exit"
kind_name orphaned = codes "orphaned"
kind_name readiness_failed = codes "readiness_failed"
kind_name randomness = codes "randomness"

pub record AppError : Type 0 where
  pub code : ℕ
  pub kind : Kind
  pub message : Message

unfoldable pub usage_error : Message → AppError
usage_error m = record { code = 2; kind = usage; message = m }

unfoldable pub operational : Kind → Message → AppError
operational k m = record { code = 1; kind = k; message = m }

unfoldable pub timeout_error : Message → AppError
timeout_error m = record { code = 3; kind = timeout; message = m }

unfoldable pub not_found_error : Message → AppError
not_found_error m = record { code = 4; kind = not_found; message = m }

unfoldable pub integrity_error : Message → AppError
integrity_error m = record { code = 5; kind = integrity; message = m }

-- The process's exit status.
unfoldable pub exit_code : AppError → ℕ
exit_code e = e.code

-- `From<io::Error>`: `e` is the error's text.
unfoldable pub from_io : Text → AppError
unfolding operational
from_io e = operational io (format "{}" (text e ∷ []))

-- `From<serde_json::Error>`.
unfoldable pub from_json : Text → AppError
unfolding integrity_error
from_json e = integrity_error (format "{}" (text e ∷ []))

-- What the write of a JSON document fails with: an error of the system, or of the JSON printer.
pub data WriteError : Type 0 where
  of_system of_printer : Text → WriteError

abbrev pub from_write : WriteError → AppError
from_write (of_system e) = from_io e
from_write (of_printer e) = from_json e

-- A message that interpolates an error at its end.
abbrev pub followed_by : String → AppError → Message
followed_by prefix e = record e.message { template = prefix ++ e.message.template }

pub record ErrorBody : Type 0 where
  pub kind : Kind
  pub message : Message
  pub exit_code : ℕ

pub record ErrorDocument : Type 0 where
  pub schema_version : String
  pub error : ErrorBody

unfoldable pub from_error : AppError → ErrorDocument
from_error e = record {
  schema_version = "procherd.error.v1";
  error = record { kind = e.kind; message = e.message; exit_code = e.code };
}

-- `is_io k` is the code's test `error.kind == "io"`.
abbrev pub is_io : Kind → Bool
is_io io = true
is_io _ = false

pub data Result {ℓ} (A : Type ℓ) : Type ℓ where
  ok : A → Result A
  err : AppError → Result A

infixl 5 ◌>>=◌ ◌>>◌
abbrev pub ◌>>=◌ {ℓ κ} : {S : Type ℓ} {T : Type κ} → Result S → (S → Result T) → Result T
err fault >>= next = err fault
ok s >>= next = next s

-- A step without a value.
abbrev pub ◌>>◌ {ℓ} : {T : Type ℓ} → Result (Unit {0}) → Result T → Result T
step >> rest = step >>= λ done. rest

-- `if bad { return Err(e) }`.
abbrev pub refuse_if : Bool → AppError → Result (Unit {0})
refuse_if true e = err e
refuse_if false e = ok tt

abbrev pub map_err {ℓ} : {A : Type ℓ} → (AppError → AppError) → Result A → Result A
map_err f (ok a) = ok a
map_err f (err e) = err (f e)

-- Option::ok_or_else
abbrev pub ok_or {ℓ} : {A : Type ℓ} → AppError → Option A → Result A
ok_or e none = err e
ok_or e (some a) = ok a

abbrev pub is_ok {ℓ} : {A : Type ℓ} → Result A → Bool
is_ok (ok _) = true
is_ok (err _) = false

-- A body that succeeds after a step had a step that succeeded.
pub >>=-eq-ok {ℓ κ} :
    {S : Type ℓ} {T : Type κ} (step : Result S) (next : S → Result T) {out : T}
    → (step >>= next) ≡ ok out
    → (s : S) × (step ≡ ok s) × (next s ≡ ok out)
>>=-eq-ok (err fault) next done = cc
>>=-eq-ok (ok s) next done = (s, ground arith, done)

-- A body that fails had a step that failed, or fails after it.
pub >>=-eq-err {ℓ κ} :
    {S : Type ℓ} {T : Type κ} (step : Result S) (next : S → Result T) {e : AppError}
    → (step >>= next) ≡ err e
    → (step ≡ err e) ⊎ ((s : S) × (step ≡ ok s) × (next s ≡ err e))
>>=-eq-err (err fault) next failed = inl (ground arith)
>>=-eq-err (ok s) next failed = inr (s, refl, failed)

-- What is known of the result of a body that succeeds.
abbrev pub Post {ℓ} : {T : Type ℓ} → (T → Type 0) → Result T → Type 0
Post P (ok t) = P t
Post P (err e) = Unit

pub >>=-Post {ℓ κ} :
    {S : Type ℓ} {T : Type κ} (P : T → Type 0) (step : Result S) (next : S → Result T)
    → ((s : S) → step ≡ ok s → Post P (next s))
    → Post P (step >>= next)
>>=-Post P (ok s) next k = k s refl
>>=-Post P (err e) next k = tt

pub Post-ok {ℓ} : {T : Type ℓ} (P : T → Type 0) (r : Result T) (t : T) → r ≡ ok t → Post P r → P t
Post-ok P r t h p = subst (Post P) h p

pub ok_injective {ℓ} : {A : Type ℓ} (a b : A) → ok a ≡ ok b → a ≡ b
ok_injective a b h = cc

pub refuse_if-ok : (b : Bool) (e : AppError) {u : Unit {0}} → refuse_if b e ≡ ok u → b ≡ false
refuse_if-ok true e h = cc
refuse_if-ok false e h = refl

pub refuse_if-err : (b : Bool) (e f : AppError) → refuse_if b e ≡ err f → e ≡ f
refuse_if-err true e f h = cc
refuse_if-err false e f h = cc

-- A loop over a list with `?` in its body, and the list of what the body makes.
unfoldable pub for_each {ℓ κ} :
    {S : Type ℓ} {T : Type κ} → (S → Result T) → List S → Result (List T)
for_each body [] = ok []
for_each body (s ∷ rest) = do t ← body s; ts ← for_each body rest; ok (t ∷ ts)

-- Two lists of the same length, with a relation between the values at each place.
abbrev pub Zip {ℓ κ} : {S : Type ℓ} {T : Type κ} → (S → T → Type 0) → List S → List T → Type 0
Zip R [] [] = Unit
Zip R (s ∷ ss) (t ∷ ts) = R s t × Zip R ss ts
Zip R _ _ = ⊥

pub for_each-Zip {ℓ κ} :
    {S : Type ℓ} {T : Type κ} (R : S → T → Type 0) (body : S → Result T)
    → ((s : S) (t : T) → body s ≡ ok t → R s t)
    → (ss : List S) (ts : List T) → for_each body ss ≡ ok ts
    → Zip R ss ts
unfolding for_each
for_each-Zip R body h [] [] e = tt
for_each-Zip R body h [] (t ∷ ts) e = cc (ok_injective [] (t ∷ ts) e)
for_each-Zip R body h (s ∷ ss) ts e =
    let (t, b, e) = >>=-eq-ok (body s) _ e in
    let (rest, r, e) = >>=-eq-ok (for_each body ss) _ e in
    subst (Zip R (s ∷ ss)) (ok_injective (t ∷ rest) ts e) (h s t b, for_each-Zip R body h ss rest r)

pub Zip-All {ℓ κ} :
    {S : Type ℓ} {T : Type κ} (R : S → T → Type 0) (P : T → Type 0)
    → ((s : S) (t : T) → R s t → P t)
    → (ss : List S) (ts : List T) → Zip R ss ts
    → All P ts
Zip-All R P h [] [] z = tt
Zip-All R P h (s ∷ ss) (t ∷ ts) z = (h s t z.0, Zip-All R P h ss ts z.1)
Zip-All R P h [] (t ∷ ts) z = absurd z
Zip-All R P h (s ∷ ss) [] z = absurd z
