-- ===== src/Readiness/LogMatch.antt =====
-- src/readiness.rs: log readiness over a stream that arrives in pieces. The kept ends of the
-- streams are short, and yet no occurrence of a literal is missed. Proofs.
use mathlib.Core.List.{append_assoc}
use mathlib.Core.Bool.{false≢true}
use native.Mathlib.Decide.{dec_le}
use procherd.Prelude.{
  ℕ, ◌+◌, ◌-◌, ◌≤◌, min, ◌≡◌, refl, sym, ap, ◌∙◌, ◌⊎◌, inl, inr, true, false, Option, none, some,
  List, [], ◌∷◌, ◌++◌, arith, length, take, drop, All, length-append, length-take, length-drop,
  take-append-drop, Bool-cases,
}
use procherd.Prelude.Texts.{Text}
use procherd.Prelude.Occurs.{
  Occurs, any_window-Occurs, Occurs-any_window, Occurs-append, Occurs-prepend, Occurs-tail,
}
use procherd.Model.Status.{LogStream}
use procherd.Model.Readiness.{ReadinessCondition, tcp, http, file, log, port_lease, ReadinessCheck}
use procherd.Readiness.Tracker.{
  contains_bytes, keep_tail, waiting, hit, tail_need, longest_need, max_log_literal_bytes,
  observe_checks,
}

-- `contains_bytes` decides occurrence.
pub contains_bytes-Occurs :
    (haystack needle : Text) → contains_bytes haystack needle ≡ true → Occurs needle haystack
unfolding contains_bytes
contains_bytes-Occurs haystack [] h = ([], haystack, refl)
contains_bytes-Occurs haystack (c ∷ n) h = any_window-Occurs haystack (c ∷ n) h

pub Occurs-contains_bytes :
    (haystack needle : Text) → Occurs needle haystack → contains_bytes haystack needle ≡ true
unfolding contains_bytes
Occurs-contains_bytes haystack [] o = refl
Occurs-contains_bytes haystack (c ∷ n) o = Occurs-any_window haystack (c ∷ n) (omega arith) o

-- `tail` is the end of `seen`, and it is long enough for `literal`.
pub record Covers (literal seen tail : Text) : Type 0 where
  pub pre : Text
  pub ends : seen ≡ pre ++ tail
  pub long : (length pre ≡ 0) ⊎ (length literal ≤ length tail + 1)

pub Covers-start : (literal : Text) → Covers literal [] []
Covers-start literal = record { pre = []; ends = refl; long = inl refl }

-- A literal that is new in the stream is seen in the kept end followed by the new bytes.
pub Covers-found :
    (literal seen tail bytes : Text)
    → Covers literal seen tail
    → ¬ Occurs literal seen
    → Occurs literal (seen ++ bytes)
    → Occurs literal (tail ++ bytes)
Covers-found literal seen tail bytes c absent o = found c.pre c.ends c.long
  where
    found :
        (pre : Text)
        → seen ≡ pre ++ tail
        → (length pre ≡ 0) ⊎ (length literal ≤ length tail + 1)
        → Occurs literal (tail ++ bytes)
    found [] e l = rw e at o
    found (p ∷ pre) e (inl z) = absurd (omega arith)
    found (p ∷ pre) e (inr fits) =
        Occurs-tail literal (p ∷ pre) tail bytes fits (rw e at absent) (rw e at o)

-- What is seen in the kept end and the new bytes is in the stream.
pub Covers-real :
    (literal seen tail bytes : Text)
    → Covers literal seen tail
    → Occurs literal (tail ++ bytes)
    → Occurs literal (seen ++ bytes)
Covers-real literal seen tail bytes c o =
    let e = c.ends in rw (e, append_assoc) (Occurs-prepend literal c.pre (tail ++ bytes) o)

-- Keeping as much of the end as the literal needs.
pub Covers-keep :
    (literal seen tail bytes : Text) (most : ℕ)
    → Covers literal seen tail
    → length literal ≤ most + 1
    → Covers literal (seen ++ bytes) (keep_tail most (tail ++ bytes))
unfolding keep_tail
Covers-keep literal seen tail bytes most c fits =
    let s = tail ++ bytes in
    let d = length s - min (length s) most in
    record {
      pre = c.pre ++ take d s;
      ends =
          ap (λ (r : Text). r ++ bytes) c.ends
          ∙ append_assoc c.pre tail bytes
          ∙ ap (λ (r : Text). c.pre ++ r) (sym (take-append-drop d s))
          ∙ sym (append_assoc c.pre (take d s) (drop d s));
      long = elim (dec_le (length s) most) [
        | no cut ↦ inr (omega (arith, length-drop d s))
        | yes whole ↦ elim c.long [
          | inl z ↦ inl (omega (arith, length-append c.pre (take d s), length-take d s))
          | inr f ↦ inr (omega (arith, length-drop d s, length-append tail bytes))
        ]
      ];
    }

-- A check that still waits for a literal: it is in neither stream, and the kept ends suffice.
pub record Waits (out err out_tail err_tail literal : Text) : Type 0 where
  pub not_out : ¬ Occurs literal out
  pub not_err : ¬ Occurs literal err
  pub out_covers : Covers literal out out_tail
  pub err_covers : Covers literal err err_tail
  pub bounded : length literal ≤ 1024

-- What a check says of the two streams.
abbrev pub Claims : (out err out_tail err_tail : Text) → ReadinessCondition → Option ℕ → Type 0
Claims out err out_tail err_tail (log literal) none = Waits out err out_tail err_tail literal
Claims out err out_tail err_tail (log literal) (some _) = Occurs literal out ⊎ Occurs literal err
Claims out err out_tail err_tail _ _ = Unit

-- The claims do not depend on the order of the streams.
pub Claims-swap :
    (s o t u : Text) (c : ReadinessCondition) (r : Option ℕ)
    → Claims s o t u c r
    → Claims o s u t c r
Claims-swap s o t u (log literal) none w = record {
  not_out = w.not_err;
  not_err = w.not_out;
  out_covers = w.err_covers;
  err_covers = w.out_covers;
  bounded = w.bounded;
}
Claims-swap s o t u (log literal) (some _) (inl a) = inr a
Claims-swap s o t u (log literal) (some _) (inr a) = inl a
Claims-swap s o t u (tcp _) r w = tt
Claims-swap s o t u (http _) r w = tt
Claims-swap s o t u (file _) r w = tt
Claims-swap s o t u (port_lease _) r w = tt

-- A check whose literal is seen is marked, and rightly.
Claims-marked :
    (s o t u bytes t' : Text) (c : ReadinessCondition) (r : Option ℕ) (at : ℕ)
    → Claims s o t u c r
    → hit (t ++ bytes) (waiting c r) ≡ true
    → Claims (s ++ bytes) o t' u c (some at)
Claims-marked s o t u bytes t' (log literal) none at w h =
    inl (Covers-real literal s t bytes w.out_covers (contains_bytes-Occurs (t ++ bytes) literal h))
Claims-marked s o t u bytes t' (log literal) (some _) at w h = absurd (false≢true h)
Claims-marked s o t u bytes t' (tcp _) r at w h = tt
Claims-marked s o t u bytes t' (http _) r at w h = tt
Claims-marked s o t u bytes t' (file _) r at w h = tt
Claims-marked s o t u bytes t' (port_lease _) r at w h = tt

-- A check whose literal is not seen goes on waiting, and rightly.
Claims-kept :
    (s o t u bytes : Text) (longest : ℕ) (c : ReadinessCondition) (r : Option ℕ)
    → Claims s o t u c r
    → hit (t ++ bytes) (waiting c r) ≡ false
    → tail_need (waiting c r) ≤ longest
    → Claims (s ++ bytes) o (keep_tail (min longest (max_log_literal_bytes - 1)) (t ++ bytes)) u c r
Claims-kept s o t u bytes longest (log literal) none w h n = record {
  not_out = λ occ. false≢true (
      sym h
      ∙ Occurs-contains_bytes (t ++ bytes) literal
          (Covers-found literal s t bytes w.out_covers w.not_out occ));
  not_err = w.not_err;
  out_covers = Covers-keep literal s t bytes _ w.out_covers (omega (arith, w.bounded));
  err_covers = w.err_covers;
  bounded = w.bounded;
}
Claims-kept s o t u bytes longest (log literal) (some _) (inl a) h n =
    inl (Occurs-append literal s bytes a)
Claims-kept s o t u bytes longest (log literal) (some _) (inr a) h n = inr a
Claims-kept s o t u bytes longest (tcp _) r w h n = tt
Claims-kept s o t u bytes longest (http _) r w h n = tt
Claims-kept s o t u bytes longest (file _) r w h n = tt
Claims-kept s o t u bytes longest (port_lease _) r w h n = tt

abbrev pub AllClaim : (out err out_tail err_tail : Text) → List ReadinessCheck → Type 0
AllClaim s o t u = All (λ c. Claims s o t u c.condition c.ready_at_ms)

pub observe_checks-AllClaim :
    (clock : ℕ → ℕ) (i : ℕ) (stream : LogStream) (s o t u bytes : Text) (longest : ℕ)
    (checks : List ReadinessCheck)
    → AllClaim s o t u checks
    → longest_need (observe_checks clock i stream (t ++ bytes) checks).0 ≤ longest
    → AllClaim
        (s ++ bytes)
        o
        (keep_tail (min longest (max_log_literal_bytes - 1)) (t ++ bytes))
        u
        (observe_checks clock i stream (t ++ bytes) checks).0
unfolding observe_checks longest_need
observe_checks-AllClaim clock i stream s o t u bytes longest [] a n = tt
observe_checks-AllClaim clock i stream s o t u bytes longest (c ∷ cs) (a, as') n =
    elim (Bool-cases (hit (t ++ bytes) (waiting c.condition c.ready_at_ms))) [
      | inl e ↦
          let n' = rw e at n in
          rw e (
            Claims-marked s o t u bytes _ c.condition c.ready_at_ms (clock i) a e,
            observe_checks-AllClaim clock (i + 1) stream s o t u bytes longest cs as' (omega arith),
          )
      | inr e ↦
          let n' = rw e at n in
          rw e (
            Claims-kept s o t u bytes longest c.condition c.ready_at_ms a e (omega arith),
            observe_checks-AllClaim clock (i + 1) stream s o t u bytes longest cs as' (omega arith),
          )
    ]
