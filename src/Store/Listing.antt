-- ===== src/Store/Listing.antt =====
-- src/store.rs: `list_run_ids`.
use mathlib.Core.Path.{subst}
use procherd.Prelude.{
  ◌≡◌, refl, sym, ap, ◌∙◌, Bool, true, false, ◌&&◌, ◌||◌, Option, none, some, List, [], ◌∷◌, ◌++◌,
  any, All, All-append, arith, if◌then◌else◌,
}
use procherd.Prelude.Texts.{Text, text_eq}
use procherd.Prelude.Order.{sort, Sorted, sort-Sorted, is_among, sort-is_among, text_lt}
use procherd.Error.{Result, ok, err, ◌>>=◌, ◌>>◌, from_io, is_ok, >>=-eq-ok, ok_injective}
use procherd.Store.RunId.{Ulid, validate_run_id}
use procherd.Store.Runs.{Entry, directory, symlink, other, unreadable, Store}

-- `file_type()?.is_dir()`
is_dir : Entry → Result Bool
is_dir (directory d) = ok true
is_dir symlink = ok false
is_dir other = ok false
is_dir (unreadable e) = err (from_io e)

-- `Vec::reverse`
abbrev pub reverse : List Text → List Text
reverse [] = []
reverse (x ∷ xs) = reverse xs ++ (x ∷ [])

unless : Option Text → Result (Unit {0})
unless none = ok tt
unless (some e) = err (from_io e)

module _ (u : Ulid) (is_utf8 : Text → Bool) where
  -- The name is one of a run.
  is_run_name : Text → Bool
  is_run_name name = is_utf8 name && is_ok (validate_run_id u name)

  -- The loop over the entries of the state root.
  collect_ids : List (Text × Entry) → Result (List Text)
  unfolding is_dir is_run_name
  collect_ids [] = ok []
  collect_ids ((name, e) ∷ es) = do
    dir ← is_dir e
    ids ← collect_ids es
    ok (if dir && is_run_name name then name ∷ ids else ids)

  -- `failure` is the error of `read_dir`.
  unfoldable pub list_run_ids : Option Text → Store → Result (List Text)
  unfolding collect_ids unless
  list_run_ids failure store = do
    unless failure
    ids ← collect_ids store.entries
    ok (reverse (sort ids))

  -- An entry that is a directory with the name of a run.
  unfoldable pub is_run : Text × Entry → Bool
  unfolding is_run_name
  is_run (name, directory d) = is_run_name name
  is_run (name, _) = false

  -- No text is less than one that comes after it.
  abbrev pub Descending : List Text → Type 0
  Descending [] = Unit
  Descending (x ∷ xs) = All (λ y. text_lt x y ≡ false) xs × Descending xs

  Descending-snoc :
      (xs : List Text) (y : Text)
      → Descending xs
      → All (λ x. text_lt x y ≡ false) xs
      → Descending (xs ++ (y ∷ []))
  Descending-snoc [] y d a = (tt, tt)
  Descending-snoc (x ∷ xs) y d a = (
    All-append (λ z. text_lt x z ≡ false) xs (y ∷ []) d.0 (a.0, tt),
    Descending-snoc xs y d.1 a.1,
  )

  reverse-All : (P : Text → Type 0) (xs : List Text) → All P xs → All P (reverse xs)
  reverse-All P [] a = tt
  reverse-All P (x ∷ xs) a = All-append P (reverse xs) (x ∷ []) (reverse-All P xs a.1) (a.0, tt)

  reverse-Descending : (xs : List Text) → Sorted xs → Descending (reverse xs)
  reverse-Descending [] s = tt
  reverse-Descending (x ∷ xs) s =
      Descending-snoc (reverse xs) x (reverse-Descending xs s.1)
        (reverse-All (λ y. text_lt y x ≡ false) xs s.0)

  append-is_among :
      (z : Text) (xs ys : List Text) → is_among z (xs ++ ys) ≡ (is_among z xs || is_among z ys)
  append-is_among z [] ys = refl
  append-is_among z (x ∷ xs) ys = ground (arith, append-is_among z xs ys)

  reverse-is_among : (z : Text) (xs : List Text) → is_among z (reverse xs) ≡ is_among z xs
  reverse-is_among z [] = refl
  reverse-is_among z (x ∷ xs) =
      append-is_among z (reverse xs) (x ∷ []) ∙ ground (arith, reverse-is_among z xs)

  is_run-is_dir :
      (name : Text) (e : Entry) (dir : Bool)
      → is_dir e ≡ ok dir
      → is_run (name, e) ≡ (dir && is_run_name name)
  unfolding is_run is_dir
  is_run-is_dir name (directory d) dir h = ap (λ b. b && is_run_name name) (ok_injective true dir h)
  is_run-is_dir name symlink dir h = ap (λ b. b && is_run_name name) (ok_injective false dir h)
  is_run-is_dir name other dir h = ap (λ b. b && is_run_name name) (ok_injective false dir h)
  is_run-is_dir name (unreadable e) dir h = cc

  pushed-is_among :
      (z name : Text) (b : Bool) (rest : List Text)
      → is_among z (if b then name ∷ rest else rest) ≡ (b && text_eq z name || is_among z rest)
  pushed-is_among z name true rest = refl
  pushed-is_among z name false rest = refl

  collect_ids-is_among :
      (es : List (Text × Entry)) (ids : List Text) (z : Text)
      → collect_ids es ≡ ok ids
      → is_among z ids ≡ any (λ e. is_run e && text_eq z e.0) es
  unfolding collect_ids
  collect_ids-is_among [] ids z h = ap (is_among z) (sym (ok_injective [] ids h))
  collect_ids-is_among ((name, e) ∷ es) ids z h =
      let (dir, d, h) = >>=-eq-ok (is_dir e) _ h in
      let (rest, r, h) = >>=-eq-ok (collect_ids es) _ h in
      subst
        (λ ids.
          is_among z ids
          ≡ (is_run (name, e) && text_eq z name || any (λ e. is_run e && text_eq z e.0) es))
        (ok_injective (if dir && is_run_name name then name ∷ rest else rest) ids h)
        (pushed-is_among z name (dir && is_run_name name) rest
          ∙ ap (λ b. b && text_eq z name || is_among z rest) (sym (is_run-is_dir name e dir d))
          ∙ ap (λ b. is_run (name, e) && text_eq z name || b) (collect_ids-is_among es rest z r))

  -- A listing that succeeds holds just the names of the entries of the state root that are directories
  -- with the name of a run, and its order is descending, so that newer runs come first.
  pub list_run_ids-is_among :
      (failure : Option Text) (store : Store) (ids : List Text)
      → list_run_ids failure store ≡ ok ids
      → Descending ids
        × ((z : Text) → is_among z ids ≡ any (λ e. is_run e && text_eq z e.0) store.entries)
  unfolding list_run_ids
  list_run_ids-is_among failure store ids h =
      let (_, _, h) = >>=-eq-ok (unless failure) _ h in
      let (found, c, h) = >>=-eq-ok (collect_ids store.entries) _ h in
      subst
        (λ ids.
          Descending ids
          × ((z : Text) → is_among z ids ≡ any (λ e. is_run e && text_eq z e.0) store.entries))
        (ok_injective (reverse (sort found)) ids h)
        (
          reverse-Descending (sort found) (sort-Sorted found),
          λ z.
              reverse-is_among z (sort found)
              ∙ sort-is_among z found
              ∙ collect_ids-is_among store.entries found z c,
        )
