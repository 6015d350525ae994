-- ===== src/Store/Files.antt =====
-- src/store.rs: the documents of the state directory. What the file system holds at a path is a
-- `Node`; the error texts of the operating system and of the JSON reader are part of it.
use procherd.Prelude.{ℕ, ◌⊎◌, inl, inr, [], ◌∷◌, ltb}
use procherd.Prelude.Texts.{Text, text, num, format}
use procherd.Error.{Result, ok, err, ◌>>◌, refuse_if, integrity_error, from_io}

abbrev pub document_limit : ℕ
document_limit = 4194304

-- A regular file cannot be opened, for an error, or it has a length, and holds a document or what the reader says against it.
pub data Node {ℓ} (A : Type ℓ) : Type ℓ where
  absent : Text → Node A
  symlink : Node A
  irregular : Node A
  unopenable : Text → Node A
  regular : ℕ → Text ⊎ A → Node A

module _ {ℓ} {A : Type ℓ} where
  unfoldable pub ensure_regular_file : Text → Node A → Result (Unit {0})
  ensure_regular_file path (absent e) = err (from_io e)
  ensure_regular_file path symlink =
      err (integrity_error (format "refusing symbolic-link file: {}" (text path ∷ [])))
  ensure_regular_file path irregular =
      err (integrity_error (format "expected a regular file: {}" (text path ∷ [])))
  ensure_regular_file path (unopenable _) = ok tt
  ensure_regular_file path (regular _ _) = ok tt

  abbrev parsed_json : Text → Text ⊎ A → Result A
  parsed_json path (inl e) =
      err (integrity_error (format "invalid JSON document {}: {}" (text path ∷ text e ∷ [])))
  parsed_json path (inr a) = ok a

  -- The length and the document of the opened file; the first three cases have been refused.
  abbrev bounded_json : Text → Node A → Result A
  bounded_json path (absent e) = err (from_io e)
  bounded_json path symlink = err (from_io path)
  bounded_json path irregular = err (from_io path)
  bounded_json path (unopenable e) = err (from_io e)
  bounded_json path (regular len document) = do
    refuse_if (ltb document_limit len) (
        integrity_error
          (format "document exceeds {} bytes: {}" (num document_limit ∷ text path ∷ [])))
    parsed_json path document

  unfoldable pub read_json : Text → Node A → Result A
  unfolding ensure_regular_file
  read_json path node = do ensure_regular_file path node; bounded_json path node

  -- The atomic replacement of a document, which is `len` bytes long when it is printed.
  abbrev pub atomic_write_json : ℕ → A → Node A
  atomic_write_json len a = regular len (inr a)
