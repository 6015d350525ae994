-- ===== src/Leases/Names.antt =====
-- src/leases.rs: the names of leases, and of the environment variables that deliver them.
pub mod Distinct
pub mod Environment
use procherd.Prelude.{
  ℕ, ◌-◌, Bool, false, not, ◌&&◌, ◌||◌, List, [], ◌∷◌, ◌++◌, length, any, all, ltb, leb, ◌==◌, map,
  if◌then◌else◌,
}
use procherd.Prelude.Texts.{Text, codes, text, num, format, text_eq}
use procherd.Error.{usage_error, Result, ok, err, ◌>>=◌, ◌>>◌, refuse_if}
use procherd.Model.Run.{LeaseRequests}

abbrev pub max_leases_per_kind : ℕ
max_leases_per_kind = 16

abbrev pub is_ascii_lowercase : ℕ → Bool
is_ascii_lowercase c = leb b'a' c && leb c b'z'

abbrev pub is_ascii_digit : ℕ → Bool
is_ascii_digit c = leb b'0' c && leb c b'9'

abbrev pub name_byte : ℕ → Bool
name_byte c = is_ascii_lowercase c || is_ascii_digit c || c == b'_' || c == b'-'

abbrev pub starts_lowercase : Text → Bool
starts_lowercase [] = false
starts_lowercase (c ∷ _) = is_ascii_lowercase c

unfoldable pub valid_name : Text → Bool
valid_name name =
    leb 1 (length name) && leb (length name) 32 && starts_lowercase name && all name_byte name

-- The loop over the names; `unique` holds those before.
pub check_names : List Text → List Text → Result (Unit {0})
check_names unique [] = ok tt
check_names unique (name ∷ names) =
    let rest = check_names (name ∷ unique) names in
    if not (valid_name name)
    then err (
        usage_error (
          format
            "invalid lease name {:?}; use 1-32 lowercase ASCII letters, digits, _ or -, starting with a letter"
            (text name ∷ [])))
    else if any (text_eq name) unique
    then err (usage_error (format "duplicate lease name {:?}" (text name ∷ [])))
    else rest

unfoldable pub validate_names : List Text → Result (Unit {0})
unfolding check_names
validate_names names = check_names [] names

unfoldable pub validate_requests : List Text → List Text → Result LeaseRequests
validate_requests port_names temp_directory_names = do
  refuse_if
      (ltb max_leases_per_kind (length port_names)
        || ltb max_leases_per_kind (length temp_directory_names))
      (usage_error (
        format "at most {} port and {} temporary-directory leases may be requested"
          (num max_leases_per_kind ∷ num max_leases_per_kind ∷ [])))
  validate_names port_names
  validate_names temp_directory_names
  ok (record { port_names = port_names; temp_directory_names = temp_directory_names })

abbrev pub normalized_byte : ℕ → ℕ
normalized_byte c = if c == b'-' then b'_' else if leb b'a' c && leb c b'z' then c - 32 else c

-- `name.replace('-', "_").to_ascii_uppercase()`
abbrev pub normalized : Text → Text
normalized = map normalized_byte

unfoldable pub environment_name : Text → Text → Text
environment_name kind name = codes "PROCHERD_" ++ (kind ++ (b'_' ∷ normalized name))
