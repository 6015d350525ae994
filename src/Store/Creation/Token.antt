-- ===== src/Store/Creation/Token.antt =====
-- src/store.rs: the token that a creation writes is the one that is read. Proofs.
use mathlib.Core.Path.{subst}
use procherd.Prelude.{
  ℕ, ◌+◌, ◌≡◌, refl, ◌∙◌, true, false, Option, [], ◌∷◌, ◌++◌, length, length-append, all, arith,
  ltb, ◌==◌, inr,
}
use procherd.Prelude.Texts.{Text, codes}
use procherd.Error.{WriteError, ok, >>=-eq-ok, ok_injective}
use procherd.Hex.{encode_lower, length-encode_lower, encode_lower-hex, Bytes, is_ascii_hexdigit}
use procherd.Model.Run.{RunState}
use procherd.Model.Documents.{SupervisorSpec}
use procherd.Store.Files.{regular, ensure_regular_file}
use procherd.Store.RunId.{Ulid, canonical_run_id}
use procherd.Store.Runs.{RunDir, find_entry, Store, run_dir, path_in}
use procherd.Store.Token.{read_owner_token, read_bounded_text, trim-token}
use procherd.Store.Creation.{new_dir, make_dir, unless, create_run, added, created_dir}

read_text-line :
    (path s : Text)
    → length s ≡ 64
    → read_bounded_text 256 path (regular (length s + 1) (inr (s ++ (10 ∷ []))))
      ≡ ok (s ++ (10 ∷ []))
unfolding read_bounded_text ensure_regular_file
read_text-line path s h =
    let n : length (s ++ (10 ∷ [])) ≡ 65 = length-append s (10 ∷ []) ∙ omega (arith, h) in
    let a : ltb 256 (length s + 1) ≡ false = ground arith in
    let b : ltb 256 (length (s ++ (10 ∷ []))) ≡ false = ground arith in rw (a, b) refl

module _ (u : Ulid) where
  token_of_created :
      (id run_id path : Text) (d : RunDir) (store : Store) (token : Text)
      → run_dir u (added u id d store) run_id ≡ ok (path, d)
      → d.owner_token ≡ regular (length token + 1) (inr (token ++ (10 ∷ [])))
      → length token ≡ 64
      → all is_ascii_hexdigit token ≡ true
      → read_owner_token u (added u id d store) run_id ≡ ok token
  unfolding read_owner_token
  token_of_created id run_id path d store token e t l h =
      let n : (length token == 64) ≡ true = ground arith in
      rw
        (
          e,
          t,
          read_text-line (path_in path (codes "owner.token")) token l,
          trim-token token h,
          n,
          h,
        )
        refl

  -- A run that is created with the token that is printed from 32 bytes: that token is what is read of
  -- it afterwards.
  pub create_run-read_owner_token :
      (failure : ℕ → Option WriteError) (state_len spec_len : ℕ) (store store' : Store)
      (state : RunState) (spec : SupervisorSpec) (bytes : Text)
      → length bytes ≡ 32
      → Bytes bytes
      → create_run u failure state_len spec_len store state spec (encode_lower bytes) ≡ ok store'
      → read_owner_token u store' state.run_id ≡ ok (encode_lower bytes)
  unfolding create_run
  create_run-read_owner_token failure state_len spec_len store store' state spec bytes l b h =
      let (id, e, h) = >>=-eq-ok (canonical_run_id u state.run_id) _ h in
      let (_, m, h) = >>=-eq-ok (make_dir (find_entry id store.entries) (failure 0)) _ h in
      let (_, _, h) = >>=-eq-ok (unless (failure 1)) _ h in
      let (_, _, h) = >>=-eq-ok (unless (failure 2)) _ h in
      let (_, _, h) = >>=-eq-ok (unless (failure 3)) _ h in
      let (_, _, h) = >>=-eq-ok (unless (failure 4)) _ h in
      let token = encode_lower bytes in
      let d = new_dir state_len spec_len state spec token in
      subst (λ (s : Store). read_owner_token u s state.run_id ≡ ok token)
        (ok_injective (added u id d store) store' h)
        (token_of_created id state.run_id (path_in store.root id) d store token
          (created_dir u id state.run_id d store e) (unfold new_dir in refl)
          (length-encode_lower bytes ∙ omega (arith, l)) (encode_lower-hex bytes b))
