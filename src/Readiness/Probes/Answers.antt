-- ===== src/Readiness/Probes/Answers.antt =====
-- src/readiness.rs: what a successful `probe_http` has found. Proofs.
use procherd.Prelude.{
  ℕ, ◌≤◌, ◌<◌, Bool, true, Option, none, some, List, [], ◌∷◌, leb, ltb, All, if◌then◌else◌, ◌&&◌,
  ◌⊎◌, Option-cases, ◌≡◌, refl, arith, inl, inr, Bool-cases,
}
use procherd.Prelude.Texts.{Text, Message, text, num, format}
use procherd.Readiness.Conditions.Loopback.{AllLoopback, validate_http_url-AllLoopback}
use procherd.Error.{Result, ok, err}
use procherd.Readiness.Conditions.{Net, NetLaws, Url, validate_http_url}
use procherd.Readiness.Probes.{
  TcpStream, read_http_status, http_request, probe_address, probe_addresses, probe_valid,
  probe_http,
}

none_ne_some : {A : Type 0} {a : A} → none ≡ some a → ⊥
none_ne_some h = cc

module _ (n : Net) (is_utf8 : Text → Bool) where
  open n use {IpAddr, is_loopback}

  module _ (connect : IpAddr × ℕ → Option TcpStream) (written : IpAddr × ℕ → Text → Bool) where
    -- The message tells of a code that was read at one of these addresses.
    abbrev pub Answered : Text → (IpAddr × ℕ → Type 0) → Message → Type 0
    Answered value P message =
        (address : IpAddr × ℕ) × (stream : TcpStream) × (code : ℕ) × P address
        × (connect address ≡ some stream)
        × (read_http_status is_utf8 stream ≡ some code)
        × (200 ≤ code)
        × (code < 400)
        × (message ≡ format "HTTP {} from {}" (num code ∷ text value ∷ []))

    code_answered :
        (value : Text) (code : ℕ) (next : Option Message) (message : Message)
        → (if leb 200 code && ltb code 400
            then some (format "HTTP {} from {}" (num code ∷ text value ∷ []))
            else next)
          ≡ some message
        → (next ≡ some message)
          ⊎ ((200 ≤ code)
              × (code < 400)
              × (message ≡ format "HTTP {} from {}" (num code ∷ text value ∷ [])))
    code_answered value code next message h = ground arith

    probe_address-Answered :
        (P : IpAddr × ℕ → Type 0) (value : Text) (url : Url) (address : IpAddr × ℕ)
        (next : Option Message) (message : Message)
        → P address
        → (next ≡ some message → Answered value P message)
        → probe_address n is_utf8 connect written value url address next ≡ some message
        → Answered value P message
    unfolding probe_address
    probe_address-Answered P value url address next message p later h =
        elim (Option-cases (connect address)) [
          | inl e ↦ later (rw (probe_address, e) at h)
          | inr (stream, e) ↦ elim (Option-cases url.host_str) [
            | inl e2 ↦ absurd (none_ne_some (rw (probe_address, e, e2) at h))
            | inr (host, e2) ↦ elim (Bool-cases (written address (http_request url host))) [
              | inr e3 ↦ later (rw (probe_address, e, e2, e3) at h)
              | inl e3 ↦ elim (Option-cases (read_http_status is_utf8 stream)) [
                | inl e4 ↦ later (rw (probe_address, e, e2, e3, e4) at h)
                | inr (code, e4) ↦
                    elim (code_answered value code next message
                      (rw (probe_address, e, e2, e3, e4) at h)) [
                        | inl h ↦ later h
                        | inr (low, high, m) ↦ (address, stream, code, p, e, e4, low, high, m)
                      ]
              ]
            ]
          ]
        ]

    probe_addresses-Answered :
        (P : IpAddr × ℕ → Type 0) (value : Text) (url : Url) (addresses : List (IpAddr × ℕ))
        (message : Message)
        → All P addresses
        → probe_addresses n is_utf8 connect written value url addresses ≡ some message
        → Answered value P message
    unfolding probe_addresses
    probe_addresses-Answered P value url [] message all h = cc
    probe_addresses-Answered P value url (a ∷ rest) message all h =
        probe_address-Answered P value url a _ message all.0
          (probe_addresses-Answered P value url rest message all.1) h

    probe_valid-Answered :
        (laws : NetLaws n) (value : Text) (message : Message)
        (valid : Result (Url × List (IpAddr × ℕ)))
        → ((url : Url) (addresses : List (IpAddr × ℕ))
            → valid ≡ ok (url, addresses)
            → AllLoopback n laws addresses)
        → probe_valid n is_utf8 connect written value valid ≡ some message
        → Answered value (λ a. is_loopback a.0 ≡ true) message
    probe_valid-Answered laws value message (err e) safe h = cc
    probe_valid-Answered laws value message (ok (url, addresses)) safe h =
        probe_addresses-Answered (λ a. is_loopback a.0 ≡ true) value url addresses message
          (safe url addresses refl) h

    -- A probe that succeeds has read a code from 200 up to 399 from a connection to a loopback address,
    -- and its message is of this code.
    pub probe_http-Answered :
        (laws : NetLaws n) (value : Text) (message : Message)
        → probe_http n is_utf8 connect written value ≡ some message
        → Answered value (λ a. is_loopback a.0 ≡ true) message
    unfolding probe_http
    probe_http-Answered laws value message h =
        probe_valid-Answered laws value message (validate_http_url n value)
          (λ url addresses v. validate_http_url-AllLoopback n laws value url addresses v) h
