-- ===== src/Readiness/Conditions.antt =====
-- src/readiness.rs: the conditions of a `start` command, checked before the run exists.
-- The reading of socket addresses, of IP addresses and of URLs is the standard library's and the
-- `url` crate's: it is a parameter.
pub mod Loopback
use procherd.Prelude.{
  ℕ, zero, suc, ◌+◌, ◌≤◌, ◌<◌, String, Bool, true, false, not, ◌&&◌, ◌||◌, Option, none, some, List,
  [], ◌∷◌, ◌++◌, ◌≡◌, ◌⊎◌, inl, inr, refl, leb, All, All-append, length-append, arith, Bool-cases,
  length, is_empty, is_some, ltb, if◌then◌else◌, any,
}
use procherd.Prelude.Texts.{Text, codes, Message, text, num, format, text_eq, strip_prefix}
use procherd.Prelude.Numbers.{parse_uint}
use procherd.Prelude.Paths.{is_absolute, has_parent_dir, join}
use procherd.Error.{AppError, usage_error, Result, ok, err, ◌>>=◌, ◌>>◌, refuse_if, ok_or}
use procherd.Model.Readiness.{ReadinessCondition, tcp, http, file, log, port_lease}
use procherd.Readiness.Tracker.{max_log_literal_bytes}

abbrev pub max_conditions : ℕ
max_conditions = 16

-- What the code asks of a parsed URL.
pub record Url : Type 0 where
  pub scheme : Text
  pub username : Text
  pub password : Option Text
  pub host_str : Option Text
  pub port_or_known_default : Option ℕ
  pub port : Option ℕ
  pub path : Text
  pub query : Option Text

-- `parse_url` answers a URL, or an error's text.
pub record Net : Type 1 where
  pub IpAddr : Type 0
  pub is_loopback : IpAddr → Bool
  pub localhost_v4 : IpAddr
  pub localhost_v6 : IpAddr
  pub parse_socket_addr : Text → Option (IpAddr × ℕ)
  pub parse_ip : Text → Option IpAddr
  pub parse_url : Text → Text ⊎ Url

-- The names of localhost are loopback addresses.
pub record NetLaws (n : Net) : Type 0 where
  pub v4_loopback : n.is_loopback n.localhost_v4 ≡ true
  pub v6_loopback : n.is_loopback n.localhost_v6 ≡ true

abbrev pub u16_max : ℕ
u16_max = 65535

-- An ASCII letter in lower case.
abbrev lower : ℕ → ℕ
lower c = if ltb 64 c && ltb c 91 then c + 32 else c

unfoldable pub eq_ignore_ascii_case : Text → Text → Bool
eq_ignore_ascii_case [] [] = true
eq_ignore_ascii_case [] (_ ∷ _) = false
eq_ignore_ascii_case (_ ∷ _) [] = false
eq_ignore_ascii_case (a ∷ s) (b ∷ t) =
    text_eq (lower a ∷ []) (lower b ∷ []) && eq_ignore_ascii_case s t

abbrev parsed_url : Text ⊎ Url → Result Url
parsed_url (inl e) = err (usage_error (format "invalid readiness HTTP URL: {}" (text e ∷ [])))
parsed_url (inr url) = ok url

module _ (n : Net) where
  open n use {
    IpAddr, is_loopback, localhost_v4, localhost_v6, parse_socket_addr, parse_ip, parse_url,
  }

  localhost_at : ℕ → List (IpAddr × ℕ)
  localhost_at port = (localhost_v4, port) ∷ (localhost_v6, port) ∷ []

  -- `localhost:PORT`, when the text is no socket address.
  localhost_port : Text → Option (List (IpAddr × ℕ))
  unfolding localhost_at
  localhost_port value = elim (strip_prefix (codes "localhost:") value) [
    | none ↦ none
    | some port ↦ elim (parse_uint u16_max port) [ none ↦ none | some p ↦ some (localhost_at p) ]
  ]

  unfoldable pub local_socket_addresses : Text → Option (List (IpAddr × ℕ))
  unfolding localhost_port
  local_socket_addresses value = elim (parse_socket_addr value) [
    | none ↦ localhost_port value
    | some (ip, port) ↦ if is_loopback ip then some ((ip, port) ∷ []) else none
  ]

  -- The addresses of a host.
  unfoldable pub host_addresses : Text → ℕ → Result (List (IpAddr × ℕ))
  unfolding localhost_at
  host_addresses host port =
      if eq_ignore_ascii_case host (codes "localhost") then ok (localhost_at port) else (do
        ip ←
            ok_or
              (usage_error
                (format "readiness HTTP host must be localhost or a loopback IP address" []))
              (parse_ip host)
        refuse_if (not (is_loopback ip)) (
            usage_error
              (format "readiness HTTP host must be localhost or a loopback IP address" []))
        ok ((ip, port) ∷ []))

  unfoldable pub validate_http_url : Text → Result (Url × List (IpAddr × ℕ))
  validate_http_url value = do
    url ← parsed_url (parse_url value)
    refuse_if (not (text_eq url.scheme (codes "http")))
        (usage_error (format "version 0.1 readiness HTTP URLs must use http://" []))
    refuse_if (not (is_empty url.username) || is_some url.password)
        (usage_error (format "readiness HTTP URLs must not contain credentials" []))
    host ← ok_or (usage_error (format "readiness HTTP URL has no host" [])) url.host_str
    port ←
        ok_or (usage_error (format "readiness HTTP URL has no port" [])) url.port_or_known_default
    addresses ← host_addresses host port
    ok (url, addresses)

  unfoldable pub tcp_conditions : List Text → Result (List ReadinessCondition)
  tcp_conditions [] = ok []
  tcp_conditions (address ∷ rest) = do
    _ ←
        ok_or
          (usage_error (
            format "readiness TCP address must be localhost:PORT or a loopback IP socket address"
              []))
          (local_socket_addresses address)
    cs ← tcp_conditions rest
    ok (tcp address ∷ cs)

  unfoldable pub http_conditions : List Text → Result (List ReadinessCondition)
  http_conditions [] = ok []
  http_conditions (value ∷ rest) = do
    _ ← validate_http_url value
    cs ← http_conditions rest
    ok (http value ∷ cs)

  unfoldable pub readiness_path : Text → Text → Result Text
  readiness_path working_directory path = do
    refuse_if (is_empty path) (usage_error (format "readiness file path must not be empty" []))
    refuse_if (has_parent_dir path && not (is_absolute path))
        (usage_error (format "relative readiness file paths must not contain parent traversal" []))
    ok (if is_absolute path then path else join working_directory path)

  unfoldable pub file_conditions : Text → List Text → Result (List ReadinessCondition)
  file_conditions working_directory [] = ok []
  file_conditions working_directory (path ∷ rest) = do
    p ← readiness_path working_directory path
    cs ← file_conditions working_directory rest
    ok (file p ∷ cs)

  unfoldable pub log_conditions : List Text → Result (List ReadinessCondition)
  log_conditions [] = ok []
  log_conditions (literal ∷ rest) = do
    refuse_if (is_empty literal || ltb max_log_literal_bytes (length literal)) (
        usage_error (
          format "readiness log literals must contain 1 to {} UTF-8 bytes"
            (num max_log_literal_bytes ∷ [])))
    cs ← log_conditions rest
    ok (log literal ∷ cs)

  unfoldable pub port_conditions : List Text → List Text → Result (List ReadinessCondition)
  port_conditions leased_ports [] = ok []
  port_conditions leased_ports (name ∷ rest) = do
    refuse_if (not (any (text_eq name) leased_ports)) (
        usage_error
          (format "readiness port {:?} does not name a requested port lease" (text name ∷ [])))
    cs ← port_conditions leased_ports rest
    ok (port_lease name ∷ cs)

  -- The lists of the arguments are read in this order; the first fault is the error.
  unfoldable pub build_conditions :
      (tcp http files log_literals ready_ports leased_ports : List Text)
      → Text
      → Result (List ReadinessCondition)
  build_conditions tcps https files log_literals ready_ports leased_ports working_directory = do
    let count = length tcps + length https + length files + length log_literals + length ready_ports
    refuse_if (ltb max_conditions count) (
        usage_error
          (format "at most {} readiness conditions may be configured" (num max_conditions ∷ [])))
    ts ← tcp_conditions tcps
    hs ← http_conditions https
    fs ← file_conditions working_directory files
    ls ← log_conditions log_literals
    ps ← port_conditions leased_ports ready_ports
    ok (ts ++ (hs ++ (fs ++ (ls ++ ps))))
