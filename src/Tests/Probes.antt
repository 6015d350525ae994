-- ===== src/Tests/Probes.antt =====
-- The HTTP probe of src/readiness.rs at concrete connections.
use mathlib.Core.Option.{bind}
use procherd.Prelude.{Bool, ◌≡◌, refl, true, none, some, inr, ◌++◌, ◌∷◌, []}
use procherd.Prelude.Texts.{Message, codes, strip_prefix, text, num, format, text_eq}
use procherd.Prelude.Numbers.{parse_uint}
use procherd.Readiness.Conditions.{
  Net, NetLaws, Url, validate_http_url, host_addresses, eq_ignore_ascii_case,
}
use procherd.Readiness.Probes.{
  TcpStream, read_response, first_line, split_ascii_whitespace, status_code, read_http_status,
  max_http_status_bytes, probe_address, probe_addresses, probe_http, http_request,
}
use procherd.Readiness.Probes.StatusLine.{line_within, read_http_status-line}
use procherd.Readiness.Probes.Answers.{Answered, probe_http-Answered}

-- The status line arrives in reads of four bytes, and the connection stays open.
abbrev in_parts : TcpStream
in_parts = record {
  bytes = codes "HTTP/1.1 204 No Content\r\n\r\n";
  sizes = λ _. 3;
  closed = Bool.false;
}

read_http_status-line_example :
    read_http_status (λ _. true) in_parts
    ≡ bind
        (line_within max_http_status_bytes in_parts.closed in_parts.bytes)
        (status_code (λ _. true))
read_http_status-line_example = read_http_status-line (λ _. true) in_parts

status_in_parts : read_http_status (λ _. true) in_parts ≡ some 204
unfolding read_http_status read_response first_line status_code split_ascii_whitespace strip_prefix
    parse_uint
status_in_parts = refl

abbrev up_url : Url
up_url = record {
  scheme = codes "http";
  username = [];
  password = none;
  host_str = some (codes "localhost");
  port_or_known_default = some 8080;
  port = some 8080;
  path = codes "/up";
  query = none;
}

abbrev serving : Net
serving = record {
  IpAddr = Unit;
  is_loopback = λ _. true;
  localhost_v4 = tt;
  localhost_v6 = tt;
  parse_socket_addr = λ _. none;
  parse_ip = λ _. none;
  parse_url = λ _. inr up_url;
}

abbrev serving_laws : NetLaws serving
serving_laws = record { v4_loopback = refl; v6_loopback = refl }

up_request :
    http_request up_url (codes "localhost")
    ≡ codes "GET /up HTTP/1.1\r\nHost: localhost:8080\r\nConnection: close\r\n\r\n"
unfolding http_request procherd.Prelude.Numbers.to_decimal
up_request = refl

abbrev up_answer : Message
up_answer = format "HTTP {} from {}" (num 204 ∷ text (codes "http://localhost:8080/up") ∷ [])

probe_http-Answered_example :
    Answered serving
      (λ _. true)
      (λ _. some in_parts)
      (λ _ _. true)
      (codes "http://localhost:8080/up")
      (λ a. serving.is_loopback a.0 ≡ true)
      up_answer
unfolding probe_http probe_addresses probe_address validate_http_url host_addresses
    eq_ignore_ascii_case read_http_status read_response first_line status_code
    split_ascii_whitespace strip_prefix parse_uint text_eq
probe_http-Answered_example =
    probe_http-Answered serving (λ _. true) (λ _. some in_parts) (λ _ _. true) serving_laws
      (codes "http://localhost:8080/up") up_answer refl
