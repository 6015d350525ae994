-- ===== src/Readiness/Conditions/Loopback.antt =====
-- src/readiness.rs: what the conditions of an accepted `start` command can reach. Proofs.
use procherd.Prelude.{
  not-eq_false, ℕ, suc, ◌+◌, ◌≤◌, ◌≡◌, refl, inl, inr, true, false, ◌||◌, some, List, [], ◌∷◌, ◌++◌,
  arith, length, All, All-append, length-append, any, Option-cases, is_empty, ltb,
}
use procherd.Prelude.Texts.{Text, text_eq}
use procherd.Prelude.Paths.{is_absolute, join}
use procherd.Error.{Result, ok, err, ◌>>=◌, refuse_if, refuse_if-ok, >>=-eq-ok}
use procherd.Model.Readiness.{ReadinessCondition, tcp, http, file, log, port_lease}
use procherd.Readiness.Tracker.{max_log_literal_bytes}
use procherd.Readiness.Runs.{LiteralFits}
use procherd.Readiness.Conditions.{
  Net, NetLaws, Url, local_socket_addresses, localhost_port, host_addresses, validate_http_url,
  tcp_conditions, http_conditions, file_conditions, log_conditions, port_conditions, readiness_path,
  build_conditions,
}

at_most_16 : (k : ℕ) → ltb 16 k ≡ false → k ≤ 16
at_most_16 k h = ground arith

literal_fits :
    (v : Text)
    → (is_empty v || ltb max_log_literal_bytes (length v)) ≡ false
    → (1 ≤ length v) × (length v ≤ 1024)
literal_fits [] h = absurd (cc)
literal_fits (c ∷ v) h = ground arith

join-is_absolute : (w p : Text) → is_absolute w ≡ true → is_absolute (join w p) ≡ true
unfolding join
join-is_absolute [] p h = absurd (cc)
join-is_absolute (c ∷ w) p h = ground arith

-- A list that is built by one more condition.
built_by :
    (m : Result (List ReadinessCondition)) (c : ReadinessCondition) (out : List ReadinessCondition)
    → (m >>= λ cs. ok (c ∷ cs)) ≡ ok out
    → (rest : List ReadinessCondition) × (m ≡ ok rest) × (out ≡ c ∷ rest)
built_by (ok rest) c out h = (rest, refl, cc)
built_by (err e) c out h = absurd (cc)

-- The condition on a list from its head, its tail and the recursive call.
module _ (P : ReadinessCondition → Type 0) where
  listed :
      (m : Result (List ReadinessCondition)) (c : ReadinessCondition)
      (out : List ReadinessCondition) (k : ℕ)
      → (m >>= λ cs. ok (c ∷ cs)) ≡ ok out
      → P c
      → ((rest : List ReadinessCondition) → m ≡ ok rest → (All P rest) × (length rest ≡ k))
      → (All P out) × (length out ≡ suc k)
  listed m c out k h p ih =
      let (rest, e, o) = built_by m c out h in
      let r = ih rest e in rw o ((p, r.0), omega (arith, r.1))

module _ (n : Net) (laws : NetLaws n) where
  open n use {IpAddr, is_loopback, localhost_v4, localhost_v6, parse_socket_addr, parse_ip}

  abbrev pub AllLoopback : List (IpAddr × ℕ) → Type 0
  AllLoopback = All (λ a. is_loopback a.0 ≡ true)

  localhost_port-AllLoopback :
      (v : Text) (as' : List (IpAddr × ℕ)) → localhost_port n v ≡ some as' → AllLoopback as'
  unfolding localhost_port
  localhost_port-AllLoopback v as' h = ground (arith, laws.v4_loopback, laws.v6_loopback)

  local_socket_addresses-AllLoopback :
      (v : Text) (as' : List (IpAddr × ℕ)) → local_socket_addresses n v ≡ some as' → AllLoopback as'
  unfolding local_socket_addresses
  local_socket_addresses-AllLoopback v as' h = ground (arith, localhost_port-AllLoopback v as')

  host_addresses-AllLoopback :
      (host : Text) (port : ℕ) (as' : List (IpAddr × ℕ))
      → host_addresses n host port ≡ ok as'
      → AllLoopback as'
  unfolding host_addresses
  host_addresses-AllLoopback host port as' h = ground (arith, laws.v4_loopback, laws.v6_loopback)

  pub validate_http_url-AllLoopback :
      (v : Text) (url : Url) (as' : List (IpAddr × ℕ))
      → validate_http_url n v ≡ ok (url, as')
      → AllLoopback as'
  unfolding validate_http_url
  validate_http_url-AllLoopback v url as' h = grind (arith, host_addresses-AllLoopback)

  -- What an accepted condition can reach, or waits for.
  abbrev pub IsLocal : List Text → ReadinessCondition → Type 0
  IsLocal leased (tcp address) =
      (as' : List (IpAddr × ℕ)) × (local_socket_addresses n address ≡ some as') × AllLoopback as'
  IsLocal leased (http url) =
      (u : Url) × (as' : List (IpAddr × ℕ)) × (validate_http_url n url ≡ ok (u, as'))
      × AllLoopback as'
  IsLocal leased (file path) = is_absolute path ≡ true
  IsLocal leased (log literal) = LiteralFits (log literal)
  IsLocal leased (port_lease name) = any (text_eq name) leased ≡ true

  readiness_path-is_absolute :
      (w v p : Text) → is_absolute w ≡ true → readiness_path n w v ≡ ok p → is_absolute p ≡ true
  unfolding readiness_path
  readiness_path-is_absolute w v p a h = ground (arith, join-is_absolute w v)

  tcp_conditions-IsLocal :
      (leased vs : List Text) (cs : List ReadinessCondition)
      → tcp_conditions n vs ≡ ok cs
      → (All (IsLocal leased) cs) × (length cs ≡ length vs)
  unfolding tcp_conditions
  tcp_conditions-IsLocal leased [] cs h = ground arith
  tcp_conditions-IsLocal leased (v ∷ vs) cs h = elim (Option-cases (local_socket_addresses n v)) [
    | inl e ↦ absurd (cc (rw e at h))
    | inr (as', e) ↦
        listed (IsLocal leased) (tcp_conditions n vs) (tcp v) cs (length vs) (rw e at h)
          (as', e, local_socket_addresses-AllLoopback v as' e) (tcp_conditions-IsLocal leased vs)
  ]

  http_conditions-IsLocal :
      (leased vs : List Text) (cs : List ReadinessCondition)
      → http_conditions n vs ≡ ok cs
      → (All (IsLocal leased) cs) × (length cs ≡ length vs)
  unfolding http_conditions
  http_conditions-IsLocal leased [] cs h = ground arith
  http_conditions-IsLocal leased (v ∷ vs) cs h =
      let ((u, as'), e, r) = >>=-eq-ok (validate_http_url n v) _ h in
      listed (IsLocal leased) (http_conditions n vs) (http v) cs (length vs) r
        (u, as', e, validate_http_url-AllLoopback v u as' e) (http_conditions-IsLocal leased vs)

  file_conditions-IsLocal :
      (leased : List Text) (w : Text)
      → is_absolute w ≡ true
      → (vs : List Text) (cs : List ReadinessCondition) → file_conditions n w vs ≡ ok cs
      → (All (IsLocal leased) cs) × (length cs ≡ length vs)
  unfolding file_conditions
  file_conditions-IsLocal leased w a [] cs h = ground arith
  file_conditions-IsLocal leased w a (v ∷ vs) cs h =
      let (p, e, r) = >>=-eq-ok (readiness_path n w v) _ h in
      listed (IsLocal leased) (file_conditions n w vs) (file p) cs (length vs) r
        (readiness_path-is_absolute w v p a e) (file_conditions-IsLocal leased w a vs)

  log_conditions-IsLocal :
      (leased vs : List Text) (cs : List ReadinessCondition)
      → log_conditions n vs ≡ ok cs
      → (All (IsLocal leased) cs) × (length cs ≡ length vs)
  unfolding log_conditions
  log_conditions-IsLocal leased [] cs h = ground arith
  log_conditions-IsLocal leased (v ∷ vs) cs h =
      let (_, e, r) = >>=-eq-ok (refuse_if _ _) _ h in
      listed (IsLocal leased) (log_conditions n vs) (log v) cs (length vs) r
        (literal_fits v (refuse_if-ok _ _ e)) (log_conditions-IsLocal leased vs)

  port_conditions-IsLocal :
      (leased vs : List Text) (cs : List ReadinessCondition)
      → port_conditions n leased vs ≡ ok cs
      → (All (IsLocal leased) cs) × (length cs ≡ length vs)
  unfolding port_conditions
  port_conditions-IsLocal leased [] cs h = ground arith
  port_conditions-IsLocal leased (v ∷ vs) cs h =
      let (_, e, r) = >>=-eq-ok (refuse_if _ _) _ h in
      listed (IsLocal leased) (port_conditions n leased vs) (port_lease v) cs (length vs) r
        (not-eq_false _ (refuse_if-ok _ _ e)) (port_conditions-IsLocal leased vs)

  -- If `build_conditions` accepts its arguments, in an absolute working directory, then there are
  -- as many conditions as arguments, and at most 16; every TCP address and every URL stands for
  -- loopback addresses only; file paths are absolute; log literals have 1 to 1024 bytes; and the
  -- named ports are among the leased ones.
  pub build_conditions-IsLocal :
      (tcps https files literals ports leased : List Text) (w : Text) (cs : List ReadinessCondition)
      → is_absolute w ≡ true
      → build_conditions n tcps https files literals ports leased w ≡ ok cs
      → All (IsLocal leased) cs
        × (length cs ≡ length tcps + length https + length files + length literals + length ports)
        × (length cs ≤ 16)
  unfolding build_conditions
  build_conditions-IsLocal tcps https files literals ports leased w cs a h =
      let count = length tcps + length https + length files + length literals + length ports in
      let (_, e, h1) = >>=-eq-ok (refuse_if (ltb 16 count) _) _ h in
      let few : ltb 16 count ≡ false = refuse_if-ok (ltb 16 count) _ e in
      let (ts, et, h2) = >>=-eq-ok (tcp_conditions n tcps) _ h1 in
      let (hs, eh, h3) = >>=-eq-ok (http_conditions n https) _ h2 in
      let (fs, ef, h4) = >>=-eq-ok (file_conditions n w files) _ h3 in
      let (ls, el, h5) = >>=-eq-ok (log_conditions n literals) _ h4 in
      let (ps, ep, h6) = >>=-eq-ok (port_conditions n leased ports) _ h5 in
      let t = tcp_conditions-IsLocal leased tcps ts et in
      let u = http_conditions-IsLocal leased https hs eh in
      let f = file_conditions-IsLocal leased w a files fs ef in
      let l = log_conditions-IsLocal leased literals ls el in
      let p = port_conditions-IsLocal leased ports ps ep in
      let sum : length (ts ++ (hs ++ (fs ++ (ls ++ ps))))
          ≡ length tcps + length https + length files + length literals + length ports =
        omega (
          arith,
          length-append ts (hs ++ (fs ++ (ls ++ ps))),
          length-append hs (fs ++ (ls ++ ps)),
          length-append fs (ls ++ ps),
          length-append ls ps,
        ) in
      let out : cs ≡ ts ++ (hs ++ (fs ++ (ls ++ ps))) = cc in
      rw out (
        All-append _ ts _ t.0
            (All-append _ hs _ u.0 (All-append _ fs _ f.0 (All-append _ ls ps l.0 p.0))),
        sum,
        omega (arith, sum, at_most_16 _ few),
      )
