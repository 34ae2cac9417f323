-- ===== src/Rmcp/Activation/Choice.antt =====
-- Which session an activation makes: never a weaker kind or suite than the caller asked for.
use ipmi_rs.Base.{
  ℕ, zero, suc, ◌+◌, ◌<◌, ◌≤◌, ◌≡◌, refl, ap, ◌∙◌, inl, inr, true, false, not, ◌&&◌, List, ◌++◌,
  Option, none, some, ok, ok_or, map_err, bind_ok, map_err-ok, ok_or-ok, ok_cancel, reject_if-ok,
  Bool-cases, Option-cases, ltb, ltb→lt, length, arith,
}
use mathlib.Core.Path.{subst}
use ipmi_rs.Connection.Channel.{current}
use ipmi_rs.Rmcp.CipherPolicy.{CipherSuite, id3, select_best}
use ipmi_rs.Rmcp.V1_5.Commands.{
  AuthenticationCapabilities, capabilities_request, parse_capabilities, cipher_suites_request,
  parse_cipher_suites,
}
use ipmi_rs.Rmcp.V1_5.State.{State}
use ipmi_rs.Rmcp.V1_5.Activation.{Exchange, new_state, parsed}
use ipmi_rs.Rmcp.V1_5.Activation as V1_5Activation
use ipmi_rs.Rmcp.V2_0.Rakp.{username_new}
use ipmi_rs.Rmcp.V2_0.Crypto.Backend.{Backend}
use ipmi_rs.Rmcp.V2_0.Activation.Steps.{Activated}
use ipmi_rs.Rmcp.V2_0.Activation as V2_0Activation
use ipmi_rs.Rmcp.V2_0.Activation.Authentic.{IsAuthentic, activate-IsAuthentic}
use ipmi_rs.Rmcp.Activation.{
  ping_send, pong_receive, ipmi_not_supported, get_channel_authentication_capabilities,
  invalid_cipher_suite_list, no_supported_cipher_suite, invalid_username, v1_5_error, v2_0_error,
  CipherSuitePolicy, exact, best_available, Config, Peer, Active, v1_5, v2_0, read_pong, ping_bytes,
  list_suites, select_suite, utf8_of, characters_of, parameters, activate_2_0, some_policy,
  map_name, choose, activate,
}

-- The pages that the other side lists from an index on: full ones, and then a short one.
pub data Listed (exchange : Exchange) : State → ℕ → List ℕ → Type 0 where
  last :
      (s : State) (index : ℕ) (bytes page : List ℕ)
      → (exchange s 0x54 (cipher_suites_request current index)).1 ≡ some bytes
      → parse_cipher_suites bytes ≡ some page
      → length page < 16
      → index < 64
      → Listed exchange s index page
  more :
      (s : State) (index : ℕ) (bytes page rest : List ℕ)
      → (exchange s 0x54 (cipher_suites_request current index)).1 ≡ some bytes
      → parse_cipher_suites bytes ≡ some page
      → 16 ≤ length page
      → Listed exchange (exchange s 0x54 (cipher_suites_request current index)).0 (suc index) rest
      → Listed exchange s index (page ++ rest)

pub list_suites-Listed :
    (exchange : Exchange) (s : State) (index budget : ℕ) (records : List ℕ)
    → index + budget ≡ 64
    → (list_suites exchange s index budget).1 ≡ ok records
    → Listed exchange s index records
unfolding list_suites
list_suites-Listed exchange s index zero records n h = absurd (cc)
list_suites-Listed exchange s index (suc budget) records n h =
    let r = exchange s 0x54 (cipher_suites_request current index) in
    elim (Option-cases r.1) [
      | inl e ↦ let h' = rw (e, list_suites) at h in absurd (cc)
      | inr (bytes, e) ↦ elim (Option-cases (parse_cipher_suites bytes)) [
        | inl p ↦ let h' = rw (e, p, list_suites) at h in absurd (cc)
        | inr (page, p) ↦ elim (Bool-cases (ltb (length page) 16)) [
          | inl l ↦
              let h' = rw (e, p, l, list_suites) at h in
              subst (Listed exchange s index) (ok_cancel refl h')
                (last s index bytes page e p (ltb→lt (length page) 16 l) (omega arith))
          | inr l ↦
              let h' = rw (e, p, l, list_suites) at h in
              let rest = list_suites exchange r.0 (suc index) budget in
              let k = bind_ok rest.1 _ records h' in
              let i = list_suites-Listed exchange r.0 (suc index) budget k.0 (omega arith) k.1.0 in
              subst (Listed exchange s index) (ok_cancel refl k.1.1)
                (more s index bytes page k.0 e p (ground (arith, l)) i)
        ]
      ]
    ]

-- The suites that a policy lets through.
pub data Allowed (exchange : Exchange) (s : State)
    : Option CipherSuitePolicy → CipherSuite → Type 0 where
  by_default : Allowed exchange s none id3
  exactly : (suite : CipherSuite) → Allowed exchange s (some (exact suite)) suite
  best_of :
      (records : List ℕ) (suite : CipherSuite)
      → Listed exchange s 0 records
      → select_best records ≡ ok (some suite)
      → Allowed exchange s (some best_available) suite

select_suite-Allowed :
    (exchange : Exchange) (s : State) (policy : Option CipherSuitePolicy) (suite : CipherSuite)
    → select_suite exchange s policy ≡ ok suite
    → Allowed exchange s policy suite
unfolding select_suite
select_suite-Allowed exchange s none suite h =
    subst (Allowed exchange s none) (ok_cancel refl h) by_default
select_suite-Allowed exchange s (some (exact x)) suite h =
    subst (Allowed exchange s (some (exact x))) (ok_cancel refl h) (exactly x)
select_suite-Allowed exchange s (some best_available) suite h =
    let k = bind_ok (list_suites exchange s 0 64).1 _ suite h in
    let b = bind_ok (map_err invalid_cipher_suite_list (select_best k.0)) _ suite k.1.1 in
    let e = map_err-ok invalid_cipher_suite_list (select_best k.0) b.0 b.1.0 in
    let o = ok_or-ok no_supported_cipher_suite b.0 suite b.1.1 in
    best_of k.0 suite (list_suites-Listed exchange s 0 64 k.0 (omega arith) k.1.0) (e ∙ ap ok o)

-- What an activation may make of a configuration, in the state in which the capabilities were read.
pub data Chosen (b : Backend) (c : Config) (p : Peer) (s : State)
    (caps : AuthenticationCapabilities) : Active → Type 0 where
  plus :
      (a : Activated) (suite : CipherSuite) (username : List ℕ)
      → c.rmcp_plus ≡ true
      → caps.ipmi2_connections_supported ≡ true
      → Allowed p.exchange s c.suite_policy suite
      → username_new (characters_of c.username) ≡ some username
      → IsAuthentic b p.socket (parameters c p suite username) a
      → Chosen b c p s caps (v2_0 a)
  legacy :
      (t : State)
      → c.suite_policy ≡ none
      → (caps.ipmi2_connections_supported && c.rmcp_plus) ≡ false
      → (c.rmcp_plus && c.require_rmcp_plus) ≡ false
      → caps.ipmi15_connections_supported ≡ true
      → V1_5Activation.activate p.exchange s caps c.privilege (map_name c.username) c.password
        ≡ ok t
      → Chosen b c p s caps (v1_5 t)

activate_2_0-Chosen :
    (b : Backend) (c : Config) (p : Peer) (s : State) (caps : AuthenticationCapabilities)
    (a : Active)
    → (caps.ipmi2_connections_supported && c.rmcp_plus) ≡ true
    → activate_2_0 b c p s ≡ ok a
    → Chosen b c p s caps a
unfolding activate_2_0
activate_2_0-Chosen b c p s caps a v h =
    let k = bind_ok (select_suite p.exchange s c.suite_policy) _ a h in
    let l = reject_if-ok (ltb 16 (length (utf8_of c.username))) invalid_username _ a k.1.1 in
    let u = bind_ok (ok_or invalid_username (username_new (characters_of c.username))) _ a l.1 in
    let run = V2_0Activation.activate b p.socket (parameters c p k.0 u.0) in
    let r = bind_ok (map_err v2_0_error run) _ a u.1.1 in
    let e = map_err-ok v2_0_error run r.0 r.1.0 in
    subst (Chosen b c p s caps) (ok_cancel refl r.1.1) (
      plus r.0 k.0 u.0 (ground (arith, v)) (ground (arith, v))
        (select_suite-Allowed p.exchange s c.suite_policy k.0 k.1.0)
        (ok_or-ok invalid_username (username_new (characters_of c.username)) u.0 u.1.0)
        (activate-IsAuthentic b p.socket (parameters c p k.0 u.0) r.0 e))

without_policy : (policy : Option CipherSuitePolicy) → some_policy policy ≡ false → policy ≡ none
without_policy none h = refl
without_policy (some policy) h = absurd cc

choose-Chosen :
    (b : Backend) (c : Config) (p : Peer) (s : State) (caps : AuthenticationCapabilities)
    (a : Active)
    → choose b c p s caps ≡ ok a
    → Chosen b c p s caps a
unfolding choose
choose-Chosen b c p s caps a h =
    elim (Bool-cases (caps.ipmi2_connections_supported && c.rmcp_plus)) [
      | inl v ↦ activate_2_0-Chosen b c p s caps a v (rw (v, choose) at h)
      | inr v ↦ elim (Bool-cases (some_policy c.suite_policy)) [
        | inl q ↦ let h' = rw (v, q, choose) at h in absurd (cc)
        | inr q ↦ elim (Bool-cases (not caps.ipmi15_connections_supported)) [
          | inl w ↦ let h' = rw (v, q, w, choose) at h in absurd (cc)
          | inr w ↦ elim (Bool-cases (c.rmcp_plus && c.require_rmcp_plus)) [
            | inl x ↦ let h' = rw (v, q, w, x, choose) at h in absurd (cc)
            | inr x ↦
                let h' = rw (v, q, w, x, choose) at h in
                let run =
                  V1_5Activation.activate p.exchange s caps c.privilege (map_name c.username)
                    c.password in
                let r = bind_ok (map_err v1_5_error run) _ a h' in
                subst (Chosen b c p s caps) (ok_cancel refl r.1.1) (
                  legacy r.0 (without_policy c.suite_policy q) v x (ground (arith, w))
                    (map_err-ok v1_5_error run r.0 r.1.0))
          ]
        ]
      ]
    ]

-- What an activation has made, and of which capabilities.
pub record Made (b : Backend) (c : Config) (p : Peer) (a : Active) : Type 0 where
  pub caps : AuthenticationCapabilities
  pub reported :
      parsed parse_capabilities
        (p.exchange new_state 0x38 (capabilities_request current c.privilege)).1
      ≡ ok caps
  pub chosen :
      Chosen b c p (p.exchange new_state 0x38 (capabilities_request current c.privilege)).0 caps a

-- An activation makes a session of RMCP+ only where the caller and the capabilities allow it, with the
-- suite that the policy names, the best of all pages of the list, or suite 3 without a policy, and the
-- session is authentic. It makes a session of IPMI 1.5 only where the caller gave no policy and does not
-- require RMCP+, and RMCP+ was not asked for or is not supported.
pub activate-Made :
    (b : Backend) (c : Config) (p : Peer) (a : Active) → activate b c p ≡ ok a → Made b c p a
unfolding activate
activate-Made b c p a h = elim (Option-cases p.cancelled) [
  | inr (e, q) ↦ let h' = rw (q, activate) at h in absurd (cc)
  | inl q ↦
      let h' = rw (q, activate) at h in
      let k = reject_if-ok (not (p.ping_sent ping_bytes)) ping_send _ a h' in
      let d = bind_ok (map_err pong_receive p.pong) _ a k.1 in
      let g = bind_ok (read_pong d.0) _ a d.1.1 in
      let l = reject_if-ok (not g.0) ipmi_not_supported _ a g.1.1 in
      let r = p.exchange new_state 0x38 (capabilities_request current c.privilege) in
      let m =
        bind_ok (map_err get_channel_authentication_capabilities (parsed parse_capabilities r.1)) _
          a l.1 in
      record {
        caps = m.0;
        reported =
            map_err-ok get_channel_authentication_capabilities (parsed parse_capabilities r.1) m.0
              m.1.0;
        chosen = choose-Chosen b c p r.0 m.0 a m.1.1;
      }
]
