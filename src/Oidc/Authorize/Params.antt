-- ===== src/Oidc/Authorize/Params.antt =====
-- internal/handler/oidc.go: oidcAuthzRequest, the parameters that survive every hop of a login.
use simple_auth.Prelude.{
  String, ◌≡◌, refl, Option, none, some, List, [], ◌∷◌, if◌then◌else◌, ◌==◌, lookup, without,
  lookup-without, arith, eq_iff, Bool-cases, inl, inr,
}

pub record AuthzRequest : Type 0 where
  pub client_id : String
  pub redirect_uri : String
  pub state : String
  pub nonce : String
  pub scope : String
  pub code_challenge : String
  pub code_challenge_method : String
  pub prompt : String

unfoldable pub parse_authz_request : (String → String) → AuthzRequest
parse_authz_request form_value = record {
  client_id = form_value "client_id";
  redirect_uri = form_value "redirect_uri";
  state = form_value "state";
  nonce = form_value "nonce";
  scope = form_value "scope";
  code_challenge = form_value "code_challenge";
  code_challenge_method = form_value "code_challenge_method";
  prompt = form_value "prompt";
}

-- Values.Set
abbrev pub set_value : String → String → List (String × String) → List (String × String)
set_value key value l = (key, value) ∷ without key l

-- The closure `set`: a blank value is left out.
abbrev pub set_unless_blank : String → String → List (String × String) → List (String × String)
set_unless_blank key value l = if value == "" then l else set_value key value l

-- A challenge travels with its method, or neither does.
abbrev pub set_challenge : AuthzRequest → List (String × String) → List (String × String)
set_challenge a l =
    if a.code_challenge == ""
    then l
    else set_value "code_challenge_method" a.code_challenge_method
        (set_value "code_challenge" a.code_challenge l)

unfoldable pub values : AuthzRequest → List (String × String)
values a = set_unless_blank "prompt" a.prompt (
    set_challenge a (
      set_unless_blank "scope" a.scope (
        set_unless_blank "nonce" a.nonce (
          set_unless_blank "state" a.state (
            set_unless_blank "redirect_uri" a.redirect_uri
              (set_unless_blank "client_id" a.client_id []))))))

-- The value of a parameter of a query; blank where it is absent.
abbrev value_or_blank : Option String → String
value_or_blank none = ""
value_or_blank (some v) = v

abbrev pub value_in : List (String × String) → String → String
value_in l key = value_or_blank (lookup key l)

value_in-set_value :
    (key other value : String) (l : List (String × String))
    → value_in (set_value key value l) other ≡ (if key == other then value else value_in l other)
value_in-set_value key other value l = ground (arith, lookup-without key other l)

value_in-set_unless_blank :
    (key other value : String) (l : List (String × String))
    → value_in (set_unless_blank key value l) other ≡ (
        if key == other
        then (if value == "" then value_in l other else value)
        else value_in l other)
value_in-set_unless_blank key other value l = elim (Bool-cases (value == "")) [
  | inl blank ↦ ground arith
  | inr given ↦ ground (arith, value_in-set_value key other value l)
]

value_in-set_challenge :
    (a : AuthzRequest) (other : String) (l : List (String × String))
    → value_in (set_challenge a l) other ≡ (
        if a.code_challenge == ""
        then value_in l other
        else if "code_challenge_method" == other
        then a.code_challenge_method
        else if "code_challenge" == other
        then a.code_challenge
        else value_in l other)
value_in-set_challenge a other l = elim (Bool-cases (a.code_challenge == "")) [
  | inl blank ↦ simp blank
  | inr given ↦ simp (
    given,
    value_in-set_value "code_challenge_method" other a.code_challenge_method
        (set_value "code_challenge" a.code_challenge l),
    value_in-set_value "code_challenge" other a.code_challenge l,
  )
]

-- The query of a retry: the request's parameters, with the two that the error page adds.
abbrev pub retry_values : String → AuthzRequest → List (String × String)
retry_values msg a = set_value "error" msg (set_value "response_type" "code" (values a))

-- A method without a challenge is dropped.
abbrev pub kept : AuthzRequest → AuthzRequest
kept a = if a.code_challenge == "" then record a { code_challenge_method = "" } else a

retry-client_id :
    (msg : String) (a : AuthzRequest)
    → value_in (retry_values msg a) "client_id" ≡ (kept a).client_id
unfolding values
retry-client_id msg a =
    simp (value_in-set_value, value_in-set_unless_blank, value_in-set_challenge)
      (ground (arith, eq_iff a.client_id ""))

retry-redirect_uri :
    (msg : String) (a : AuthzRequest)
    → value_in (retry_values msg a) "redirect_uri" ≡ (kept a).redirect_uri
unfolding values
retry-redirect_uri msg a =
    simp (value_in-set_value, value_in-set_unless_blank, value_in-set_challenge)
      (ground (arith, eq_iff a.redirect_uri ""))

retry-state :
    (msg : String) (a : AuthzRequest) → value_in (retry_values msg a) "state" ≡ (kept a).state
unfolding values
retry-state msg a =
    simp (value_in-set_value, value_in-set_unless_blank, value_in-set_challenge)
      (ground (arith, eq_iff a.state ""))

retry-nonce :
    (msg : String) (a : AuthzRequest) → value_in (retry_values msg a) "nonce" ≡ (kept a).nonce
unfolding values
retry-nonce msg a =
    simp (value_in-set_value, value_in-set_unless_blank, value_in-set_challenge)
      (ground (arith, eq_iff a.nonce ""))

retry-scope :
    (msg : String) (a : AuthzRequest) → value_in (retry_values msg a) "scope" ≡ (kept a).scope
unfolding values
retry-scope msg a =
    simp (value_in-set_value, value_in-set_unless_blank, value_in-set_challenge)
      (ground (arith, eq_iff a.scope ""))

retry-code_challenge :
    (msg : String) (a : AuthzRequest)
    → value_in (retry_values msg a) "code_challenge" ≡ (kept a).code_challenge
unfolding values
retry-code_challenge msg a =
    simp (value_in-set_value, value_in-set_unless_blank, value_in-set_challenge)
      (ground (arith, eq_iff a.code_challenge ""))

retry-code_challenge_method :
    (msg : String) (a : AuthzRequest)
    → value_in (retry_values msg a) "code_challenge_method" ≡ (kept a).code_challenge_method
unfolding values
retry-code_challenge_method msg a =
    simp (value_in-set_value, value_in-set_unless_blank, value_in-set_challenge)
      (ground (arith, eq_iff a.code_challenge_method ""))

retry-prompt :
    (msg : String) (a : AuthzRequest) → value_in (retry_values msg a) "prompt" ≡ (kept a).prompt
unfolding values
retry-prompt msg a =
    simp (value_in-set_value, value_in-set_unless_blank, value_in-set_challenge)
      (ground (arith, eq_iff a.prompt ""))

-- The parameters of an authorize request come back unchanged from the page that a failed login is sent
-- to, the PKCE challenge and its method included; only a method that has no challenge is dropped.
pub parse_authz_request-retry_values :
    (msg : String) (a : AuthzRequest) → parse_authz_request (value_in (retry_values msg a)) ≡ kept a
unfolding parse_authz_request
parse_authz_request-retry_values msg a =
    rw
      (
        retry-client_id msg a,
        retry-redirect_uri msg a,
        retry-state msg a,
        retry-nonce msg a,
        retry-scope msg a,
        retry-code_challenge msg a,
        retry-code_challenge_method msg a,
        retry-prompt msg a,
      )
      refl
