-- ===== src/Http/Guards.antt =====
-- Which requests reach a handler (main.go: apiAuthMiddleware, apiKeyFromRequest; csrf.go).
use gateway.Prelude.{
  ◌≡◌, ◌≢◌, refl, sym, ◌∙◌, String, str_eq, eq_iff, Bool, true, false, not, Bool-cases, inl, inr,
  ◌⊎◌, starts_with, Option, none, some, if◌then◌else◌, arith,
}
use gateway.Users.{User, active}
use gateway.Http.{
  Request, Recorder, Handler, Run, Layer, serve_handler, answer, new_status_recorder, is_v1,
  is_messages, csrf_protected, csrf_submitted, request_logging, csrf, is_active, api_auth,
  api_key_from_request, recovery, recover_run, middleware_chain,
}

-- The request bears the key of an active user.
pub record IsAuthenticated (lookup : String → Option User) (q : Request) : Type 0 where
  pub user : User
  pub found : lookup (api_key_from_request q) ≡ some user
  pub is_active_user : user.status ≡ "active"
  pub key_given : api_key_from_request q ≢ ""

recover-handled : (q : Request) (u : Run) → (recover_run q u).handled ≡ u.handled
unfolding recover_run
recover-handled q u = elim (Bool-cases u.panicking) [ inl t ↦ simp t refl | inr t ↦ simp t refl ]

active_user :
    (o : Option User) → is_active o ≡ true → (u : User) × ((o ≡ some u) × (u.status ≡ "active"))
unfolding is_active
active_user none h = absurd (ground (arith, h))
active_user (some u) h = (u, (refl, (eq_iff u.status active).0 h))

true_ne_false : true ≢ false
true_ne_false e = cc

module _ (lookup : String → Option User) (q : Request) (next : Layer) (r : Recorder) where
  no_key-unhandled :
      is_v1 q ≡ true
      → str_eq q.method "OPTIONS" ≡ false
      → str_eq (api_key_from_request q) "" ≡ true
      → (api_auth lookup q next r).handled ≡ false
  unfolding api_auth answer
  no_key-unhandled v m t = simp (v, m, t) refl

  no_user-unhandled :
      is_v1 q ≡ true
      → str_eq q.method "OPTIONS" ≡ false
      → str_eq (api_key_from_request q) "" ≡ false
      → is_active (lookup (api_key_from_request q)) ≡ false
      → (api_auth lookup q next r).handled ≡ false
  unfolding api_auth answer
  no_user-unhandled v m t a = simp (v, m, t, a) refl

  auth-handled :
      is_v1 q ≡ true
      → str_eq q.method "OPTIONS" ≡ false
      → (api_auth lookup q next r).handled ≡ true
      → IsAuthenticated lookup q
  auth-handled v m h = elim (Bool-cases (str_eq (api_key_from_request q) "")) [
    | inl t ↦ absurd (true_ne_false (sym h ∙ no_key-unhandled v m t))
    | inr t ↦ elim (Bool-cases (is_active (lookup (api_key_from_request q)))) [
      | inl a ↦ authenticated t (active_user _ a)
      | inr a ↦ absurd (true_ne_false (sym h ∙ no_user-unhandled v m t a))
    ]
  ]
    where
      authenticated :
          str_eq (api_key_from_request q) "" ≡ false
          → (u : User) × ((lookup (api_key_from_request q) ≡ some u) × (u.status ≡ "active"))
          → IsAuthenticated lookup q
      authenticated t (u, (f, a)) = record {
        user = u;
        found = f;
        is_active_user = a;
        key_given = λ e. true_ne_false (sym ((eq_iff _ "").1 e) ∙ t);
      }

-- The handler of a /v1/ request that is not a preflight runs only if the request gives a key that is
-- not blank and the lookup finds an active user under it.
pub chain-IsAuthenticated :
    (lookup : String → Option User) (q : Request) (h : Handler)
    → is_v1 q ≡ true
    → str_eq q.method "OPTIONS" ≡ false
    → (middleware_chain lookup q h).handled ≡ true
    → IsAuthenticated lookup q
unfolding middleware_chain recovery
chain-IsAuthenticated lookup q h v m e =
    auth-handled lookup q (csrf q (request_logging q (serve_handler h))) new_status_recorder v m
      (sym (recover-handled q _) ∙ e)

-- The session has a token and the request repeats it.
pub record HasCsrfToken (q : Request) : Type 0 where
  pub minted : q.session_csrf ≢ ""
  pub submitted : csrf_submitted q ≡ q.session_csrf

module _ (q : Request) (next : Layer) (r : Recorder) where
  unminted-unhandled :
      csrf_protected q ≡ true → str_eq q.session_csrf "" ≡ true → (csrf q next r).handled ≡ false
  unfolding csrf answer
  unminted-unhandled p t = simp (p, t) refl

  mismatch-unhandled :
      csrf_protected q ≡ true
      → str_eq q.session_csrf "" ≡ false
      → str_eq q.session_csrf (csrf_submitted q) ≡ false
      → (csrf q next r).handled ≡ false
  unfolding csrf answer
  mismatch-unhandled p t u = simp (p, t, u) refl

  csrf-handled : csrf_protected q ≡ true → (csrf q next r).handled ≡ true → HasCsrfToken q
  csrf-handled p h = elim (Bool-cases (str_eq q.session_csrf "")) [
    | inl t ↦ absurd (true_ne_false (sym h ∙ unminted-unhandled p t))
    | inr t ↦ elim (Bool-cases (str_eq q.session_csrf (csrf_submitted q))) [
      | inl u ↦ record {
        minted = λ e. true_ne_false (sym ((eq_iff _ "").1 e) ∙ t);
        submitted = sym ((eq_iff _ _).0 u);
      }
      | inr u ↦ absurd (true_ne_false (sym h ∙ mismatch-unhandled p t u))
    ]
  ]

negated : (b c : Bool) → (if b then false else not c) ≡ true → c ≡ false
negated true c h = absurd (true_ne_false (sym h))
negated false true h = absurd (true_ne_false (sym h))
negated false false h = refl

protected_not_v1 : (q : Request) → csrf_protected q ≡ true → is_v1 q ≡ false
unfolding csrf_protected
protected_not_v1 q p = negated _ (is_v1 q) p

-- The handler of a state-changing request outside /v1/ runs only if the session has a token that is
-- not blank and the request submits the same one, in the header or else in the form.
pub chain-HasCsrfToken :
    (lookup : String → Option User) (q : Request) (h : Handler)
    → csrf_protected q ≡ true
    → (middleware_chain lookup q h).handled ≡ true
    → HasCsrfToken q
unfolding middleware_chain recovery api_auth
chain-HasCsrfToken lookup q h p e =
    csrf-handled q (request_logging q (serve_handler h)) new_status_recorder p
      (sym passes ∙ (sym (recover-handled q _) ∙ e))
  where
    passes :
        (api_auth lookup q
          (csrf q (request_logging q (serve_handler h)))
          new_status_recorder).handled
        ≡ (csrf q (request_logging q (serve_handler h)) new_status_recorder).handled
    passes = simp (protected_not_v1 q p) refl

-- x-api-key is read on the Anthropic routes alone, and on them only without a bearer token.
pub x_api_key_ignored :
    (q : Request) (k : String)
    → (is_messages q ≡ false) ⊎ (starts_with q.authorization "Bearer " ≡ true)
    → api_key_from_request (record q { x_api_key = k }) ≡ api_key_from_request q
unfolding api_key_from_request
x_api_key_ignored q k (inl m) = simp m refl
x_api_key_ignored q k (inr b) = simp b refl
