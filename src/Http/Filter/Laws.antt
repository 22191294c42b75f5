-- ===== src/Http/Filter/Laws.antt =====
-- What the filter lets through.
use nexustal.Domain.Ports.{TokenClaims}
use nexustal.Http.{error, get_header-add_header, get_header, Response, Request, add_header}
use nexustal.Http.Filter.{
  admit, check_token, filter_with, resolve_role, passed, identified, bearer_token, guarded,
  do_filter, JwtAuthFilter,
}
use nexustal.Domain.Json.{JsonLib}
use nexustal.Common.{
  ◌≡◌, refl, ap, ◌∙◌, subst, ◌⊎◌, inl, inr, Option, none, some, arith, Option-cases, Text, lit,
  ◌==◌, Action,
}

module _ {S : Type 0} (lib : JsonLib) (filter : JwtAuthFilter S) where
  -- The request goes on under the user of the claims, with its body.
  abbrev pub Identified : Request → S → Request → Type 0
  Identified request s admitted =
      (validate : Text → Action S (Option TokenClaims)) × (token : Text) × (claims : TokenClaims)
      × (filter.validate ≡ some validate)
      × (bearer_token (get_header (lit "authorization") request) ≡ some token)
      × ((validate token s).0 ≡ some claims)
      × (get_header (lit "x-user-id") admitted ≡ claims.user_id)
      × (admitted.json ≡ request.json)

  identified-headers :
      (claims : TokenClaims) (role : Text) (request : Request)
      → get_header (lit "x-user-id") (identified lib filter claims role request) ≡ claims.user_id
  unfolding lit ◌==◌
  identified-headers claims role request =
      get_header-add_header (lit "x-user-role") (lit "x-user-id") role _
      ∙ (get_header-add_header (lit "x-token-version") (lit "x-user-id") claims.token_version _
          ∙ get_header-add_header (lit "x-user-id") (lit "x-user-id") claims.user_id request)

  identified-json :
      (claims : TokenClaims) (role : Text) (request : Request)
      → (identified lib filter claims role request).json ≡ request.json
  unfolding add_header
  identified-json claims role request = refl

  -- A request that the filter lets through carries a bearer token that the service accepts. The
  -- controller then reads the identifier of the token's user in `X-User-ID`, whatever headers the
  -- client sent, and the client's body.
  pub do_filter-passed :
      (request admitted : Request) (s : S)
      → (do_filter lib filter request s).0 ≡ passed admitted
      → Identified request s admitted
  unfolding do_filter
  do_filter-passed request admitted s h = elim (Option-cases filter.validate) [
    | inl missing ↦ absurd (ground (arith, missing))
    | inr (validate, configured) ↦
        elim (Option-cases (bearer_token (get_header (lit "authorization") request))) [
          | inl missing ↦ absurd (ground (arith, configured, missing))
          | inr (token, given) ↦ elim (Option-cases (validate token s).0) [
            | inl refusal ↦ absurd (ground (arith, configured, given, refusal))
            | inr (claims, accepted) ↦
                let role : Text = (resolve_role lib filter claims.user_id (validate token s).1).0 in
                let same : identified lib filter claims role request ≡ admitted =
                  ground (arith, configured, given, accepted) in
                (
                  validate,
                  token,
                  claims,
                  configured,
                  given,
                  accepted,
                  subst (λ q. get_header (lit "x-user-id") q ≡ claims.user_id) same
                      (identified-headers claims role request),
                  subst (λ q. q.json ≡ request.json) same (identified-json claims role request),
                )
          ]
        ]
  ]

  -- While a service is configured, a request without a token that the service accepts is answered
  -- with the status 401 on every guarded route, whatever its controller does, and nothing has
  -- happened but the validation of the token, if there is one.
  pub guarded-refused :
      (validate : Text → Action S (Option TokenClaims))
      (handler : Request → Action S (Option Response)) (request : Request) (s : S)
      → filter.validate ≡ some validate
      → ((token : Text)
          → bearer_token (get_header (lit "authorization") request) ≡ some token
          → (validate token s).0 ≡ none)
      → (message : Text) × ((guarded lib filter handler request s).0 ≡ some (error lib 401 message))
        × (((guarded lib filter handler request s).1 ≡ s)
            ⊎ ((token : Text) × ((guarded lib filter handler request s).1 ≡ (validate token s).1)))
  unfolding guarded do_filter
  guarded-refused validate handler request s configured refused =
      elim (Option-cases (bearer_token (get_header (lit "authorization") request))) [
        | inl missing ↦ (
          lit "missing bearer token",
          rw (configured, missing) refl,
          inl (rw (configured, missing) refl),
        )
        | inr (token, given) ↦ (
          lit "invalid token",
          rw (configured, given, refused token given) refl,
          inr (token, rw (configured, given, refused token given) refl),
        )
      ]

  -- The verdict on a token that the service accepts.
  pub do_filter-accepted :
      (validate : Text → Action S (Option TokenClaims)) (token : Text) (claims : TokenClaims)
      (request : Request) (s : S)
      → filter.validate ≡ some validate
      → bearer_token (get_header (lit "authorization") request) ≡ some token
      → (validate token s).0 ≡ some claims
      → do_filter lib filter request s ≡ (
        passed (
            identified lib filter claims
              (resolve_role lib filter claims.user_id (validate token s).1).0
              request),
        (resolve_role lib filter claims.user_id (validate token s).1).1,
      )
  unfolding do_filter
  do_filter-accepted validate token claims request s configured given accepted =
      ap (λ o. filter_with lib filter o request s) configured
      ∙ (ap (λ o. check_token lib filter validate request o s) given
          ∙ ap (λ o. admit lib filter request o (validate token s).1) accepted)
