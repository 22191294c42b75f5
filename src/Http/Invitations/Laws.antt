-- ===== src/Http/Invitations/Laws.antt =====
-- Who may send invitations.
use nexustal.Http.Filter.Laws.{do_filter-accepted}
use nexustal.Domain.Identity.{Timestamp, Uuid}
use nexustal.Services.Invitations.{InvitationService}
use nexustal.Http.{get_header-add_header, get_header, JsonCpp, Request}
use nexustal.Domain.Ports.{TokenClaims}
use nexustal.Http.Invitations.{send_allowed, forbidden, send}
use nexustal.Http.Filter.{
  handled, resolve_role, bearer_token, identified, JwtAuthFilter, do_filter, guarded,
}
use nexustal.Domain.Json.{JsonLib}
use nexustal.Domain.Capabilities.{
  manage_team, contains, capabilities_for_role, role_from_string, has_capability,
}
use nexustal.Common.{
  ◌≡◌, refl, ap, ◌∙◌, ◌≢◌, inl, inr, false, Option, some, Bool-cases, Text, lit, ◌==◌, eq_iff,
  Action,
}

-- The right to manage teams is that of an administrator.
manage_team-admin :
    (role : Text) → role ≢ lit "admin" → has_capability (role_from_string role) manage_team ≡ false
unfolding has_capability role_from_string capabilities_for_role contains
manage_team-admin role other = elim (Bool-cases (role == lit "admin")) [
  | inl is_admin ↦ absurd (other ((eq_iff role (lit "admin")).0 is_admin))
  | inr not_admin ↦ elim (Bool-cases (role == lit "backend_dev")) [
    | inl back ↦ rw (not_admin, back) refl
    | inr not_back ↦ elim (Bool-cases (role == lit "frontend_dev")) [
      | inl front ↦ rw (not_admin, not_back, front) refl
      | inr not_front ↦ rw (not_admin, not_back, not_front) refl
    ]
  ]
]

identified-role :
    {S : Type 0} (lib : JsonLib) (filter : JwtAuthFilter S) (claims : TokenClaims) (role : Text)
    (request : Request)
    → get_header (lit "x-user-role") (identified lib filter claims role request) ≡ role
unfolding lit ◌==◌
identified-role lib filter claims role request =
    get_header-add_header (lit "x-user-role") (lit "x-user-role") role _

-- A guarded request for an invitation whose token is accepted, and for whose user the filter finds
-- another role than `admin`, is answered with the status 403, and nothing has happened but the
-- validation of the token and the look-up of the role, whatever role the client's headers name.
pub guarded-send-forbidden :
    {S : Type 0} (lib : JsonLib) (cpp : JsonCpp) (filter : JwtAuthFilter S)
    (service : InvitationService S) (id notice_id : Uuid) (now : Timestamp) (request : Request)
    (s : S) (validate : Text → Action S (Option TokenClaims)) (token : Text) (claims : TokenClaims)
    → filter.validate ≡ some validate
    → bearer_token (get_header (lit "authorization") request) ≡ some token
    → (validate token s).0 ≡ some claims
    → (resolve_role lib filter claims.user_id (validate token s).1).0 ≢ lit "admin"
    → guarded lib filter (send lib cpp (some service) id notice_id now) request s
      ≡ (some (forbidden lib), (resolve_role lib filter claims.user_id (validate token s).1).1)
unfolding guarded do_filter send
guarded-send-forbidden lib cpp filter service id notice_id now request s validate token claims
      configured given accepted other =
    let role : Text = (resolve_role lib filter claims.user_id (validate token s).1).0 in
    let read = identified-role lib filter claims role request in
    let no : has_capability
          (role_from_string
            (get_header (lit "x-user-role") (identified lib filter claims role request)))
          manage_team
        ≡ false =
      rw read (manage_team-admin role other) in
    ap (λ r. handled lib filter (send lib cpp (some service) id notice_id now) r.0 r.1)
      (do_filter-accepted lib filter validate token claims request s configured given accepted)
    ∙ ap
        (λ b.
          send_allowed lib cpp (some service) id notice_id now service
            (identified lib filter claims role request) b
            (resolve_role lib filter claims.user_id (validate token s).1).1)
        no
