-- ===== src/Flows/Requests.antt =====
-- The token requests of the flows without an authorization window.
use protocol_lens.Prelude.{String, some, ◌≡◌, refl, ◌∙◌}
use protocol_lens.Js.Params
use protocol_lens.Js.Params.{Params}
use protocol_lens.Flow.State.{Config}
use protocol_lens.Flows.Grant.{present}
use protocol_lens.Flows.Grant.Forms.{
  set_present-same, set_present-other, scope_of, set_scope-same, set_scope-other,
}
use protocol_lens.Flows.RefreshToken
use protocol_lens.Flows.RefreshToken.{RefreshConfig}
use protocol_lens.Flows.ResourceOwner
use protocol_lens.Flows.ResourceOwner.{OwnerConfig}
use protocol_lens.Flows.ClientCredentials

-- The form of a refresh request carries the refresh token under its grant type, the client's name,
-- the scopes where there are some, and the client secret where it is not empty.
pub refresh_request :
    (c : RefreshConfig)
    → (Params.get "grant_type" (RefreshToken.request_body c) ≡ some "refresh_token")
      × (Params.get "refresh_token" (RefreshToken.request_body c) ≡ some c.refresh_token)
      × (Params.get "client_id" (RefreshToken.request_body c) ≡ some c.config.client_id)
      × (Params.get "scope" (RefreshToken.request_body c) ≡ scope_of c.config.scopes)
      × (Params.get "client_secret" (RefreshToken.request_body c) ≡ present c.config.client_secret)
unfolding RefreshToken.request_body Params.get
refresh_request c = (
  set_present-other "client_secret" "grant_type" c.config.client_secret _ refl
      ∙ set_scope-other "grant_type" c.config.scopes _ refl,
  set_present-other "client_secret" "refresh_token" c.config.client_secret _ refl
      ∙ set_scope-other "refresh_token" c.config.scopes _ refl,
  set_present-other "client_secret" "client_id" c.config.client_secret _ refl
      ∙ set_scope-other "client_id" c.config.scopes _ refl,
  set_present-other "client_secret" "scope" c.config.client_secret _ refl
      ∙ set_scope-same c.config.scopes _ refl,
  set_present-same "client_secret" c.config.client_secret _
      (set_scope-other "client_secret" c.config.scopes _ refl),
)

-- The form of a password request carries the user name and the password under its grant type, the
-- scopes where there are some, and the client secret where it is not empty; the form of a client
-- credentials request carries the client's name and its secret under its grant type, and the scopes
-- where there are some.
pub credential_requests :
    (o : OwnerConfig) (c : Config) (secret : String)
    → (Params.get "grant_type" (ResourceOwner.request_body o) ≡ some "password")
      × (Params.get "username" (ResourceOwner.request_body o) ≡ some o.username)
      × (Params.get "password" (ResourceOwner.request_body o) ≡ some o.password)
      × (Params.get "scope" (ResourceOwner.request_body o) ≡ scope_of o.config.scopes)
      × (Params.get "client_secret" (ResourceOwner.request_body o) ≡ present o.config.client_secret)
      × (Params.get "grant_type" (ClientCredentials.request_body c secret)
          ≡ some "client_credentials")
      × (Params.get "client_id" (ClientCredentials.request_body c secret) ≡ some c.client_id)
      × (Params.get "client_secret" (ClientCredentials.request_body c secret) ≡ some secret)
      × (Params.get "scope" (ClientCredentials.request_body c secret) ≡ scope_of c.scopes)
unfolding ResourceOwner.request_body ClientCredentials.request_body Params.get
credential_requests o c secret = (
  set_present-other "client_secret" "grant_type" o.config.client_secret _ refl
      ∙ set_scope-other "grant_type" o.config.scopes _ refl,
  set_present-other "client_secret" "username" o.config.client_secret _ refl
      ∙ set_scope-other "username" o.config.scopes _ refl,
  set_present-other "client_secret" "password" o.config.client_secret _ refl
      ∙ set_scope-other "password" o.config.scopes _ refl,
  set_present-other "client_secret" "scope" o.config.client_secret _ refl
      ∙ set_scope-same o.config.scopes _ refl,
  set_present-same "client_secret" o.config.client_secret _
      (set_scope-other "client_secret" o.config.scopes _ refl),
  set_scope-other "grant_type" c.scopes _ refl,
  set_scope-other "client_id" c.scopes _ refl,
  set_scope-other "client_secret" c.scopes _ refl,
  set_scope-same c.scopes _ refl,
)
