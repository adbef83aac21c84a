-- ===== src/Oauth/Admitted.antt =====
-- internal/oauth/oauth.go: what a registration has to be to be accepted.
use felsen_mcp_server_postgr.Base.{
  true, false, none, some, ◌≡◌, inl, inr, arith, Text, ◌++◌, text_eq_iff, runes, Option-cases,
}
use felsen_mcp_server_postgr.Strings.{Unicode, trim_space}
use felsen_mcp_server_postgr.Guard.Statement.{is_nil}
use felsen_mcp_server_postgr.Oauth.{
  Provider, Library, RegisteredClient, Registration, World, random_token, configured_principal,
}
use felsen_mcp_server_postgr.Oauth.Scopes.{contains, validate_scopes}
use felsen_mcp_server_postgr.Oauth.Register.{
  checked_registration, all_valid_uris, all_grants, is_code_only,
}

module _ ⦃u : Unicode⦄ (lib : Library) (world : World) where
  -- What a registration has to be to be accepted.
  pub record IsAdmitted (p : Provider) (input : Registration) (client : RegisteredClient)
      : Type 0 where
    pub id : Text
    pub random : random_token lib world.random ≡ some id
    pub client_id : client.client_id ≡ runes "mcp_" ++ id
    pub uris : client.redirect_uris ≡ input.redirect_uris
    pub uris_valid : all_valid_uris lib client.redirect_uris ≡ true
    pub uris_full : is_nil client.redirect_uris ≡ false
    pub public : client.token_endpoint_auth_method ≡ runes "none"
    pub grants : all_grants client.grant_types ≡ true
    pub code_grant : contains client.grant_types (runes "authorization_code") ≡ true
    pub responses : is_code_only client.response_types ≡ true
    pub granted : validate_scopes lib client.scopes (configured_principal p) ≡ none

  pub checked_registration-IsAdmitted :
      (p : Provider) (input : Registration) (client : RegisteredClient)
      → checked_registration lib p world input ≡ inr client
      → IsAdmitted p input client
  unfolding checked_registration
  checked_registration-IsAdmitted p input client h =
      elim (Option-cases (random_token lib world.random)) [
        | inl e ↦ ground (arith, e)
        | inr (id, e) ↦ record {
          id = id;
          random = e;
          client_id = ground (arith, e);
          uris = ground arith;
          uris_valid = ground arith;
          uris_full = ground arith;
          public =
              ground
                (arith, text_eq_iff (trim_space input.token_endpoint_auth_method) (runes "none"));
          grants = ground arith;
          code_grant = ground arith;
          responses = ground arith;
          granted = ground arith;
        }
      ]
