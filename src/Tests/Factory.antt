-- ===== src/Tests/Factory.antt =====
-- Flow ids with and without what they require.
use protocol_lens.Prelude.{◌≡◌, refl, true, false, ◌&&◌, none, some, [], ◌∷◌}
use protocol_lens.Factory.Create.{
  FactoryConfig, create_flow_executor, get_flow_info, list_supported_flows,
}
use protocol_lens.Factory.Supported.{
  is_some, has_text, checked_requirements_met, create_flow_executor-listed,
}

abbrev config : FactoryConfig
config = record {
  protocol_base_url = "/oauth2";
  client_id = "client";
  client_secret = none;
  redirect_uri = none;
  scopes = "openid" ∷ [];
  refresh_token = none;
  username = some "johndoe";
  password = some "A3ddj3w";
  bearer_token = none;
}

create_flow_executor-listed_example :
    is_some (create_flow_executor "password" config)
    ≡ (has_text "password" list_supported_flows && checked_requirements_met "password" config)
create_flow_executor-listed_example = create_flow_executor-listed "password" config

password_created : is_some (create_flow_executor "password" config) ≡ true
unfolding create_flow_executor
password_created = refl

refresh_refused : is_some (create_flow_executor "refresh-token" config) ≡ false
unfolding create_flow_executor
refresh_refused = refl

unknown_refused : is_some (create_flow_executor "bulk-operations" config) ≡ false
unfolding create_flow_executor
unknown_refused = refl

-- An inherited name passes for a flow.
inherited : is_some (get_flow_info "constructor") ≡ true
unfolding get_flow_info
inherited = refl
