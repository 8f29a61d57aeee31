-- ===== src/Flow/State.antt =====
-- The state that an executor publishes (the interfaces of flows/base.ts). A missing optional field
-- is `none`, a missing payload the empty list.
use protocol_lens.Prelude.{ℕ, String, Bool, Option, none, List}
use protocol_lens.Js.Value.{Value}

pub data Status : Type 0 where
  idle executing awaiting_user completed error : Status

pub data EventType : Type 0 where
  info request response token crypto security user_action error rfc : EventType

pub data TokenType : Type 0 where
  access_token id_token refresh_token : TokenType

pub record Config : Type 0 where
  pub base_url : String
  pub client_id : String
  pub client_secret : Option String
  pub redirect_uri : Option String
  pub scopes : List String
  pub extra_params : Option (List (String × String))

-- The body of a request: form fields, or a text that is sent as it is.
pub data Body : Type 0 where
  form : List (String × String) → Body
  raw_text : String → Body

pub record HttpRequest : Type 0 where
  pub method : String
  pub url : String
  pub headers : List (String × String)
  pub body : Option Body

pub record HttpResponse : Type 0 where
  pub status : ℕ
  pub status_text : String
  pub headers : List (String × String)
  pub body : Value
  pub duration : Value

pub record Exchange : Type 0 where
  pub id : String
  pub timestamp : ℕ
  pub rfc_reference : Option String
  pub step : String
  pub request : HttpRequest
  pub response : Option HttpResponse

pub record Event : Type 0 where
  pub id : String
  pub timestamp : ℕ
  pub type : EventType
  pub title : String
  pub description : String
  pub rfc_reference : Option String
  pub payload : List (String × Value)

-- An event before `addEvent` gives it an id and a time.
pub record EventText : Type 0 where
  pub type : EventType
  pub title : String
  pub description : String
  pub rfc_reference : Option String
  pub payload : List (String × Value)

pub record DecodedToken : Type 0 where
  pub type : TokenType
  pub raw : String
  pub header : Option Value
  pub payload : Option Value
  pub signature : Option String
  pub is_valid : Option Bool
  pub validation_errors : Option (List String)

pub record Tokens : Type 0 where
  pub access_token : Option String
  pub id_token : Option String
  pub refresh_token : Option String
  pub token_type : Option String
  pub expires_in : Option Value
  pub scope : Option String

abbrev pub no_tokens : Tokens
no_tokens = record {
  access_token = none;
  id_token = none;
  refresh_token = none;
  token_type = none;
  expires_in = none;
  scope = none;
}

pub record SecurityParams : Type 0 where
  pub state : Option String
  pub nonce : Option String
  pub code_verifier : Option String
  pub code_challenge : Option String
  pub device_code : Option String

abbrev pub no_params : SecurityParams
no_params = record {
  state = none;
  nonce = none;
  code_verifier = none;
  code_challenge = none;
  device_code = none;
}

pub record FlowError : Type 0 where
  pub code : String
  pub description : String

pub record FlowState : Type 0 where
  pub execution_id : String
  -- missing in the state that the constructor makes
  pub flow_type : Option String
  pub status : Status
  pub current_step : String
  pub exchanges : List Exchange
  pub events : List Event
  pub tokens : Tokens
  pub decoded_tokens : List DecodedToken
  pub security_params : SecurityParams
  pub error : Option FlowError
