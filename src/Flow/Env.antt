-- ===== src/Flow/Env.antt =====
-- The browser around an executor, a parameter of the model: randomness, the clock, the network, the
-- authorization window, and what the user does while the executor waits. Each answer is indexed by
-- the number of the call, so an environment stands for any behaviour over time.
use protocol_lens.Prelude.{ℕ, String, true, false, Option, List}
use protocol_lens.Js.Value.{Value, Number, undefined, null, bool, num, negsuc, nan, whole, minus}

-- What is handed to `fetch`; the body is the encoded text.
pub record SentRequest : Type 0 where
  pub method : String
  pub url : String
  pub headers : List (String × String)
  pub body : Option String

-- Calls from outside that can run between two steps of a waiting executor.
pub data UserAction : Type 0 where
  abort reset : UserAction
  subscribe unsubscribe : ℕ → UserAction

-- What `fetch` settles with. The content type is that of `headers.get('content-type')`; the body is
-- the text of the response.
pub record RawResponse : Type 0 where
  pub status : ℕ
  pub status_text : String
  pub headers : List (String × String)
  pub content_type : Option String
  pub body : String

-- A request may also be left without an answer.
pub data FetchResult : Type 0 where
  unanswered : FetchResult
  failed : String → FetchResult
  responded : RawResponse → FetchResult

-- What reaches an executor that waits for the authorization window: a window message from its own
-- or another origin with its data, a round of the 500 ms timer that finds the window closed, or a
-- call of one of its methods.
pub data WindowEvent : Type 0 where
  message : (origin : String) → Value → WindowEvent
  closed : WindowEvent
  action : UserAction → WindowEvent

pub record Env : Type 0 where
  -- `crypto.randomUUID`, `crypto.getRandomValues` (call, length), `Date.now`
  pub uuid : ℕ → String
  pub random : ℕ → ℕ → List ℕ
  pub now : ℕ → ℕ
  -- `crypto.subtle.digest('SHA-256', …)` of a text's UTF-8 bytes
  pub sha256 : String → List ℕ
  -- `window.location.origin`, and `window.open` of a URL with its events; `none` is a blocked
  -- popup
  pub origin : String
  pub popup : ℕ → String → Option (List WindowEvent)
  pub fetch : ℕ → SentRequest → FetchResult
  -- the message of an aborted request
  pub abort_message : String
  pub others : ℕ → List UserAction
  -- `JSON.parse` of code numbers, `none` where it raises; the messages of the errors that the
  -- engine raises
  pub parse_json : List ℕ → Option Value
  pub syntax_error : String
  pub type_error : String
  -- `String(v)`
  pub to_text : Value → String
  -- `Number(v)` of a text, an array or an object
  pub coerce : Value → Number
  -- `new URL(url, window.location.origin).pathname`, `none` where it raises
  pub pathname : String → Option String
  -- `URLSearchParams.toString`
  pub encode_params : List (String × String) → String

-- `Number(v)`
abbrev pub to_number : Env → Value → Number
to_number env undefined = nan
to_number env null = whole 0
to_number env (bool true) = whole 1
to_number env (bool false) = whole 0
to_number env (num n) = whole n
to_number env (negsuc n) = minus n
to_number env v = env.coerce v
