-- ===== src/Errors.antt =====
-- packages/wallet/src/errors.ts: the errors of a wallet call, and what the operator's error bodies
-- become. An unparsed body is a value of `Json`.
pub mod Laws
use crash_game.Prelude.{
  ℕ, String, Bool, true, false, ◌&&◌, ◌||◌, Option, none, some, ◌==◌, ltb, leb, str_eq, concat,
  show, if◌then◌else◌,
}

-- Values that `JSON.parse` returns. Numbers are those of the protocol: minor units, and statuses.
mutual
  pub data Json : Type 0 where
    null : Json
    bool : Bool → Json
    num : ℕ → Json
    str : String → Json
    arr : Items → Json
    obj : Fields → Json

  pub data Items : Type 0 where
    nil : Items
    cons : Json → Items → Items

  pub data Fields : Type 0 where
    end : Fields
    field : String → Json → Fields → Fields

-- Which class of the hierarchy an error is an instance of.
pub data WalletErrorClass : Type 0 where
  wallet_error wallet_network_error response_signature_error : WalletErrorClass

-- `WalletError`, with its subclasses
pub record WalletError : Type 0 where
  pub name : WalletErrorClass
  pub code : String
  pub message : String
  pub http_status : ℕ
  pub retryable : Bool
  pub balance_minor : Option Json

-- `new WalletNetworkError(message)`
abbrev pub network_error : String → WalletError
network_error message = record {
  name = wallet_network_error;
  code = "NETWORK_ERROR";
  message = message;
  http_status = 0;
  retryable = true;
  balance_minor = none;
}

-- `new ResponseSignatureError(message, httpStatus)`
abbrev pub signature_error : String → ℕ → WalletError
signature_error message http_status = record {
  name = response_signature_error;
  code = "RESPONSE_SIGNATURE_INVALID";
  message = message;
  http_status = http_status;
  retryable = false;
  balance_minor = none;
}

-- `isRetryable`
unfoldable pub is_retryable : ℕ → Bool
is_retryable http_status = http_status == 429 || leb 500 http_status

-- The value of a field of an object; in JSON text a later field of the same name wins.
pub get_field : String → Fields → Option Json
get_field k end = none
get_field k (field j v rest) = elim (get_field k rest) [
  | some u ↦ some u
  | none ↦ if str_eq j k then some v else none
]

-- `body['name']` of an object; an array has no such property.
unfoldable pub get_property : String → Json → Option Json
unfolding get_field
get_property k (obj fields) = get_field k fields
get_property k _ = none

-- `typeof v === 'string'`
unfoldable pub as_string : Option Json → Option String
as_string (some (str s)) = some s
as_string _ = none

pub record ErrorEnvelope : Type 0 where
  pub code : String
  pub message : String
  pub balance_minor : Option Json

-- `isErrorEnvelope`, with the fields that the caller then reads
unfoldable pub error_envelope : Json → Option ErrorEnvelope
unfolding get_property as_string
error_envelope body = elim (get_property "error" body) [
  | none ↦ none
  | some e ↦ elim (as_string (get_property "code" e)) [
    | none ↦ none
    | some code ↦ elim (as_string (get_property "message" e)) [
      | none ↦ none
      | some message ↦
          some (record {
            code = code;
            message = message;
            balance_minor = get_property "balanceMinor" e;
          })
    ]
  ]
]

-- `walletErrorFromResponse`
unfoldable pub wallet_error_from_response : ℕ → Json → WalletError
unfolding error_envelope is_retryable
wallet_error_from_response http_status body = elim (error_envelope body) [
  | some e ↦ record {
    name = wallet_error;
    code = e.code;
    message = e.message;
    http_status = http_status;
    retryable = is_retryable http_status;
    balance_minor = e.balance_minor;
  }
  | none ↦ record {
    name = wallet_error;
    code = "MALFORMED_ERROR_BODY";
    message =
        concat "Operator returned HTTP " (concat (show http_status) " with non-standard body");
    http_status = http_status;
    retryable = is_retryable http_status;
    balance_minor = none;
  }
]

-- The predicate that `placeOperatorBet` and `withIdempotency` share: a signed 4xx answer, after
-- which the operator has moved no money.
unfoldable pub is_confirmed_rejection : WalletError → Bool
is_confirmed_rejection e = elim e.name [
  | wallet_error ↦ leb 400 e.http_status && ltb e.http_status 500
  | _ ↦ false
]
