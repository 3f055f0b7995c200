-- ===== src/ShadowDemo/Json.antt =====
-- What the shadow demo reads of a JSON document, and the token of a response.
use core_mqtt_agent_demos.Prelude.{
  ℕ, ◌%◌, ◌^◌, Bool, false, Option, none, some, List, ◌==◌, if◌then◌else◌,
}
use core_mqtt_agent_demos.Prelude.Text.{Text, codes}

-- What is called of coreJSON and the C library, on a payload: `JSON_Validate`, whether it returns
-- `JSONSuccess`; `JSON_Search` for a key, `none` if it returns another status, and else where the
-- value begins; and `strtoul` from there on, with base 10.
pub record Json : Type 0 where
  pub validate : List ℕ → Bool
  pub search : List ℕ → Text → Option ℕ
  pub strtoul : List ℕ → ℕ → ℕ

-- A number of the document behind a key, as it is stored in a `uint32_t`.
unfoldable pub number_at : Json → List ℕ → Text → Option ℕ
number_at json payload key = elim (json.search payload key) [
  | none ↦ none
  | some at ↦ some (json.strtoul payload at % 2 ^ 32)
]

-- `ulReceivedToken`, if the document is valid and has one.
unfoldable pub received_token : Json → List ℕ → Option ℕ
received_token json payload =
    if json.validate payload then number_at json payload (codes "clientToken") else none

-- Whether the callbacks take a publish for the response that they wait for.
unfoldable pub is_response : Json → ℕ → List ℕ → Bool
is_response json client_token payload = elim (received_token json payload) [
  | none ↦ false
  | some token ↦ token == client_token
]
