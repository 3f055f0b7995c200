-- ===== src/ShadowDemo/Document.antt =====
-- The documents that the shadow demo publishes.
use core_mqtt_agent_demos.Prelude.{ℕ, ◌+◌, ◌-◌, List, ◌++◌, length, replicate}
use core_mqtt_agent_demos.Prelude.Text.{Text, codes, decimal}
use core_mqtt_agent_demos.ReportBuilder.Cursor.{snprintf}

-- `%06lu`
unfoldable pub six_digits : ℕ → Text
six_digits n = replicate (6 - length (decimal n)) b'0' ++ decimal n

-- `shadowexampleSHADOW_REPORTED_JSON`, with its two values.
unfoldable pub reported_json : ℕ → ℕ → Text
reported_json power_on client_token =
    codes "{\"state\":{\"reported\":{\"powerOn\":"
    ++ (decimal power_on
        ++ (codes "}},\"clientToken\":\"" ++ (six_digits client_token ++ codes "\"}")))

-- `shadowexampleSHADOW_REPORTED_JSON_LENGTH`
abbrev pub reported_json_length : ℕ
reported_json_length =
    length (codes "{\"state\":{\"reported\":{\"powerOn\":%1u}},\"clientToken\":\"%06lu\"}") + 1 - 2

-- `pcUpdateDocument` behind the `memset` and the `snprintf`.
unfoldable pub update_document : ℕ → ℕ → List ℕ
update_document power_on client_token =
    snprintf (replicate (reported_json_length + 1) 0) 0 (reported_json_length + 1)
      (reported_json power_on client_token)

-- The same with `shadowexampleSHADOW_DESIRED_JSON`.
unfoldable pub desired_json : ℕ → ℕ → Text
desired_json power_on client_token =
    codes "{\"state\":{\"desired\":{\"powerOn\":"
    ++ (decimal power_on
        ++ (codes "}},\"clientToken\":\"" ++ (six_digits client_token ++ codes "\"}")))

-- `shadowexampleSHADOW_DESIRED_JSON_LENGTH`
abbrev pub desired_json_length : ℕ
desired_json_length =
    length (codes "{\"state\":{\"desired\":{\"powerOn\":%1u}},\"clientToken\":\"%06lu\"}") + 1 - 2

-- `pcDesiredDocument`
unfoldable pub desired_document : ℕ → ℕ → List ℕ
desired_document power_on client_token =
    snprintf (replicate (desired_json_length + 1) 0) 0 (desired_json_length + 1)
      (desired_json power_on client_token)
