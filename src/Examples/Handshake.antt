-- ===== src/Examples/Handshake.antt =====
-- A producer of agent/handshake.py that knows two protocols and needs one kind.
use iddo_harness.Prelude.{◌≡◌, refl, true, ◌&&◌, ◌||◌, not, some, [], ◌∷◌, any, is_empty}
use iddo_harness.Prelude.Ids.{contains}
use iddo_harness.Json.{Fields, cons, end, field, nil, text, array, get, str}
use iddo_harness.Handshake.{
  HandshakeReport, supported_protocols, negotiate, requested_in, texts_of, tuple_le, protocol_key,
  newest, newest_from, chunks,
}
use iddo_harness.Handshake.Newest.{both_know, negotiate-newest}
use iddo_harness.Handshake.Compatible.{handles_kind, offers, negotiate-compatible}
use iddo_harness.Scheduler.Cron.{all_digits, number_from}
use iddo_harness.Examples.Queue.{python}

abbrev report : HandshakeReport
report = record {
  protocols = supported_protocols;
  kinds = ("v1", "shell" ∷ "read_file" ∷ []) ∷ [];
  capabilities = (record { name = "vault"; available = true; detail = "" }) ∷ [];
}

abbrev request : Fields
request =
    field "protocols" (array (cons (text "2.0") (cons (text "1.0") nil)))
      (field "required_kinds" (array (cons (text "shell") nil)) end)

settled : (negotiate python report request).negotiated_protocol ≡ some "2.0"
unfolding negotiate requested_in texts_of get str newest newest_from protocol_key chunks tuple_le
    contains all_digits number_from
settled = refl

named : both_know (requested_in python request) report.protocols "1.0" ≡ true
unfolding requested_in texts_of get str contains
named = refl

negotiate-newest_example :
    (both_know (requested_in python request) report.protocols "2.0" ≡ true)
    × (tuple_le (protocol_key "1.0") (protocol_key "2.0") ≡ true)
negotiate-newest_example = negotiate-newest python report request "2.0" "1.0" settled named

negotiate-compatible_example : (negotiate python report request).compatible ≡ (
    not (
      any (λ kind. not (handles_kind report kind)) (texts_of python (get "required_kinds" request)))
    && not (
        any
          (λ name. not (offers report name))
          (texts_of python (get "required_capabilities" request)))
    && any
        (λ p. is_empty (requested_in python request) || contains (requested_in python request) p)
        report.protocols)
negotiate-compatible_example = negotiate-compatible python report request
