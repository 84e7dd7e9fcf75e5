-- ===== src/MessageId/Tests.antt =====
-- Concrete message IDs: request 7, plain and with high priority.
use boost_actor.Common.{◌+◌, ◌^◌, ◌≡◌, refl, true, false}
use boost_actor.MessageId.{MessageId, response_id, is_request}

abbrev seven : MessageId
seven = 7

abbrev nine : MessageId
nine = 9

request_7 : is_request 7 ≡ true
unfolding is_request
request_7 = refl

no_request : is_request (2 ^ 63 + 7) ≡ false
unfolding is_request
no_request = refl

response_7 : response_id 7 ≡ 2 ^ 63 + 7
unfolding response_id
response_7 = refl
