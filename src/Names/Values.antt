-- ===== src/Names/Values.antt =====
-- The tables of header values in src/mms_header_codec.c.
use mathlib.Core.List.{List, [], ◌∷◌}
use broncho_mms.Names.Pairs.{NameIdPair, pair}

unfoldable pub g_delivery_report_values : List NameIdPair
g_delivery_report_values = pair "Yes" 128 ∷ pair "No" 129 ∷ []

unfoldable pub g_delivery_time_token_values : List NameIdPair
g_delivery_time_token_values = pair "Absolute-token" 128 ∷ pair "Relative-token" 129 ∷ []

unfoldable pub g_expiry_time_token_values : List NameIdPair
g_expiry_time_token_values = pair "Absolute-token" 128 ∷ pair "Relative-token" 129 ∷ []

unfoldable pub g_from_addr_type_values : List NameIdPair
g_from_addr_type_values = pair "Address-present-token" 128 ∷ pair "Insert-address-token" 129 ∷ []

unfoldable pub g_message_class_values : List NameIdPair
g_message_class_values =
    pair "Personal" 128 ∷ pair "Advertisement" 129 ∷ pair "Informational" 130 ∷ []

unfoldable pub g_message_type_values : List NameIdPair
g_message_type_values =
    pair "m-send-req" 128
    ∷ pair "m-send-conf" 129
    ∷ pair "m-notification-ind" 130
    ∷ pair "m-notifyresp-ind" 131
    ∷ pair "m-retrieve-conf" 132
    ∷ pair "m-acknowledge-ind" 133
    ∷ pair "m-delivery-ind" 134
    ∷ []

unfoldable pub g_priority_values : List NameIdPair
g_priority_values = pair "Low" 128 ∷ pair "Normal" 129 ∷ pair "High" 130 ∷ []

unfoldable pub g_read_reply_values : List NameIdPair
g_read_reply_values = pair "Yes" 128 ∷ pair "No" 129 ∷ []

unfoldable pub g_report_allowed_values : List NameIdPair
g_report_allowed_values = pair "Yes" 128 ∷ pair "No" 129 ∷ []

unfoldable pub g_response_status_values : List NameIdPair
g_response_status_values =
    pair "Ok" 128
    ∷ pair "Error-unspecified" 129
    ∷ pair "Error- service-denied" 130
    ∷ pair "Error-message-format-corrupt" 131
    ∷ pair "Error-sending-address-unresolved" 132
    ∷ pair "Error-message-not-found" 133
    ∷ pair "Error-network-problem" 134
    ∷ pair "Error- content-not-accepted" 135
    ∷ pair "Error-unsupported-message" 136
    ∷ []

unfoldable pub g_sender_visibility_values : List NameIdPair
g_sender_visibility_values = pair "Hide" 128 ∷ pair "Show" 129 ∷ []

unfoldable pub g_status_values : List NameIdPair
g_status_values =
    pair "Expired" 128
    ∷ pair "Retrieved" 129
    ∷ pair "Rejected" 130
    ∷ pair "Deferred" 131
    ∷ pair "Unrecognised" 132
    ∷ []
