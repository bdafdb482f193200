-- ===== src/Names/Vals.antt =====
-- The table MMS_VALS of src/mms_header_codec.h, which numbers the values by their names.
use mathlib.Core.List.{List, [], ◌∷◌}
use broncho_mms.Names.Pairs.{NameIdPair, pair}

unfoldable pub mms_vals : List NameIdPair
mms_vals =
    pair "Absolute-token" 128
    ∷ pair "Address-present-token" 128
    ∷ pair "Advertisement" 129
    ∷ pair "Deferred" 131
    ∷ pair "Error-content-not-accepted" 135
    ∷ pair "Error-message-format-corrupt" 131
    ∷ pair "Error-message-not-found" 133
    ∷ pair "Error-network-problem" 134
    ∷ pair "Error-sending-address-unresolved" 132
    ∷ pair "Error-service-denied" 130
    ∷ pair "Error-unspecified" 129
    ∷ pair "Error-unsupported-message" 136
    ∷ pair "Expired" 128
    ∷ pair "Hide" 128
    ∷ pair "High" 130
    ∷ pair "Informational" 130
    ∷ pair "Insert-address-token" 129
    ∷ pair "Low" 128
    ∷ pair "m-acknowledge-ind" 133
    ∷ pair "m-delivery-ind" 134
    ∷ pair "m-notification-ind" 130
    ∷ pair "m-notifyresp-ind" 131
    ∷ pair "m-retrieve-conf" 132
    ∷ pair "m-send-conf" 129
    ∷ pair "m-send-req" 128
    ∷ pair "No" 129
    ∷ pair "Normal" 129
    ∷ pair "Ok" 128
    ∷ pair "Personal" 128
    ∷ pair "Rejected" 130
    ∷ pair "Relative-token" 129
    ∷ pair "Retrieved" 129
    ∷ pair "Show" 129
    ∷ pair "Unrecognised" 132
    ∷ pair "Yes" 128
    ∷ []
