-- ===== src/Names/Headers.antt =====
-- The table MMS_HEADERS of src/mms_header_codec.h.
use mathlib.Core.List.{List, [], ◌∷◌}
use broncho_mms.Names.Pairs.{NameIdPair, pair}

unfoldable pub mms_headers : List NameIdPair
mms_headers =
    pair "undef" 0
    ∷ pair "Bcc" 1
    ∷ pair "Cc" 2
    ∷ pair "X-Mms-Content-Location" 3
    ∷ pair "Content-Type" 4
    ∷ pair "Date" 5
    ∷ pair "X-Mms-Delivery-Report" 6
    ∷ pair "X-Mms-Delivery-Time" 7
    ∷ pair "X-Mms-Expiry" 8
    ∷ pair "From" 9
    ∷ pair "X-Mms-Message-Class" 10
    ∷ pair "Message-ID" 11
    ∷ pair "X-Mms-Message-Type" 12
    ∷ pair "X-Mms-MMS-Version" 13
    ∷ pair "X-Mms-Message-Size" 14
    ∷ pair "X-Mms-Priority" 15
    ∷ pair "X-Mms-Read-Report" 16
    ∷ pair "X-Mms-Report-Allowed" 17
    ∷ pair "X-Mms-Response-Status" 18
    ∷ pair "X-Mms-Response-Text" 19
    ∷ pair "X-Mms-Sender-Visibility" 20
    ∷ pair "X-Mms-Status" 21
    ∷ pair "Subject" 22
    ∷ pair "To" 23
    ∷ pair "X-Mms-Transaction-Id" 24
    ∷ pair "X-Mms-Retrieve-Status" 25
    ∷ pair "X-Mms-Retrieve-Text" 26
    ∷ pair "X-Mms-Read-Status" 27
    ∷ pair "X-Mms-Reply-Charging" 28
    ∷ pair "X-Mms-Reply-Charging-Deadline" 29
    ∷ pair "X-Mms-Reply-Charging-ID" 30
    ∷ pair "X-Mms-Reply-Charging-Size" 31
    ∷ pair "X-Mms-Previously-Sent-By" 32
    ∷ pair "X-Mms-Previously-Sent-Date" 33
    ∷ []
