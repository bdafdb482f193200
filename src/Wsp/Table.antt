-- ===== src/Wsp/Table.antt =====
-- The table WSP_HEADERS of src/wsp_header_codec.h.
use mathlib.Core.List.{List, [], ◌∷◌}
use broncho_mms.Names.Pairs.{NameIdPair, pair}

unfoldable pub g_wsp_headers : List NameIdPair
g_wsp_headers =
    pair "Accept" 0
    ∷ pair "Accept-Charset1" 1
    ∷ pair "Accept-Encoding1" 2
    ∷ pair "Accept-Language" 3
    ∷ pair "Accept-Ranges" 4
    ∷ pair "Age" 5
    ∷ pair "Allow" 6
    ∷ pair "Authorization" 7
    ∷ pair "Cache-Control1" 8
    ∷ pair "Connection" 9
    ∷ pair "Content-Base1" 10
    ∷ pair "Content-Encoding" 11
    ∷ pair "Content-Language" 12
    ∷ pair "Content-Length" 13
    ∷ pair "Content-Location" 14
    ∷ pair "Content-MD5" 15
    ∷ pair "Content-Range1" 16
    ∷ pair "Content-Type" 17
    ∷ pair "Date" 18
    ∷ pair "Etag" 19
    ∷ pair "Expires" 20
    ∷ pair "From" 21
    ∷ pair "Host" 22
    ∷ pair "If-Modified-Since" 23
    ∷ pair "If-Match" 24
    ∷ pair "If-None-Match" 25
    ∷ pair "If-Range" 26
    ∷ pair "If-Unmodified-Since" 27
    ∷ pair "Location" 28
    ∷ pair "Last-Modified" 29
    ∷ pair "Max-Forwards" 30
    ∷ pair "Pragma" 31
    ∷ pair "Proxy-Authenticate" 32
    ∷ pair "Proxy-Authorization" 33
    ∷ pair "Public" 34
    ∷ pair "Range" 35
    ∷ pair "Referer" 36
    ∷ pair "Retry-After" 37
    ∷ pair "Server" 38
    ∷ pair "Transfer-Encoding" 39
    ∷ pair "Upgrade" 40
    ∷ pair "User-Agent" 41
    ∷ pair "Vary" 42
    ∷ pair "Via" 43
    ∷ pair "Warning" 44
    ∷ pair "WWW-Authenticate" 45
    ∷ pair "Content-Disposition1" 46
    ∷ pair "X-Wap-Application-Id" 47
    ∷ pair "X-Wap-Content-URI" 48
    ∷ pair "X-Wap-Initiator-URI" 49
    ∷ pair "Accept-Application" 50
    ∷ pair "Bearer-Indication" 51
    ∷ pair "Push-Flag" 52
    ∷ pair "Profile" 53
    ∷ pair "Profile-Diff" 54
    ∷ pair "Profile-Warning1" 55
    ∷ pair "Expect" 56
    ∷ pair "TE" 57
    ∷ pair "Trailer" 58
    ∷ pair "Accept-Charset" 59
    ∷ pair "Accept-Encoding" 60
    ∷ pair "Cache-Control1" 61
    ∷ pair "Content-Range" 62
    ∷ pair "X-Wap-Tod" 63
    ∷ pair "Content-ID" 64
    ∷ pair "Set-Cookie" 65
    ∷ pair "Cookie" 66
    ∷ pair "Encoding-Version" 67
    ∷ pair "Profile-Warning" 68
    ∷ pair "Content-Disposition" 69
    ∷ pair "X-WAP-Security" 70
    ∷ pair "Cache-Control" 71
    ∷ []
