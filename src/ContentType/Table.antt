-- ===== src/ContentType/Table.antt =====
-- The table MMS_CONTENT_TYPES of src/mms_content_type.h; a row stands at the index that is its number.
use mathlib.Core.List.{List, [], ◌∷◌}
use broncho_mms.Names.Pairs.{NameIdPair, pair}

unfoldable pub g_content_types : List NameIdPair
g_content_types =
    pair "*/*" 0
    ∷ pair "text/*" 1
    ∷ pair "text/html" 2
    ∷ pair "text/plain" 3
    ∷ pair "text/x-hdml" 4
    ∷ pair "text/x-ttml" 5
    ∷ pair "text/x-vCalendar" 6
    ∷ pair "text/x-vCard" 7
    ∷ pair "text/vnd.wap.wml" 8
    ∷ pair "text/vnd.wap.wmlscript" 9
    ∷ pair "text/vnd.wap.wta-event" 10
    ∷ pair "multipart/*" 11
    ∷ pair "multipart/mixed" 12
    ∷ pair "multipart/form-data" 13
    ∷ pair "multipart/byterantes" 14
    ∷ pair "multipart/alternative" 15
    ∷ pair "application/*" 16
    ∷ pair "application/java-vm" 17
    ∷ pair "application/x-www-form-urlencoded" 18
    ∷ pair "application/x-hdmlc" 19
    ∷ pair "application/vnd.wap.wmlc" 20
    ∷ pair "application/vnd.wap.wmlscriptc" 21
    ∷ pair "application/vnd.wap.wta-eventc" 22
    ∷ pair "application/vnd.wap.uaprof" 23
    ∷ pair "application/vnd.wap.wtls-ca-certificate" 24
    ∷ pair "application/vnd.wap.wtls-user-certificate" 25
    ∷ pair "application/x-x509-ca-cert" 26
    ∷ pair "application/x-x509-user-cert" 27
    ∷ pair "image/*" 28
    ∷ pair "image/gif" 29
    ∷ pair "image/jpeg" 30
    ∷ pair "image/tiff" 31
    ∷ pair "image/png" 32
    ∷ pair "image/vnd.wap.wbmp" 33
    ∷ pair "application/vnd.wap.multipart.*" 34
    ∷ pair "application/vnd.wap.multipart.mixed" 35
    ∷ pair "application/vnd.wap.multipart.form-data" 36
    ∷ pair "application/vnd.wap.multipart.byteranges" 37
    ∷ pair "application/vnd.wap.multipart.alternative" 38
    ∷ pair "application/xml" 39
    ∷ pair "text/xml" 40
    ∷ pair "application/vnd.wap.wbxml" 41
    ∷ pair "application/x-x968-cross-cert" 42
    ∷ pair "application/x-x968-ca-cert" 43
    ∷ pair "application/x-x968-user-cert" 44
    ∷ pair "text/vnd.wap.si" 45
    ∷ pair "application/vnd.wap.sic" 46
    ∷ pair "text/vnd.wap.sl" 47
    ∷ pair "application/vnd.wap.slc" 48
    ∷ pair "text/vnd.wap.co" 49
    ∷ pair "application/vnd.wap.coc" 50
    ∷ pair "application/vnd.wap.multipart.related" 51
    ∷ pair "application/vnd.wap.sia" 52
    ∷ pair "text/vnd.wap.connectivity-xml" 53
    ∷ pair "application/vnd.wap.connectivity-wbxml" 54
    ∷ pair "application/pkcs7-mime" 55
    ∷ pair "application/vnd.wap.hashed-certificate" 56
    ∷ pair "application/vnd.wap.signed-certificate" 57
    ∷ pair "application/vnd.wap.cert-response" 58
    ∷ pair "application/xhtml+xml" 59
    ∷ pair "application/wml+xml" 60
    ∷ pair "text/css" 61
    ∷ pair "application/vnd.wap.mms-message" 62
    ∷ pair "application/vnd.wap.rollover-certificate" 63
    ∷ pair "application/vnd.wap.locc+wbxml" 64
    ∷ pair "application/vnd.wap.loc+xml" 65
    ∷ pair "application/vnd.syncml.dm+wbxml" 66
    ∷ pair "application/vnd.syncml.dm+xml" 67
    ∷ pair "application/vnd.syncml.notification" 68
    ∷ pair "application/vnd.wap.xhtml+xml" 69
    ∷ pair "application/vnd.wv.csp.cir" 70
    ∷ pair "application/vnd.oma.dd+xml" 71
    ∷ pair "application/vnd.oma.drm.message" 72
    ∷ pair "application/vnd.oma.drm.content" 73
    ∷ pair "application/vnd.oma.drm.rights+xml" 74
    ∷ pair "application/vnd.oma.drm.rights+wbxml" 75
    ∷ []
