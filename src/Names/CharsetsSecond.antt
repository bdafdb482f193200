-- ===== src/Names/CharsetsSecond.antt =====
-- The second half of MMS_CHARSETS in src/mms_charset.h.
use mathlib.Core.List.{List, [], ◌∷◌}
use broncho_mms.Names.Pairs.{NameIdPair, pair}

unfoldable pub charsets_second : List NameIdPair
charsets_second =
    pair "IBM857" 2047
    ∷ pair "IBM860" 2048
    ∷ pair "IBM861" 2049
    ∷ pair "IBM862" 2013
    ∷ pair "IBM863" 2050
    ∷ pair "IBM864" 2051
    ∷ pair "IBM865" 2052
    ∷ pair "IBM866" 2086
    ∷ pair "IBM868" 2053
    ∷ pair "IBM869" 2054
    ∷ pair "IBM870" 2055
    ∷ pair "IBM871" 2056
    ∷ pair "IBM880" 2057
    ∷ pair "IBM891" 2058
    ∷ pair "IBM903" 2059
    ∷ pair "IBM904" 2060
    ∷ pair "IBM905" 2061
    ∷ pair "IBM918" 2062
    ∷ pair "IBM1026" 2063
    ∷ pair "EBCDIC-AT-DE" 2064
    ∷ pair "EBCDIC-AT-DE-A" 2065
    ∷ pair "EBCDIC-CA-FR" 2066
    ∷ pair "EBCDIC-DK-NO" 2067
    ∷ pair "EBCDIC-DK-NO-A" 2068
    ∷ pair "EBCDIC-FI-SE" 2069
    ∷ pair "EBCDIC-FI-SE-A" 2070
    ∷ pair "EBCDIC-FR" 2071
    ∷ pair "EBCDIC-IT" 2072
    ∷ pair "EBCDIC-PT" 2073
    ∷ pair "EBCDIC-ES" 2074
    ∷ pair "EBCDIC-ES-A" 2075
    ∷ pair "EBCDIC-ES-S" 2076
    ∷ pair "EBCDIC-UK" 2077
    ∷ pair "EBCDIC-US" 2078
    ∷ pair "UNKNOWN-8BIT" 2079
    ∷ pair "MNEMONIC" 2080
    ∷ pair "MNEM" 2081
    ∷ pair "VISCII" 2082
    ∷ pair "VIQR" 2083
    ∷ pair "KOI8-R" 2084
    ∷ pair "KOI8-U" 2088
    ∷ pair "IBM00858" 2089
    ∷ pair "IBM00924" 2090
    ∷ pair "IBM01140" 2091
    ∷ pair "IBM01141" 2092
    ∷ pair "IBM01142" 2093
    ∷ pair "IBM01143" 2094
    ∷ pair "IBM01144" 2095
    ∷ pair "IBM01145" 2096
    ∷ pair "IBM01146" 2097
    ∷ pair "IBM01147" 2098
    ∷ pair "IBM01148" 2099
    ∷ pair "IBM01149" 2100
    ∷ pair "Big5-HKSCS" 2101
    ∷ pair "IBM1047" 2102
    ∷ pair "PTCP154" 2103
    ∷ pair "Amiga-1251" 2104
    ∷ pair "KOI7-switched" 2105
    ∷ pair "UNICODE-1-1" 1010
    ∷ pair "SCSU" 1011
    ∷ pair "UTF-7" 1012
    ∷ pair "UTF-16BE" 1013
    ∷ pair "UTF-16LE" 1014
    ∷ pair "UTF-16" 1015
    ∷ pair "CESU-8" 1016
    ∷ pair "UTF-32" 1017
    ∷ pair "UTF-32BE" 1018
    ∷ pair "UTF-32LE" 1019
    ∷ pair "BOCU-1" 1020
    ∷ pair "UNICODE-1-1-UTF-7" 103
    ∷ pair "UTF-8" 106
    ∷ pair "ISO-8859-13" 109
    ∷ pair "ISO-8859-14" 110
    ∷ pair "ISO-8859-15" 111
    ∷ pair "ISO-8859-16" 112
    ∷ pair "GBK" 113
    ∷ pair "GB18030" 114
    ∷ pair "OSD_EBCDIC_DF04_15" 115
    ∷ pair "OSD_EBCDIC_DF03_IRV" 116
    ∷ pair "OSD_EBCDIC_DF04_1" 117
    ∷ pair "JIS_Encoding" 16
    ∷ pair "Shift_JIS" 17
    ∷ pair "Extended_UNIX_Code_Packed_Format_for_Japanese" 18
    ∷ pair "Extended_UNIX_Code_Fixed_Width_for_Japanese" 19
    ∷ pair "ISO-10646-UCS-Basic" 1002
    ∷ pair "ISO-10646-Unicode-Latin1" 1003
    ∷ pair "ISO-Unicode-IBM-1261" 1005
    ∷ pair "ISO-Unicode-IBM-1268" 1006
    ∷ pair "ISO-Unicode-IBM-1276" 1007
    ∷ pair "ISO-Unicode-IBM-1264" 1008
    ∷ pair "ISO-Unicode-IBM-1265" 1009
    ∷ pair "ISO-8859-1-Windows-3.0-Latin-1" 2000
    ∷ pair "ISO-8859-1-Windows-3.1-Latin-1" 2001
    ∷ pair "ISO-8859-2-Windows-Latin-2" 2002
    ∷ pair "ISO-8859-9-Windows-Latin-5" 2003
    ∷ pair "Adobe-Standard-Encoding" 2005
    ∷ pair "Ventura-US" 2006
    ∷ pair "Ventura-International" 2007
    ∷ pair "PC8-Danish-Norwegian" 2012
    ∷ pair "PC8-Turkish" 2014
    ∷ pair "IBM-Symbols" 2015
    ∷ pair "IBM-Thai" 2016
    ∷ pair "HP-Legal" 2017
    ∷ pair "HP-Pi-font" 2018
    ∷ pair "HP-Math8" 2019
    ∷ pair "Adobe-Symbol-Encoding" 2020
    ∷ pair "HP-DeskTop" 2021
    ∷ pair "Ventura-Math" 2022
    ∷ pair "Microsoft-Publishing" 2023
    ∷ pair "Windows-31J" 2024
    ∷ pair "GB2312" 2025
    ∷ pair "Big5" 2026
    ∷ pair "windows-1250" 2250
    ∷ pair "windows-1251" 2251
    ∷ pair "windows-1252" 2252
    ∷ pair "windows-1253" 2253
    ∷ pair "windows-1254" 2254
    ∷ pair "windows-1255" 2255
    ∷ pair "windows-1256" 2256
    ∷ pair "windows-1257" 2257
    ∷ pair "windows-1258" 2258
    ∷ pair "TIS-620" 2259
    ∷ pair "HZ-GB-2312" 2085
    ∷ pair "ISO-11548-1" 118
    ∷ pair "KZ-1048" 119
    ∷ pair "BRF" 2106
    ∷ []
