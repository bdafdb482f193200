-- ===== src/Names/CharsetsFirst.antt =====
-- The first half of MMS_CHARSETS in src/mms_charset.h.
use mathlib.Core.List.{List, [], ◌∷◌}
use broncho_mms.Names.Pairs.{NameIdPair, pair}

unfoldable pub charsets_first : List NameIdPair
charsets_first =
    pair "ANSI_X3.4-1968" 3
    ∷ pair "ISO-10646-UTF-1" 27
    ∷ pair "ISO_646.basic:1983" 28
    ∷ pair "INVARIANT" 29
    ∷ pair "ISO_646.irv:1983" 30
    ∷ pair "BS_4730" 20
    ∷ pair "NATS-SEFI" 31
    ∷ pair "NATS-SEFI-ADD" 32
    ∷ pair "NATS-DANO" 33
    ∷ pair "NATS-DANO-ADD" 34
    ∷ pair "SEN_850200_B" 35
    ∷ pair "SEN_850200_C" 21
    ∷ pair "KS_C_5601-1987" 36
    ∷ pair "ISO-2022-KR" 37
    ∷ pair "EUC-KR" 38
    ∷ pair "ISO-2022-JP" 39
    ∷ pair "ISO-2022-JP-2" 40
    ∷ pair "ISO-2022-CN" 104
    ∷ pair "ISO-2022-CN-EXT" 105
    ∷ pair "JIS_C6220-1969-jp" 41
    ∷ pair "JIS_C6220-1969-ro" 42
    ∷ pair "IT" 22
    ∷ pair "PT" 43
    ∷ pair "ES" 23
    ∷ pair "greek7-old" 44
    ∷ pair "latin-greek" 45
    ∷ pair "DIN_66003" 24
    ∷ pair "NF_Z_62-010_(1973)" 46
    ∷ pair "Latin-greek-1" 47
    ∷ pair "ISO_5427" 48
    ∷ pair "JIS_C6226-1978" 49
    ∷ pair "BS_viewdata" 50
    ∷ pair "INIS" 51
    ∷ pair "INIS-8" 52
    ∷ pair "INIS-cyrillic" 53
    ∷ pair "ISO_5427:1981" 54
    ∷ pair "ISO_5428:1980" 55
    ∷ pair "GB_1988-80" 56
    ∷ pair "GB_2312-80" 57
    ∷ pair "NS_4551-1" 25
    ∷ pair "NS_4551-2" 58
    ∷ pair "NF_Z_62-010" 26
    ∷ pair "videotex-suppl" 59
    ∷ pair "PT2" 60
    ∷ pair "ES2" 61
    ∷ pair "MSZ_7795.3" 62
    ∷ pair "JIS_C6226-1983" 63
    ∷ pair "greek7" 64
    ∷ pair "ASMO_449" 65
    ∷ pair "iso-ir-90" 66
    ∷ pair "JIS_C6229-1984-a" 67
    ∷ pair "JIS_C6229-1984-b" 68
    ∷ pair "JIS_C6229-1984-b-add" 69
    ∷ pair "JIS_C6229-1984-hand" 70
    ∷ pair "JIS_C6229-1984-hand-add" 71
    ∷ pair "JIS_C6229-1984-kana" 72
    ∷ pair "ISO_2033-1983" 73
    ∷ pair "ANSI_X3.110-1983" 74
    ∷ pair "ISO_8859-1:1987" 4
    ∷ pair "ISO_8859-2:1987" 5
    ∷ pair "T.61-7bit" 75
    ∷ pair "T.61-8bit" 76
    ∷ pair "ISO_8859-3:1988" 6
    ∷ pair "ISO_8859-4:1988" 7
    ∷ pair "ECMA-cyrillic" 77
    ∷ pair "CSA_Z243.4-1985-1" 78
    ∷ pair "CSA_Z243.4-1985-2" 79
    ∷ pair "CSA_Z243.4-1985-gr" 80
    ∷ pair "ISO_8859-6:1987" 9
    ∷ pair "ISO_8859-6-E" 81
    ∷ pair "ISO_8859-6-I" 82
    ∷ pair "ISO_8859-7:1987" 10
    ∷ pair "T.101-G2" 83
    ∷ pair "ISO_8859-8:1988" 11
    ∷ pair "ISO_8859-8-E" 84
    ∷ pair "ISO_8859-8-I" 85
    ∷ pair "CSN_369103" 86
    ∷ pair "JUS_I.B1.002" 87
    ∷ pair "ISO_6937-2-add" 14
    ∷ pair "IEC_P27-1" 88
    ∷ pair "ISO_8859-5:1988" 8
    ∷ pair "JUS_I.B1.003-serb" 89
    ∷ pair "JUS_I.B1.003-mac" 90
    ∷ pair "ISO_8859-9:1989" 12
    ∷ pair "greek-ccitt" 91
    ∷ pair "NC_NC00-10:81" 92
    ∷ pair "ISO_6937-2-25" 93
    ∷ pair "GOST_19768-74" 94
    ∷ pair "ISO_8859-supp" 95
    ∷ pair "ISO_10367-box" 96
    ∷ pair "ISO-8859-10" 13
    ∷ pair "latin-lap" 97
    ∷ pair "JIS_X0212-1990" 98
    ∷ pair "DS_2089" 99
    ∷ pair "us-dk" 100
    ∷ pair "dk-us" 101
    ∷ pair "JIS_X0201" 15
    ∷ pair "KSC5636" 102
    ∷ pair "ISO-10646-UCS-2" 1000
    ∷ pair "ISO-10646-UCS-4" 1001
    ∷ pair "DEC-MCS" 2008
    ∷ pair "hp-roman8" 2004
    ∷ pair "macintosh" 2027
    ∷ pair "IBM037" 2028
    ∷ pair "IBM038" 2029
    ∷ pair "IBM273" 2030
    ∷ pair "IBM274" 2031
    ∷ pair "IBM275" 2032
    ∷ pair "IBM277" 2033
    ∷ pair "IBM278" 2034
    ∷ pair "IBM280" 2035
    ∷ pair "IBM281" 2036
    ∷ pair "IBM284" 2037
    ∷ pair "IBM285" 2038
    ∷ pair "IBM290" 2039
    ∷ pair "IBM297" 2040
    ∷ pair "IBM420" 2041
    ∷ pair "IBM423" 2042
    ∷ pair "IBM424" 2043
    ∷ pair "IBM437" 2011
    ∷ pair "IBM500" 2044
    ∷ pair "IBM775" 2087
    ∷ pair "IBM850" 2009
    ∷ pair "IBM851" 2045
    ∷ pair "IBM852" 2010
    ∷ pair "IBM855" 2046
    ∷ []
