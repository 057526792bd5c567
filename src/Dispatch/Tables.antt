-- ===== src/Dispatch/Tables.antt =====
-- c/rtklib/rtcm3.c and rtcm3e.c: the switches of `decode_rtcm3` and `encode_rtcm3`.
use go_ntrip.Base.{ℕ, List, [], ◌∷◌}
use go_ntrip.Satellite.{
  System, System.gps, System.glo, System.gal, System.qzs, System.cmp, System.sbs,
}
use go_ntrip.Msm.{
  CompactMsm, CompactMsm.msm1, CompactMsm.msm2, CompactMsm.msm3, FullMsm, FullMsm.msm4,
  FullMsm.msm5, FullMsm.msm6, FullMsm.msm7,
}

-- decode_type1001 and so on, decode_ssr1 to decode_ssr6, decode_msm0, decode_msm4 to decode_msm7.
pub data Decoder : Type 0 where
  type_ : ℕ → Decoder
  ssr : ℕ → System → Decoder
  msm0 : System → Decoder
  msm : FullMsm → System → Decoder

-- encode_type1001 and so on, encode_ssr1 to encode_ssr6, encode_msm1 to encode_msm7.
pub data Encoder : Type 0 where
  of_type : ℕ → Encoder
  of_ssr : ℕ → System → Encoder
  compact : CompactMsm → System → Encoder
  full : FullMsm → System → Encoder

abbrev pub decoders : List (ℕ × Decoder)
decoders =
    (1001, type_ 1001)
    ∷ (1002, type_ 1002)
    ∷ (1003, type_ 1003)
    ∷ (1004, type_ 1004)
    ∷ (1005, type_ 1005)
    ∷ (1006, type_ 1006)
    ∷ (1007, type_ 1007)
    ∷ (1008, type_ 1008)
    ∷ (1009, type_ 1009)
    ∷ (1010, type_ 1010)
    ∷ (1011, type_ 1011)
    ∷ (1012, type_ 1012)
    ∷ (1013, type_ 1013)
    ∷ (1019, type_ 1019)
    ∷ (1020, type_ 1020)
    ∷ (1021, type_ 1021)
    ∷ (1022, type_ 1022)
    ∷ (1023, type_ 1023)
    ∷ (1024, type_ 1024)
    ∷ (1025, type_ 1025)
    ∷ (1026, type_ 1026)
    ∷ (1027, type_ 1027)
    ∷ (1030, type_ 1030)
    ∷ (1031, type_ 1031)
    ∷ (1032, type_ 1032)
    ∷ (1033, type_ 1033)
    ∷ (1034, type_ 1034)
    ∷ (1035, type_ 1035)
    ∷ (1037, type_ 1037)
    ∷ (1038, type_ 1038)
    ∷ (1039, type_ 1039)
    ∷ (1044, type_ 1044)
    ∷ (1045, type_ 1045)
    ∷ (1046, type_ 1046)
    ∷ (63, type_ 1042)
    ∷ (1042, type_ 1042)
    ∷ (1057, ssr 1 gps)
    ∷ (1058, ssr 2 gps)
    ∷ (1059, ssr 3 gps)
    ∷ (1060, ssr 4 gps)
    ∷ (1061, ssr 5 gps)
    ∷ (1062, ssr 6 gps)
    ∷ (1063, ssr 1 glo)
    ∷ (1064, ssr 2 glo)
    ∷ (1065, ssr 3 glo)
    ∷ (1066, ssr 4 glo)
    ∷ (1067, ssr 5 glo)
    ∷ (1068, ssr 6 glo)
    ∷ (1071, msm0 gps)
    ∷ (1072, msm0 gps)
    ∷ (1073, msm0 gps)
    ∷ (1074, msm msm4 gps)
    ∷ (1075, msm msm5 gps)
    ∷ (1076, msm msm6 gps)
    ∷ (1077, msm msm7 gps)
    ∷ (1081, msm0 glo)
    ∷ (1082, msm0 glo)
    ∷ (1083, msm0 glo)
    ∷ (1084, msm msm4 glo)
    ∷ (1085, msm msm5 glo)
    ∷ (1086, msm msm6 glo)
    ∷ (1087, msm msm7 glo)
    ∷ (1091, msm0 gal)
    ∷ (1092, msm0 gal)
    ∷ (1093, msm0 gal)
    ∷ (1094, msm msm4 gal)
    ∷ (1095, msm msm5 gal)
    ∷ (1096, msm msm6 gal)
    ∷ (1097, msm msm7 gal)
    ∷ (1101, msm0 sbs)
    ∷ (1102, msm0 sbs)
    ∷ (1103, msm0 sbs)
    ∷ (1104, msm msm4 sbs)
    ∷ (1105, msm msm5 sbs)
    ∷ (1106, msm msm6 sbs)
    ∷ (1107, msm msm7 sbs)
    ∷ (1111, msm0 qzs)
    ∷ (1112, msm0 qzs)
    ∷ (1113, msm0 qzs)
    ∷ (1114, msm msm4 qzs)
    ∷ (1115, msm msm5 qzs)
    ∷ (1116, msm msm6 qzs)
    ∷ (1117, msm msm7 qzs)
    ∷ (1121, msm0 cmp)
    ∷ (1122, msm0 cmp)
    ∷ (1123, msm0 cmp)
    ∷ (1124, msm msm4 cmp)
    ∷ (1125, msm msm5 cmp)
    ∷ (1126, msm msm6 cmp)
    ∷ (1127, msm msm7 cmp)
    ∷ (1230, type_ 1230)
    ∷ (1240, ssr 1 gal)
    ∷ (1241, ssr 2 gal)
    ∷ (1242, ssr 3 gal)
    ∷ (1243, ssr 4 gal)
    ∷ (1244, ssr 5 gal)
    ∷ (1245, ssr 6 gal)
    ∷ (1246, ssr 1 qzs)
    ∷ (1247, ssr 2 qzs)
    ∷ (1248, ssr 3 qzs)
    ∷ (1249, ssr 4 qzs)
    ∷ (1250, ssr 5 qzs)
    ∷ (1251, ssr 6 qzs)
    ∷ (1252, ssr 1 sbs)
    ∷ (1253, ssr 2 sbs)
    ∷ (1254, ssr 3 sbs)
    ∷ (1255, ssr 4 sbs)
    ∷ (1256, ssr 5 sbs)
    ∷ (1257, ssr 6 sbs)
    ∷ (1258, ssr 1 cmp)
    ∷ (1259, ssr 2 cmp)
    ∷ (1260, ssr 3 cmp)
    ∷ (1261, ssr 4 cmp)
    ∷ (1262, ssr 5 cmp)
    ∷ (1263, ssr 6 cmp)
    ∷ []

abbrev pub encoders : List (ℕ × Encoder)
encoders =
    (1001, of_type 1001)
    ∷ (1002, of_type 1002)
    ∷ (1003, of_type 1003)
    ∷ (1004, of_type 1004)
    ∷ (1005, of_type 1005)
    ∷ (1006, of_type 1006)
    ∷ (1007, of_type 1007)
    ∷ (1008, of_type 1008)
    ∷ (1009, of_type 1009)
    ∷ (1010, of_type 1010)
    ∷ (1011, of_type 1011)
    ∷ (1012, of_type 1012)
    ∷ (1019, of_type 1019)
    ∷ (1020, of_type 1020)
    ∷ (1033, of_type 1033)
    ∷ (1042, of_type 1042)
    ∷ (1044, of_type 1044)
    ∷ (1045, of_type 1045)
    ∷ (1046, of_type 1046)
    ∷ (63, of_type 63)
    ∷ (1057, of_ssr 1 gps)
    ∷ (1058, of_ssr 2 gps)
    ∷ (1059, of_ssr 3 gps)
    ∷ (1060, of_ssr 4 gps)
    ∷ (1061, of_ssr 5 gps)
    ∷ (1062, of_ssr 6 gps)
    ∷ (1063, of_ssr 1 glo)
    ∷ (1064, of_ssr 2 glo)
    ∷ (1065, of_ssr 3 glo)
    ∷ (1066, of_ssr 4 glo)
    ∷ (1067, of_ssr 5 glo)
    ∷ (1068, of_ssr 6 glo)
    ∷ (1071, compact msm1 gps)
    ∷ (1072, compact msm2 gps)
    ∷ (1073, compact msm3 gps)
    ∷ (1074, full msm4 gps)
    ∷ (1075, full msm5 gps)
    ∷ (1076, full msm6 gps)
    ∷ (1077, full msm7 gps)
    ∷ (1081, compact msm1 glo)
    ∷ (1082, compact msm2 glo)
    ∷ (1083, compact msm3 glo)
    ∷ (1084, full msm4 glo)
    ∷ (1085, full msm5 glo)
    ∷ (1086, full msm6 glo)
    ∷ (1087, full msm7 glo)
    ∷ (1091, compact msm1 gal)
    ∷ (1092, compact msm2 gal)
    ∷ (1093, compact msm3 gal)
    ∷ (1094, full msm4 gal)
    ∷ (1095, full msm5 gal)
    ∷ (1096, full msm6 gal)
    ∷ (1097, full msm7 gal)
    ∷ (1101, compact msm1 sbs)
    ∷ (1102, compact msm2 sbs)
    ∷ (1103, compact msm3 sbs)
    ∷ (1104, full msm4 sbs)
    ∷ (1105, full msm5 sbs)
    ∷ (1106, full msm6 sbs)
    ∷ (1107, full msm7 sbs)
    ∷ (1111, compact msm1 qzs)
    ∷ (1112, compact msm2 qzs)
    ∷ (1113, compact msm3 qzs)
    ∷ (1114, full msm4 qzs)
    ∷ (1115, full msm5 qzs)
    ∷ (1116, full msm6 qzs)
    ∷ (1117, full msm7 qzs)
    ∷ (1121, compact msm1 cmp)
    ∷ (1122, compact msm2 cmp)
    ∷ (1123, compact msm3 cmp)
    ∷ (1124, full msm4 cmp)
    ∷ (1125, full msm5 cmp)
    ∷ (1126, full msm6 cmp)
    ∷ (1127, full msm7 cmp)
    ∷ (1240, of_ssr 1 gal)
    ∷ (1241, of_ssr 2 gal)
    ∷ (1242, of_ssr 3 gal)
    ∷ (1243, of_ssr 4 gal)
    ∷ (1244, of_ssr 5 gal)
    ∷ (1245, of_ssr 6 gal)
    ∷ (1246, of_ssr 1 qzs)
    ∷ (1247, of_ssr 2 qzs)
    ∷ (1248, of_ssr 3 qzs)
    ∷ (1249, of_ssr 4 qzs)
    ∷ (1250, of_ssr 5 qzs)
    ∷ (1251, of_ssr 6 qzs)
    ∷ (1252, of_ssr 1 sbs)
    ∷ (1253, of_ssr 2 sbs)
    ∷ (1254, of_ssr 3 sbs)
    ∷ (1255, of_ssr 4 sbs)
    ∷ (1256, of_ssr 5 sbs)
    ∷ (1257, of_ssr 6 sbs)
    ∷ (1258, of_ssr 1 cmp)
    ∷ (1259, of_ssr 2 cmp)
    ∷ (1260, of_ssr 3 cmp)
    ∷ (1261, of_ssr 4 cmp)
    ∷ (1262, of_ssr 5 cmp)
    ∷ (1263, of_ssr 6 cmp)
    ∷ []
