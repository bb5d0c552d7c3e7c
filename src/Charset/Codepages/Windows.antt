-- ===== src/Charset/Codepages/Windows.antt =====
-- djmount/charset_internal.c: the Windows code pages. The code point of each byte from 0x80 on; 0 is "none".
use djmount.Base.{ℕ, List, [], ◌∷◌}

abbrev pub c2u_cp1250 : List ℕ
c2u_cp1250 =
    0x20ac ∷ 0x0000 ∷ 0x201a ∷ 0x0000 ∷ 0x201e ∷ 0x2026 ∷ 0x2020 ∷ 0x2021 ∷ 0x0000 ∷ 0x2030 ∷ 0x0160
    ∷ 0x2039 ∷ 0x015a ∷ 0x0164 ∷ 0x017d ∷ 0x0179 ∷ 0x0000 ∷ 0x2018 ∷ 0x2019 ∷ 0x201c ∷ 0x201d
    ∷ 0x2022 ∷ 0x2013 ∷ 0x2014 ∷ 0x0000 ∷ 0x2122 ∷ 0x0161 ∷ 0x203a ∷ 0x015b ∷ 0x0165 ∷ 0x017e
    ∷ 0x017a ∷ 0x00a0 ∷ 0x02c7 ∷ 0x02d8 ∷ 0x0141 ∷ 0x00a4 ∷ 0x0104 ∷ 0x00a6 ∷ 0x00a7 ∷ 0x00a8
    ∷ 0x00a9 ∷ 0x015e ∷ 0x00ab ∷ 0x00ac ∷ 0x00ad ∷ 0x00ae ∷ 0x017b ∷ 0x00b0 ∷ 0x00b1 ∷ 0x02db
    ∷ 0x0142 ∷ 0x00b4 ∷ 0x00b5 ∷ 0x00b6 ∷ 0x00b7 ∷ 0x00b8 ∷ 0x0105 ∷ 0x015f ∷ 0x00bb ∷ 0x013d
    ∷ 0x02dd ∷ 0x013e ∷ 0x017c ∷ 0x0154 ∷ 0x00c1 ∷ 0x00c2 ∷ 0x0102 ∷ 0x00c4 ∷ 0x0139 ∷ 0x0106
    ∷ 0x00c7 ∷ 0x010c ∷ 0x00c9 ∷ 0x0118 ∷ 0x00cb ∷ 0x011a ∷ 0x00cd ∷ 0x00ce ∷ 0x010e ∷ 0x0110
    ∷ 0x0143 ∷ 0x0147 ∷ 0x00d3 ∷ 0x00d4 ∷ 0x0150 ∷ 0x00d6 ∷ 0x00d7 ∷ 0x0158 ∷ 0x016e ∷ 0x00da
    ∷ 0x0170 ∷ 0x00dc ∷ 0x00dd ∷ 0x0162 ∷ 0x00df ∷ 0x0155 ∷ 0x00e1 ∷ 0x00e2 ∷ 0x0103 ∷ 0x00e4
    ∷ 0x013a ∷ 0x0107 ∷ 0x00e7 ∷ 0x010d ∷ 0x00e9 ∷ 0x0119 ∷ 0x00eb ∷ 0x011b ∷ 0x00ed ∷ 0x00ee
    ∷ 0x010f ∷ 0x0111 ∷ 0x0144 ∷ 0x0148 ∷ 0x00f3 ∷ 0x00f4 ∷ 0x0151 ∷ 0x00f6 ∷ 0x00f7 ∷ 0x0159
    ∷ 0x016f ∷ 0x00fa ∷ 0x0171 ∷ 0x00fc ∷ 0x00fd ∷ 0x0163 ∷ 0x02d9 ∷ []

abbrev pub c2u_cp1251 : List ℕ
c2u_cp1251 =
    0x0402 ∷ 0x0403 ∷ 0x201a ∷ 0x0453 ∷ 0x201e ∷ 0x2026 ∷ 0x2020 ∷ 0x2021 ∷ 0x20ac ∷ 0x2030 ∷ 0x0409
    ∷ 0x2039 ∷ 0x040a ∷ 0x040c ∷ 0x040b ∷ 0x040f ∷ 0x0452 ∷ 0x2018 ∷ 0x2019 ∷ 0x201c ∷ 0x201d
    ∷ 0x2022 ∷ 0x2013 ∷ 0x2014 ∷ 0x0000 ∷ 0x2122 ∷ 0x0459 ∷ 0x203a ∷ 0x045a ∷ 0x045c ∷ 0x045b
    ∷ 0x045f ∷ 0x00a0 ∷ 0x040e ∷ 0x045e ∷ 0x0408 ∷ 0x00a4 ∷ 0x0490 ∷ 0x00a6 ∷ 0x00a7 ∷ 0x0401
    ∷ 0x00a9 ∷ 0x0404 ∷ 0x00ab ∷ 0x00ac ∷ 0x00ad ∷ 0x00ae ∷ 0x0407 ∷ 0x00b0 ∷ 0x00b1 ∷ 0x0406
    ∷ 0x0456 ∷ 0x0491 ∷ 0x00b5 ∷ 0x00b6 ∷ 0x00b7 ∷ 0x0451 ∷ 0x2116 ∷ 0x0454 ∷ 0x00bb ∷ 0x0458
    ∷ 0x0405 ∷ 0x0455 ∷ 0x0457 ∷ 0x0410 ∷ 0x0411 ∷ 0x0412 ∷ 0x0413 ∷ 0x0414 ∷ 0x0415 ∷ 0x0416
    ∷ 0x0417 ∷ 0x0418 ∷ 0x0419 ∷ 0x041a ∷ 0x041b ∷ 0x041c ∷ 0x041d ∷ 0x041e ∷ 0x041f ∷ 0x0420
    ∷ 0x0421 ∷ 0x0422 ∷ 0x0423 ∷ 0x0424 ∷ 0x0425 ∷ 0x0426 ∷ 0x0427 ∷ 0x0428 ∷ 0x0429 ∷ 0x042a
    ∷ 0x042b ∷ 0x042c ∷ 0x042d ∷ 0x042e ∷ 0x042f ∷ 0x0430 ∷ 0x0431 ∷ 0x0432 ∷ 0x0433 ∷ 0x0434
    ∷ 0x0435 ∷ 0x0436 ∷ 0x0437 ∷ 0x0438 ∷ 0x0439 ∷ 0x043a ∷ 0x043b ∷ 0x043c ∷ 0x043d ∷ 0x043e
    ∷ 0x043f ∷ 0x0440 ∷ 0x0441 ∷ 0x0442 ∷ 0x0443 ∷ 0x0444 ∷ 0x0445 ∷ 0x0446 ∷ 0x0447 ∷ 0x0448
    ∷ 0x0449 ∷ 0x044a ∷ 0x044b ∷ 0x044c ∷ 0x044d ∷ 0x044e ∷ 0x044f ∷ []

abbrev pub c2u_cp1252 : List ℕ
c2u_cp1252 =
    0x20ac ∷ 0x0000 ∷ 0x201a ∷ 0x0192 ∷ 0x201e ∷ 0x2026 ∷ 0x2020 ∷ 0x2021 ∷ 0x02c6 ∷ 0x2030 ∷ 0x0160
    ∷ 0x2039 ∷ 0x0152 ∷ 0x0000 ∷ 0x017d ∷ 0x0000 ∷ 0x0000 ∷ 0x2018 ∷ 0x2019 ∷ 0x201c ∷ 0x201d
    ∷ 0x2022 ∷ 0x2013 ∷ 0x2014 ∷ 0x02dc ∷ 0x2122 ∷ 0x0161 ∷ 0x203a ∷ 0x0153 ∷ 0x0000 ∷ 0x017e
    ∷ 0x0178 ∷ 0x00a0 ∷ 0x00a1 ∷ 0x00a2 ∷ 0x00a3 ∷ 0x00a4 ∷ 0x00a5 ∷ 0x00a6 ∷ 0x00a7 ∷ 0x00a8
    ∷ 0x00a9 ∷ 0x00aa ∷ 0x00ab ∷ 0x00ac ∷ 0x00ad ∷ 0x00ae ∷ 0x00af ∷ 0x00b0 ∷ 0x00b1 ∷ 0x00b2
    ∷ 0x00b3 ∷ 0x00b4 ∷ 0x00b5 ∷ 0x00b6 ∷ 0x00b7 ∷ 0x00b8 ∷ 0x00b9 ∷ 0x00ba ∷ 0x00bb ∷ 0x00bc
    ∷ 0x00bd ∷ 0x00be ∷ 0x00bf ∷ 0x00c0 ∷ 0x00c1 ∷ 0x00c2 ∷ 0x00c3 ∷ 0x00c4 ∷ 0x00c5 ∷ 0x00c6
    ∷ 0x00c7 ∷ 0x00c8 ∷ 0x00c9 ∷ 0x00ca ∷ 0x00cb ∷ 0x00cc ∷ 0x00cd ∷ 0x00ce ∷ 0x00cf ∷ 0x00d0
    ∷ 0x00d1 ∷ 0x00d2 ∷ 0x00d3 ∷ 0x00d4 ∷ 0x00d5 ∷ 0x00d6 ∷ 0x00d7 ∷ 0x00d8 ∷ 0x00d9 ∷ 0x00da
    ∷ 0x00db ∷ 0x00dc ∷ 0x00dd ∷ 0x00de ∷ 0x00df ∷ 0x00e0 ∷ 0x00e1 ∷ 0x00e2 ∷ 0x00e3 ∷ 0x00e4
    ∷ 0x00e5 ∷ 0x00e6 ∷ 0x00e7 ∷ 0x00e8 ∷ 0x00e9 ∷ 0x00ea ∷ 0x00eb ∷ 0x00ec ∷ 0x00ed ∷ 0x00ee
    ∷ 0x00ef ∷ 0x00f0 ∷ 0x00f1 ∷ 0x00f2 ∷ 0x00f3 ∷ 0x00f4 ∷ 0x00f5 ∷ 0x00f6 ∷ 0x00f7 ∷ 0x00f8
    ∷ 0x00f9 ∷ 0x00fa ∷ 0x00fb ∷ 0x00fc ∷ 0x00fd ∷ 0x00fe ∷ 0x00ff ∷ []

abbrev pub c2u_cp1255 : List ℕ
c2u_cp1255 =
    0x20ac ∷ 0x0000 ∷ 0x201a ∷ 0x0192 ∷ 0x201e ∷ 0x2026 ∷ 0x2020 ∷ 0x2021 ∷ 0x02c6 ∷ 0x2030 ∷ 0x0000
    ∷ 0x2039 ∷ 0x0000 ∷ 0x0000 ∷ 0x0000 ∷ 0x0000 ∷ 0x0000 ∷ 0x2018 ∷ 0x2019 ∷ 0x201c ∷ 0x201d
    ∷ 0x2022 ∷ 0x2013 ∷ 0x2014 ∷ 0x02dc ∷ 0x2122 ∷ 0x0000 ∷ 0x203a ∷ 0x0000 ∷ 0x0000 ∷ 0x0000
    ∷ 0x0000 ∷ 0x00a0 ∷ 0x00a1 ∷ 0x00a2 ∷ 0x00a3 ∷ 0x20aa ∷ 0x00a5 ∷ 0x00a6 ∷ 0x00a7 ∷ 0x00a8
    ∷ 0x00a9 ∷ 0x00d7 ∷ 0x00ab ∷ 0x00ac ∷ 0x00ad ∷ 0x00ae ∷ 0x203e ∷ 0x00b0 ∷ 0x00b1 ∷ 0x00b2
    ∷ 0x00b3 ∷ 0x00b4 ∷ 0x00b5 ∷ 0x00b6 ∷ 0x00b7 ∷ 0x00b8 ∷ 0x00b9 ∷ 0x00f7 ∷ 0x00bb ∷ 0x00bc
    ∷ 0x00bd ∷ 0x00be ∷ 0x00bf ∷ 0x05b0 ∷ 0x05b1 ∷ 0x05b2 ∷ 0x05b3 ∷ 0x05b4 ∷ 0x05b5 ∷ 0x05b6
    ∷ 0x05b7 ∷ 0x05b8 ∷ 0x05b9 ∷ 0x0000 ∷ 0x05bb ∷ 0x05bc ∷ 0x05bd ∷ 0x05be ∷ 0x05bf ∷ 0x05c0
    ∷ 0x05c1 ∷ 0x05c2 ∷ 0x05c3 ∷ 0x05f0 ∷ 0x05f1 ∷ 0x05f2 ∷ 0x05f3 ∷ 0x05f4 ∷ 0x0000 ∷ 0x0000
    ∷ 0x0000 ∷ 0x0000 ∷ 0x0000 ∷ 0x0000 ∷ 0x2017 ∷ 0x05d0 ∷ 0x05d1 ∷ 0x05d2 ∷ 0x05d3 ∷ 0x05d4
    ∷ 0x05d5 ∷ 0x05d6 ∷ 0x05d7 ∷ 0x05d8 ∷ 0x05d9 ∷ 0x05da ∷ 0x05db ∷ 0x05dc ∷ 0x05dd ∷ 0x05de
    ∷ 0x05df ∷ 0x05e0 ∷ 0x05e1 ∷ 0x05e2 ∷ 0x05e3 ∷ 0x05e4 ∷ 0x05e5 ∷ 0x05e6 ∷ 0x05e7 ∷ 0x05e8
    ∷ 0x05e9 ∷ 0x05ea ∷ 0x0000 ∷ 0x0000 ∷ 0x0000 ∷ 0x0000 ∷ 0x0000 ∷ []
