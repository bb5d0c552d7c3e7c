-- ===== src/Charset/Codepages/DosC.antt =====
-- djmount/charset_internal.c: the MS-DOS code pages 864 to 874. The code point of each byte from 0x80 on; 0 is "none".
use djmount.Base.{ℕ, List, [], ◌∷◌}

abbrev pub c2u_cp864 : List ℕ
c2u_cp864 =
    0x00b0 ∷ 0x00b7 ∷ 0x2219 ∷ 0x221a ∷ 0x2592 ∷ 0x2500 ∷ 0x2502 ∷ 0x253c ∷ 0x2524 ∷ 0x252c ∷ 0x251c
    ∷ 0x2534 ∷ 0x2510 ∷ 0x250c ∷ 0x2514 ∷ 0x2518 ∷ 0x03b2 ∷ 0x221e ∷ 0x03c6 ∷ 0x00b1 ∷ 0x00bd
    ∷ 0x00bc ∷ 0x2248 ∷ 0x00ab ∷ 0x00bb ∷ 0xfef7 ∷ 0xfef8 ∷ 0x0000 ∷ 0x0000 ∷ 0xfefb ∷ 0xfefc
    ∷ 0x0000 ∷ 0x00a0 ∷ 0x00ad ∷ 0xfe82 ∷ 0x00a3 ∷ 0x00a4 ∷ 0xfe84 ∷ 0x0000 ∷ 0x0000 ∷ 0xfe8e
    ∷ 0xfe8f ∷ 0xfe95 ∷ 0xfe99 ∷ 0x060c ∷ 0xfe9d ∷ 0xfea1 ∷ 0xfea5 ∷ 0x0660 ∷ 0x0661 ∷ 0x0662
    ∷ 0x0663 ∷ 0x0664 ∷ 0x0665 ∷ 0x0666 ∷ 0x0667 ∷ 0x0668 ∷ 0x0669 ∷ 0xfed1 ∷ 0x061b ∷ 0xfeb1
    ∷ 0xfeb5 ∷ 0xfeb9 ∷ 0x061f ∷ 0x00a2 ∷ 0xfe80 ∷ 0xfe81 ∷ 0xfe83 ∷ 0xfe85 ∷ 0xfeca ∷ 0xfe8b
    ∷ 0xfe8d ∷ 0xfe91 ∷ 0xfe93 ∷ 0xfe97 ∷ 0xfe9b ∷ 0xfe9f ∷ 0xfea3 ∷ 0xfea7 ∷ 0xfea9 ∷ 0xfeab
    ∷ 0xfead ∷ 0xfeaf ∷ 0xfeb3 ∷ 0xfeb7 ∷ 0xfebb ∷ 0xfebf ∷ 0xfec1 ∷ 0xfec5 ∷ 0xfecb ∷ 0xfecf
    ∷ 0x00a6 ∷ 0x00ac ∷ 0x00f7 ∷ 0x00d7 ∷ 0xfec9 ∷ 0x0640 ∷ 0xfed3 ∷ 0xfed7 ∷ 0xfedb ∷ 0xfedf
    ∷ 0xfee3 ∷ 0xfee7 ∷ 0xfeeb ∷ 0xfeed ∷ 0xfeef ∷ 0xfef3 ∷ 0xfebd ∷ 0xfecc ∷ 0xfece ∷ 0xfecd
    ∷ 0xfee1 ∷ 0xfe7d ∷ 0x0651 ∷ 0xfee5 ∷ 0xfee9 ∷ 0xfeec ∷ 0xfef0 ∷ 0xfef2 ∷ 0xfed0 ∷ 0xfed5
    ∷ 0xfef5 ∷ 0xfef6 ∷ 0xfedd ∷ 0xfed9 ∷ 0xfef1 ∷ 0x25a0 ∷ 0x0000 ∷ []

abbrev pub c2u_cp865 : List ℕ
c2u_cp865 =
    0x00c7 ∷ 0x00fc ∷ 0x00e9 ∷ 0x00e2 ∷ 0x00e4 ∷ 0x00e0 ∷ 0x00e5 ∷ 0x00e7 ∷ 0x00ea ∷ 0x00eb ∷ 0x00e8
    ∷ 0x00ef ∷ 0x00ee ∷ 0x00ec ∷ 0x00c4 ∷ 0x00c5 ∷ 0x00c9 ∷ 0x00e6 ∷ 0x00c6 ∷ 0x00f4 ∷ 0x00f6
    ∷ 0x00f2 ∷ 0x00fb ∷ 0x00f9 ∷ 0x00ff ∷ 0x00d6 ∷ 0x00dc ∷ 0x00f8 ∷ 0x00a3 ∷ 0x00d8 ∷ 0x20a7
    ∷ 0x0192 ∷ 0x00e1 ∷ 0x00ed ∷ 0x00f3 ∷ 0x00fa ∷ 0x00f1 ∷ 0x00d1 ∷ 0x00aa ∷ 0x00ba ∷ 0x00bf
    ∷ 0x2310 ∷ 0x00ac ∷ 0x00bd ∷ 0x00bc ∷ 0x00a1 ∷ 0x00ab ∷ 0x00a4 ∷ 0x2591 ∷ 0x2592 ∷ 0x2593
    ∷ 0x2502 ∷ 0x2524 ∷ 0x2561 ∷ 0x2562 ∷ 0x2556 ∷ 0x2555 ∷ 0x2563 ∷ 0x2551 ∷ 0x2557 ∷ 0x255d
    ∷ 0x255c ∷ 0x255b ∷ 0x2510 ∷ 0x2514 ∷ 0x2534 ∷ 0x252c ∷ 0x251c ∷ 0x2500 ∷ 0x253c ∷ 0x255e
    ∷ 0x255f ∷ 0x255a ∷ 0x2554 ∷ 0x2569 ∷ 0x2566 ∷ 0x2560 ∷ 0x2550 ∷ 0x256c ∷ 0x2567 ∷ 0x2568
    ∷ 0x2564 ∷ 0x2565 ∷ 0x2559 ∷ 0x2558 ∷ 0x2552 ∷ 0x2553 ∷ 0x256b ∷ 0x256a ∷ 0x2518 ∷ 0x250c
    ∷ 0x2588 ∷ 0x2584 ∷ 0x258c ∷ 0x2590 ∷ 0x2580 ∷ 0x03b1 ∷ 0x00df ∷ 0x0393 ∷ 0x03c0 ∷ 0x03a3
    ∷ 0x03c3 ∷ 0x00b5 ∷ 0x03c4 ∷ 0x03a6 ∷ 0x0398 ∷ 0x03a9 ∷ 0x03b4 ∷ 0x221e ∷ 0x03c6 ∷ 0x03b5
    ∷ 0x2229 ∷ 0x2261 ∷ 0x00b1 ∷ 0x2265 ∷ 0x2264 ∷ 0x2320 ∷ 0x2321 ∷ 0x00f7 ∷ 0x2248 ∷ 0x00b0
    ∷ 0x2219 ∷ 0x00b7 ∷ 0x221a ∷ 0x207f ∷ 0x00b2 ∷ 0x25a0 ∷ 0x00a0 ∷ []

abbrev pub c2u_cp866 : List ℕ
c2u_cp866 =
    0x0410 ∷ 0x0411 ∷ 0x0412 ∷ 0x0413 ∷ 0x0414 ∷ 0x0415 ∷ 0x0416 ∷ 0x0417 ∷ 0x0418 ∷ 0x0419 ∷ 0x041a
    ∷ 0x041b ∷ 0x041c ∷ 0x041d ∷ 0x041e ∷ 0x041f ∷ 0x0420 ∷ 0x0421 ∷ 0x0422 ∷ 0x0423 ∷ 0x0424
    ∷ 0x0425 ∷ 0x0426 ∷ 0x0427 ∷ 0x0428 ∷ 0x0429 ∷ 0x042a ∷ 0x042b ∷ 0x042c ∷ 0x042d ∷ 0x042e
    ∷ 0x042f ∷ 0x0430 ∷ 0x0431 ∷ 0x0432 ∷ 0x0433 ∷ 0x0434 ∷ 0x0435 ∷ 0x0436 ∷ 0x0437 ∷ 0x0438
    ∷ 0x0439 ∷ 0x043a ∷ 0x043b ∷ 0x043c ∷ 0x043d ∷ 0x043e ∷ 0x043f ∷ 0x2591 ∷ 0x2592 ∷ 0x2593
    ∷ 0x2502 ∷ 0x2524 ∷ 0x2561 ∷ 0x2562 ∷ 0x2556 ∷ 0x2555 ∷ 0x2563 ∷ 0x2551 ∷ 0x2557 ∷ 0x255d
    ∷ 0x255c ∷ 0x255b ∷ 0x2510 ∷ 0x2514 ∷ 0x2534 ∷ 0x252c ∷ 0x251c ∷ 0x2500 ∷ 0x253c ∷ 0x255e
    ∷ 0x255f ∷ 0x255a ∷ 0x2554 ∷ 0x2569 ∷ 0x2566 ∷ 0x2560 ∷ 0x2550 ∷ 0x256c ∷ 0x2567 ∷ 0x2568
    ∷ 0x2564 ∷ 0x2565 ∷ 0x2559 ∷ 0x2558 ∷ 0x2552 ∷ 0x2553 ∷ 0x256b ∷ 0x256a ∷ 0x2518 ∷ 0x250c
    ∷ 0x2588 ∷ 0x2584 ∷ 0x258c ∷ 0x2590 ∷ 0x2580 ∷ 0x0440 ∷ 0x0441 ∷ 0x0442 ∷ 0x0443 ∷ 0x0444
    ∷ 0x0445 ∷ 0x0446 ∷ 0x0447 ∷ 0x0448 ∷ 0x0449 ∷ 0x044a ∷ 0x044b ∷ 0x044c ∷ 0x044d ∷ 0x044e
    ∷ 0x044f ∷ 0x0401 ∷ 0x0451 ∷ 0x0404 ∷ 0x0454 ∷ 0x0407 ∷ 0x0457 ∷ 0x040e ∷ 0x045e ∷ 0x00b0
    ∷ 0x2219 ∷ 0x00b7 ∷ 0x221a ∷ 0x2116 ∷ 0x00a4 ∷ 0x25a0 ∷ 0x00a0 ∷ []

abbrev pub c2u_cp869 : List ℕ
c2u_cp869 =
    0x0000 ∷ 0x0000 ∷ 0x0000 ∷ 0x0000 ∷ 0x0000 ∷ 0x0000 ∷ 0x0386 ∷ 0x0000 ∷ 0x00b7 ∷ 0x00ac ∷ 0x00a6
    ∷ 0x2018 ∷ 0x2019 ∷ 0x0388 ∷ 0x2015 ∷ 0x0389 ∷ 0x038a ∷ 0x03aa ∷ 0x038c ∷ 0x0000 ∷ 0x0000
    ∷ 0x038e ∷ 0x03ab ∷ 0x00a9 ∷ 0x038f ∷ 0x00b2 ∷ 0x00b3 ∷ 0x03ac ∷ 0x00a3 ∷ 0x03ad ∷ 0x03ae
    ∷ 0x03af ∷ 0x03ca ∷ 0x0390 ∷ 0x03cc ∷ 0x03cd ∷ 0x0391 ∷ 0x0392 ∷ 0x0393 ∷ 0x0394 ∷ 0x0395
    ∷ 0x0396 ∷ 0x0397 ∷ 0x00bd ∷ 0x0398 ∷ 0x0399 ∷ 0x00ab ∷ 0x00bb ∷ 0x2591 ∷ 0x2592 ∷ 0x2593
    ∷ 0x2502 ∷ 0x2524 ∷ 0x039a ∷ 0x039b ∷ 0x039c ∷ 0x039d ∷ 0x2563 ∷ 0x2551 ∷ 0x2557 ∷ 0x255d
    ∷ 0x039e ∷ 0x039f ∷ 0x2510 ∷ 0x2514 ∷ 0x2534 ∷ 0x252c ∷ 0x251c ∷ 0x2500 ∷ 0x253c ∷ 0x03a0
    ∷ 0x03a1 ∷ 0x255a ∷ 0x2554 ∷ 0x2569 ∷ 0x2566 ∷ 0x2560 ∷ 0x2550 ∷ 0x256c ∷ 0x03a3 ∷ 0x03a4
    ∷ 0x03a5 ∷ 0x03a6 ∷ 0x03a7 ∷ 0x03a8 ∷ 0x03a9 ∷ 0x03b1 ∷ 0x03b2 ∷ 0x03b3 ∷ 0x2518 ∷ 0x250c
    ∷ 0x2588 ∷ 0x2584 ∷ 0x03b4 ∷ 0x03b5 ∷ 0x2580 ∷ 0x03b6 ∷ 0x03b7 ∷ 0x03b8 ∷ 0x03b9 ∷ 0x03ba
    ∷ 0x03bb ∷ 0x03bc ∷ 0x03bd ∷ 0x03be ∷ 0x03bf ∷ 0x03c0 ∷ 0x03c1 ∷ 0x03c3 ∷ 0x03c2 ∷ 0x03c4
    ∷ 0x0384 ∷ 0x00ad ∷ 0x00b1 ∷ 0x03c5 ∷ 0x03c6 ∷ 0x03c7 ∷ 0x00a7 ∷ 0x03c8 ∷ 0x0385 ∷ 0x00b0
    ∷ 0x00a8 ∷ 0x03c9 ∷ 0x03cb ∷ 0x03b0 ∷ 0x03ce ∷ 0x25a0 ∷ 0x00a0 ∷ []

abbrev pub c2u_cp874 : List ℕ
c2u_cp874 =
    0x0000 ∷ 0x0000 ∷ 0x0000 ∷ 0x0000 ∷ 0x0000 ∷ 0x2026 ∷ 0x0000 ∷ 0x0000 ∷ 0x0000 ∷ 0x0000 ∷ 0x0000
    ∷ 0x0000 ∷ 0x0000 ∷ 0x0000 ∷ 0x0000 ∷ 0x0000 ∷ 0x0000 ∷ 0x2018 ∷ 0x2019 ∷ 0x201c ∷ 0x201d
    ∷ 0x2022 ∷ 0x2013 ∷ 0x2014 ∷ 0x0000 ∷ 0x0000 ∷ 0x0000 ∷ 0x0000 ∷ 0x0000 ∷ 0x0000 ∷ 0x0000
    ∷ 0x0000 ∷ 0x00a0 ∷ 0x0e01 ∷ 0x0e02 ∷ 0x0e03 ∷ 0x0e04 ∷ 0x0e05 ∷ 0x0e06 ∷ 0x0e07 ∷ 0x0e08
    ∷ 0x0e09 ∷ 0x0e0a ∷ 0x0e0b ∷ 0x0e0c ∷ 0x0e0d ∷ 0x0e0e ∷ 0x0e0f ∷ 0x0e10 ∷ 0x0e11 ∷ 0x0e12
    ∷ 0x0e13 ∷ 0x0e14 ∷ 0x0e15 ∷ 0x0e16 ∷ 0x0e17 ∷ 0x0e18 ∷ 0x0e19 ∷ 0x0e1a ∷ 0x0e1b ∷ 0x0e1c
    ∷ 0x0e1d ∷ 0x0e1e ∷ 0x0e1f ∷ 0x0e20 ∷ 0x0e21 ∷ 0x0e22 ∷ 0x0e23 ∷ 0x0e24 ∷ 0x0e25 ∷ 0x0e26
    ∷ 0x0e27 ∷ 0x0e28 ∷ 0x0e29 ∷ 0x0e2a ∷ 0x0e2b ∷ 0x0e2c ∷ 0x0e2d ∷ 0x0e2e ∷ 0x0e2f ∷ 0x0e30
    ∷ 0x0e31 ∷ 0x0e32 ∷ 0x0e33 ∷ 0x0e34 ∷ 0x0e35 ∷ 0x0e36 ∷ 0x0e37 ∷ 0x0e38 ∷ 0x0e39 ∷ 0x0e3a
    ∷ 0x0000 ∷ 0x0000 ∷ 0x0000 ∷ 0x0000 ∷ 0x0e3f ∷ 0x0e40 ∷ 0x0e41 ∷ 0x0e42 ∷ 0x0e43 ∷ 0x0e44
    ∷ 0x0e45 ∷ 0x0e46 ∷ 0x0e47 ∷ 0x0e48 ∷ 0x0e49 ∷ 0x0e4a ∷ 0x0e4b ∷ 0x0e4c ∷ 0x0e4d ∷ 0x0e4e
    ∷ 0x0e4f ∷ 0x0e50 ∷ 0x0e51 ∷ 0x0e52 ∷ 0x0e53 ∷ 0x0e54 ∷ 0x0e55 ∷ 0x0e56 ∷ 0x0e57 ∷ 0x0e58
    ∷ 0x0e59 ∷ 0x0e5a ∷ 0x0e5b ∷ 0x0000 ∷ 0x0000 ∷ 0x0000 ∷ 0x0000 ∷ []
