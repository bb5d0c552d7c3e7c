-- ===== src/Charset/Codepages/DosB.antt =====
-- djmount/charset_internal.c: the MS-DOS code pages 857 to 863. The code point of each byte from 0x80 on; 0 is "none".
use djmount.Base.{ℕ, List, [], ◌∷◌}

abbrev pub c2u_cp857 : List ℕ
c2u_cp857 =
    0x00c7 ∷ 0x00fc ∷ 0x00e9 ∷ 0x00e2 ∷ 0x00e4 ∷ 0x00e0 ∷ 0x00e5 ∷ 0x00e7 ∷ 0x00ea ∷ 0x00eb ∷ 0x00e8
    ∷ 0x00ef ∷ 0x00ee ∷ 0x0131 ∷ 0x00c4 ∷ 0x00c5 ∷ 0x00c9 ∷ 0x00e6 ∷ 0x00c6 ∷ 0x00f4 ∷ 0x00f6
    ∷ 0x00f2 ∷ 0x00fb ∷ 0x00f9 ∷ 0x0130 ∷ 0x00d6 ∷ 0x00dc ∷ 0x00f8 ∷ 0x00a3 ∷ 0x00d8 ∷ 0x015e
    ∷ 0x015f ∷ 0x00e1 ∷ 0x00ed ∷ 0x00f3 ∷ 0x00fa ∷ 0x00f1 ∷ 0x00d1 ∷ 0x011e ∷ 0x011f ∷ 0x00bf
    ∷ 0x00ae ∷ 0x00ac ∷ 0x00bd ∷ 0x00bc ∷ 0x00a1 ∷ 0x00ab ∷ 0x00bb ∷ 0x2591 ∷ 0x2592 ∷ 0x2593
    ∷ 0x2502 ∷ 0x2524 ∷ 0x00c1 ∷ 0x00c2 ∷ 0x00c0 ∷ 0x00a9 ∷ 0x2563 ∷ 0x2551 ∷ 0x2557 ∷ 0x255d
    ∷ 0x00a2 ∷ 0x00a5 ∷ 0x2510 ∷ 0x2514 ∷ 0x2534 ∷ 0x252c ∷ 0x251c ∷ 0x2500 ∷ 0x253c ∷ 0x00e3
    ∷ 0x00c3 ∷ 0x255a ∷ 0x2554 ∷ 0x2569 ∷ 0x2566 ∷ 0x2560 ∷ 0x2550 ∷ 0x256c ∷ 0x00a4 ∷ 0x00ba
    ∷ 0x00aa ∷ 0x00ca ∷ 0x00cb ∷ 0x00c8 ∷ 0x0000 ∷ 0x00cd ∷ 0x00ce ∷ 0x00cf ∷ 0x2518 ∷ 0x250c
    ∷ 0x2588 ∷ 0x2584 ∷ 0x00a6 ∷ 0x00cc ∷ 0x2580 ∷ 0x00d3 ∷ 0x00df ∷ 0x00d4 ∷ 0x00d2 ∷ 0x00f5
    ∷ 0x00d5 ∷ 0x00b5 ∷ 0x0000 ∷ 0x00d7 ∷ 0x00da ∷ 0x00db ∷ 0x00d9 ∷ 0x00ec ∷ 0x00ff ∷ 0x00af
    ∷ 0x00b4 ∷ 0x00ad ∷ 0x00b1 ∷ 0x0000 ∷ 0x00be ∷ 0x00b6 ∷ 0x00a7 ∷ 0x00f7 ∷ 0x00b8 ∷ 0x00b0
    ∷ 0x00a8 ∷ 0x00b7 ∷ 0x00b9 ∷ 0x00b3 ∷ 0x00b2 ∷ 0x25a0 ∷ 0x00a0 ∷ []

abbrev pub c2u_cp860 : List ℕ
c2u_cp860 =
    0x00c7 ∷ 0x00fc ∷ 0x00e9 ∷ 0x00e2 ∷ 0x00e3 ∷ 0x00e0 ∷ 0x00c1 ∷ 0x00e7 ∷ 0x00ea ∷ 0x00ca ∷ 0x00e8
    ∷ 0x00cd ∷ 0x00d4 ∷ 0x00ec ∷ 0x00c3 ∷ 0x00c2 ∷ 0x00c9 ∷ 0x00c0 ∷ 0x00c8 ∷ 0x00f4 ∷ 0x00f5
    ∷ 0x00f2 ∷ 0x00da ∷ 0x00f9 ∷ 0x00cc ∷ 0x00d5 ∷ 0x00dc ∷ 0x00a2 ∷ 0x00a3 ∷ 0x00d9 ∷ 0x20a7
    ∷ 0x00d3 ∷ 0x00e1 ∷ 0x00ed ∷ 0x00f3 ∷ 0x00fa ∷ 0x00f1 ∷ 0x00d1 ∷ 0x00aa ∷ 0x00ba ∷ 0x00bf
    ∷ 0x00d2 ∷ 0x00ac ∷ 0x00bd ∷ 0x00bc ∷ 0x00a1 ∷ 0x00ab ∷ 0x00bb ∷ 0x2591 ∷ 0x2592 ∷ 0x2593
    ∷ 0x2502 ∷ 0x2524 ∷ 0x2561 ∷ 0x2562 ∷ 0x2556 ∷ 0x2555 ∷ 0x2563 ∷ 0x2551 ∷ 0x2557 ∷ 0x255d
    ∷ 0x255c ∷ 0x255b ∷ 0x2510 ∷ 0x2514 ∷ 0x2534 ∷ 0x252c ∷ 0x251c ∷ 0x2500 ∷ 0x253c ∷ 0x255e
    ∷ 0x255f ∷ 0x255a ∷ 0x2554 ∷ 0x2569 ∷ 0x2566 ∷ 0x2560 ∷ 0x2550 ∷ 0x256c ∷ 0x2567 ∷ 0x2568
    ∷ 0x2564 ∷ 0x2565 ∷ 0x2559 ∷ 0x2558 ∷ 0x2552 ∷ 0x2553 ∷ 0x256b ∷ 0x256a ∷ 0x2518 ∷ 0x250c
    ∷ 0x2588 ∷ 0x2584 ∷ 0x258c ∷ 0x2590 ∷ 0x2580 ∷ 0x03b1 ∷ 0x00df ∷ 0x0393 ∷ 0x03c0 ∷ 0x03a3
    ∷ 0x03c3 ∷ 0x00b5 ∷ 0x03c4 ∷ 0x03a6 ∷ 0x0398 ∷ 0x03a9 ∷ 0x03b4 ∷ 0x221e ∷ 0x03c6 ∷ 0x03b5
    ∷ 0x2229 ∷ 0x2261 ∷ 0x00b1 ∷ 0x2265 ∷ 0x2264 ∷ 0x2320 ∷ 0x2321 ∷ 0x00f7 ∷ 0x2248 ∷ 0x00b0
    ∷ 0x2219 ∷ 0x00b7 ∷ 0x221a ∷ 0x207f ∷ 0x00b2 ∷ 0x25a0 ∷ 0x00a0 ∷ []

abbrev pub c2u_cp861 : List ℕ
c2u_cp861 =
    0x00c7 ∷ 0x00fc ∷ 0x00e9 ∷ 0x00e2 ∷ 0x00e4 ∷ 0x00e0 ∷ 0x00e5 ∷ 0x00e7 ∷ 0x00ea ∷ 0x00eb ∷ 0x00e8
    ∷ 0x00d0 ∷ 0x00f0 ∷ 0x00de ∷ 0x00c4 ∷ 0x00c5 ∷ 0x00c9 ∷ 0x00e6 ∷ 0x00c6 ∷ 0x00f4 ∷ 0x00f6
    ∷ 0x00fe ∷ 0x00fb ∷ 0x00dd ∷ 0x00fd ∷ 0x00d6 ∷ 0x00dc ∷ 0x00f8 ∷ 0x00a3 ∷ 0x00d8 ∷ 0x20a7
    ∷ 0x0192 ∷ 0x00e1 ∷ 0x00ed ∷ 0x00f3 ∷ 0x00fa ∷ 0x00c1 ∷ 0x00cd ∷ 0x00d3 ∷ 0x00da ∷ 0x00bf
    ∷ 0x2310 ∷ 0x00ac ∷ 0x00bd ∷ 0x00bc ∷ 0x00a1 ∷ 0x00ab ∷ 0x00bb ∷ 0x2591 ∷ 0x2592 ∷ 0x2593
    ∷ 0x2502 ∷ 0x2524 ∷ 0x2561 ∷ 0x2562 ∷ 0x2556 ∷ 0x2555 ∷ 0x2563 ∷ 0x2551 ∷ 0x2557 ∷ 0x255d
    ∷ 0x255c ∷ 0x255b ∷ 0x2510 ∷ 0x2514 ∷ 0x2534 ∷ 0x252c ∷ 0x251c ∷ 0x2500 ∷ 0x253c ∷ 0x255e
    ∷ 0x255f ∷ 0x255a ∷ 0x2554 ∷ 0x2569 ∷ 0x2566 ∷ 0x2560 ∷ 0x2550 ∷ 0x256c ∷ 0x2567 ∷ 0x2568
    ∷ 0x2564 ∷ 0x2565 ∷ 0x2559 ∷ 0x2558 ∷ 0x2552 ∷ 0x2553 ∷ 0x256b ∷ 0x256a ∷ 0x2518 ∷ 0x250c
    ∷ 0x2588 ∷ 0x2584 ∷ 0x258c ∷ 0x2590 ∷ 0x2580 ∷ 0x03b1 ∷ 0x00df ∷ 0x0393 ∷ 0x03c0 ∷ 0x03a3
    ∷ 0x03c3 ∷ 0x00b5 ∷ 0x03c4 ∷ 0x03a6 ∷ 0x0398 ∷ 0x03a9 ∷ 0x03b4 ∷ 0x221e ∷ 0x03c6 ∷ 0x03b5
    ∷ 0x2229 ∷ 0x2261 ∷ 0x00b1 ∷ 0x2265 ∷ 0x2264 ∷ 0x2320 ∷ 0x2321 ∷ 0x00f7 ∷ 0x2248 ∷ 0x00b0
    ∷ 0x2219 ∷ 0x00b7 ∷ 0x221a ∷ 0x207f ∷ 0x00b2 ∷ 0x25a0 ∷ 0x00a0 ∷ []

abbrev pub c2u_cp862 : List ℕ
c2u_cp862 =
    0x05d0 ∷ 0x05d1 ∷ 0x05d2 ∷ 0x05d3 ∷ 0x05d4 ∷ 0x05d5 ∷ 0x05d6 ∷ 0x05d7 ∷ 0x05d8 ∷ 0x05d9 ∷ 0x05da
    ∷ 0x05db ∷ 0x05dc ∷ 0x05dd ∷ 0x05de ∷ 0x05df ∷ 0x05e0 ∷ 0x05e1 ∷ 0x05e2 ∷ 0x05e3 ∷ 0x05e4
    ∷ 0x05e5 ∷ 0x05e6 ∷ 0x05e7 ∷ 0x05e8 ∷ 0x05e9 ∷ 0x05ea ∷ 0x00a2 ∷ 0x00a3 ∷ 0x00a5 ∷ 0x20a7
    ∷ 0x0192 ∷ 0x00e1 ∷ 0x00ed ∷ 0x00f3 ∷ 0x00fa ∷ 0x00f1 ∷ 0x00d1 ∷ 0x00aa ∷ 0x00ba ∷ 0x00bf
    ∷ 0x2310 ∷ 0x00ac ∷ 0x00bd ∷ 0x00bc ∷ 0x00a1 ∷ 0x00ab ∷ 0x00bb ∷ 0x2591 ∷ 0x2592 ∷ 0x2593
    ∷ 0x2502 ∷ 0x2524 ∷ 0x2561 ∷ 0x2562 ∷ 0x2556 ∷ 0x2555 ∷ 0x2563 ∷ 0x2551 ∷ 0x2557 ∷ 0x255d
    ∷ 0x255c ∷ 0x255b ∷ 0x2510 ∷ 0x2514 ∷ 0x2534 ∷ 0x252c ∷ 0x251c ∷ 0x2500 ∷ 0x253c ∷ 0x255e
    ∷ 0x255f ∷ 0x255a ∷ 0x2554 ∷ 0x2569 ∷ 0x2566 ∷ 0x2560 ∷ 0x2550 ∷ 0x256c ∷ 0x2567 ∷ 0x2568
    ∷ 0x2564 ∷ 0x2565 ∷ 0x2559 ∷ 0x2558 ∷ 0x2552 ∷ 0x2553 ∷ 0x256b ∷ 0x256a ∷ 0x2518 ∷ 0x250c
    ∷ 0x2588 ∷ 0x2584 ∷ 0x258c ∷ 0x2590 ∷ 0x2580 ∷ 0x03b1 ∷ 0x00df ∷ 0x0393 ∷ 0x03c0 ∷ 0x03a3
    ∷ 0x03c3 ∷ 0x00b5 ∷ 0x03c4 ∷ 0x03a6 ∷ 0x0398 ∷ 0x03a9 ∷ 0x03b4 ∷ 0x221e ∷ 0x03c6 ∷ 0x03b5
    ∷ 0x2229 ∷ 0x2261 ∷ 0x00b1 ∷ 0x2265 ∷ 0x2264 ∷ 0x2320 ∷ 0x2321 ∷ 0x00f7 ∷ 0x2248 ∷ 0x00b0
    ∷ 0x2219 ∷ 0x00b7 ∷ 0x221a ∷ 0x207f ∷ 0x00b2 ∷ 0x25a0 ∷ 0x00a0 ∷ []

abbrev pub c2u_cp863 : List ℕ
c2u_cp863 =
    0x00c7 ∷ 0x00fc ∷ 0x00e9 ∷ 0x00e2 ∷ 0x00c2 ∷ 0x00e0 ∷ 0x00b6 ∷ 0x00e7 ∷ 0x00ea ∷ 0x00eb ∷ 0x00e8
    ∷ 0x00ef ∷ 0x00ee ∷ 0x2017 ∷ 0x00c0 ∷ 0x00a7 ∷ 0x00c9 ∷ 0x00c8 ∷ 0x00ca ∷ 0x00f4 ∷ 0x00cb
    ∷ 0x00cf ∷ 0x00fb ∷ 0x00f9 ∷ 0x00a4 ∷ 0x00d4 ∷ 0x00dc ∷ 0x00a2 ∷ 0x00a3 ∷ 0x00d9 ∷ 0x00db
    ∷ 0x0192 ∷ 0x00a6 ∷ 0x00b4 ∷ 0x00f3 ∷ 0x00fa ∷ 0x00a8 ∷ 0x00b8 ∷ 0x00b3 ∷ 0x00af ∷ 0x00ce
    ∷ 0x2310 ∷ 0x00ac ∷ 0x00bd ∷ 0x00bc ∷ 0x00be ∷ 0x00ab ∷ 0x00bb ∷ 0x2591 ∷ 0x2592 ∷ 0x2593
    ∷ 0x2502 ∷ 0x2524 ∷ 0x2561 ∷ 0x2562 ∷ 0x2556 ∷ 0x2555 ∷ 0x2563 ∷ 0x2551 ∷ 0x2557 ∷ 0x255d
    ∷ 0x255c ∷ 0x255b ∷ 0x2510 ∷ 0x2514 ∷ 0x2534 ∷ 0x252c ∷ 0x251c ∷ 0x2500 ∷ 0x253c ∷ 0x255e
    ∷ 0x255f ∷ 0x255a ∷ 0x2554 ∷ 0x2569 ∷ 0x2566 ∷ 0x2560 ∷ 0x2550 ∷ 0x256c ∷ 0x2567 ∷ 0x2568
    ∷ 0x2564 ∷ 0x2565 ∷ 0x2559 ∷ 0x2558 ∷ 0x2552 ∷ 0x2553 ∷ 0x256b ∷ 0x256a ∷ 0x2518 ∷ 0x250c
    ∷ 0x2588 ∷ 0x2584 ∷ 0x258c ∷ 0x2590 ∷ 0x2580 ∷ 0x03b1 ∷ 0x00df ∷ 0x0393 ∷ 0x03c0 ∷ 0x03a3
    ∷ 0x03c3 ∷ 0x00b5 ∷ 0x03c4 ∷ 0x03a6 ∷ 0x0398 ∷ 0x03a9 ∷ 0x03b4 ∷ 0x221e ∷ 0x03c6 ∷ 0x03b5
    ∷ 0x2229 ∷ 0x2261 ∷ 0x00b1 ∷ 0x2265 ∷ 0x2264 ∷ 0x2320 ∷ 0x2321 ∷ 0x00f7 ∷ 0x2248 ∷ 0x00b0
    ∷ 0x2219 ∷ 0x00b7 ∷ 0x221a ∷ 0x207f ∷ 0x00b2 ∷ 0x25a0 ∷ 0x00a0 ∷ []
