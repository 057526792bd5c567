-- ===== src/Crc/Tables.antt =====
-- The CRC tables of c/rtklib/rtkcmn.c.
use go_ntrip.Base.{ℕ, List, [], ◌∷◌}

abbrev pub tbl_crc24q : List ℕ
tbl_crc24q =
    0x000000 ∷ 0x864cfb ∷ 0x8ad50d ∷ 0x0c99f6 ∷ 0x93e6e1 ∷ 0x15aa1a ∷ 0x1933ec ∷ 0x9f7f17 ∷ 0xa18139
    ∷ 0x27cdc2 ∷ 0x2b5434 ∷ 0xad18cf ∷ 0x3267d8 ∷ 0xb42b23 ∷ 0xb8b2d5 ∷ 0x3efe2e ∷ 0xc54e89
    ∷ 0x430272 ∷ 0x4f9b84 ∷ 0xc9d77f ∷ 0x56a868 ∷ 0xd0e493 ∷ 0xdc7d65 ∷ 0x5a319e ∷ 0x64cfb0
    ∷ 0xe2834b ∷ 0xee1abd ∷ 0x685646 ∷ 0xf72951 ∷ 0x7165aa ∷ 0x7dfc5c ∷ 0xfbb0a7 ∷ 0x0cd1e9
    ∷ 0x8a9d12 ∷ 0x8604e4 ∷ 0x00481f ∷ 0x9f3708 ∷ 0x197bf3 ∷ 0x15e205 ∷ 0x93aefe ∷ 0xad50d0
    ∷ 0x2b1c2b ∷ 0x2785dd ∷ 0xa1c926 ∷ 0x3eb631 ∷ 0xb8faca ∷ 0xb4633c ∷ 0x322fc7 ∷ 0xc99f60
    ∷ 0x4fd39b ∷ 0x434a6d ∷ 0xc50696 ∷ 0x5a7981 ∷ 0xdc357a ∷ 0xd0ac8c ∷ 0x56e077 ∷ 0x681e59
    ∷ 0xee52a2 ∷ 0xe2cb54 ∷ 0x6487af ∷ 0xfbf8b8 ∷ 0x7db443 ∷ 0x712db5 ∷ 0xf7614e ∷ 0x19a3d2
    ∷ 0x9fef29 ∷ 0x9376df ∷ 0x153a24 ∷ 0x8a4533 ∷ 0x0c09c8 ∷ 0x00903e ∷ 0x86dcc5 ∷ 0xb822eb
    ∷ 0x3e6e10 ∷ 0x32f7e6 ∷ 0xb4bb1d ∷ 0x2bc40a ∷ 0xad88f1 ∷ 0xa11107 ∷ 0x275dfc ∷ 0xdced5b
    ∷ 0x5aa1a0 ∷ 0x563856 ∷ 0xd074ad ∷ 0x4f0bba ∷ 0xc94741 ∷ 0xc5deb7 ∷ 0x43924c ∷ 0x7d6c62
    ∷ 0xfb2099 ∷ 0xf7b96f ∷ 0x71f594 ∷ 0xee8a83 ∷ 0x68c678 ∷ 0x645f8e ∷ 0xe21375 ∷ 0x15723b
    ∷ 0x933ec0 ∷ 0x9fa736 ∷ 0x19ebcd ∷ 0x8694da ∷ 0x00d821 ∷ 0x0c41d7 ∷ 0x8a0d2c ∷ 0xb4f302
    ∷ 0x32bff9 ∷ 0x3e260f ∷ 0xb86af4 ∷ 0x2715e3 ∷ 0xa15918 ∷ 0xadc0ee ∷ 0x2b8c15 ∷ 0xd03cb2
    ∷ 0x567049 ∷ 0x5ae9bf ∷ 0xdca544 ∷ 0x43da53 ∷ 0xc596a8 ∷ 0xc90f5e ∷ 0x4f43a5 ∷ 0x71bd8b
    ∷ 0xf7f170 ∷ 0xfb6886 ∷ 0x7d247d ∷ 0xe25b6a ∷ 0x641791 ∷ 0x688e67 ∷ 0xeec29c ∷ 0x3347a4
    ∷ 0xb50b5f ∷ 0xb992a9 ∷ 0x3fde52 ∷ 0xa0a145 ∷ 0x26edbe ∷ 0x2a7448 ∷ 0xac38b3 ∷ 0x92c69d
    ∷ 0x148a66 ∷ 0x181390 ∷ 0x9e5f6b ∷ 0x01207c ∷ 0x876c87 ∷ 0x8bf571 ∷ 0x0db98a ∷ 0xf6092d
    ∷ 0x7045d6 ∷ 0x7cdc20 ∷ 0xfa90db ∷ 0x65efcc ∷ 0xe3a337 ∷ 0xef3ac1 ∷ 0x69763a ∷ 0x578814
    ∷ 0xd1c4ef ∷ 0xdd5d19 ∷ 0x5b11e2 ∷ 0xc46ef5 ∷ 0x42220e ∷ 0x4ebbf8 ∷ 0xc8f703 ∷ 0x3f964d
    ∷ 0xb9dab6 ∷ 0xb54340 ∷ 0x330fbb ∷ 0xac70ac ∷ 0x2a3c57 ∷ 0x26a5a1 ∷ 0xa0e95a ∷ 0x9e1774
    ∷ 0x185b8f ∷ 0x14c279 ∷ 0x928e82 ∷ 0x0df195 ∷ 0x8bbd6e ∷ 0x872498 ∷ 0x016863 ∷ 0xfad8c4
    ∷ 0x7c943f ∷ 0x700dc9 ∷ 0xf64132 ∷ 0x693e25 ∷ 0xef72de ∷ 0xe3eb28 ∷ 0x65a7d3 ∷ 0x5b59fd
    ∷ 0xdd1506 ∷ 0xd18cf0 ∷ 0x57c00b ∷ 0xc8bf1c ∷ 0x4ef3e7 ∷ 0x426a11 ∷ 0xc426ea ∷ 0x2ae476
    ∷ 0xaca88d ∷ 0xa0317b ∷ 0x267d80 ∷ 0xb90297 ∷ 0x3f4e6c ∷ 0x33d79a ∷ 0xb59b61 ∷ 0x8b654f
    ∷ 0x0d29b4 ∷ 0x01b042 ∷ 0x87fcb9 ∷ 0x1883ae ∷ 0x9ecf55 ∷ 0x9256a3 ∷ 0x141a58 ∷ 0xefaaff
    ∷ 0x69e604 ∷ 0x657ff2 ∷ 0xe33309 ∷ 0x7c4c1e ∷ 0xfa00e5 ∷ 0xf69913 ∷ 0x70d5e8 ∷ 0x4e2bc6
    ∷ 0xc8673d ∷ 0xc4fecb ∷ 0x42b230 ∷ 0xddcd27 ∷ 0x5b81dc ∷ 0x57182a ∷ 0xd154d1 ∷ 0x26359f
    ∷ 0xa07964 ∷ 0xace092 ∷ 0x2aac69 ∷ 0xb5d37e ∷ 0x339f85 ∷ 0x3f0673 ∷ 0xb94a88 ∷ 0x87b4a6
    ∷ 0x01f85d ∷ 0x0d61ab ∷ 0x8b2d50 ∷ 0x145247 ∷ 0x921ebc ∷ 0x9e874a ∷ 0x18cbb1 ∷ 0xe37b16
    ∷ 0x6537ed ∷ 0x69ae1b ∷ 0xefe2e0 ∷ 0x709df7 ∷ 0xf6d10c ∷ 0xfa48fa ∷ 0x7c0401 ∷ 0x42fa2f
    ∷ 0xc4b6d4 ∷ 0xc82f22 ∷ 0x4e63d9 ∷ 0xd11cce ∷ 0x575035 ∷ 0x5bc9c3 ∷ 0xdd8538 ∷ []

abbrev pub tbl_crc16 : List ℕ
tbl_crc16 =
    0x0000 ∷ 0x1021 ∷ 0x2042 ∷ 0x3063 ∷ 0x4084 ∷ 0x50a5 ∷ 0x60c6 ∷ 0x70e7 ∷ 0x8108 ∷ 0x9129 ∷ 0xa14a
    ∷ 0xb16b ∷ 0xc18c ∷ 0xd1ad ∷ 0xe1ce ∷ 0xf1ef ∷ 0x1231 ∷ 0x0210 ∷ 0x3273 ∷ 0x2252 ∷ 0x52b5
    ∷ 0x4294 ∷ 0x72f7 ∷ 0x62d6 ∷ 0x9339 ∷ 0x8318 ∷ 0xb37b ∷ 0xa35a ∷ 0xd3bd ∷ 0xc39c ∷ 0xf3ff
    ∷ 0xe3de ∷ 0x2462 ∷ 0x3443 ∷ 0x0420 ∷ 0x1401 ∷ 0x64e6 ∷ 0x74c7 ∷ 0x44a4 ∷ 0x5485 ∷ 0xa56a
    ∷ 0xb54b ∷ 0x8528 ∷ 0x9509 ∷ 0xe5ee ∷ 0xf5cf ∷ 0xc5ac ∷ 0xd58d ∷ 0x3653 ∷ 0x2672 ∷ 0x1611
    ∷ 0x0630 ∷ 0x76d7 ∷ 0x66f6 ∷ 0x5695 ∷ 0x46b4 ∷ 0xb75b ∷ 0xa77a ∷ 0x9719 ∷ 0x8738 ∷ 0xf7df
    ∷ 0xe7fe ∷ 0xd79d ∷ 0xc7bc ∷ 0x48c4 ∷ 0x58e5 ∷ 0x6886 ∷ 0x78a7 ∷ 0x0840 ∷ 0x1861 ∷ 0x2802
    ∷ 0x3823 ∷ 0xc9cc ∷ 0xd9ed ∷ 0xe98e ∷ 0xf9af ∷ 0x8948 ∷ 0x9969 ∷ 0xa90a ∷ 0xb92b ∷ 0x5af5
    ∷ 0x4ad4 ∷ 0x7ab7 ∷ 0x6a96 ∷ 0x1a71 ∷ 0x0a50 ∷ 0x3a33 ∷ 0x2a12 ∷ 0xdbfd ∷ 0xcbdc ∷ 0xfbbf
    ∷ 0xeb9e ∷ 0x9b79 ∷ 0x8b58 ∷ 0xbb3b ∷ 0xab1a ∷ 0x6ca6 ∷ 0x7c87 ∷ 0x4ce4 ∷ 0x5cc5 ∷ 0x2c22
    ∷ 0x3c03 ∷ 0x0c60 ∷ 0x1c41 ∷ 0xedae ∷ 0xfd8f ∷ 0xcdec ∷ 0xddcd ∷ 0xad2a ∷ 0xbd0b ∷ 0x8d68
    ∷ 0x9d49 ∷ 0x7e97 ∷ 0x6eb6 ∷ 0x5ed5 ∷ 0x4ef4 ∷ 0x3e13 ∷ 0x2e32 ∷ 0x1e51 ∷ 0x0e70 ∷ 0xff9f
    ∷ 0xefbe ∷ 0xdfdd ∷ 0xcffc ∷ 0xbf1b ∷ 0xaf3a ∷ 0x9f59 ∷ 0x8f78 ∷ 0x9188 ∷ 0x81a9 ∷ 0xb1ca
    ∷ 0xa1eb ∷ 0xd10c ∷ 0xc12d ∷ 0xf14e ∷ 0xe16f ∷ 0x1080 ∷ 0x00a1 ∷ 0x30c2 ∷ 0x20e3 ∷ 0x5004
    ∷ 0x4025 ∷ 0x7046 ∷ 0x6067 ∷ 0x83b9 ∷ 0x9398 ∷ 0xa3fb ∷ 0xb3da ∷ 0xc33d ∷ 0xd31c ∷ 0xe37f
    ∷ 0xf35e ∷ 0x02b1 ∷ 0x1290 ∷ 0x22f3 ∷ 0x32d2 ∷ 0x4235 ∷ 0x5214 ∷ 0x6277 ∷ 0x7256 ∷ 0xb5ea
    ∷ 0xa5cb ∷ 0x95a8 ∷ 0x8589 ∷ 0xf56e ∷ 0xe54f ∷ 0xd52c ∷ 0xc50d ∷ 0x34e2 ∷ 0x24c3 ∷ 0x14a0
    ∷ 0x0481 ∷ 0x7466 ∷ 0x6447 ∷ 0x5424 ∷ 0x4405 ∷ 0xa7db ∷ 0xb7fa ∷ 0x8799 ∷ 0x97b8 ∷ 0xe75f
    ∷ 0xf77e ∷ 0xc71d ∷ 0xd73c ∷ 0x26d3 ∷ 0x36f2 ∷ 0x0691 ∷ 0x16b0 ∷ 0x6657 ∷ 0x7676 ∷ 0x4615
    ∷ 0x5634 ∷ 0xd94c ∷ 0xc96d ∷ 0xf90e ∷ 0xe92f ∷ 0x99c8 ∷ 0x89e9 ∷ 0xb98a ∷ 0xa9ab ∷ 0x5844
    ∷ 0x4865 ∷ 0x7806 ∷ 0x6827 ∷ 0x18c0 ∷ 0x08e1 ∷ 0x3882 ∷ 0x28a3 ∷ 0xcb7d ∷ 0xdb5c ∷ 0xeb3f
    ∷ 0xfb1e ∷ 0x8bf9 ∷ 0x9bd8 ∷ 0xabbb ∷ 0xbb9a ∷ 0x4a75 ∷ 0x5a54 ∷ 0x6a37 ∷ 0x7a16 ∷ 0x0af1
    ∷ 0x1ad0 ∷ 0x2ab3 ∷ 0x3a92 ∷ 0xfd2e ∷ 0xed0f ∷ 0xdd6c ∷ 0xcd4d ∷ 0xbdaa ∷ 0xad8b ∷ 0x9de8
    ∷ 0x8dc9 ∷ 0x7c26 ∷ 0x6c07 ∷ 0x5c64 ∷ 0x4c45 ∷ 0x3ca2 ∷ 0x2c83 ∷ 0x1ce0 ∷ 0x0cc1 ∷ 0xef1f
    ∷ 0xff3e ∷ 0xcf5d ∷ 0xdf7c ∷ 0xaf9b ∷ 0xbfba ∷ 0x8fd9 ∷ 0x9ff8 ∷ 0x6e17 ∷ 0x7e36 ∷ 0x4e55
    ∷ 0x5e74 ∷ 0x2e93 ∷ 0x3eb2 ∷ 0x0ed1 ∷ 0x1ef0 ∷ []
