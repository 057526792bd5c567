-- ===== src/Codes/Tables.antt =====
-- The tables of c/rtklib/rtkcmn.c and rtcm3.c: the names of the observation codes, their
-- frequencies, and the signals of each system's multiple signal messages.
use go_ntrip.Base.{ℕ, List, [], ◌∷◌}

abbrev pub Name : Type 0
Name = ℕ × ℕ

-- The empty text.
abbrev pub no_name : Name
no_name = (0, 0)

abbrev pub obscodes : List Name
obscodes =
    no_name
    ∷ (b'1', b'C')
    ∷ (b'1', b'P')
    ∷ (b'1', b'W')
    ∷ (b'1', b'Y')
    ∷ (b'1', b'M')
    ∷ (b'1', b'N')
    ∷ (b'1', b'S')
    ∷ (b'1', b'L')
    ∷ (b'1', b'E')
    ∷ (b'1', b'A')
    ∷ (b'1', b'B')
    ∷ (b'1', b'X')
    ∷ (b'1', b'Z')
    ∷ (b'2', b'C')
    ∷ (b'2', b'D')
    ∷ (b'2', b'S')
    ∷ (b'2', b'L')
    ∷ (b'2', b'X')
    ∷ (b'2', b'P')
    ∷ (b'2', b'W')
    ∷ (b'2', b'Y')
    ∷ (b'2', b'M')
    ∷ (b'2', b'N')
    ∷ (b'5', b'I')
    ∷ (b'5', b'Q')
    ∷ (b'5', b'X')
    ∷ (b'7', b'I')
    ∷ (b'7', b'Q')
    ∷ (b'7', b'X')
    ∷ (b'6', b'A')
    ∷ (b'6', b'B')
    ∷ (b'6', b'C')
    ∷ (b'6', b'X')
    ∷ (b'6', b'Z')
    ∷ (b'6', b'S')
    ∷ (b'6', b'L')
    ∷ (b'8', b'L')
    ∷ (b'8', b'Q')
    ∷ (b'8', b'X')
    ∷ (b'2', b'I')
    ∷ (b'2', b'Q')
    ∷ (b'6', b'I')
    ∷ (b'6', b'Q')
    ∷ (b'3', b'I')
    ∷ (b'3', b'Q')
    ∷ (b'3', b'X')
    ∷ (b'1', b'I')
    ∷ (b'1', b'Q')
    ∷ no_name
    ∷ []

abbrev pub obsfreqs : List ℕ
obsfreqs =
    0 ∷ 1 ∷ 1 ∷ 1 ∷ 1 ∷ 1 ∷ 1 ∷ 1 ∷ 1 ∷ 1 ∷ 1 ∷ 1 ∷ 1 ∷ 1 ∷ 2 ∷ 2 ∷ 2 ∷ 2 ∷ 2 ∷ 2 ∷ 2 ∷ 2 ∷ 2 ∷ 2
    ∷ 3 ∷ 3 ∷ 3 ∷ 5 ∷ 5 ∷ 5 ∷ 4 ∷ 4 ∷ 4 ∷ 4 ∷ 4 ∷ 4 ∷ 4 ∷ 6 ∷ 6 ∷ 6 ∷ 2 ∷ 2 ∷ 4 ∷ 4 ∷ 3 ∷ 3 ∷ 3 ∷ 1
    ∷ 1 ∷ 0 ∷ []

abbrev pub msm_sig_gps : List Name
msm_sig_gps =
    no_name
    ∷ (b'1', b'C')
    ∷ (b'1', b'P')
    ∷ (b'1', b'W')
    ∷ (b'1', b'Y')
    ∷ (b'1', b'M')
    ∷ no_name
    ∷ (b'2', b'C')
    ∷ (b'2', b'P')
    ∷ (b'2', b'W')
    ∷ (b'2', b'Y')
    ∷ (b'2', b'M')
    ∷ no_name
    ∷ no_name
    ∷ (b'2', b'S')
    ∷ (b'2', b'L')
    ∷ (b'2', b'X')
    ∷ no_name
    ∷ no_name
    ∷ no_name
    ∷ no_name
    ∷ (b'5', b'I')
    ∷ (b'5', b'Q')
    ∷ (b'5', b'X')
    ∷ no_name
    ∷ no_name
    ∷ no_name
    ∷ no_name
    ∷ no_name
    ∷ (b'1', b'S')
    ∷ (b'1', b'L')
    ∷ (b'1', b'X')
    ∷ []

abbrev pub msm_sig_glo : List Name
msm_sig_glo =
    no_name
    ∷ (b'1', b'C')
    ∷ (b'1', b'P')
    ∷ no_name
    ∷ no_name
    ∷ no_name
    ∷ no_name
    ∷ (b'2', b'C')
    ∷ (b'2', b'P')
    ∷ no_name
    ∷ (b'3', b'I')
    ∷ (b'3', b'Q')
    ∷ (b'3', b'X')
    ∷ no_name
    ∷ no_name
    ∷ no_name
    ∷ no_name
    ∷ no_name
    ∷ no_name
    ∷ no_name
    ∷ no_name
    ∷ no_name
    ∷ no_name
    ∷ no_name
    ∷ no_name
    ∷ no_name
    ∷ no_name
    ∷ no_name
    ∷ no_name
    ∷ no_name
    ∷ no_name
    ∷ no_name
    ∷ []

abbrev pub msm_sig_gal : List Name
msm_sig_gal =
    no_name
    ∷ (b'1', b'C')
    ∷ (b'1', b'A')
    ∷ (b'1', b'B')
    ∷ (b'1', b'X')
    ∷ (b'1', b'Z')
    ∷ no_name
    ∷ (b'6', b'C')
    ∷ (b'6', b'A')
    ∷ (b'6', b'B')
    ∷ (b'6', b'X')
    ∷ (b'6', b'Z')
    ∷ no_name
    ∷ (b'7', b'I')
    ∷ (b'7', b'Q')
    ∷ (b'7', b'X')
    ∷ no_name
    ∷ (b'8', b'I')
    ∷ (b'8', b'Q')
    ∷ (b'8', b'X')
    ∷ no_name
    ∷ (b'5', b'I')
    ∷ (b'5', b'Q')
    ∷ (b'5', b'X')
    ∷ no_name
    ∷ no_name
    ∷ no_name
    ∷ no_name
    ∷ no_name
    ∷ no_name
    ∷ no_name
    ∷ no_name
    ∷ []

abbrev pub msm_sig_qzs : List Name
msm_sig_qzs =
    no_name
    ∷ (b'1', b'C')
    ∷ no_name
    ∷ no_name
    ∷ no_name
    ∷ no_name
    ∷ no_name
    ∷ no_name
    ∷ (b'6', b'S')
    ∷ (b'6', b'L')
    ∷ (b'6', b'X')
    ∷ no_name
    ∷ no_name
    ∷ no_name
    ∷ (b'2', b'S')
    ∷ (b'2', b'L')
    ∷ (b'2', b'X')
    ∷ no_name
    ∷ no_name
    ∷ no_name
    ∷ no_name
    ∷ (b'5', b'I')
    ∷ (b'5', b'Q')
    ∷ (b'5', b'X')
    ∷ no_name
    ∷ no_name
    ∷ no_name
    ∷ no_name
    ∷ no_name
    ∷ (b'1', b'S')
    ∷ (b'1', b'L')
    ∷ (b'1', b'X')
    ∷ []

abbrev pub msm_sig_sbs : List Name
msm_sig_sbs =
    no_name
    ∷ (b'1', b'C')
    ∷ no_name
    ∷ no_name
    ∷ no_name
    ∷ no_name
    ∷ no_name
    ∷ no_name
    ∷ no_name
    ∷ no_name
    ∷ no_name
    ∷ no_name
    ∷ no_name
    ∷ no_name
    ∷ no_name
    ∷ no_name
    ∷ no_name
    ∷ no_name
    ∷ no_name
    ∷ no_name
    ∷ no_name
    ∷ (b'5', b'I')
    ∷ (b'5', b'Q')
    ∷ (b'5', b'X')
    ∷ no_name
    ∷ no_name
    ∷ no_name
    ∷ no_name
    ∷ no_name
    ∷ no_name
    ∷ no_name
    ∷ no_name
    ∷ []

abbrev pub msm_sig_cmp : List Name
msm_sig_cmp =
    no_name
    ∷ (b'1', b'I')
    ∷ (b'1', b'Q')
    ∷ (b'1', b'X')
    ∷ no_name
    ∷ no_name
    ∷ no_name
    ∷ (b'6', b'I')
    ∷ (b'6', b'Q')
    ∷ (b'6', b'X')
    ∷ no_name
    ∷ no_name
    ∷ no_name
    ∷ (b'7', b'I')
    ∷ (b'7', b'Q')
    ∷ (b'7', b'X')
    ∷ no_name
    ∷ no_name
    ∷ no_name
    ∷ no_name
    ∷ no_name
    ∷ no_name
    ∷ no_name
    ∷ no_name
    ∷ no_name
    ∷ no_name
    ∷ no_name
    ∷ no_name
    ∷ no_name
    ∷ no_name
    ∷ no_name
    ∷ no_name
    ∷ []
