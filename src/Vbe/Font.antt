-- ===== src/Vbe/Font.antt =====
-- `font8x8` of src/drivers/vbe.cpp: the glyphs of the characters 32 to 126, a byte for each of their eight
-- lines.
use trieternal_x_os.Base.{ℕ, List, [], ◌∷◌}

abbrev pub glyphs_0 : List ℕ
glyphs_0 =
    0x00 ∷ 0x00 ∷ 0x00 ∷ 0x00 ∷ 0x00 ∷ 0x00 ∷ 0x00 ∷ 0x00 ∷ 0x18 ∷ 0x18 ∷ 0x18 ∷ 0x18 ∷ 0x18 ∷ 0x00
    ∷ 0x18 ∷ 0x00 ∷ 0x24 ∷ 0x24 ∷ 0x24 ∷ 0x00 ∷ 0x00 ∷ 0x00 ∷ 0x00 ∷ 0x00 ∷ 0x24 ∷ 0x24 ∷ 0x7E
    ∷ 0x24 ∷ 0x7E ∷ 0x24 ∷ 0x24 ∷ 0x00 ∷ 0x08 ∷ 0x3E ∷ 0x28 ∷ 0x1C ∷ 0x0A ∷ 0x3E ∷ 0x08 ∷ 0x00
    ∷ 0x00 ∷ 0x62 ∷ 0x66 ∷ 0x0C ∷ 0x18 ∷ 0x33 ∷ 0x23 ∷ 0x00 ∷ 0x1C ∷ 0x22 ∷ 0x18 ∷ 0x2A ∷ 0x24
    ∷ 0x22 ∷ 0x1D ∷ 0x00 ∷ 0x18 ∷ 0x18 ∷ 0x08 ∷ 0x00 ∷ 0x00 ∷ 0x00 ∷ 0x00 ∷ 0x00 ∷ 0x08 ∷ 0x10
    ∷ 0x20 ∷ 0x20 ∷ 0x20 ∷ 0x10 ∷ 0x08 ∷ 0x00 ∷ 0x10 ∷ 0x08 ∷ 0x04 ∷ 0x04 ∷ 0x04 ∷ 0x08 ∷ 0x10
    ∷ 0x00 ∷ 0x00 ∷ 0x24 ∷ 0x18 ∷ 0x7E ∷ 0x18 ∷ 0x24 ∷ 0x00 ∷ 0x00 ∷ 0x00 ∷ 0x08 ∷ 0x08 ∷ 0x3E
    ∷ 0x08 ∷ 0x08 ∷ 0x00 ∷ 0x00 ∷ 0x00 ∷ 0x00 ∷ 0x00 ∷ 0x00 ∷ 0x18 ∷ 0x18 ∷ 0x08 ∷ 0x10 ∷ 0x00
    ∷ 0x00 ∷ 0x00 ∷ 0x3E ∷ 0x00 ∷ 0x00 ∷ 0x00 ∷ 0x00 ∷ 0x00 ∷ 0x00 ∷ 0x00 ∷ 0x00 ∷ 0x18 ∷ 0x18
    ∷ 0x00 ∷ 0x00 ∷ 0x00 ∷ 0x02 ∷ 0x04 ∷ 0x08 ∷ 0x10 ∷ 0x20 ∷ 0x40 ∷ 0x00 ∷ 0x3E ∷ 0x66 ∷ 0x6E
    ∷ 0x76 ∷ 0x66 ∷ 0x66 ∷ 0x3E ∷ 0x00 ∷ 0x18 ∷ 0x1C ∷ 0x18 ∷ 0x18 ∷ 0x18 ∷ 0x18 ∷ 0x7E ∷ 0x00
    ∷ 0x3E ∷ 0x66 ∷ 0x06 ∷ 0x0C ∷ 0x18 ∷ 0x30 ∷ 0x7E ∷ 0x00 ∷ []

abbrev pub glyphs_1 : List ℕ
glyphs_1 =
    0x3E ∷ 0x66 ∷ 0x06 ∷ 0x1C ∷ 0x06 ∷ 0x66 ∷ 0x3E ∷ 0x00 ∷ 0x0C ∷ 0x1C ∷ 0x2C ∷ 0x4C ∷ 0x7E ∷ 0x0C
    ∷ 0x0C ∷ 0x00 ∷ 0x7E ∷ 0x60 ∷ 0x7C ∷ 0x06 ∷ 0x06 ∷ 0x66 ∷ 0x3E ∷ 0x00 ∷ 0x1C ∷ 0x30 ∷ 0x60
    ∷ 0x7C ∷ 0x66 ∷ 0x66 ∷ 0x3E ∷ 0x00 ∷ 0x7E ∷ 0x06 ∷ 0x0C ∷ 0x18 ∷ 0x30 ∷ 0x30 ∷ 0x30 ∷ 0x00
    ∷ 0x3E ∷ 0x66 ∷ 0x66 ∷ 0x3E ∷ 0x66 ∷ 0x66 ∷ 0x3E ∷ 0x00 ∷ 0x3E ∷ 0x66 ∷ 0x66 ∷ 0x3E ∷ 0x06
    ∷ 0x0C ∷ 0x38 ∷ 0x00 ∷ 0x00 ∷ 0x18 ∷ 0x18 ∷ 0x00 ∷ 0x18 ∷ 0x18 ∷ 0x00 ∷ 0x00 ∷ 0x00 ∷ 0x18
    ∷ 0x18 ∷ 0x00 ∷ 0x18 ∷ 0x18 ∷ 0x08 ∷ 0x10 ∷ 0x04 ∷ 0x08 ∷ 0x10 ∷ 0x20 ∷ 0x10 ∷ 0x08 ∷ 0x04
    ∷ 0x00 ∷ 0x00 ∷ 0x00 ∷ 0x3E ∷ 0x00 ∷ 0x3E ∷ 0x00 ∷ 0x00 ∷ 0x00 ∷ 0x20 ∷ 0x10 ∷ 0x08 ∷ 0x04
    ∷ 0x08 ∷ 0x10 ∷ 0x20 ∷ 0x00 ∷ 0x3E ∷ 0x66 ∷ 0x06 ∷ 0x0C ∷ 0x18 ∷ 0x00 ∷ 0x18 ∷ 0x00 ∷ 0x3E
    ∷ 0x66 ∷ 0x6F ∷ 0x6B ∷ 0x6D ∷ 0x60 ∷ 0x3E ∷ 0x00 ∷ 0x18 ∷ 0x3C ∷ 0x66 ∷ 0x66 ∷ 0x7E ∷ 0x66
    ∷ 0x66 ∷ 0x00 ∷ 0x7C ∷ 0x66 ∷ 0x66 ∷ 0x7C ∷ 0x66 ∷ 0x66 ∷ 0x7C ∷ 0x00 ∷ 0x3E ∷ 0x66 ∷ 0x60
    ∷ 0x60 ∷ 0x60 ∷ 0x66 ∷ 0x3E ∷ 0x00 ∷ 0x78 ∷ 0x6C ∷ 0x66 ∷ 0x66 ∷ 0x66 ∷ 0x6C ∷ 0x78 ∷ 0x00
    ∷ 0x7E ∷ 0x60 ∷ 0x60 ∷ 0x78 ∷ 0x60 ∷ 0x60 ∷ 0x7E ∷ 0x00 ∷ []

abbrev pub glyphs_2 : List ℕ
glyphs_2 =
    0x7E ∷ 0x60 ∷ 0x60 ∷ 0x78 ∷ 0x60 ∷ 0x60 ∷ 0x60 ∷ 0x00 ∷ 0x3E ∷ 0x66 ∷ 0x60 ∷ 0x6C ∷ 0x66 ∷ 0x66
    ∷ 0x3E ∷ 0x00 ∷ 0x66 ∷ 0x66 ∷ 0x66 ∷ 0x7E ∷ 0x66 ∷ 0x66 ∷ 0x66 ∷ 0x00 ∷ 0x7E ∷ 0x18 ∷ 0x18
    ∷ 0x18 ∷ 0x18 ∷ 0x18 ∷ 0x7E ∷ 0x00 ∷ 0x06 ∷ 0x06 ∷ 0x06 ∷ 0x06 ∷ 0x06 ∷ 0x66 ∷ 0x3E ∷ 0x00
    ∷ 0x66 ∷ 0x6C ∷ 0x78 ∷ 0x70 ∷ 0x78 ∷ 0x6C ∷ 0x66 ∷ 0x00 ∷ 0x60 ∷ 0x60 ∷ 0x60 ∷ 0x60 ∷ 0x60
    ∷ 0x60 ∷ 0x7E ∷ 0x00 ∷ 0x63 ∷ 0x77 ∷ 0x7F ∷ 0x6B ∷ 0x63 ∷ 0x63 ∷ 0x63 ∷ 0x00 ∷ 0x66 ∷ 0x6E
    ∷ 0x76 ∷ 0x72 ∷ 0x7A ∷ 0x6E ∷ 0x66 ∷ 0x00 ∷ 0x3E ∷ 0x66 ∷ 0x66 ∷ 0x66 ∷ 0x66 ∷ 0x66 ∷ 0x3E
    ∷ 0x00 ∷ 0x7C ∷ 0x66 ∷ 0x66 ∷ 0x7C ∷ 0x60 ∷ 0x60 ∷ 0x60 ∷ 0x00 ∷ 0x3E ∷ 0x66 ∷ 0x66 ∷ 0x66
    ∷ 0x6A ∷ 0x6C ∷ 0x3E ∷ 0x02 ∷ 0x7C ∷ 0x66 ∷ 0x66 ∷ 0x7C ∷ 0x78 ∷ 0x6C ∷ 0x66 ∷ 0x00 ∷ 0x3E
    ∷ 0x66 ∷ 0x30 ∷ 0x1C ∷ 0x06 ∷ 0x66 ∷ 0x3E ∷ 0x00 ∷ 0x7E ∷ 0x18 ∷ 0x18 ∷ 0x18 ∷ 0x18 ∷ 0x18
    ∷ 0x18 ∷ 0x00 ∷ 0x66 ∷ 0x66 ∷ 0x66 ∷ 0x66 ∷ 0x66 ∷ 0x66 ∷ 0x3E ∷ 0x00 ∷ 0x66 ∷ 0x66 ∷ 0x66
    ∷ 0x66 ∷ 0x24 ∷ 0x24 ∷ 0x18 ∷ 0x00 ∷ 0x63 ∷ 0x63 ∷ 0x63 ∷ 0x6B ∷ 0x7F ∷ 0x77 ∷ 0x63 ∷ 0x00
    ∷ 0x66 ∷ 0x66 ∷ 0x24 ∷ 0x18 ∷ 0x24 ∷ 0x66 ∷ 0x66 ∷ 0x00 ∷ []

abbrev pub glyphs_3 : List ℕ
glyphs_3 =
    0x66 ∷ 0x66 ∷ 0x24 ∷ 0x18 ∷ 0x18 ∷ 0x18 ∷ 0x18 ∷ 0x00 ∷ 0x7E ∷ 0x06 ∷ 0x0C ∷ 0x18 ∷ 0x30 ∷ 0x60
    ∷ 0x7E ∷ 0x00 ∷ 0x3C ∷ 0x20 ∷ 0x20 ∷ 0x20 ∷ 0x20 ∷ 0x20 ∷ 0x3C ∷ 0x00 ∷ 0x00 ∷ 0x40 ∷ 0x20
    ∷ 0x10 ∷ 0x08 ∷ 0x04 ∷ 0x02 ∷ 0x00 ∷ 0x3C ∷ 0x04 ∷ 0x04 ∷ 0x04 ∷ 0x04 ∷ 0x04 ∷ 0x3C ∷ 0x00
    ∷ 0x08 ∷ 0x14 ∷ 0x22 ∷ 0x00 ∷ 0x00 ∷ 0x00 ∷ 0x00 ∷ 0x00 ∷ 0x00 ∷ 0x00 ∷ 0x00 ∷ 0x00 ∷ 0x00
    ∷ 0x00 ∷ 0x7E ∷ 0x00 ∷ 0x18 ∷ 0x18 ∷ 0x08 ∷ 0x00 ∷ 0x00 ∷ 0x00 ∷ 0x00 ∷ 0x00 ∷ 0x00 ∷ 0x00
    ∷ 0x3C ∷ 0x02 ∷ 0x3E ∷ 0x46 ∷ 0x3B ∷ 0x00 ∷ 0x40 ∷ 0x40 ∷ 0x5C ∷ 0x62 ∷ 0x62 ∷ 0x62 ∷ 0x5C
    ∷ 0x00 ∷ 0x00 ∷ 0x00 ∷ 0x3C ∷ 0x42 ∷ 0x40 ∷ 0x42 ∷ 0x3C ∷ 0x00 ∷ 0x02 ∷ 0x02 ∷ 0x3A ∷ 0x46
    ∷ 0x46 ∷ 0x46 ∷ 0x3B ∷ 0x00 ∷ 0x00 ∷ 0x00 ∷ 0x3C ∷ 0x42 ∷ 0x7E ∷ 0x40 ∷ 0x3C ∷ 0x00 ∷ 0x1C
    ∷ 0x22 ∷ 0x20 ∷ 0x78 ∷ 0x20 ∷ 0x20 ∷ 0x20 ∷ 0x00 ∷ 0x00 ∷ 0x3A ∷ 0x46 ∷ 0x46 ∷ 0x3E ∷ 0x02
    ∷ 0x3C ∷ 0x00 ∷ 0x40 ∷ 0x40 ∷ 0x5C ∷ 0x62 ∷ 0x62 ∷ 0x62 ∷ 0x62 ∷ 0x00 ∷ 0x18 ∷ 0x00 ∷ 0x38
    ∷ 0x18 ∷ 0x18 ∷ 0x18 ∷ 0x3C ∷ 0x00 ∷ 0x08 ∷ 0x00 ∷ 0x18 ∷ 0x08 ∷ 0x08 ∷ 0x08 ∷ 0x68 ∷ 0x30
    ∷ 0x40 ∷ 0x40 ∷ 0x44 ∷ 0x48 ∷ 0x70 ∷ 0x48 ∷ 0x44 ∷ 0x00 ∷ []

abbrev pub glyphs_4 : List ℕ
glyphs_4 =
    0x38 ∷ 0x18 ∷ 0x18 ∷ 0x18 ∷ 0x18 ∷ 0x18 ∷ 0x3C ∷ 0x00 ∷ 0x00 ∷ 0x00 ∷ 0x66 ∷ 0x7F ∷ 0x5B ∷ 0x43
    ∷ 0x43 ∷ 0x00 ∷ 0x00 ∷ 0x00 ∷ 0x5C ∷ 0x62 ∷ 0x62 ∷ 0x62 ∷ 0x62 ∷ 0x00 ∷ 0x00 ∷ 0x00 ∷ 0x3C
    ∷ 0x42 ∷ 0x42 ∷ 0x42 ∷ 0x3C ∷ 0x00 ∷ 0x00 ∷ 0x00 ∷ 0x5C ∷ 0x62 ∷ 0x62 ∷ 0x7C ∷ 0x60 ∷ 0x60
    ∷ 0x00 ∷ 0x00 ∷ 0x3A ∷ 0x46 ∷ 0x46 ∷ 0x3E ∷ 0x02 ∷ 0x02 ∷ 0x00 ∷ 0x00 ∷ 0x5C ∷ 0x62 ∷ 0x60
    ∷ 0x60 ∷ 0x60 ∷ 0x00 ∷ 0x00 ∷ 0x00 ∷ 0x3E ∷ 0x40 ∷ 0x3C ∷ 0x02 ∷ 0x7C ∷ 0x00 ∷ 0x20 ∷ 0x20
    ∷ 0x78 ∷ 0x20 ∷ 0x20 ∷ 0x22 ∷ 0x1C ∷ 0x00 ∷ 0x00 ∷ 0x00 ∷ 0x46 ∷ 0x46 ∷ 0x46 ∷ 0x4A ∷ 0x36
    ∷ 0x00 ∷ 0x00 ∷ 0x00 ∷ 0x42 ∷ 0x42 ∷ 0x24 ∷ 0x24 ∷ 0x18 ∷ 0x00 ∷ 0x00 ∷ 0x00 ∷ 0x43 ∷ 0x4B
    ∷ 0x55 ∷ 0x55 ∷ 0x22 ∷ 0x00 ∷ 0x00 ∷ 0x00 ∷ 0x42 ∷ 0x24 ∷ 0x18 ∷ 0x24 ∷ 0x42 ∷ 0x00 ∷ 0x00
    ∷ 0x00 ∷ 0x46 ∷ 0x46 ∷ 0x3E ∷ 0x02 ∷ 0x3C ∷ 0x00 ∷ 0x00 ∷ 0x00 ∷ 0x7E ∷ 0x08 ∷ 0x10 ∷ 0x20
    ∷ 0x7E ∷ 0x00 ∷ 0x0C ∷ 0x18 ∷ 0x18 ∷ 0x30 ∷ 0x18 ∷ 0x18 ∷ 0x0C ∷ 0x00 ∷ 0x18 ∷ 0x18 ∷ 0x18
    ∷ 0x18 ∷ 0x18 ∷ 0x18 ∷ 0x18 ∷ 0x00 ∷ 0x30 ∷ 0x18 ∷ 0x18 ∷ 0x0C ∷ 0x18 ∷ 0x18 ∷ 0x30 ∷ 0x00
    ∷ 0x00 ∷ 0x00 ∷ 0x3B ∷ 0x6D ∷ 0x36 ∷ 0x00 ∷ 0x00 ∷ 0x00 ∷ []
