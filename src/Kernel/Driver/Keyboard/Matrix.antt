-- ===== src/Kernel/Driver/Keyboard/Matrix.antt =====
-- The matrices of kernel/driver/ps2.c: the code of a key at its scancode, without and with SHIFT.
-- In the first the comment behind the backslash ends in a backslash, so that the line below it, with
-- 0x0000, belongs to the comment and is no entry.
use fern_night.Prelude.{ℕ, List, [], ◌∷◌}

abbrev pub driver_ps2_keyboard_matrix_low : List ℕ
driver_ps2_keyboard_matrix_low =
    0x0000 ∷ 0x001B ∷ 0x0031 ∷ 0x0032 ∷ 0x0033 ∷ 0x0034 ∷ 0x0035 ∷ 0x0036 ∷ 0x0037 ∷ 0x0038 ∷ 0x0039
    ∷ 0x0030 ∷ 0x002D ∷ 0x003D ∷ 0x0008 ∷ 0x0009 ∷ 0x0071 ∷ 0x0077 ∷ 0x0065 ∷ 0x0072 ∷ 0x0074
    ∷ 0x0079 ∷ 0x0075 ∷ 0x0069 ∷ 0x006F ∷ 0x0070 ∷ 0x005B ∷ 0x005D ∷ 0x000D ∷ 0x001D ∷ 0x0061
    ∷ 0x0073 ∷ 0x0064 ∷ 0x0066 ∷ 0x0067 ∷ 0x0068 ∷ 0x006A ∷ 0x006B ∷ 0x006C ∷ 0x003B ∷ 0x0027
    ∷ 0x0060 ∷ 0xE02A ∷ 0x005C ∷ 0x007A ∷ 0x0078 ∷ 0x0063 ∷ 0x0076 ∷ 0x0062 ∷ 0x006E ∷ 0x006D
    ∷ 0x002C ∷ 0x002E ∷ 0x002F ∷ 0xE036 ∷ 0xE037 ∷ 0xE038 ∷ 0x0020 ∷ 0xE03A ∷ 0xE03B ∷ 0xE03C
    ∷ 0xE03D ∷ 0xE03E ∷ 0xE03F ∷ 0xE040 ∷ 0xE041 ∷ 0xE042 ∷ 0xE043 ∷ 0xE044 ∷ 0xE045 ∷ 0xE046
    ∷ 0x0000 ∷ 0x0000 ∷ 0x0000 ∷ 0xE047 ∷ 0xE048 ∷ 0xE049 ∷ 0xE04A ∷ 0xE14B ∷ 0xE04C ∷ 0xE14D
    ∷ 0xE04E ∷ 0xE14F ∷ 0xE150 ∷ 0xE151 ∷ 0xE152 ∷ 0xE153 ∷ 0x0000 ∷ 0x0000 ∷ 0x0000 ∷ 0x0000
    ∷ 0xE057 ∷ 0xE158 ∷ []

abbrev pub driver_ps2_keyboard_matrix_high : List ℕ
driver_ps2_keyboard_matrix_high =
    0x0000 ∷ 0x001B ∷ 0x0021 ∷ 0x0040 ∷ 0x0023 ∷ 0x0024 ∷ 0x0025 ∷ 0x005E ∷ 0x0026 ∷ 0x002A ∷ 0x0028
    ∷ 0x0029 ∷ 0x005F ∷ 0x002B ∷ 0x0008 ∷ 0x0009 ∷ 0x0051 ∷ 0x0057 ∷ 0x0045 ∷ 0x0052 ∷ 0x0054
    ∷ 0x0059 ∷ 0x0055 ∷ 0x0049 ∷ 0x004F ∷ 0x0050 ∷ 0x007B ∷ 0x007D ∷ 0x000D ∷ 0x001D ∷ 0x0041
    ∷ 0x0053 ∷ 0x0044 ∷ 0x0046 ∷ 0x0047 ∷ 0x0048 ∷ 0x004A ∷ 0x004B ∷ 0x004C ∷ 0x003A ∷ 0x0022
    ∷ 0x007E ∷ 0xE02A ∷ 0x007C ∷ 0x005A ∷ 0x0058 ∷ 0x0043 ∷ 0x0056 ∷ 0x0042 ∷ 0x004E ∷ 0x004D
    ∷ 0x003C ∷ 0x003E ∷ 0x003F ∷ 0xE036 ∷ 0xE037 ∷ 0xE038 ∷ 0x0020 ∷ 0xE03A ∷ 0xE03B ∷ 0xE03C
    ∷ 0xE03D ∷ 0xE03E ∷ 0xE03F ∷ 0xE040 ∷ 0xE041 ∷ 0xE042 ∷ 0xE043 ∷ 0xE044 ∷ 0xE045 ∷ 0xE046
    ∷ 0x0000 ∷ 0x0000 ∷ 0x0000 ∷ 0xE047 ∷ 0xE048 ∷ 0xE049 ∷ 0xE04A ∷ 0xE14B ∷ 0xE04C ∷ 0xE14D
    ∷ 0xE04E ∷ 0xE14F ∷ 0xE150 ∷ 0xE151 ∷ 0xE152 ∷ 0xE153 ∷ 0x0000 ∷ 0x0000 ∷ 0x0000 ∷ 0x0000
    ∷ 0xE057 ∷ 0xE158 ∷ []
