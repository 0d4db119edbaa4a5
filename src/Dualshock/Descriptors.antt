-- ===== src/Dualshock/Descriptors.antt =====
-- The descriptors and feature reports of the emulated gamepad: the constants of
-- daemon/src/gamepad/dualshock/mod.rs and of its usbip.rs.
use steam_controller_daemon.Prelude.{ℕ, List, [], ◌∷◌}

abbrev pub report_descriptor : List ℕ
report_descriptor =
    5 ∷ 1 ∷ 9 ∷ 5 ∷ 161 ∷ 1 ∷ 133 ∷ 1 ∷ 9 ∷ 48 ∷ 9 ∷ 49 ∷ 9 ∷ 50 ∷ 9 ∷ 53 ∷ 21 ∷ 0 ∷ 38 ∷ 255 ∷ 0
    ∷ 117 ∷ 8 ∷ 149 ∷ 4 ∷ 129 ∷ 2 ∷ 9 ∷ 57 ∷ 21 ∷ 0 ∷ 37 ∷ 7 ∷ 53 ∷ 0 ∷ 70 ∷ 59 ∷ 1 ∷ 101 ∷ 20 ∷ 117
    ∷ 4 ∷ 149 ∷ 1 ∷ 129 ∷ 66 ∷ 101 ∷ 0 ∷ 5 ∷ 9 ∷ 25 ∷ 1 ∷ 41 ∷ 14 ∷ 21 ∷ 0 ∷ 37 ∷ 1 ∷ 117 ∷ 1 ∷ 149
    ∷ 14 ∷ 129 ∷ 2 ∷ 6 ∷ 0 ∷ 255 ∷ 9 ∷ 32 ∷ 117 ∷ 6 ∷ 149 ∷ 1 ∷ 21 ∷ 0 ∷ 37 ∷ 127 ∷ 129 ∷ 2 ∷ 5 ∷ 1
    ∷ 9 ∷ 51 ∷ 9 ∷ 52 ∷ 21 ∷ 0 ∷ 38 ∷ 255 ∷ 0 ∷ 117 ∷ 8 ∷ 149 ∷ 2 ∷ 129 ∷ 2 ∷ 6 ∷ 0 ∷ 255 ∷ 9 ∷ 33
    ∷ 149 ∷ 54 ∷ 129 ∷ 2 ∷ 133 ∷ 5 ∷ 9 ∷ 34 ∷ 149 ∷ 31 ∷ 145 ∷ 2 ∷ 133 ∷ 4 ∷ 9 ∷ 35 ∷ 149 ∷ 36 ∷ 177
    ∷ 2 ∷ 133 ∷ 2 ∷ 9 ∷ 36 ∷ 149 ∷ 36 ∷ 177 ∷ 2 ∷ 133 ∷ 8 ∷ 9 ∷ 37 ∷ 149 ∷ 3 ∷ 177 ∷ 2 ∷ 133 ∷ 16
    ∷ 9 ∷ 38 ∷ 149 ∷ 4 ∷ 177 ∷ 2 ∷ 133 ∷ 17 ∷ 9 ∷ 39 ∷ 149 ∷ 2 ∷ 177 ∷ 2 ∷ 133 ∷ 18 ∷ 6 ∷ 2 ∷ 255
    ∷ 9 ∷ 33 ∷ 149 ∷ 15 ∷ 177 ∷ 2 ∷ 133 ∷ 19 ∷ 9 ∷ 34 ∷ 149 ∷ 22 ∷ 177 ∷ 2 ∷ 133 ∷ 20 ∷ 6 ∷ 5 ∷ 255
    ∷ 9 ∷ 32 ∷ 149 ∷ 16 ∷ 177 ∷ 2 ∷ 133 ∷ 21 ∷ 9 ∷ 33 ∷ 149 ∷ 44 ∷ 177 ∷ 2 ∷ 6 ∷ 128 ∷ 255 ∷ 133
    ∷ 128 ∷ 9 ∷ 32 ∷ 149 ∷ 6 ∷ 177 ∷ 2 ∷ 133 ∷ 129 ∷ 9 ∷ 33 ∷ 149 ∷ 6 ∷ 177 ∷ 2 ∷ 133 ∷ 130 ∷ 9 ∷ 34
    ∷ 149 ∷ 5 ∷ 177 ∷ 2 ∷ 133 ∷ 131 ∷ 9 ∷ 35 ∷ 149 ∷ 1 ∷ 177 ∷ 2 ∷ 133 ∷ 132 ∷ 9 ∷ 36 ∷ 149 ∷ 4
    ∷ 177 ∷ 2 ∷ 133 ∷ 133 ∷ 9 ∷ 37 ∷ 149 ∷ 6 ∷ 177 ∷ 2 ∷ 133 ∷ 134 ∷ 9 ∷ 38 ∷ 149 ∷ 6 ∷ 177 ∷ 2
    ∷ 133 ∷ 135 ∷ 9 ∷ 39 ∷ 149 ∷ 35 ∷ 177 ∷ 2 ∷ 133 ∷ 136 ∷ 9 ∷ 40 ∷ 149 ∷ 63 ∷ 177 ∷ 2 ∷ 133 ∷ 137
    ∷ 9 ∷ 41 ∷ 149 ∷ 2 ∷ 177 ∷ 2 ∷ 133 ∷ 144 ∷ 9 ∷ 48 ∷ 149 ∷ 5 ∷ 177 ∷ 2 ∷ 133 ∷ 145 ∷ 9 ∷ 49 ∷ 149
    ∷ 3 ∷ 177 ∷ 2 ∷ 133 ∷ 146 ∷ 9 ∷ 50 ∷ 149 ∷ 3 ∷ 177 ∷ 2 ∷ 133 ∷ 147 ∷ 9 ∷ 51 ∷ 149 ∷ 12 ∷ 177 ∷ 2
    ∷ 133 ∷ 148 ∷ 9 ∷ 52 ∷ 149 ∷ 63 ∷ 177 ∷ 2 ∷ 133 ∷ 160 ∷ 9 ∷ 64 ∷ 149 ∷ 6 ∷ 177 ∷ 2 ∷ 133 ∷ 161
    ∷ 9 ∷ 65 ∷ 149 ∷ 1 ∷ 177 ∷ 2 ∷ 133 ∷ 162 ∷ 9 ∷ 66 ∷ 149 ∷ 1 ∷ 177 ∷ 2 ∷ 133 ∷ 163 ∷ 9 ∷ 67 ∷ 149
    ∷ 48 ∷ 177 ∷ 2 ∷ 133 ∷ 164 ∷ 9 ∷ 68 ∷ 149 ∷ 13 ∷ 177 ∷ 2 ∷ 133 ∷ 240 ∷ 9 ∷ 71 ∷ 149 ∷ 63 ∷ 177
    ∷ 2 ∷ 133 ∷ 241 ∷ 9 ∷ 72 ∷ 149 ∷ 63 ∷ 177 ∷ 2 ∷ 133 ∷ 242 ∷ 9 ∷ 73 ∷ 149 ∷ 15 ∷ 177 ∷ 2 ∷ 133
    ∷ 167 ∷ 9 ∷ 74 ∷ 149 ∷ 1 ∷ 177 ∷ 2 ∷ 133 ∷ 168 ∷ 9 ∷ 75 ∷ 149 ∷ 1 ∷ 177 ∷ 2 ∷ 133 ∷ 169 ∷ 9 ∷ 76
    ∷ 149 ∷ 8 ∷ 177 ∷ 2 ∷ 133 ∷ 170 ∷ 9 ∷ 78 ∷ 149 ∷ 1 ∷ 177 ∷ 2 ∷ 133 ∷ 171 ∷ 9 ∷ 79 ∷ 149 ∷ 57
    ∷ 177 ∷ 2 ∷ 133 ∷ 172 ∷ 9 ∷ 80 ∷ 149 ∷ 57 ∷ 177 ∷ 2 ∷ 133 ∷ 173 ∷ 9 ∷ 81 ∷ 149 ∷ 11 ∷ 177 ∷ 2
    ∷ 133 ∷ 174 ∷ 9 ∷ 82 ∷ 149 ∷ 1 ∷ 177 ∷ 2 ∷ 133 ∷ 175 ∷ 9 ∷ 83 ∷ 149 ∷ 2 ∷ 177 ∷ 2 ∷ 133 ∷ 176
    ∷ 9 ∷ 84 ∷ 149 ∷ 63 ∷ 177 ∷ 2 ∷ 133 ∷ 224 ∷ 9 ∷ 87 ∷ 149 ∷ 2 ∷ 177 ∷ 2 ∷ 133 ∷ 179 ∷ 9 ∷ 85
    ∷ 149 ∷ 63 ∷ 177 ∷ 2 ∷ 133 ∷ 180 ∷ 9 ∷ 85 ∷ 149 ∷ 63 ∷ 177 ∷ 2 ∷ 133 ∷ 181 ∷ 9 ∷ 86 ∷ 149 ∷ 63
    ∷ 177 ∷ 2 ∷ 133 ∷ 208 ∷ 9 ∷ 88 ∷ 149 ∷ 63 ∷ 177 ∷ 2 ∷ 133 ∷ 212 ∷ 9 ∷ 89 ∷ 149 ∷ 63 ∷ 177 ∷ 2
    ∷ 192 ∷ []

abbrev pub calibration : List ℕ
calibration =
    2 ∷ 30 ∷ 0 ∷ 5 ∷ 0 ∷ 226 ∷ 255 ∷ 242 ∷ 34 ∷ 79 ∷ 221 ∷ 190 ∷ 34 ∷ 77 ∷ 221 ∷ 141 ∷ 34 ∷ 57 ∷ 221
    ∷ 28 ∷ 2 ∷ 28 ∷ 2 ∷ 227 ∷ 31 ∷ 139 ∷ 223 ∷ 140 ∷ 30 ∷ 180 ∷ 222 ∷ 48 ∷ 32 ∷ 113 ∷ 224 ∷ 16 ∷ 0
    ∷ []

abbrev pub pairing : List ℕ
pairing = 18 ∷ 139 ∷ 9 ∷ 7 ∷ 109 ∷ 102 ∷ 28 ∷ 0 ∷ 0 ∷ 0 ∷ 0 ∷ 0 ∷ 0 ∷ 0 ∷ 0 ∷ 0 ∷ []

abbrev pub firmware : List ℕ
firmware =
    163 ∷ 65 ∷ 112 ∷ 114 ∷ 32 ∷ 32 ∷ 56 ∷ 32 ∷ 50 ∷ 48 ∷ 49 ∷ 52 ∷ 0 ∷ 0 ∷ 0 ∷ 0 ∷ 0 ∷ 48 ∷ 57 ∷ 58
    ∷ 52 ∷ 54 ∷ 58 ∷ 48 ∷ 54 ∷ 0 ∷ 0 ∷ 0 ∷ 0 ∷ 0 ∷ 0 ∷ 0 ∷ 0 ∷ 0 ∷ 1 ∷ 0 ∷ 67 ∷ 3 ∷ 0 ∷ 0 ∷ 0 ∷ 81
    ∷ 0 ∷ 5 ∷ 0 ∷ 0 ∷ 128 ∷ 3 ∷ 0 ∷ []

abbrev pub device_descriptor : List ℕ
device_descriptor = 18 ∷ 1 ∷ 0 ∷ 2 ∷ 0 ∷ 0 ∷ 0 ∷ 64 ∷ 76 ∷ 5 ∷ 204 ∷ 9 ∷ 0 ∷ 1 ∷ 1 ∷ 2 ∷ 0 ∷ 1 ∷ []

abbrev pub configuration_descriptor : List ℕ
configuration_descriptor =
    9 ∷ 2 ∷ 41 ∷ 0 ∷ 1 ∷ 1 ∷ 0 ∷ 192 ∷ 250 ∷ 9 ∷ 4 ∷ 0 ∷ 0 ∷ 2 ∷ 3 ∷ 0 ∷ 0 ∷ 0 ∷ 9 ∷ 33 ∷ 17 ∷ 1 ∷ 0
    ∷ 1 ∷ 34 ∷ 251 ∷ 1 ∷ 7 ∷ 5 ∷ 132 ∷ 3 ∷ 64 ∷ 0 ∷ 5 ∷ 7 ∷ 5 ∷ 3 ∷ 3 ∷ 64 ∷ 0 ∷ 5 ∷ []
