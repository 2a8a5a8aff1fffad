-- ===== src/Const.antt =====
-- custom_components/skywatch/const.py, and how __init__.py falls back on its defaults.
use ha_skywatch.Prelude.{Option, none, some, List, [], ◌∷◌, Text, codes}

abbrev pub default_helo_codes : List Text
default_helo_codes =
    codes "A002"
    ∷ codes "A109"
    ∷ codes "A119"
    ∷ codes "A129"
    ∷ codes "A139"
    ∷ codes "A149"
    ∷ codes "A169"
    ∷ codes "A189"
    ∷ codes "ALH"
    ∷ codes "ALO2"
    ∷ codes "ALO3"
    ∷ codes "AS32"
    ∷ codes "AS3B"
    ∷ codes "AS50"
    ∷ codes "AS55"
    ∷ codes "AS65"
    ∷ codes "B06"
    ∷ codes "B06T"
    ∷ codes "B105"
    ∷ codes "B212"
    ∷ codes "B222"
    ∷ codes "B230"
    ∷ codes "B407"
    ∷ codes "B412"
    ∷ codes "B427"
    ∷ codes "B429"
    ∷ codes "B430"
    ∷ codes "B47G"
    ∷ codes "B47J"
    ∷ codes "BK17"
    ∷ codes "BSTP"
    ∷ codes "EC20"
    ∷ codes "EC25"
    ∷ codes "EC30"
    ∷ codes "EC35"
    ∷ codes "EC45"
    ∷ codes "EC55"
    ∷ codes "EC75"
    ∷ codes "EH10"
    ∷ codes "EXPL"
    ∷ codes "FREL"
    ∷ codes "GAZL"
    ∷ codes "H2"
    ∷ codes "H269"
    ∷ codes "H47"
    ∷ codes "H500"
    ∷ codes "H53"
    ∷ codes "H53S"
    ∷ codes "H60"
    ∷ codes "H64"
    ∷ codes "HUCO"
    ∷ codes "KA32"
    ∷ codes "KA50"
    ∷ codes "KA52"
    ∷ codes "KMAX"
    ∷ codes "LAMA"
    ∷ codes "LYNX"
    ∷ codes "MI26"
    ∷ codes "MI38"
    ∷ codes "MI8"
    ∷ codes "NH90"
    ∷ codes "OH1"
    ∷ codes "PUMA"
    ∷ codes "R22"
    ∷ codes "R44"
    ∷ codes "R66"
    ∷ codes "RVAL"
    ∷ codes "S61"
    ∷ codes "S61R"
    ∷ codes "S76"
    ∷ codes "S92"
    ∷ codes "SUCO"
    ∷ codes "TIGR"
    ∷ codes "UH1"
    ∷ codes "UH1Y"
    ∷ codes "V22"
    ∷ codes "B505"
    ∷ codes "G2CA"
    ∷ codes "GYRO"
    ∷ codes "H160"
    ∷ codes "CDUS"
    ∷ codes "MM24"
    ∷ []

abbrev pub default_military_codes : List Text
default_military_codes =
    codes "C130"
    ∷ codes "C30J"
    ∷ codes "CC30"
    ∷ codes "K35R"
    ∷ codes "KC35"
    ∷ codes "KC10"
    ∷ codes "KC30"
    ∷ codes "KC46"
    ∷ codes "C17"
    ∷ codes "C5"
    ∷ codes "C5M"
    ∷ codes "C40"
    ∷ codes "C32"
    ∷ codes "C20"
    ∷ codes "C21"
    ∷ codes "P3"
    ∷ codes "P8"
    ∷ codes "CP14"
    ∷ codes "CT44"
    ∷ codes "F15"
    ∷ codes "F16"
    ∷ codes "F18"
    ∷ codes "F22"
    ∷ codes "F35"
    ∷ codes "FA18"
    ∷ codes "A10"
    ∷ codes "A4"
    ∷ codes "B1"
    ∷ codes "B2"
    ∷ codes "B52"
    ∷ codes "B58"
    ∷ codes "U2"
    ∷ codes "U28"
    ∷ codes "RC35"
    ∷ codes "E3CF"
    ∷ codes "E3TF"
    ∷ codes "E4"
    ∷ codes "RQ4"
    ∷ codes "RQ7"
    ∷ codes "MQ1"
    ∷ codes "MQ9"
    ∷ codes "T6"
    ∷ codes "T38"
    ∷ codes "T44"
    ∷ codes "T45"
    ∷ codes "T1"
    ∷ codes "T2"
    ∷ codes "AN12"
    ∷ codes "AN22"
    ∷ codes "AN70"
    ∷ codes "IL76"
    ∷ codes "IL96"
    ∷ codes "TU16"
    ∷ codes "TU22"
    ∷ codes "TU95"
    ∷ []

-- `tuple(cfg.get(…) or DEFAULT)`
abbrev pub codes_or : List Text → Option (List Text) → List Text
codes_or default none = default
codes_or default (some []) = default
codes_or default (some (c ∷ known)) = c ∷ known

unfoldable pub helo_codes : Option (List Text) → List Text
helo_codes = codes_or default_helo_codes

unfoldable pub military_codes : Option (List Text) → List Text
military_codes = codes_or default_military_codes
