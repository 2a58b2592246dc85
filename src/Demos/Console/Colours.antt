-- ===== src/Demos/Console/Colours.antt =====
-- The colours and symbols of examples/visual_demo.c.
use Prim.Native.String.{String}

abbrev pub reset : String
reset = "\u{1b}[0m"

abbrev pub bold : String
bold = "\u{1b}[1m"

abbrev pub dim : String
dim = "\u{1b}[2m"

abbrev pub red : String
red = "\u{1b}[31m"

abbrev pub yellow : String
yellow = "\u{1b}[33m"

abbrev pub cyan : String
cyan = "\u{1b}[36m"

abbrev pub white : String
white = "\u{1b}[37m"

abbrev pub bright_green : String
bright_green = "\u{1b}[92m"

abbrev pub bright_yellow : String
bright_yellow = "\u{1b}[93m"

abbrev pub bright_magenta : String
bright_magenta = "\u{1b}[95m"

abbrev pub bright_cyan : String
bright_cyan = "\u{1b}[96m"

abbrev pub bright_white : String
bright_white = "\u{1b}[97m"

abbrev pub symbol_check : String
symbol_check = "✓"
