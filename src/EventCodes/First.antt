-- ===== src/EventCodes/First.antt =====
-- event_code_names.cc, lines 1 to 145.
use event_sequence_transform.Prelude.{List, [], ◌∷◌}
use event_sequence_transform.EventCodes.Directives.{Directive, declare, endif, ifdef}

unfoldable pub first_codes : List Directive
first_codes =
    ifdef "INPUT_PROP_MAX"
    ∷ declare "input_property" "INPUT_PROP" "POINTER"
    ∷ declare "input_property" "INPUT_PROP" "DIRECT"
    ∷ declare "input_property" "INPUT_PROP" "BUTTONPAD"
    ∷ declare "input_property" "INPUT_PROP" "SEMI_MT"
    ∷ ifdef "INPUT_PROP_TOPBUTTONPAD"
    ∷ declare "input_property" "INPUT_PROP" "TOPBUTTONPAD"
    ∷ endif
    ∷ ifdef "INPUT_PROP_POINTING_STICK"
    ∷ declare "input_property" "INPUT_PROP" "POINTING_STICK"
    ∷ endif
    ∷ ifdef "INPUT_PROP_ACCELEROMETER"
    ∷ declare "input_property" "INPUT_PROP" "ACCELEROMETER"
    ∷ endif
    ∷ declare "input_property" "INPUT_PROP" "MAX"
    ∷ declare "input_property" "INPUT_PROP" "CNT"
    ∷ endif
    ∷ declare "event_type" "EV" "SYN"
    ∷ declare "event_type" "EV" "KEY"
    ∷ declare "event_type" "EV" "REL"
    ∷ declare "event_type" "EV" "ABS"
    ∷ declare "event_type" "EV" "MSC"
    ∷ declare "event_type" "EV" "SW"
    ∷ declare "event_type" "EV" "LED"
    ∷ declare "event_type" "EV" "SND"
    ∷ declare "event_type" "EV" "REP"
    ∷ declare "event_type" "EV" "FF"
    ∷ declare "event_type" "EV" "PWR"
    ∷ declare "event_type" "EV" "FF_STATUS"
    ∷ declare "event_type" "EV" "MAX"
    ∷ declare "event_type" "EV" "CNT"
    ∷ declare "synchronization_event" "SYN" "REPORT"
    ∷ declare "synchronization_event" "SYN" "CONFIG"
    ∷ declare "synchronization_event" "SYN" "MT_REPORT"
    ∷ declare "synchronization_event" "SYN" "DROPPED"
    ∷ declare "synchronization_event" "SYN" "MAX"
    ∷ declare "synchronization_event" "SYN" "CNT"
    ∷ declare "key_event" "KEY" "RESERVED"
    ∷ declare "key_event" "KEY" "ESC"
    ∷ declare "key_event" "KEY" "1"
    ∷ declare "key_event" "KEY" "2"
    ∷ declare "key_event" "KEY" "3"
    ∷ declare "key_event" "KEY" "4"
    ∷ declare "key_event" "KEY" "5"
    ∷ declare "key_event" "KEY" "6"
    ∷ declare "key_event" "KEY" "7"
    ∷ declare "key_event" "KEY" "8"
    ∷ declare "key_event" "KEY" "9"
    ∷ declare "key_event" "KEY" "0"
    ∷ declare "key_event" "KEY" "MINUS"
    ∷ declare "key_event" "KEY" "EQUAL"
    ∷ declare "key_event" "KEY" "BACKSPACE"
    ∷ declare "key_event" "KEY" "TAB"
    ∷ declare "key_event" "KEY" "Q"
    ∷ declare "key_event" "KEY" "W"
    ∷ declare "key_event" "KEY" "E"
    ∷ declare "key_event" "KEY" "R"
    ∷ declare "key_event" "KEY" "T"
    ∷ declare "key_event" "KEY" "Y"
    ∷ declare "key_event" "KEY" "U"
    ∷ declare "key_event" "KEY" "I"
    ∷ declare "key_event" "KEY" "O"
    ∷ declare "key_event" "KEY" "P"
    ∷ declare "key_event" "KEY" "LEFTBRACE"
    ∷ declare "key_event" "KEY" "RIGHTBRACE"
    ∷ declare "key_event" "KEY" "ENTER"
    ∷ declare "key_event" "KEY" "LEFTCTRL"
    ∷ declare "key_event" "KEY" "A"
    ∷ declare "key_event" "KEY" "S"
    ∷ declare "key_event" "KEY" "D"
    ∷ declare "key_event" "KEY" "F"
    ∷ declare "key_event" "KEY" "G"
    ∷ declare "key_event" "KEY" "H"
    ∷ declare "key_event" "KEY" "J"
    ∷ declare "key_event" "KEY" "K"
    ∷ declare "key_event" "KEY" "L"
    ∷ declare "key_event" "KEY" "SEMICOLON"
    ∷ declare "key_event" "KEY" "APOSTROPHE"
    ∷ declare "key_event" "KEY" "GRAVE"
    ∷ declare "key_event" "KEY" "LEFTSHIFT"
    ∷ declare "key_event" "KEY" "BACKSLASH"
    ∷ declare "key_event" "KEY" "Z"
    ∷ declare "key_event" "KEY" "X"
    ∷ declare "key_event" "KEY" "C"
    ∷ declare "key_event" "KEY" "V"
    ∷ declare "key_event" "KEY" "B"
    ∷ declare "key_event" "KEY" "N"
    ∷ declare "key_event" "KEY" "M"
    ∷ declare "key_event" "KEY" "COMMA"
    ∷ declare "key_event" "KEY" "DOT"
    ∷ declare "key_event" "KEY" "SLASH"
    ∷ declare "key_event" "KEY" "RIGHTSHIFT"
    ∷ declare "key_event" "KEY" "KPASTERISK"
    ∷ declare "key_event" "KEY" "LEFTALT"
    ∷ declare "key_event" "KEY" "SPACE"
    ∷ declare "key_event" "KEY" "CAPSLOCK"
    ∷ declare "key_event" "KEY" "F1"
    ∷ declare "key_event" "KEY" "F2"
    ∷ declare "key_event" "KEY" "F3"
    ∷ declare "key_event" "KEY" "F4"
    ∷ declare "key_event" "KEY" "F5"
    ∷ declare "key_event" "KEY" "F6"
    ∷ declare "key_event" "KEY" "F7"
    ∷ declare "key_event" "KEY" "F8"
    ∷ declare "key_event" "KEY" "F9"
    ∷ declare "key_event" "KEY" "F10"
    ∷ declare "key_event" "KEY" "NUMLOCK"
    ∷ declare "key_event" "KEY" "SCROLLLOCK"
    ∷ declare "key_event" "KEY" "KP7"
    ∷ declare "key_event" "KEY" "KP8"
    ∷ declare "key_event" "KEY" "KP9"
    ∷ declare "key_event" "KEY" "KPMINUS"
    ∷ declare "key_event" "KEY" "KP4"
    ∷ declare "key_event" "KEY" "KP5"
    ∷ declare "key_event" "KEY" "KP6"
    ∷ declare "key_event" "KEY" "KPPLUS"
    ∷ declare "key_event" "KEY" "KP1"
    ∷ declare "key_event" "KEY" "KP2"
    ∷ declare "key_event" "KEY" "KP3"
    ∷ declare "key_event" "KEY" "KP0"
    ∷ declare "key_event" "KEY" "KPDOT"
    ∷ declare "key_event" "KEY" "ZENKAKUHANKAKU"
    ∷ declare "key_event" "KEY" "102ND"
    ∷ declare "key_event" "KEY" "F11"
    ∷ declare "key_event" "KEY" "F12"
    ∷ declare "key_event" "KEY" "RO"
    ∷ declare "key_event" "KEY" "KATAKANA"
    ∷ declare "key_event" "KEY" "HIRAGANA"
    ∷ declare "key_event" "KEY" "HENKAN"
    ∷ declare "key_event" "KEY" "KATAKANAHIRAGANA"
    ∷ declare "key_event" "KEY" "MUHENKAN"
    ∷ declare "key_event" "KEY" "KPJPCOMMA"
    ∷ declare "key_event" "KEY" "KPENTER"
    ∷ declare "key_event" "KEY" "RIGHTCTRL"
    ∷ declare "key_event" "KEY" "KPSLASH"
    ∷ declare "key_event" "KEY" "SYSRQ"
    ∷ declare "key_event" "KEY" "RIGHTALT"
    ∷ declare "key_event" "KEY" "LINEFEED"
    ∷ []
