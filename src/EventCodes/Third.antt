-- ===== src/EventCodes/Third.antt =====
-- event_code_names.cc, lines 291 to 435.
use event_sequence_transform.Prelude.{List, [], ◌∷◌}
use event_sequence_transform.EventCodes.Directives.{Directive, declare, endif, ifdef}

unfoldable pub third_codes : List Directive
third_codes =
    declare "key_event" "KEY" "BLUETOOTH"
    ∷ ifdef "KEY_WLAN"
    ∷ declare "key_event" "KEY" "WLAN"
    ∷ endif
    ∷ ifdef "KEY_UWB"
    ∷ declare "key_event" "KEY" "UWB"
    ∷ endif
    ∷ declare "key_event" "KEY" "UNKNOWN"
    ∷ ifdef "KEY_VIDEO_NEXT"
    ∷ declare "key_event" "KEY" "VIDEO_NEXT"
    ∷ endif
    ∷ ifdef "KEY_VIDEO_PREV"
    ∷ declare "key_event" "KEY" "VIDEO_PREV"
    ∷ endif
    ∷ declare "key_event" "KEY" "BRIGHTNESS_CYCLE"
    ∷ declare "key_event" "KEY" "BRIGHTNESS_AUTO"
    ∷ declare "key_event" "KEY" "BRIGHTNESS_ZERO"
    ∷ declare "key_event" "KEY" "DISPLAY_OFF"
    ∷ declare "key_event" "KEY" "WWAN"
    ∷ ifdef "KEY_WIMAX"
    ∷ declare "key_event" "KEY" "WIMAX"
    ∷ endif
    ∷ ifdef "KEY_RFKILL"
    ∷ declare "key_event" "KEY" "RFKILL"
    ∷ endif
    ∷ ifdef "KEY_MICMUTE"
    ∷ declare "key_event" "KEY" "MICMUTE"
    ∷ endif
    ∷ declare "button_event" "BTN" "MISC"
    ∷ declare "button_event" "BTN" "0"
    ∷ declare "button_event" "BTN" "1"
    ∷ declare "button_event" "BTN" "2"
    ∷ declare "button_event" "BTN" "3"
    ∷ declare "button_event" "BTN" "4"
    ∷ declare "button_event" "BTN" "5"
    ∷ declare "button_event" "BTN" "6"
    ∷ declare "button_event" "BTN" "7"
    ∷ declare "button_event" "BTN" "8"
    ∷ declare "button_event" "BTN" "9"
    ∷ declare "button_event" "BTN" "MOUSE"
    ∷ declare "button_event" "BTN" "LEFT"
    ∷ declare "button_event" "BTN" "RIGHT"
    ∷ declare "button_event" "BTN" "MIDDLE"
    ∷ declare "button_event" "BTN" "SIDE"
    ∷ declare "button_event" "BTN" "EXTRA"
    ∷ declare "button_event" "BTN" "FORWARD"
    ∷ declare "button_event" "BTN" "BACK"
    ∷ declare "button_event" "BTN" "TASK"
    ∷ declare "button_event" "BTN" "JOYSTICK"
    ∷ declare "button_event" "BTN" "TRIGGER"
    ∷ declare "button_event" "BTN" "THUMB"
    ∷ declare "button_event" "BTN" "THUMB2"
    ∷ declare "button_event" "BTN" "TOP"
    ∷ declare "button_event" "BTN" "TOP2"
    ∷ declare "button_event" "BTN" "PINKIE"
    ∷ declare "button_event" "BTN" "BASE"
    ∷ declare "button_event" "BTN" "BASE2"
    ∷ declare "button_event" "BTN" "BASE3"
    ∷ declare "button_event" "BTN" "BASE4"
    ∷ declare "button_event" "BTN" "BASE5"
    ∷ declare "button_event" "BTN" "BASE6"
    ∷ declare "button_event" "BTN" "DEAD"
    ∷ declare "button_event" "BTN" "GAMEPAD"
    ∷ ifdef "BTN_SOUTH"
    ∷ declare "button_event" "BTN" "SOUTH"
    ∷ declare "button_event" "BTN" "EAST"
    ∷ declare "button_event" "BTN" "NORTH"
    ∷ declare "button_event" "BTN" "WEST"
    ∷ endif
    ∷ declare "button_event" "BTN" "A"
    ∷ declare "button_event" "BTN" "B"
    ∷ declare "button_event" "BTN" "C"
    ∷ declare "button_event" "BTN" "X"
    ∷ declare "button_event" "BTN" "Y"
    ∷ declare "button_event" "BTN" "Z"
    ∷ declare "button_event" "BTN" "TL"
    ∷ declare "button_event" "BTN" "TR"
    ∷ declare "button_event" "BTN" "TL2"
    ∷ declare "button_event" "BTN" "TR2"
    ∷ declare "button_event" "BTN" "SELECT"
    ∷ declare "button_event" "BTN" "START"
    ∷ declare "button_event" "BTN" "MODE"
    ∷ declare "button_event" "BTN" "THUMBL"
    ∷ declare "button_event" "BTN" "THUMBR"
    ∷ declare "button_event" "BTN" "DIGI"
    ∷ declare "button_event" "BTN" "TOOL_PEN"
    ∷ declare "button_event" "BTN" "TOOL_RUBBER"
    ∷ declare "button_event" "BTN" "TOOL_BRUSH"
    ∷ declare "button_event" "BTN" "TOOL_PENCIL"
    ∷ declare "button_event" "BTN" "TOOL_AIRBRUSH"
    ∷ declare "button_event" "BTN" "TOOL_FINGER"
    ∷ declare "button_event" "BTN" "TOOL_MOUSE"
    ∷ declare "button_event" "BTN" "TOOL_LENS"
    ∷ ifdef "BTN_TOOL_QUINTTAP"
    ∷ declare "button_event" "BTN" "TOOL_QUINTTAP"
    ∷ endif
    ∷ ifdef "BTN_STYLUS3"
    ∷ declare "button_event" "BTN" "STYLUS3"
    ∷ endif
    ∷ declare "button_event" "BTN" "TOUCH"
    ∷ declare "button_event" "BTN" "STYLUS"
    ∷ declare "button_event" "BTN" "STYLUS2"
    ∷ declare "button_event" "BTN" "TOOL_DOUBLETAP"
    ∷ declare "button_event" "BTN" "TOOL_TRIPLETAP"
    ∷ ifdef "BTN_TOOL_QUADTAP"
    ∷ declare "button_event" "BTN" "TOOL_QUADTAP"
    ∷ endif
    ∷ declare "button_event" "BTN" "WHEEL"
    ∷ declare "button_event" "BTN" "GEAR_DOWN"
    ∷ declare "button_event" "BTN" "GEAR_UP"
    ∷ declare "key_event" "KEY" "OK"
    ∷ declare "key_event" "KEY" "SELECT"
    ∷ declare "key_event" "KEY" "GOTO"
    ∷ declare "key_event" "KEY" "CLEAR"
    ∷ declare "key_event" "KEY" "POWER2"
    ∷ declare "key_event" "KEY" "OPTION"
    ∷ declare "key_event" "KEY" "INFO"
    ∷ declare "key_event" "KEY" "TIME"
    ∷ declare "key_event" "KEY" "VENDOR"
    ∷ declare "key_event" "KEY" "ARCHIVE"
    ∷ declare "key_event" "KEY" "PROGRAM"
    ∷ declare "key_event" "KEY" "CHANNEL"
    ∷ declare "key_event" "KEY" "FAVORITES"
    ∷ declare "key_event" "KEY" "EPG"
    ∷ declare "key_event" "KEY" "PVR"
    ∷ declare "key_event" "KEY" "MHP"
    ∷ declare "key_event" "KEY" "LANGUAGE"
    ∷ declare "key_event" "KEY" "TITLE"
    ∷ declare "key_event" "KEY" "SUBTITLE"
    ∷ declare "key_event" "KEY" "ANGLE"
    ∷ declare "key_event" "KEY" "FULL_SCREEN"
    ∷ declare "key_event" "KEY" "ZOOM"
    ∷ declare "key_event" "KEY" "MODE"
    ∷ declare "key_event" "KEY" "KEYBOARD"
    ∷ []
