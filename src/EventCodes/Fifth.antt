-- ===== src/EventCodes/Fifth.antt =====
-- event_code_names.cc, lines 581 to 725.
use event_sequence_transform.Prelude.{List, [], ◌∷◌}
use event_sequence_transform.EventCodes.Directives.{Directive, declare, endif, ifdef}

unfoldable pub fifth_codes : List Directive
fifth_codes =
    declare "key_event" "KEY" "NUMERIC_1"
    ∷ declare "key_event" "KEY" "NUMERIC_2"
    ∷ declare "key_event" "KEY" "NUMERIC_3"
    ∷ declare "key_event" "KEY" "NUMERIC_4"
    ∷ declare "key_event" "KEY" "NUMERIC_5"
    ∷ declare "key_event" "KEY" "NUMERIC_6"
    ∷ declare "key_event" "KEY" "NUMERIC_7"
    ∷ declare "key_event" "KEY" "NUMERIC_8"
    ∷ declare "key_event" "KEY" "NUMERIC_9"
    ∷ declare "key_event" "KEY" "NUMERIC_STAR"
    ∷ declare "key_event" "KEY" "NUMERIC_POUND"
    ∷ endif
    ∷ ifdef "KEY_NUMERIC_A"
    ∷ declare "key_event" "KEY" "NUMERIC_A"
    ∷ declare "key_event" "KEY" "NUMERIC_B"
    ∷ declare "key_event" "KEY" "NUMERIC_C"
    ∷ declare "key_event" "KEY" "NUMERIC_D"
    ∷ endif
    ∷ ifdef "KEY_CAMERA_FOCUS"
    ∷ declare "key_event" "KEY" "CAMERA_FOCUS"
    ∷ endif
    ∷ ifdef "KEY_WPS_BUTTON"
    ∷ declare "key_event" "KEY" "WPS_BUTTON"
    ∷ endif
    ∷ ifdef "KEY_TOUCHPAD_TOGGLE"
    ∷ declare "key_event" "KEY" "TOUCHPAD_TOGGLE"
    ∷ declare "key_event" "KEY" "TOUCHPAD_ON"
    ∷ declare "key_event" "KEY" "TOUCHPAD_OFF"
    ∷ endif
    ∷ ifdef "KEY_CAMERA_ZOOMIN"
    ∷ declare "key_event" "KEY" "CAMERA_ZOOMIN"
    ∷ declare "key_event" "KEY" "CAMERA_ZOOMOUT"
    ∷ declare "key_event" "KEY" "CAMERA_UP"
    ∷ declare "key_event" "KEY" "CAMERA_DOWN"
    ∷ declare "key_event" "KEY" "CAMERA_LEFT"
    ∷ declare "key_event" "KEY" "CAMERA_RIGHT"
    ∷ endif
    ∷ ifdef "KEY_ATTENDANT_ON"
    ∷ declare "key_event" "KEY" "ATTENDANT_ON"
    ∷ declare "key_event" "KEY" "ATTENDANT_OFF"
    ∷ declare "key_event" "KEY" "ATTENDANT_TOGGLE"
    ∷ declare "key_event" "KEY" "LIGHTS_TOGGLE"
    ∷ endif
    ∷ ifdef "BTN_DPAD_UP"
    ∷ declare "button_event" "BTN" "DPAD_UP"
    ∷ declare "button_event" "BTN" "DPAD_DOWN"
    ∷ declare "button_event" "BTN" "DPAD_LEFT"
    ∷ declare "button_event" "BTN" "DPAD_RIGHT"
    ∷ endif
    ∷ ifdef "KEY_ALS_TOGGLE"
    ∷ declare "key_event" "KEY" "ALS_TOGGLE"
    ∷ endif
    ∷ ifdef "KEY_ROTATE_LOCK_TOGGLE"
    ∷ declare "key_event" "KEY" "ROTATE_LOCK_TOGGLE"
    ∷ endif
    ∷ ifdef "KEY_REFRESH_RATE_TOGGLE"
    ∷ declare "key_event" "KEY" "REFRESH_RATE_TOGGLE"
    ∷ endif
    ∷ ifdef "KEY_BUTTONCONFIG"
    ∷ declare "key_event" "KEY" "BUTTONCONFIG"
    ∷ endif
    ∷ ifdef "KEY_TASKMANAGER"
    ∷ declare "key_event" "KEY" "TASKMANAGER"
    ∷ endif
    ∷ ifdef "KEY_JOURNAL"
    ∷ declare "key_event" "KEY" "JOURNAL"
    ∷ endif
    ∷ ifdef "KEY_CONTROLPANEL"
    ∷ declare "key_event" "KEY" "CONTROLPANEL"
    ∷ endif
    ∷ ifdef "KEY_APPSELECT"
    ∷ declare "key_event" "KEY" "APPSELECT"
    ∷ endif
    ∷ ifdef "KEY_SCREENSAVER"
    ∷ declare "key_event" "KEY" "SCREENSAVER"
    ∷ endif
    ∷ ifdef "KEY_VOICECOMMAND"
    ∷ declare "key_event" "KEY" "VOICECOMMAND"
    ∷ endif
    ∷ ifdef "KEY_ASSISTANT"
    ∷ declare "key_event" "KEY" "ASSISTANT"
    ∷ endif
    ∷ ifdef "KEY_EMOJI_PICKER"
    ∷ declare "key_event" "KEY" "EMOJI_PICKER"
    ∷ endif
    ∷ ifdef "KEY_KBD_LAYOUT_NEXT"
    ∷ declare "key_event" "KEY" "KBD_LAYOUT_NEXT"
    ∷ endif
    ∷ ifdef "KEY_DICTATE"
    ∷ declare "key_event" "KEY" "DICTATE"
    ∷ endif
    ∷ ifdef "KEY_CAMERA_ACCESS_ENABLE"
    ∷ declare "key_event" "KEY" "CAMERA_ACCESS_ENABLE"
    ∷ declare "key_event" "KEY" "CAMERA_ACCESS_DISABLE"
    ∷ declare "key_event" "KEY" "CAMERA_ACCESS_TOGGLE"
    ∷ endif
    ∷ ifdef "KEY_BRIGHTNESS_MIN"
    ∷ declare "key_event" "KEY" "BRIGHTNESS_MIN"
    ∷ endif
    ∷ ifdef "KEY_BRIGHTNESS_MAX"
    ∷ declare "key_event" "KEY" "BRIGHTNESS_MAX"
    ∷ endif
    ∷ ifdef "KEY_KBDINPUTASSIST_PREV"
    ∷ declare "key_event" "KEY" "KBDINPUTASSIST_PREV"
    ∷ endif
    ∷ ifdef "KEY_KBDINPUTASSIST_NEXT"
    ∷ declare "key_event" "KEY" "KBDINPUTASSIST_NEXT"
    ∷ endif
    ∷ ifdef "KEY_KBDINPUTASSIST_PREVGROUP"
    ∷ declare "key_event" "KEY" "KBDINPUTASSIST_PREVGROUP"
    ∷ endif
    ∷ ifdef "KEY_KBDINPUTASSIST_NEXTGROUP"
    ∷ declare "key_event" "KEY" "KBDINPUTASSIST_NEXTGROUP"
    ∷ endif
    ∷ ifdef "KEY_KBDINPUTASSIST_ACCEPT"
    ∷ declare "key_event" "KEY" "KBDINPUTASSIST_ACCEPT"
    ∷ endif
    ∷ ifdef "KEY_KBDINPUTASSIST_CANCEL"
    ∷ declare "key_event" "KEY" "KBDINPUTASSIST_CANCEL"
    ∷ endif
    ∷ ifdef "KEY_RIGHT_UP"
    ∷ declare "key_event" "KEY" "RIGHT_UP"
    ∷ declare "key_event" "KEY" "RIGHT_DOWN"
    ∷ declare "key_event" "KEY" "LEFT_UP"
    ∷ declare "key_event" "KEY" "LEFT_DOWN"
    ∷ endif
    ∷ ifdef "KEY_NUMERIC_11"
    ∷ declare "key_event" "KEY" "NUMERIC_11"
    ∷ declare "key_event" "KEY" "NUMERIC_12"
    ∷ endif
    ∷ ifdef "KEY_ROOT_MENU"
    ∷ []
