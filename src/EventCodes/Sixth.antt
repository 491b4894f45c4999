-- ===== src/EventCodes/Sixth.antt =====
-- event_code_names.cc, lines 726 to 870.
use event_sequence_transform.Prelude.{List, [], ◌∷◌}
use event_sequence_transform.EventCodes.Directives.{Directive, declare, endif, ifdef}

unfoldable pub sixth_codes : List Directive
sixth_codes =
    declare "key_event" "KEY" "ROOT_MENU"
    ∷ declare "key_event" "KEY" "MEDIA_TOP_MENU"
    ∷ declare "key_event" "KEY" "AUDIO_DESC"
    ∷ declare "key_event" "KEY" "3D_MODE"
    ∷ declare "key_event" "KEY" "NEXT_FAVORITE"
    ∷ declare "key_event" "KEY" "STOP_RECORD"
    ∷ declare "key_event" "KEY" "PAUSE_RECORD"
    ∷ declare "key_event" "KEY" "VOD"
    ∷ declare "key_event" "KEY" "UNMUTE"
    ∷ declare "key_event" "KEY" "FASTREVERSE"
    ∷ declare "key_event" "KEY" "SLOWREVERSE"
    ∷ endif
    ∷ ifdef "KEY_DATA"
    ∷ declare "key_event" "KEY" "DATA"
    ∷ endif
    ∷ ifdef "KEY_ONSCREEN_KEYBOARD"
    ∷ declare "key_event" "KEY" "ONSCREEN_KEYBOARD"
    ∷ endif
    ∷ ifdef "KEY_PRIVACY_SCREEN_TOGGLE"
    ∷ declare "key_event" "KEY" "PRIVACY_SCREEN_TOGGLE"
    ∷ endif
    ∷ ifdef "KEY_SELECTIVE_SCREENSHOT"
    ∷ declare "key_event" "KEY" "SELECTIVE_SCREENSHOT"
    ∷ endif
    ∷ ifdef "KEY_NEXT_ELEMENT"
    ∷ declare "key_event" "KEY" "NEXT_ELEMENT"
    ∷ declare "key_event" "KEY" "PREVIOUS_ELEMENT"
    ∷ declare "key_event" "KEY" "AUTOPILOT_ENGAGE_TOGGLE"
    ∷ declare "key_event" "KEY" "MARK_WAYPOINT"
    ∷ declare "key_event" "KEY" "SOS"
    ∷ declare "key_event" "KEY" "NAV_CHART"
    ∷ declare "key_event" "KEY" "FISHING_CHART"
    ∷ declare "key_event" "KEY" "SINGLE_RANGE_RADAR"
    ∷ declare "key_event" "KEY" "DUAL_RANGE_RADAR"
    ∷ declare "key_event" "KEY" "RADAR_OVERLAY"
    ∷ declare "key_event" "KEY" "TRADITIONAL_SONAR"
    ∷ declare "key_event" "KEY" "CLEARVU_SONAR"
    ∷ declare "key_event" "KEY" "SIDEVU_SONAR"
    ∷ declare "key_event" "KEY" "NAV_INFO"
    ∷ declare "key_event" "KEY" "BRIGHTNESS_MENU"
    ∷ endif
    ∷ ifdef "KEY_MACRO1"
    ∷ declare "key_event" "KEY" "MACRO1"
    ∷ declare "key_event" "KEY" "MACRO2"
    ∷ declare "key_event" "KEY" "MACRO3"
    ∷ declare "key_event" "KEY" "MACRO4"
    ∷ declare "key_event" "KEY" "MACRO5"
    ∷ declare "key_event" "KEY" "MACRO6"
    ∷ declare "key_event" "KEY" "MACRO7"
    ∷ declare "key_event" "KEY" "MACRO8"
    ∷ declare "key_event" "KEY" "MACRO9"
    ∷ declare "key_event" "KEY" "MACRO10"
    ∷ declare "key_event" "KEY" "MACRO11"
    ∷ declare "key_event" "KEY" "MACRO12"
    ∷ declare "key_event" "KEY" "MACRO13"
    ∷ declare "key_event" "KEY" "MACRO14"
    ∷ declare "key_event" "KEY" "MACRO15"
    ∷ declare "key_event" "KEY" "MACRO16"
    ∷ declare "key_event" "KEY" "MACRO17"
    ∷ declare "key_event" "KEY" "MACRO18"
    ∷ declare "key_event" "KEY" "MACRO19"
    ∷ declare "key_event" "KEY" "MACRO20"
    ∷ declare "key_event" "KEY" "MACRO21"
    ∷ declare "key_event" "KEY" "MACRO22"
    ∷ declare "key_event" "KEY" "MACRO23"
    ∷ declare "key_event" "KEY" "MACRO24"
    ∷ declare "key_event" "KEY" "MACRO25"
    ∷ declare "key_event" "KEY" "MACRO26"
    ∷ declare "key_event" "KEY" "MACRO27"
    ∷ declare "key_event" "KEY" "MACRO28"
    ∷ declare "key_event" "KEY" "MACRO29"
    ∷ declare "key_event" "KEY" "MACRO30"
    ∷ endif
    ∷ ifdef "KEY_MACRO_RECORD_START"
    ∷ declare "key_event" "KEY" "MACRO_RECORD_START"
    ∷ declare "key_event" "KEY" "MACRO_RECORD_STOP"
    ∷ declare "key_event" "KEY" "MACRO_PRESET_CYCLE"
    ∷ declare "key_event" "KEY" "MACRO_PRESET1"
    ∷ declare "key_event" "KEY" "MACRO_PRESET2"
    ∷ declare "key_event" "KEY" "MACRO_PRESET3"
    ∷ endif
    ∷ ifdef "KEY_KBD_LCD_MENU1"
    ∷ declare "key_event" "KEY" "KBD_LCD_MENU1"
    ∷ declare "key_event" "KEY" "KBD_LCD_MENU2"
    ∷ declare "key_event" "KEY" "KBD_LCD_MENU2"
    ∷ declare "key_event" "KEY" "KBD_LCD_MENU3"
    ∷ declare "key_event" "KEY" "KBD_LCD_MENU4"
    ∷ declare "key_event" "KEY" "KBD_LCD_MENU5"
    ∷ endif
    ∷ ifdef "BTN_TRIGGER_HAPPY"
    ∷ declare "button_event" "BTN" "TRIGGER_HAPPY"
    ∷ declare "button_event" "BTN" "TRIGGER_HAPPY1"
    ∷ declare "button_event" "BTN" "TRIGGER_HAPPY2"
    ∷ declare "button_event" "BTN" "TRIGGER_HAPPY3"
    ∷ declare "button_event" "BTN" "TRIGGER_HAPPY4"
    ∷ declare "button_event" "BTN" "TRIGGER_HAPPY5"
    ∷ declare "button_event" "BTN" "TRIGGER_HAPPY6"
    ∷ declare "button_event" "BTN" "TRIGGER_HAPPY7"
    ∷ declare "button_event" "BTN" "TRIGGER_HAPPY8"
    ∷ declare "button_event" "BTN" "TRIGGER_HAPPY9"
    ∷ declare "button_event" "BTN" "TRIGGER_HAPPY10"
    ∷ declare "button_event" "BTN" "TRIGGER_HAPPY11"
    ∷ declare "button_event" "BTN" "TRIGGER_HAPPY12"
    ∷ declare "button_event" "BTN" "TRIGGER_HAPPY13"
    ∷ declare "button_event" "BTN" "TRIGGER_HAPPY14"
    ∷ declare "button_event" "BTN" "TRIGGER_HAPPY15"
    ∷ declare "button_event" "BTN" "TRIGGER_HAPPY16"
    ∷ declare "button_event" "BTN" "TRIGGER_HAPPY17"
    ∷ declare "button_event" "BTN" "TRIGGER_HAPPY18"
    ∷ declare "button_event" "BTN" "TRIGGER_HAPPY19"
    ∷ declare "button_event" "BTN" "TRIGGER_HAPPY20"
    ∷ declare "button_event" "BTN" "TRIGGER_HAPPY21"
    ∷ declare "button_event" "BTN" "TRIGGER_HAPPY22"
    ∷ declare "button_event" "BTN" "TRIGGER_HAPPY23"
    ∷ declare "button_event" "BTN" "TRIGGER_HAPPY24"
    ∷ declare "button_event" "BTN" "TRIGGER_HAPPY25"
    ∷ declare "button_event" "BTN" "TRIGGER_HAPPY26"
    ∷ declare "button_event" "BTN" "TRIGGER_HAPPY27"
    ∷ declare "button_event" "BTN" "TRIGGER_HAPPY28"
    ∷ declare "button_event" "BTN" "TRIGGER_HAPPY29"
    ∷ declare "button_event" "BTN" "TRIGGER_HAPPY30"
    ∷ declare "button_event" "BTN" "TRIGGER_HAPPY31"
    ∷ declare "button_event" "BTN" "TRIGGER_HAPPY32"
    ∷ declare "button_event" "BTN" "TRIGGER_HAPPY33"
    ∷ declare "button_event" "BTN" "TRIGGER_HAPPY34"
    ∷ declare "button_event" "BTN" "TRIGGER_HAPPY35"
    ∷ declare "button_event" "BTN" "TRIGGER_HAPPY36"
    ∷ declare "button_event" "BTN" "TRIGGER_HAPPY37"
    ∷ declare "button_event" "BTN" "TRIGGER_HAPPY38"
    ∷ declare "button_event" "BTN" "TRIGGER_HAPPY39"
    ∷ declare "button_event" "BTN" "TRIGGER_HAPPY40"
    ∷ endif
    ∷ declare "key_event" "KEY" "MIN_INTERESTING"
    ∷ declare "key_event" "KEY" "MAX"
    ∷ declare "key_event" "KEY" "CNT"
    ∷ declare "relative_axis" "REL" "X"
    ∷ []
