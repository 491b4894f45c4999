-- ===== src/EventCodes/Seventh.antt =====
-- event_code_names.cc, lines 871 to 1015.
use event_sequence_transform.Prelude.{List, [], ◌∷◌}
use event_sequence_transform.EventCodes.Directives.{Directive, declare, endif, ifdef}

unfoldable pub seventh_codes : List Directive
seventh_codes =
    declare "relative_axis" "REL" "Y"
    ∷ declare "relative_axis" "REL" "Z"
    ∷ declare "relative_axis" "REL" "RX"
    ∷ declare "relative_axis" "REL" "RY"
    ∷ declare "relative_axis" "REL" "RZ"
    ∷ declare "relative_axis" "REL" "HWHEEL"
    ∷ declare "relative_axis" "REL" "DIAL"
    ∷ declare "relative_axis" "REL" "WHEEL"
    ∷ declare "relative_axis" "REL" "MISC"
    ∷ declare "relative_axis" "REL" "RESERVED"
    ∷ ifdef "REL_WHEEL_HI_RES"
    ∷ declare "relative_axis" "REL" "WHEEL_HI_RES"
    ∷ declare "relative_axis" "REL" "HWHEEL_HI_RES"
    ∷ endif
    ∷ declare "relative_axis" "REL" "MAX"
    ∷ declare "relative_axis" "REL" "CNT"
    ∷ declare "absolute_axis" "ABS" "X"
    ∷ declare "absolute_axis" "ABS" "Y"
    ∷ declare "absolute_axis" "ABS" "Z"
    ∷ declare "absolute_axis" "ABS" "RX"
    ∷ declare "absolute_axis" "ABS" "RY"
    ∷ declare "absolute_axis" "ABS" "RZ"
    ∷ declare "absolute_axis" "ABS" "THROTTLE"
    ∷ declare "absolute_axis" "ABS" "RUDDER"
    ∷ declare "absolute_axis" "ABS" "WHEEL"
    ∷ declare "absolute_axis" "ABS" "GAS"
    ∷ declare "absolute_axis" "ABS" "BRAKE"
    ∷ declare "absolute_axis" "ABS" "HAT0X"
    ∷ declare "absolute_axis" "ABS" "HAT0Y"
    ∷ declare "absolute_axis" "ABS" "HAT1X"
    ∷ declare "absolute_axis" "ABS" "HAT1Y"
    ∷ declare "absolute_axis" "ABS" "HAT2X"
    ∷ declare "absolute_axis" "ABS" "HAT2Y"
    ∷ declare "absolute_axis" "ABS" "HAT3X"
    ∷ declare "absolute_axis" "ABS" "HAT3Y"
    ∷ declare "absolute_axis" "ABS" "PRESSURE"
    ∷ declare "absolute_axis" "ABS" "DISTANCE"
    ∷ declare "absolute_axis" "ABS" "TILT_X"
    ∷ declare "absolute_axis" "ABS" "TILT_Y"
    ∷ declare "absolute_axis" "ABS" "TOOL_WIDTH"
    ∷ declare "absolute_axis" "ABS" "VOLUME"
    ∷ declare "absolute_axis" "ABS" "MISC"
    ∷ declare "absolute_axis" "ABS" "RESERVED"
    ∷ ifdef "ABS_MT_SLOT"
    ∷ declare "absolute_axis" "ABS" "MT_SLOT"
    ∷ endif
    ∷ ifdef "ABS_MT_BLOB_ID"
    ∷ declare "absolute_axis" "ABS" "MT_TOUCH_MAJOR"
    ∷ declare "absolute_axis" "ABS" "MT_TOUCH_MINOR"
    ∷ declare "absolute_axis" "ABS" "MT_WIDTH_MAJOR"
    ∷ declare "absolute_axis" "ABS" "MT_WIDTH_MINOR"
    ∷ declare "absolute_axis" "ABS" "MT_ORIENTATION"
    ∷ declare "absolute_axis" "ABS" "MT_POSITION_X"
    ∷ declare "absolute_axis" "ABS" "MT_POSITION_Y"
    ∷ declare "absolute_axis" "ABS" "MT_TOOL_TYPE"
    ∷ declare "absolute_axis" "ABS" "MT_BLOB_ID"
    ∷ endif
    ∷ ifdef "ABS_MT_TRACKING_ID"
    ∷ declare "absolute_axis" "ABS" "MT_TRACKING_ID"
    ∷ endif
    ∷ ifdef "ABS_MT_PRESSURE"
    ∷ declare "absolute_axis" "ABS" "MT_PRESSURE"
    ∷ endif
    ∷ ifdef "ABS_MT_TOOL_X"
    ∷ declare "absolute_axis" "ABS" "MT_DISTANCE"
    ∷ declare "absolute_axis" "ABS" "MT_TOOL_X"
    ∷ declare "absolute_axis" "ABS" "MT_TOOL_Y"
    ∷ endif
    ∷ declare "absolute_axis" "ABS" "MAX"
    ∷ declare "absolute_axis" "ABS" "CNT"
    ∷ declare "switch_event" "SW" "LID"
    ∷ declare "switch_event" "SW" "TABLET_MODE"
    ∷ declare "switch_event" "SW" "HEADPHONE_INSERT"
    ∷ ifdef "SW_RFKILL_ALL"
    ∷ declare "switch_event" "SW" "RFKILL_ALL"
    ∷ endif
    ∷ declare "switch_event" "SW" "RADIO"
    ∷ ifdef "SW_MICROPHONE_INSERT"
    ∷ declare "switch_event" "SW" "MICROPHONE_INSERT"
    ∷ endif
    ∷ ifdef "SW_DOCK"
    ∷ declare "switch_event" "SW" "DOCK"
    ∷ endif
    ∷ ifdef "SW_LINEOUT_INSERT"
    ∷ declare "switch_event" "SW" "LINEOUT_INSERT"
    ∷ endif
    ∷ ifdef "SW_JACK_PHYSICAL_INSERT"
    ∷ declare "switch_event" "SW" "JACK_PHYSICAL_INSERT"
    ∷ endif
    ∷ ifdef "SW_VIDEOOUT_INSERT"
    ∷ declare "switch_event" "SW" "VIDEOOUT_INSERT"
    ∷ endif
    ∷ ifdef "SW_CAMERA_LENS_COVER"
    ∷ declare "switch_event" "SW" "CAMERA_LENS_COVER"
    ∷ declare "switch_event" "SW" "KEYPAD_SLIDE"
    ∷ declare "switch_event" "SW" "FRONT_PROXIMITY"
    ∷ endif
    ∷ ifdef "SW_ROTATE_LOCK"
    ∷ declare "switch_event" "SW" "ROTATE_LOCK"
    ∷ endif
    ∷ ifdef "SW_LINEIN_INSERT"
    ∷ declare "switch_event" "SW" "LINEIN_INSERT"
    ∷ endif
    ∷ ifdef "SW_MUTE_DEVICE"
    ∷ declare "switch_event" "SW" "MUTE_DEVICE"
    ∷ endif
    ∷ ifdef "SW_PEN_INSERTED"
    ∷ declare "switch_event" "SW" "PEN_INSERTED"
    ∷ endif
    ∷ ifdef "SW_MACHINE_COVER"
    ∷ declare "switch_event" "SW" "MACHINE_COVER"
    ∷ endif
    ∷ declare "switch_event" "SW" "MAX"
    ∷ declare "switch_event" "SW" "CNT"
    ∷ declare "misc_event" "MSC" "SERIAL"
    ∷ declare "misc_event" "MSC" "PULSELED"
    ∷ declare "misc_event" "MSC" "GESTURE"
    ∷ declare "misc_event" "MSC" "RAW"
    ∷ declare "misc_event" "MSC" "SCAN"
    ∷ ifdef "MSC_TIMESTAMP"
    ∷ declare "misc_event" "MSC" "TIMESTAMP"
    ∷ endif
    ∷ declare "misc_event" "MSC" "MAX"
    ∷ declare "misc_event" "MSC" "CNT"
    ∷ declare "led_event" "LED" "NUML"
    ∷ declare "led_event" "LED" "CAPSL"
    ∷ declare "led_event" "LED" "SCROLLL"
    ∷ declare "led_event" "LED" "COMPOSE"
    ∷ declare "led_event" "LED" "KANA"
    ∷ declare "led_event" "LED" "SLEEP"
    ∷ declare "led_event" "LED" "SUSPEND"
    ∷ declare "led_event" "LED" "MUTE"
    ∷ declare "led_event" "LED" "MISC"
    ∷ ifdef "LED_MAIL"
    ∷ declare "led_event" "LED" "MAIL"
    ∷ endif
    ∷ []
