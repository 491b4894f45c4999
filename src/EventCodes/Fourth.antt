-- ===== src/EventCodes/Fourth.antt =====
-- event_code_names.cc, lines 436 to 580.
use event_sequence_transform.Prelude.{List, [], ◌∷◌}
use event_sequence_transform.EventCodes.Directives.{Directive, declare, endif, ifdef}

unfoldable pub fourth_codes : List Directive
fourth_codes =
    declare "key_event" "KEY" "ASPECT_RATIO"
    ∷ declare "key_event" "KEY" "SCREEN"
    ∷ declare "key_event" "KEY" "PC"
    ∷ declare "key_event" "KEY" "TV"
    ∷ declare "key_event" "KEY" "TV2"
    ∷ declare "key_event" "KEY" "VCR"
    ∷ declare "key_event" "KEY" "VCR2"
    ∷ declare "key_event" "KEY" "SAT"
    ∷ declare "key_event" "KEY" "SAT2"
    ∷ declare "key_event" "KEY" "CD"
    ∷ declare "key_event" "KEY" "TAPE"
    ∷ declare "key_event" "KEY" "RADIO"
    ∷ declare "key_event" "KEY" "TUNER"
    ∷ declare "key_event" "KEY" "PLAYER"
    ∷ declare "key_event" "KEY" "TEXT"
    ∷ declare "key_event" "KEY" "DVD"
    ∷ declare "key_event" "KEY" "AUX"
    ∷ declare "key_event" "KEY" "MP3"
    ∷ declare "key_event" "KEY" "AUDIO"
    ∷ declare "key_event" "KEY" "VIDEO"
    ∷ declare "key_event" "KEY" "DIRECTORY"
    ∷ declare "key_event" "KEY" "LIST"
    ∷ declare "key_event" "KEY" "MEMO"
    ∷ declare "key_event" "KEY" "CALENDAR"
    ∷ declare "key_event" "KEY" "RED"
    ∷ declare "key_event" "KEY" "GREEN"
    ∷ declare "key_event" "KEY" "YELLOW"
    ∷ declare "key_event" "KEY" "BLUE"
    ∷ declare "key_event" "KEY" "CHANNELUP"
    ∷ declare "key_event" "KEY" "CHANNELDOWN"
    ∷ declare "key_event" "KEY" "FIRST"
    ∷ declare "key_event" "KEY" "LAST"
    ∷ declare "key_event" "KEY" "AB"
    ∷ declare "key_event" "KEY" "NEXT"
    ∷ declare "key_event" "KEY" "RESTART"
    ∷ declare "key_event" "KEY" "SLOW"
    ∷ declare "key_event" "KEY" "SHUFFLE"
    ∷ declare "key_event" "KEY" "BREAK"
    ∷ declare "key_event" "KEY" "PREVIOUS"
    ∷ declare "key_event" "KEY" "DIGITS"
    ∷ declare "key_event" "KEY" "TEEN"
    ∷ declare "key_event" "KEY" "TWEN"
    ∷ declare "key_event" "KEY" "VIDEOPHONE"
    ∷ declare "key_event" "KEY" "GAMES"
    ∷ declare "key_event" "KEY" "ZOOMIN"
    ∷ declare "key_event" "KEY" "ZOOMOUT"
    ∷ declare "key_event" "KEY" "ZOOMRESET"
    ∷ declare "key_event" "KEY" "WORDPROCESSOR"
    ∷ declare "key_event" "KEY" "EDITOR"
    ∷ declare "key_event" "KEY" "SPREADSHEET"
    ∷ declare "key_event" "KEY" "GRAPHICSEDITOR"
    ∷ declare "key_event" "KEY" "PRESENTATION"
    ∷ declare "key_event" "KEY" "DATABASE"
    ∷ declare "key_event" "KEY" "NEWS"
    ∷ declare "key_event" "KEY" "VOICEMAIL"
    ∷ declare "key_event" "KEY" "ADDRESSBOOK"
    ∷ declare "key_event" "KEY" "MESSENGER"
    ∷ declare "key_event" "KEY" "DISPLAYTOGGLE"
    ∷ declare "key_event" "KEY" "BRIGHTNESS_TOGGLE"
    ∷ ifdef "KEY_SPELLCHECK"
    ∷ declare "key_event" "KEY" "SPELLCHECK"
    ∷ endif
    ∷ ifdef "KEY_LOGOFF"
    ∷ declare "key_event" "KEY" "LOGOFF"
    ∷ endif
    ∷ ifdef "KEY_DOLLAR"
    ∷ declare "key_event" "KEY" "DOLLAR"
    ∷ endif
    ∷ ifdef "KEY_EURO"
    ∷ declare "key_event" "KEY" "EURO"
    ∷ endif
    ∷ ifdef "KEY_FRAMEBACK"
    ∷ declare "key_event" "KEY" "FRAMEBACK"
    ∷ endif
    ∷ ifdef "KEY_FRAMEFORWARD"
    ∷ declare "key_event" "KEY" "FRAMEFORWARD"
    ∷ endif
    ∷ ifdef "KEY_CONTEXT_MENU"
    ∷ declare "key_event" "KEY" "CONTEXT_MENU"
    ∷ endif
    ∷ ifdef "KEY_MEDIA_REPEAT"
    ∷ declare "key_event" "KEY" "MEDIA_REPEAT"
    ∷ endif
    ∷ ifdef "KEY_10CHANNELSUP"
    ∷ declare "key_event" "KEY" "10CHANNELSUP"
    ∷ endif
    ∷ ifdef "KEY_10CHANNELSDOWN"
    ∷ declare "key_event" "KEY" "10CHANNELSDOWN"
    ∷ endif
    ∷ ifdef "KEY_IMAGES"
    ∷ declare "key_event" "KEY" "IMAGES"
    ∷ endif
    ∷ ifdef "KEY_NOTIFICATION_CENTER"
    ∷ declare "key_event" "KEY" "NOTIFICATION_CENTER"
    ∷ declare "key_event" "KEY" "PICKUP_PHONE"
    ∷ declare "key_event" "KEY" "HANGUP_PHONE"
    ∷ endif
    ∷ declare "key_event" "KEY" "DEL_EOL"
    ∷ declare "key_event" "KEY" "DEL_EOS"
    ∷ declare "key_event" "KEY" "INS_LINE"
    ∷ declare "key_event" "KEY" "DEL_LINE"
    ∷ declare "key_event" "KEY" "FN"
    ∷ declare "key_event" "KEY" "FN_ESC"
    ∷ declare "key_event" "KEY" "FN_F1"
    ∷ declare "key_event" "KEY" "FN_F2"
    ∷ declare "key_event" "KEY" "FN_F3"
    ∷ declare "key_event" "KEY" "FN_F4"
    ∷ declare "key_event" "KEY" "FN_F5"
    ∷ declare "key_event" "KEY" "FN_F6"
    ∷ declare "key_event" "KEY" "FN_F7"
    ∷ declare "key_event" "KEY" "FN_F8"
    ∷ declare "key_event" "KEY" "FN_F9"
    ∷ declare "key_event" "KEY" "FN_F10"
    ∷ declare "key_event" "KEY" "FN_F11"
    ∷ declare "key_event" "KEY" "FN_F12"
    ∷ declare "key_event" "KEY" "FN_1"
    ∷ declare "key_event" "KEY" "FN_2"
    ∷ declare "key_event" "KEY" "FN_D"
    ∷ declare "key_event" "KEY" "FN_E"
    ∷ declare "key_event" "KEY" "FN_F"
    ∷ declare "key_event" "KEY" "FN_S"
    ∷ declare "key_event" "KEY" "FN_B"
    ∷ ifdef "KEY_FN_RIGHT_SHIFT"
    ∷ declare "key_event" "KEY" "FN_RIGHT_SHIFT"
    ∷ endif
    ∷ declare "key_event" "KEY" "BRL_DOT1"
    ∷ declare "key_event" "KEY" "BRL_DOT2"
    ∷ declare "key_event" "KEY" "BRL_DOT3"
    ∷ declare "key_event" "KEY" "BRL_DOT4"
    ∷ declare "key_event" "KEY" "BRL_DOT5"
    ∷ declare "key_event" "KEY" "BRL_DOT6"
    ∷ declare "key_event" "KEY" "BRL_DOT7"
    ∷ declare "key_event" "KEY" "BRL_DOT8"
    ∷ declare "key_event" "KEY" "BRL_DOT9"
    ∷ declare "key_event" "KEY" "BRL_DOT10"
    ∷ ifdef "KEY_NUMERIC_0"
    ∷ declare "key_event" "KEY" "NUMERIC_0"
    ∷ []
