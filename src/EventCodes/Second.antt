-- ===== src/EventCodes/Second.antt =====
-- event_code_names.cc, lines 146 to 290.
use event_sequence_transform.Prelude.{List, [], ◌∷◌}
use event_sequence_transform.EventCodes.Directives.{Directive, declare, endif, ifdef}

unfoldable pub second_codes : List Directive
second_codes =
    declare "key_event" "KEY" "HOME"
    ∷ declare "key_event" "KEY" "UP"
    ∷ declare "key_event" "KEY" "PAGEUP"
    ∷ declare "key_event" "KEY" "LEFT"
    ∷ declare "key_event" "KEY" "RIGHT"
    ∷ declare "key_event" "KEY" "END"
    ∷ declare "key_event" "KEY" "DOWN"
    ∷ declare "key_event" "KEY" "PAGEDOWN"
    ∷ declare "key_event" "KEY" "INSERT"
    ∷ declare "key_event" "KEY" "DELETE"
    ∷ declare "key_event" "KEY" "MACRO"
    ∷ declare "key_event" "KEY" "MUTE"
    ∷ declare "key_event" "KEY" "VOLUMEDOWN"
    ∷ declare "key_event" "KEY" "VOLUMEUP"
    ∷ declare "key_event" "KEY" "POWER"
    ∷ declare "key_event" "KEY" "KPEQUAL"
    ∷ declare "key_event" "KEY" "KPPLUSMINUS"
    ∷ declare "key_event" "KEY" "PAUSE"
    ∷ ifdef "KEY_SCALE"
    ∷ declare "key_event" "KEY" "SCALE"
    ∷ endif
    ∷ declare "key_event" "KEY" "KPCOMMA"
    ∷ declare "key_event" "KEY" "HANGEUL"
    ∷ declare "key_event" "KEY" "HANGUEL"
    ∷ declare "key_event" "KEY" "HANJA"
    ∷ declare "key_event" "KEY" "YEN"
    ∷ declare "key_event" "KEY" "LEFTMETA"
    ∷ declare "key_event" "KEY" "RIGHTMETA"
    ∷ declare "key_event" "KEY" "COMPOSE"
    ∷ declare "key_event" "KEY" "STOP"
    ∷ declare "key_event" "KEY" "AGAIN"
    ∷ declare "key_event" "KEY" "PROPS"
    ∷ declare "key_event" "KEY" "UNDO"
    ∷ declare "key_event" "KEY" "FRONT"
    ∷ declare "key_event" "KEY" "COPY"
    ∷ declare "key_event" "KEY" "OPEN"
    ∷ declare "key_event" "KEY" "PASTE"
    ∷ declare "key_event" "KEY" "FIND"
    ∷ declare "key_event" "KEY" "CUT"
    ∷ declare "key_event" "KEY" "HELP"
    ∷ declare "key_event" "KEY" "MENU"
    ∷ declare "key_event" "KEY" "CALC"
    ∷ declare "key_event" "KEY" "SETUP"
    ∷ declare "key_event" "KEY" "SLEEP"
    ∷ declare "key_event" "KEY" "WAKEUP"
    ∷ declare "key_event" "KEY" "FILE"
    ∷ declare "key_event" "KEY" "SENDFILE"
    ∷ declare "key_event" "KEY" "DELETEFILE"
    ∷ declare "key_event" "KEY" "XFER"
    ∷ declare "key_event" "KEY" "PROG1"
    ∷ declare "key_event" "KEY" "PROG2"
    ∷ declare "key_event" "KEY" "WWW"
    ∷ declare "key_event" "KEY" "MSDOS"
    ∷ declare "key_event" "KEY" "COFFEE"
    ∷ declare "key_event" "KEY" "SCREENLOCK"
    ∷ declare "key_event" "KEY" "ROTATE_DISPLAY"
    ∷ declare "key_event" "KEY" "DIRECTION"
    ∷ declare "key_event" "KEY" "CYCLEWINDOWS"
    ∷ declare "key_event" "KEY" "MAIL"
    ∷ declare "key_event" "KEY" "BOOKMARKS"
    ∷ declare "key_event" "KEY" "COMPUTER"
    ∷ declare "key_event" "KEY" "BACK"
    ∷ declare "key_event" "KEY" "FORWARD"
    ∷ declare "key_event" "KEY" "CLOSECD"
    ∷ declare "key_event" "KEY" "EJECTCD"
    ∷ declare "key_event" "KEY" "EJECTCLOSECD"
    ∷ declare "key_event" "KEY" "NEXTSONG"
    ∷ declare "key_event" "KEY" "PLAYPAUSE"
    ∷ declare "key_event" "KEY" "PREVIOUSSONG"
    ∷ declare "key_event" "KEY" "STOPCD"
    ∷ declare "key_event" "KEY" "RECORD"
    ∷ declare "key_event" "KEY" "REWIND"
    ∷ declare "key_event" "KEY" "PHONE"
    ∷ declare "key_event" "KEY" "ISO"
    ∷ declare "key_event" "KEY" "CONFIG"
    ∷ declare "key_event" "KEY" "HOMEPAGE"
    ∷ declare "key_event" "KEY" "REFRESH"
    ∷ declare "key_event" "KEY" "EXIT"
    ∷ declare "key_event" "KEY" "MOVE"
    ∷ declare "key_event" "KEY" "EDIT"
    ∷ declare "key_event" "KEY" "SCROLLUP"
    ∷ declare "key_event" "KEY" "SCROLLDOWN"
    ∷ declare "key_event" "KEY" "KPLEFTPAREN"
    ∷ declare "key_event" "KEY" "KPRIGHTPAREN"
    ∷ declare "key_event" "KEY" "NEW"
    ∷ declare "key_event" "KEY" "REDO"
    ∷ declare "key_event" "KEY" "F13"
    ∷ declare "key_event" "KEY" "F14"
    ∷ declare "key_event" "KEY" "F15"
    ∷ declare "key_event" "KEY" "F16"
    ∷ declare "key_event" "KEY" "F17"
    ∷ declare "key_event" "KEY" "F18"
    ∷ declare "key_event" "KEY" "F19"
    ∷ declare "key_event" "KEY" "F20"
    ∷ declare "key_event" "KEY" "F21"
    ∷ declare "key_event" "KEY" "F22"
    ∷ declare "key_event" "KEY" "F23"
    ∷ declare "key_event" "KEY" "F24"
    ∷ declare "key_event" "KEY" "PLAYCD"
    ∷ declare "key_event" "KEY" "PAUSECD"
    ∷ declare "key_event" "KEY" "PROG3"
    ∷ declare "key_event" "KEY" "PROG4"
    ∷ ifdef "KEY_DASHBOARD"
    ∷ declare "key_event" "KEY" "DASHBOARD"
    ∷ endif
    ∷ declare "key_event" "KEY" "SUSPEND"
    ∷ declare "key_event" "KEY" "CLOSE"
    ∷ declare "key_event" "KEY" "PLAY"
    ∷ declare "key_event" "KEY" "FASTFORWARD"
    ∷ declare "key_event" "KEY" "BASSBOOST"
    ∷ declare "key_event" "KEY" "PRINT"
    ∷ declare "key_event" "KEY" "HP"
    ∷ declare "key_event" "KEY" "CAMERA"
    ∷ declare "key_event" "KEY" "SOUND"
    ∷ declare "key_event" "KEY" "QUESTION"
    ∷ declare "key_event" "KEY" "EMAIL"
    ∷ declare "key_event" "KEY" "CHAT"
    ∷ declare "key_event" "KEY" "SEARCH"
    ∷ declare "key_event" "KEY" "CONNECT"
    ∷ declare "key_event" "KEY" "FINANCE"
    ∷ declare "key_event" "KEY" "SPORT"
    ∷ declare "key_event" "KEY" "SHOP"
    ∷ declare "key_event" "KEY" "ALTERASE"
    ∷ declare "key_event" "KEY" "CANCEL"
    ∷ declare "key_event" "KEY" "BRIGHTNESSDOWN"
    ∷ declare "key_event" "KEY" "BRIGHTNESSUP"
    ∷ declare "key_event" "KEY" "MEDIA"
    ∷ declare "key_event" "KEY" "SWITCHVIDEOMODE"
    ∷ declare "key_event" "KEY" "KBDILLUMTOGGLE"
    ∷ declare "key_event" "KEY" "KBDILLUMDOWN"
    ∷ declare "key_event" "KEY" "KBDILLUMUP"
    ∷ declare "key_event" "KEY" "SEND"
    ∷ declare "key_event" "KEY" "REPLY"
    ∷ declare "key_event" "KEY" "FORWARDMAIL"
    ∷ declare "key_event" "KEY" "SAVE"
    ∷ declare "key_event" "KEY" "DOCUMENTS"
    ∷ declare "key_event" "KEY" "BATTERY"
    ∷ []
