-- ===== src/EventCodes/Eighth.antt =====
-- event_code_names.cc, lines 1016 to 1060.
use event_sequence_transform.Prelude.{List, [], ◌∷◌}
use event_sequence_transform.EventCodes.Directives.{Directive, declare, endif, ifdef}

unfoldable pub eighth_codes : List Directive
eighth_codes =
    ifdef "LED_CHARGING"
    ∷ declare "led_event" "LED" "CHARGING"
    ∷ endif
    ∷ declare "led_event" "LED" "MAX"
    ∷ declare "led_event" "LED" "CNT"
    ∷ declare "repeat_event" "REP" "DELAY"
    ∷ declare "repeat_event" "REP" "PERIOD"
    ∷ declare "repeat_event" "REP" "MAX"
    ∷ declare "repeat_event" "REP" "CNT"
    ∷ declare "sound_event" "SND" "CLICK"
    ∷ declare "sound_event" "SND" "BELL"
    ∷ declare "sound_event" "SND" "TONE"
    ∷ declare "sound_event" "SND" "MAX"
    ∷ declare "sound_event" "SND" "CNT"
    ∷ declare "force_feedback_status" "FF_STATUS" "STOPPED"
    ∷ declare "force_feedback_status" "FF_STATUS" "PLAYING"
    ∷ declare "force_feedback_status" "FF_STATUS" "MAX"
    ∷ declare "force_feedback" "FF" "RUMBLE"
    ∷ declare "force_feedback" "FF" "PERIODIC"
    ∷ declare "force_feedback" "FF" "CONSTANT"
    ∷ declare "force_feedback" "FF" "SPRING"
    ∷ declare "force_feedback" "FF" "FRICTION"
    ∷ declare "force_feedback" "FF" "DAMPER"
    ∷ declare "force_feedback" "FF" "INERTIA"
    ∷ declare "force_feedback" "FF" "RAMP"
    ∷ declare "force_feedback" "FF" "EFFECT_MIN"
    ∷ declare "force_feedback" "FF" "EFFECT_MAX"
    ∷ declare "force_feedback" "FF" "SQUARE"
    ∷ declare "force_feedback" "FF" "TRIANGLE"
    ∷ declare "force_feedback" "FF" "SINE"
    ∷ declare "force_feedback" "FF" "SAW_UP"
    ∷ declare "force_feedback" "FF" "SAW_DOWN"
    ∷ declare "force_feedback" "FF" "CUSTOM"
    ∷ declare "force_feedback" "FF" "WAVEFORM_MIN"
    ∷ declare "force_feedback" "FF" "WAVEFORM_MAX"
    ∷ declare "force_feedback" "FF" "GAIN"
    ∷ declare "force_feedback" "FF" "AUTOCENTER"
    ∷ declare "force_feedback" "FF" "MAX_EFFECTS"
    ∷ declare "force_feedback" "FF" "MAX"
    ∷ declare "force_feedback" "FF" "CNT"
    ∷ []
