-- ===== src/AppState.antt =====
-- The app's state machine: src/state/appReducer.ts.
use i_tantra.Base.{◌≡◌, ◌≢◌, refl, List, [], ◌∷◌, Option, none, some, Text}

pub data AppState : Type 0 where
  idle listening processing_stt playing_tts error : AppState

pub data AppAction : Type 0 where
  start_listening stop_listening tts_started tts_finished dismiss_error : AppAction
  raise : Text → AppAction

pub record AppStateContext : Type 0 where
  pub state : AppState
  pub message : Option Text

unfoldable pub stop_from : AppState → AppStateContext → AppStateContext
stop_from listening c = record c { state = processing_stt }
stop_from idle c = c
stop_from processing_stt c = c
stop_from playing_tts c = c
stop_from error c = c

unfoldable pub app_reducer : AppStateContext → AppAction → AppStateContext
unfolding stop_from
app_reducer c start_listening = record c { state = listening }
app_reducer c stop_listening = stop_from c.state c
app_reducer c tts_started = record c { state = playing_tts }
app_reducer c tts_finished = record c { state = idle }
app_reducer c (raise e) = record c { state = error; message = some e }
app_reducer c dismiss_error = record c { state = idle; message = none }

-- The actions in the order in which they are dispatched.
unfoldable pub run : AppStateContext → List AppAction → AppStateContext
run c [] = c
run c (a ∷ rest) = run (app_reducer c a) rest

-- The state of the app when it starts.
abbrev pub initial : AppStateContext
initial = record { state = idle; message = none }

-- The error state comes with a message.
abbrev HasMessage : AppStateContext → Type 0
HasMessage c = c.state ≡ error → c.message ≢ none

app_reducer-HasMessage :
    (c : AppStateContext) (a : AppAction) → HasMessage c → HasMessage (app_reducer c a)
unfolding app_reducer
app_reducer-HasMessage c start_listening h = λ e. cc
app_reducer-HasMessage c stop_listening h = stop_from-HasMessage c.state c refl h
  where
    stop_from-HasMessage :
        (s : AppState) (c : AppStateContext)
        → c.state ≡ s
        → HasMessage c
        → HasMessage (stop_from s c)
    stop_from-HasMessage listening c q h = λ e. cc
    stop_from-HasMessage idle c q h = h
    stop_from-HasMessage processing_stt c q h = h
    stop_from-HasMessage playing_tts c q h = h
    stop_from-HasMessage error c q h = h
app_reducer-HasMessage c tts_started h = λ e. cc
app_reducer-HasMessage c tts_finished h = λ e. cc
app_reducer-HasMessage c (raise m) h = λ e. λ n. cc
app_reducer-HasMessage c dismiss_error h = λ e. cc

run-HasMessage :
    (actions : List AppAction) (c : AppStateContext) → HasMessage c → HasMessage (run c actions)
unfolding run
run-HasMessage [] c h = h
run-HasMessage (a ∷ rest) c h = run-HasMessage rest (app_reducer c a) (app_reducer-HasMessage c a h)

-- Whatever is dispatched after the start, an app in the error state has a message to show.
pub run_error :
    (actions : List AppAction)
    → (run initial actions).state ≡ error
    → (run initial actions).message ≢ none
run_error actions h = run-HasMessage actions initial (λ e. λ n. started e) h
  where
    started : idle ≢ error
    started e = cc
