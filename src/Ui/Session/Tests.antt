-- ===== src/Ui/Session/Tests.antt =====
-- Concrete runs of the session of app/ui.js.
use docker_baseimage_gui.Prelude.{true, false, some, none, List, [], ◌∷◌, ◌≡◌, ◌≢◌, refl}
use docker_baseimage_gui.Prelude.Text.{codes}
use docker_baseimage_gui.Ui.Session.{
  Session, reconnecting, Event, timer_fired, web_data_answered, rfb_connected, rfb_disconnected,
  credentials_required, credentials_submitted, security_failure, unloaded, start, step, run,
}
use docker_baseimage_gui.Ui.Session.Invariant.{SessionInv, run-start-SessionInv}
use docker_baseimage_gui.Ui.Session.Phases.{
  begun, after_all, machine, offline, phase, run-start-machine, run-not_offline,
}
use docker_baseimage_gui.Ui.Session.Laws.{refused-stuck, late_credentials-throw}

abbrev page : Session
page = unloaded false true false true none (codes "App")

-- The connection is lost, and made again at the second attempt.
abbrev session : List Event
session =
    rfb_connected
    ∷ rfb_disconnected
    ∷ timer_fired none
    ∷ security_failure none
    ∷ rfb_disconnected
    ∷ timer_fired none
    ∷ rfb_connected
    ∷ web_data_answered (some (true, false))
    ∷ []

run-start-SessionInv_example : SessionInv (run session (start none page))
run-start-SessionInv_example =
    run-start-SessionInv false true false true none (codes "App") session
      (refl, (refl, (refl, (refl, (refl, (refl, (refl, (refl, tt))))))))

run-start-machine_example :
    machine (run session (start none page)) ≡ after_all true session (begun false)
run-start-machine_example =
    run-start-machine false true false true none (codes "App") session
      (refl, (refl, (refl, (refl, (refl, (refl, (refl, (refl, tt))))))))

run-not_offline_example : phase (run session (start none page)) ≢ offline
run-not_offline_example =
    run-not_offline false false true none (codes "App") session
      (refl, (refl, (refl, (refl, (refl, (refl, (refl, (refl, tt))))))))

abbrev waiting : Session
waiting = record page { ongoing_reconnect = true; visual = reconnecting; timers = 1 }

refused-stuck_example :
    let t = step (timer_fired (some (codes "SyntaxError"))) waiting in
    (t.status ≡ waiting.status)
    × ((run session t).rfb ≡ false)
    × ((run session t).ongoing_reconnect ≡ true)
unfolding unloaded
refused-stuck_example = refused-stuck waiting (codes "SyntaxError") session refl refl refl refl refl

abbrev asked : Session
asked = record page { ongoing_reconnect = true; visual = reconnecting; rfb = true }

late_credentials-throw_example :
    let t = run (credentials_required false true ∷ rfb_disconnected ∷ []) asked in
    let u = step (credentials_submitted [] (codes "secret")) t in
    (t.credentials_open ≡ true)
    × (u.threw ≡ true)
    × (u.credentials_open ≡ true)
    × (u.reconnect_password ≡ asked.reconnect_password)
    × (u.password_input ≡ [])
    × (u.sent_credentials ≡ asked.sent_credentials)
unfolding unloaded
late_credentials-throw_example =
    late_credentials-throw asked false true [] (codes "secret") refl refl refl refl refl
