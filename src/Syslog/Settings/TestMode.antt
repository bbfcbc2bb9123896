-- ===== src/Syslog/Settings/TestMode.antt =====
-- What a syslogger does in the test mode of include/nanonet/sys/syslogger.h.
use nanonet.Common.{◌≡◌, ap, Option, none, some, List, [], ◌++◌, Bytes, All, ◌≢◌}
use nanonet.Syslog.{emerg, default_prio, SyslogWriter, Message}
use nanonet.Syslog.Levels.{selected, syslog_lines, echo_lines}
use nanonet.Syslog.Buffering.{send_all, all_parts, send_all-passed_on}
use nanonet.Syslog.Settings.{set_minlevel, testmode_sentry, end_testmode}

-- Between the construction of a testmode_sentry and its destruction, where no text is empty, only parts of messages
-- of the priority EMERG reach the log, and the test's stream has those that the minimum level of the echo stream lets
-- through. Afterwards there is no echo stream, and the minimum level of the log is the default one, whatever
-- it was. The log's levels and its stream are what the
-- state has; the clock of the echo stream is with each message.
pub testmode_sentry-end_testmode :
    (time : Option Bytes) (ms : List Message) (w : SyslogWriter)
    → w.currlevel ≡ default_prio
    → All (λ m. m.1 ≢ []) ms
    → ((send_all time ms (testmode_sentry [] w)).echo
        ≡ some (echo_lines time w.tag (selected w.minlevel_echo (all_parts ms))))
      × (end_testmode (send_all time ms (testmode_sentry [] w)) ≡ record w {
        logged = w.logged ++ syslog_lines w.tag (selected emerg (all_parts ms));
        echo = none;
        minlevel_syslog = default_prio;
        currlevel = default_prio;
      })
unfolding testmode_sentry end_testmode set_minlevel
testmode_sentry-end_testmode time ms w level h =
    let sent = send_all-passed_on time ms (testmode_sentry [] w) level h in
    (ap (λ v. v.echo) sent.1, ap end_testmode sent.1)
