-- ===== src/Tests/Logs.antt =====
-- A log with an echo stream that takes errors only.
use nanonet.Syslog.Buffering.{send_all, all_parts, IsCut, send_all-passed_on}
use nanonet.Lexer.{is_space}
use nanonet.Syslog.Settings.{log_oneoff}
use nanonet.Common.{
  ◌≡◌, refl, none, some, List, [], ◌∷◌, codes, ok, equal, Bytes, map, length, replicate, ◌+◌, ℕ,
}
use nanonet.Syslog.{
  Prio, err, warning, info, debug, SyslogWriter, Message, syslog_writer, prio_from_string, buffered,
  send,
}
use nanonet.Syslog.Levels.{selected, passed_on, concat}

abbrev writer : SyslogWriter
writer = record (syslog_writer (codes "test") (some [])) { minlevel_echo = err }

abbrev messages : List Message
messages =
    (some debug, codes "quiet\n")
    ∷ (none, codes "hello \n")
    ∷ (some err, codes "oh\n")
    ∷ (none, codes "bye")
    ∷ []

written_run :
    (send_all none messages writer).logged
    ≡ (info, codes "test (INFO) hello")
      ∷ (err, codes "test (ERROR) oh")
      ∷ (info, codes "test (INFO) bye")
      ∷ []
unfolding send_all syslog_writer is_space
written_run = refl

echoed_run : (send_all none messages writer).echo ≡ some (codes "test (ERROR) oh\n")
unfolding send_all syslog_writer is_space
echoed_run = refl

warning_run : prio_from_string (codes "WARNING") ≡ ok warning
unfolding prio_from_string equal
warning_run = refl

send_all-passed_on_example :
    ((text : Bytes) → (concat (buffered [] text) ≡ text) × IsCut (buffered [] text))
    × (send_all none messages writer
        ≡ passed_on none
            (selected writer.minlevel_syslog (all_parts messages))
            (selected writer.minlevel_echo (all_parts messages))
            writer)
send_all-passed_on_example =
    send_all-passed_on none messages writer (unfold syslog_writer in refl)
      (λ e. cc e, (λ e. cc e, (λ e. cc e, (λ e. cc e, tt))))

-- A text that does not fit is cut, and its second part has the default priority.
long_run :
    map {B = Prio × ℕ}
      (λ l. (l.0, length l.1))
      (send none (some err, replicate 1100 b'x') (syslog_writer [] none)).logged
    ≡ (err, 1024 + 8) ∷ (info, 76 + 7) ∷ []
unfolding send syslog_writer is_space
long_run = refl

oneoff_run : (log_oneoff (codes "t") err (codes "gone")).logged ≡ (err, codes "t (ERROR) gone") ∷ []
unfolding log_oneoff is_space
oneoff_run = refl
