-- ===== src/Syslog/Settings.antt =====
-- The minimum levels, single messages and the test mode of include/nanonet/sys/syslogger.h and
-- src/sys/syslogger.cpp.
pub mod TestMode
use Prim.Native.Nat.{bit_and}
use nanonet.Common.{ℕ, Bool, not, Option, none, some, [], ◌∷◌, ◌++◌, ◌==◌, if◌then◌else◌, Bytes}
use nanonet.Syslog.{Prio, emerg, err, default_prio, SyslogWriter, syslog_writer, send}

-- The flags SYSLOG, ECHO and BOTH.
abbrev pub to_syslog : ℕ
to_syslog = 1

abbrev pub to_echo : ℕ
to_echo = 2

abbrev pub to_both : ℕ
to_both = 3

pub record PrioSetter : Type 0 where
  pub p : Prio
  pub which : ℕ

-- `which & flag`
abbrev pub has_flag : ℕ → ℕ → Bool
has_flag which flag = not (bit_and which flag == 0)

unfoldable pub set_minlevel : PrioSetter → SyslogWriter → SyslogWriter
set_minlevel ps w = record w {
  minlevel_syslog = if has_flag ps.which to_syslog then ps.p else w.minlevel_syslog;
  minlevel_echo = if has_flag ps.which to_echo then ps.p else w.minlevel_echo;
}

-- `operator<<` of a prio_setter, on a syslogger and on another stream.
unfoldable pub write_setter : PrioSetter → Option SyslogWriter → Option SyslogWriter
unfolding set_minlevel
write_setter ps none = none
write_setter ps (some w) = some (set_minlevel ps w)

-- On a syslogger.
unfoldable pub log_error : Option Bytes → Bytes → Bytes → SyslogWriter → SyslogWriter
unfolding send
log_error time msg what w = send time (some err, msg ++ (b':' ∷ (b' ' ∷ (what ++ (b'\n' ∷ []))))) w

-- The writer of the syslogger that it makes, as it is destroyed.
unfoldable pub log_oneoff : Bytes → Prio → Bytes → SyslogWriter
unfolding send syslog_writer
log_oneoff tag p message = send none (some p, message ++ (b'\n' ∷ [])) (syslog_writer tag none)

-- The constructor and the destructor of `testmode_sentry`; `echo` is what its stream has.
unfoldable pub testmode_sentry : Bytes → SyslogWriter → SyslogWriter
unfolding set_minlevel
testmode_sentry echo w =
    set_minlevel (record { p = emerg; which = to_syslog }) (record w { echo = some echo })

unfoldable pub end_testmode : SyslogWriter → SyslogWriter
unfolding set_minlevel
end_testmode w =
    set_minlevel (record { p = default_prio; which = to_syslog }) (record w { echo = none })
