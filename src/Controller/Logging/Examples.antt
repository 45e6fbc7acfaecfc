-- ===== src/Controller/Logging/Examples.antt =====
-- src/controller.c, `log.filter` and `log.dest`: the theorem at a command, and tests.
use daemonproxy.Common.{true, some, none, [], ◌∷◌, codes, pos, ◌≡◌, refl}
use daemonproxy.Strseg.{seg, scan, tok_next, cmp_bytes}
use daemonproxy.Strseg.Cmp.{eq_bytes}
use daemonproxy.Log.{Log, new_log}
use daemonproxy.Log.Level.{level_name, level_from}
use daemonproxy.Fd.{Fds, heap, by_name}
use daemonproxy.Controller.Files.{get_arg_fd}
use daemonproxy.Controller.Logging.{invalid_loglevel, unknown_type, cmd_log_filter, cmd_log_dest}
use daemonproxy.Controller.Logging.Filter.{Filters, cmd_log_filter-Filters}

abbrev log : Log
log = new_log []

raised : cmd_log_filter (seg (codes "+")) log ≡ record {
  error = none;
  log = record log { filter = pos 0 };
  events = codes "log.filter\tinfo" ∷ [];
}
unfolding cmd_log_filter tok_next scan eq_bytes level_name level_from
raised = refl

refused :
    cmd_log_filter (seg (codes "loud")) log
    ≡ record { error = some invalid_loglevel; log = log; events = [] }
unfolding cmd_log_filter tok_next scan eq_bytes level_name level_from
refused = refl

cmd_log_filter-Filters_example : Filters log log (cmd_log_filter (seg (codes "-")) log)
cmd_log_filter-Filters_example = cmd_log_filter-Filters (seg (codes "-")) log log refl

abbrev no_fds : Fds
no_fds = record { index = []; memory = heap (λ i. true); next_id = 0; log = log; closed = [] }

-- A descriptor that is not there yet
directed :
    (cmd_log_dest (seg (codes "fd\tlogs")) no_fds).events
    ≡ codes "warning\tfd \"logs\" does not exist" ∷ []
unfolding cmd_log_dest tok_next scan eq_bytes by_name get_arg_fd cmp_bytes
directed = refl

unknown : (cmd_log_dest (seg (codes "syslog")) no_fds).error ≡ some unknown_type
unfolding cmd_log_dest tok_next scan eq_bytes by_name get_arg_fd
unknown = refl
