-- ===== src/Controller/Logging/Filter.antt =====
-- src/controller.c, `ctl_cmd_log_filter`: the filter stays a level, and the event tells it.
use daemonproxy.Common.{true, Option, some, none, [], Bytes, ℤ, ◌≡◌, refl}
use daemonproxy.Strseg.{Seg, seg, scan, tok_next}
use daemonproxy.Strseg.Cmp.{eq_bytes}
use daemonproxy.Log.{Log}
use daemonproxy.Log.Level.{
  level_name, level_from, is_level, clamp_level, clamp_level-is_level, IsName, none_name,
  trace_name, debug_name, info_name, warning_name, error_name, fatal_name, level-IsName,
}
use daemonproxy.Controller.Logging.{
  LogError, Filtered, level_arg, told_filter, set_filter, filter_arg, cmd_log_filter,
}

-- A command on the log `l` fails and changes nothing; or it leaves a filter that is a level, and tells
-- its name, and a command with that name gives the log `k` the same filter.
pub data Filters (l k : Log) : Filtered → Type 0 where
  refuses : (e : LogError) → Filters l k (record { error = some e; log = l; events = [] })
  filters :
      (level : ℤ)
      → is_level level ≡ true
      → cmd_log_filter (seg (level_name level)) k ≡ told_filter (record k { filter = level })
      → Filters l k (told_filter (record l { filter = level }))

replays :
    {name : Bytes} {level : ℤ} (k : Log)
    → IsName name level
    → cmd_log_filter (seg name) k ≡ told_filter (record k { filter = level })
unfolding cmd_log_filter tok_next scan level_from eq_bytes level_name
replays k none_name = refl
replays k trace_name = refl
replays k debug_name = refl
replays k info_name = refl
replays k warning_name = refl
replays k error_name = refl
replays k fatal_name = refl

told_filter-Filters :
    (l k : Log) (level : ℤ)
    → is_level level ≡ true
    → Filters l k (told_filter (record l { filter = level }))
told_filter-Filters l k level h = filters level h (replays k (level-IsName level h))

set_filter-Filters : (l k : Log) (r : Option ℤ) → Filters l k (set_filter l r)
set_filter-Filters l k none = refuses _
set_filter-Filters l k (some level) =
    told_filter-Filters l k (clamp_level level) (clamp_level-is_level level).0

filter_arg-Filters :
    (l k : Log) (r : Option (Bytes × Seg)) → is_level l.filter ≡ true → Filters l k (filter_arg l r)
filter_arg-Filters l k none h = told_filter-Filters l k l.filter h
filter_arg-Filters l k (some (arg, rest)) h = set_filter-Filters l k (level_arg l.filter arg)

-- `log.filter` on a log whose filter is a level either fails and changes nothing, or leaves a filter that
-- is a level and tells its name; and `log.filter` with the name that was told gives any log that filter.
pub cmd_log_filter-Filters :
    (command : Seg) (l k : Log) → is_level l.filter ≡ true → Filters l k (cmd_log_filter command l)
unfolding cmd_log_filter
cmd_log_filter-Filters command l k h = filter_arg-Filters l k (tok_next b'\t' command) h
