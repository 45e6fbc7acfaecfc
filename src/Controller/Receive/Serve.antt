-- ===== src/Controller/Receive/Serve.antt =====
-- src/controller.c: the commands that run are those that the stream stands for.
use daemonproxy.Common.{◌≤◌, ◌≡◌}
use daemonproxy.Controller.Receive.{Inp, serve_rounds}
use daemonproxy.Controller.Receive.Steps.{expected, IsInp}

-- The same commands are to come, and no more rounds.
abbrev Same : Inp → Inp → Type 0
Same inp new = IsInp new × (expected new ≡ expected inp) × (serve_rounds new ≤ serve_rounds inp)
