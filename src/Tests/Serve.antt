-- ===== src/Tests/Serve.antt =====
-- A run of the command of the server, on libraries that count their calls.
use cluster_monitor.Prelude.{ℕ, Bool, true, false}
use cluster_monitor.Go.Result.{ok}
use cluster_monitor.Go.Exec.{Exec}
use cluster_monitor.Server.Config.{Config}
use cluster_monitor.Server.Shell.{Network}
use cluster_monitor.Server.Command.{Platform}
use cluster_monitor.Tests.Config.{libraries, server_config}

abbrev done : {A : Type 0} → A → Exec ℕ A
done a s = (ok a, ℕ.suc s)

abbrev network : Network ℕ
network = record {
  Interceptor = Unit {0};
  new_interceptor = λ addr resource. done tt;
  unary = λ ai methods h. h;
  WorkerInterceptor = Unit {0};
  new_worker_interceptor = λ addr. done tt;
  worker_unary = λ ai h. h;
  Usage = Bool;
  usage_unary = λ u h. h;
  Listener = Unit {0};
  listen = λ port. done tt;
}

-- The gateway returns after a while.
abbrev platform : Platform libraries ℕ
platform = record {
  Bytes = Unit {0};
  Conn = Unit {0};
  Mux = Unit {0};
  network = network;
  read_file = λ path. done tt;
  unmarshal = λ b. ok (server_config true);
  open_db = λ c. done tt;
  auto_migrate = done tt;
  new_client = λ port. done tt;
  new_serve_mux = λ conn. tt;
  register_handler = λ mux port. done tt;
  new_usage = λ c. done true;
  noop_usage = false;
  listen_and_serve = λ port mux s. (ok tt, s);
  serve = λ guard usage l. done tt;
  serve_worker = λ guard l. done tt;
}
