-- ===== src/Dns/Server/Life.antt =====
-- The life of the server: `init`, `start`, `stop`.
use degoonification.Common.{◌≡◌, refl, Bool, true, false, ◌≢◌, none, some, if◌then◌else◌}
use degoonification.Radix.Load.{load_from_file}
use degoonification.Dns.Server.{DnsServer, Fd, Setup, init, init_sockets, start, start_with, stop}

-- The worker thread lives exactly while the server runs, and a running server has its socket.
pub record IsLive (s : DnsServer) : Type 0 where
  pub thread : s.worker_thread ≡ s.is_running
  pub socket : s.is_running ≡ true → s.server_fd ≢ none

pub data Call : Type 0 where
  call_init : Setup → Call
  call_start call_stop : Call

pub run_call : Call → DnsServer → DnsServer
unfolding init start stop
run_call (call_init e) s = (init e s).1
run_call call_start s = (start s).1
run_call call_stop s = stop s

init_sockets-IsLive :
    (listening : Fd) (bound : Bool) (upstream : Fd) (s : DnsServer)
    → s.is_running ≡ false
    → IsLive s
    → IsLive (init_sockets listening bound upstream s).1
unfolding init_sockets
init_sockets-IsLive none bound upstream s off v = record {
  thread = v.thread;
  socket = λ h. cc (off, h);
}
init_sockets-IsLive (some fd) false upstream s off v = record {
  thread = v.thread;
  socket = λ h. cc (off, h);
}
init_sockets-IsLive (some fd) true upstream s off v = record {
  thread = v.thread;
  socket = λ h. cc (off, h);
}

start_with-IsLive :
    (fd : Fd) (s : DnsServer)
    → s.server_fd ≡ fd
    → IsLive s
    → IsLive (start_with fd s.is_running s).1
unfolding start_with
start_with-IsLive none s e v = v
start_with-IsLive (some fd) s e v = go s.is_running
  where
    go : (running : Bool) → IsLive (start_with (some fd) running s).1
    go true = v
    go false = record { thread = refl; socket = λ h none_fd. cc }

stop-IsLive : (s : DnsServer) → IsLive s → IsLive (stop s)
unfolding stop
stop-IsLive s v = go s.is_running
  where
    go :
        (running : Bool)
        → IsLive (
            if running
            then record s {
              is_running = false;
              worker_thread = false;
              server_fd = none;
              upstream_fd = none;
            }
            else s)
    go true = record { thread = refl; socket = λ h. cc }
    go false = v

-- `init` is for a server that does not run.
abbrev pub IsAllowed : Call → DnsServer → Type 0
IsAllowed (call_init e) s = s.is_running ≡ false
IsAllowed _ s = Unit

-- What a call achieves: `init` that fails leaves no listening socket, and otherwise the ones it was given;
-- a server with a listening socket runs after `start`; a server that ran has no socket after `stop`, does
-- not run, and cannot be started.
abbrev pub IsDone : Call → DnsServer → DnsServer → Type 0
IsDone (call_init e) s t =
    (e.bound ≡ false → t.server_fd ≡ none)
    × (e.bound ≡ true
        → e.listening ≢ none
        → (t.server_fd ≡ e.listening) × (t.upstream_fd ≡ e.upstream))
IsDone call_start s t = s.server_fd ≢ none → t.is_running ≡ true
IsDone call_stop s t =
    s.is_running ≡ true
    → (t.is_running ≡ false)
      × (t.server_fd ≡ none)
      × (t.upstream_fd ≡ none)
      × (start t ≡ (false, t))

init_sockets-IsDone :
    (listening : Fd) (bound : Bool) (upstream : Fd) (s : DnsServer)
    → let t = (init_sockets listening bound upstream s).1 in
      (bound ≡ false → t.server_fd ≡ none)
      × (bound ≡ true → listening ≢ none → (t.server_fd ≡ listening) × (t.upstream_fd ≡ upstream))
unfolding init_sockets
init_sockets-IsDone none bound upstream s = (λ h. refl, λ h k. absurd (k refl))
init_sockets-IsDone (some fd) false upstream s = (λ h. refl, λ h k. cc)
init_sockets-IsDone (some fd) true upstream s = (λ h. cc, λ h k. (refl, refl))

start_with-runs :
    (fd : Fd) (running : Bool) (s : DnsServer)
    → s.is_running ≡ running
    → fd ≢ none
    → (start_with fd running s).1.is_running ≡ true
unfolding start_with
start_with-runs none running s e h = absurd (h refl)
start_with-runs (some fd) true s e h = e
start_with-runs (some fd) false s e h = refl

stop_lem : (s : DnsServer) → IsDone call_stop s (stop s)
unfolding stop start start_with
stop_lem s e = rw e (refl, refl, refl, refl)

-- `init`, `start` and `stop` keep the thread and the listening socket in step with `is_running`,
-- where `init` is called only while the server does not run. After an `init` that could bind, the
-- sockets are the ones it was given, and after one that could not there is no listening socket.
-- After `start` a server with a listening socket runs. After `stop` a server that ran does not run,
-- has closed both sockets, and cannot be started.
pub run_call-IsLive :
    (c : Call) (s : DnsServer)
    → IsAllowed c s
    → IsLive s
    → IsLive (run_call c s) × IsDone c s (run_call c s)
unfolding run_call init start
run_call-IsLive (call_init e) s off v =
    let loaded : DnsServer = record s {
      radix_tree = (load_from_file e.blocklist s.radix_tree).1;
    } in
    (
      init_sockets-IsLive e.listening e.bound e.upstream loaded off
          (record { thread = v.thread; socket = v.socket }),
      init_sockets-IsDone e.listening e.bound e.upstream loaded,
    )
run_call-IsLive call_start s a v =
    (start_with-IsLive s.server_fd s refl v, start_with-runs s.server_fd s.is_running s refl)
run_call-IsLive call_stop s a v = (stop-IsLive s v, stop_lem s)
