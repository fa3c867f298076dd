-- ===== src/TradeHistory/Console.antt =====
-- dump/nonblocking/nb_server.cpp: `main`, which serves on a thread of its own until its user enters a
-- line that begins with `q`. The server and its thread manager are a parameter.
pub mod Quit
use apache_thrift_benchmarki.Prelude.{ℕ, zero, suc, Bool, List, [], ◌∷◌, ◌++◌, if◌then◌else◌}
use apache_thrift_benchmarki.Prelude.Int.{pos}
use apache_thrift_benchmarki.Format.{Text, codes, show_ℤ}
use apache_thrift_benchmarki.Rpc.Wire.{M, ◌>>=◌, ◌>>◌, return, out_of_fuel}
use apache_thrift_benchmarki.Rpc.Terminal.{
  Terminal, off_screen, show_line, read_line, starts_with_q,
}

-- `start` starts the manager and the thread that calls `serve`.
pub record Serving (W : Type 0) : Type 0 where
  pub start : M W (Unit {0})
  pub num_io_threads : M W ℕ
  pub worker_count : M W ℕ
  pub stop : M W (Unit {0})
  pub join : M W (Unit {0})

abbrev pub trade_port : ℕ
trade_port = 9090

abbrev show_ℕ : ℕ → Text
show_ℕ n = show_ℤ (pos n)

abbrev pub status : ℕ → ℕ → ℕ → Text
status hw_threads io_threads workers =
    codes "[Server ("
    ++ (show_ℕ hw_threads
        ++ (codes ", "
            ++ (show_ℕ io_threads
                ++ (codes "/"
                    ++ (show_ℕ workers
                        ++ (codes "):" ++ (show_ℕ trade_port ++ codes "] Enter 'q' to quit")))))))

abbrev pub waiting : Text
waiting = codes "waiting for server to exit..."

abbrev pub exiting : Text
exiting = codes "service complete, exiting."

module _ {W : Type 0} (serving : Serving W) (hw_threads : ℕ) where
  open serving use {start, num_io_threads, worker_count, stop, join}

  -- `do { … } while (str[0] != 'q');`
  unfoldable pub status_loop : ℕ → Text → M (W × Terminal) (Unit {0})
  status_loop zero str = out_of_fuel
  status_loop (suc fuel) str = do
    io_threads ← off_screen num_io_threads
    workers ← off_screen worker_count
    show_line (status hw_threads io_threads workers)
    str' ← read_line str
    if starts_with_q str' then return tt else status_loop fuel str'

  unfoldable pub server_main : ℕ → M (W × Terminal) (Unit {0})
  unfolding status_loop
  server_main fuel = do
    off_screen start
    status_loop fuel []
    off_screen stop
    show_line waiting
    off_screen join
    show_line exiting
