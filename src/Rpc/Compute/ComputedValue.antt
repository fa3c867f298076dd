-- ===== src/Rpc/Compute/ComputedValue.antt =====
-- MLInfer/tthreaded/gen-cpp/Compute.cpp: the stubs of the method computed_value of
-- the service Compute. The event handler and the fuel of the loops are parameters.
pub mod Trip
use apache_thrift_benchmarki.Prelude.{ℕ, Bool, true, false, [], Option, some, if◌then◌else◌}
use apache_thrift_benchmarki.Prelude.Int.{ℤ, pos, eq_ℤ}
use apache_thrift_benchmarki.Format.{codes}
use apache_thrift_benchmarki.Rpc.Wire.{M, ◌>>=◌, ◌>>◌, Protocol, i32, TType, t_i32, t_call}
use apache_thrift_benchmarki.Rpc.Struct.{skip_field, member, read_struct, write_field, write_struct}
use apache_thrift_benchmarki.Rpc.Results.{read_void_result, write_void_result}
use apache_thrift_benchmarki.Rpc.Call.{EventHandler, send, recv, process}
use apache_thrift_benchmarki.Rpc.Call.Concurrent.{Sync, send_concurrent, recv_concurrent}

-- `Compute_computed_value_args`
pub record Args : Type 0 where
  pub row : ℤ
  pub isset_row : Bool
  pub column : ℤ
  pub isset_column : Bool

abbrev pub empty_args : Args
empty_args = record { row = pos 0; isset_row = false; column = pos 0; isset_column = false }

module _ {W D : Type 0} (prot : Protocol W D) where
  unfoldable pub args_switch : ℤ → TType → Args → M W Args
  args_switch fid ftype this =
      if eq_ℤ fid (pos 1)
      then member prot t_i32 i32 (λ row. record this { row = row; isset_row = true }) ftype this
      else if eq_ℤ fid (pos 2)
      then member prot t_i32 i32 (λ column. record this { column = column; isset_column = true })
          ftype this
      else skip_field prot ftype this

  unfoldable pub read_args : ℕ → Args → M W Args
  unfolding args_switch
  read_args fuel this = read_struct prot args_switch fuel this

  unfoldable pub write_args : Args → M W (Unit {0})
  write_args this = write_struct prot (codes "Compute_computed_value_args") (do
    write_field prot (codes "row") t_i32 (pos 1) (prot.write i32 [] this.row)
    write_field prot (codes "column") t_i32 (pos 2) (prot.write i32 [] this.column))

  unfoldable pub write_pargs : ℤ → ℤ → M W (Unit {0})
  write_pargs row column = write_struct prot (codes "Compute_computed_value_pargs") (do
    write_field prot (codes "row") t_i32 (pos 1) (prot.write i32 [] row)
    write_field prot (codes "column") t_i32 (pos 2) (prot.write i32 [] column))

  unfoldable pub read_result : ℕ → M W (Unit {0})
  read_result fuel = read_void_result prot fuel

  unfoldable pub write_result : M W (Unit {0})
  write_result = write_void_result prot (codes "Compute_computed_value_result")

  unfoldable pub read_presult : ℕ → M W (Unit {0})
  read_presult fuel = read_void_result prot fuel

  unfoldable pub send_computed_value : ℤ → ℤ → M W (Unit {0})
  send_computed_value row column =
      send prot (codes "computed_value") t_call (pos 0) (write_pargs row column)

  unfoldable pub recv_computed_value : ℕ → M W (Unit {0})
  recv_computed_value fuel = recv prot (codes "computed_value") (read_presult fuel) some

  module _ (sync : Sync W) where
    unfoldable pub send_computed_value_concurrent : ℤ → ℤ → M W ℤ
    send_computed_value_concurrent row column =
        send_concurrent prot sync (codes "computed_value") (write_pargs row column)

    unfoldable pub recv_computed_value_concurrent : ℕ → ℕ → ℤ → M W (Unit {0})
    recv_computed_value_concurrent rounds fuel seqid =
        recv_concurrent prot sync (codes "computed_value") (read_presult fuel) some rounds seqid

module _ {W D : Type 0} (iprot oprot : Protocol W D) where
  unfoldable pub computed_value : ℕ → ℤ → ℤ → M W (Unit {0})
  computed_value fuel row column = do
    send_computed_value oprot row column
    recv_computed_value iprot fuel

  unfoldable pub computed_value_concurrent : Sync W → ℕ → ℕ → ℤ → ℤ → M W (Unit {0})
  computed_value_concurrent sync rounds fuel row column = do
    seqid ← send_computed_value_concurrent oprot sync row column
    recv_computed_value_concurrent iprot sync rounds fuel seqid

  -- `iface` is the method of the handler.
  module _ {C : Type 0} (event_handler : Option (EventHandler W C)) (fuel : ℕ)
      (iface : ℤ → ℤ → M W (Unit {0})) where
    unfoldable pub process_computed_value : ℤ → M W (Unit {0})
    process_computed_value seqid =
        process iprot oprot event_handler (codes "Compute.computed_value") (codes "computed_value")
          (read_args iprot fuel empty_args) (λ args. iface args.row args.column)
          (λ _. write_result oprot) seqid
