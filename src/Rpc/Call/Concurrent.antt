-- ===== src/Rpc/Call/Concurrent.antt =====
-- What the generated concurrent clients have in common, which threads share: they number their calls, and
-- a reply for another call is left to the thread that waits for it. The lines are those of
-- DSBUniqueIDService/tthreadedserver/gen-cpp/UniqueID.cpp, and for calls without a reply those of
-- DSBUniqueIDAsyncService/tthreadedserver/gen-cpp/UniqueIDAsync.cpp. Thrift's `TConcurrentClientSyncInfo`
-- and the sentries that lock it are no code of this repository: they are a parameter.
pub mod Sharing
pub mod Own
use Prim.Native.String.{String}
use apache_thrift_benchmarki.Prelude.{
  ℕ, zero, suc, Bool, true, false, List, [], ◌++◌, Option, none, some, if◌then◌else◌,
}
use apache_thrift_benchmarki.Prelude.Int.{ℤ, pos, eq_ℤ}
use apache_thrift_benchmarki.Format.{Text, codes, same_text}
use apache_thrift_benchmarki.Rpc.Wire.{
  M, ◌>>=◌, ◌>>◌, return, throw, finally, out_of_fuel, application, protocol, missing_result,
  invalid_data, Protocol, Part, message_begin, exception, TMessageType, t_call, t_oneway,
}
use apache_thrift_benchmarki.Rpc.Call.{is_exception, is_reply, end_message, drop_message, send}

-- A sentry is entered, may be committed, and is left at the end of its scope.
pub record Sync (W : Type 0) : Type 0 where
  pub generate_seq_id : M W ℤ
  pub send_enter : M W (Unit {0})
  pub send_commit : M W (Unit {0})
  pub send_leave : M W (Unit {0})
  pub recv_enter : ℤ → M W (Unit {0})
  pub recv_commit : M W (Unit {0})
  pub recv_leave : M W (Unit {0})
  pub get_pending : M W (Option (Text × TMessageType × ℤ))
  pub update_pending : Text × TMessageType × ℤ → M W (Unit {0})
  pub wait_for_work : ℤ → M W (Unit {0})

module _ {W D : Type 0} (prot : Protocol W D) (sync : Sync W) where
  open sync use {
    generate_seq_id, send_enter, send_commit, send_leave, recv_enter, recv_commit, recv_leave,
    get_pending, update_pending, wait_for_work,
  }

  unfoldable pub send_concurrent : Text → M W (Unit {0}) → M W ℤ
  send_concurrent name body = do
    cseqid ← generate_seq_id
    send_enter
    finally send_leave do send prot name t_call cseqid body; send_commit; return cseqid

  unfoldable pub send_concurrent_oneway : Text → M W (Unit {0}) → M W (Unit {0})
  send_concurrent_oneway name body = do
    send_enter
    finally send_leave do send prot name t_oneway (pos 0) body; send_commit

  module _ {R A : Type 0} (name : Text) (read_result : M W R) (success : R → Option A) where
    -- The reply to this call.
    unfoldable pub take_reply : Text → TMessageType → M W A
    take_reply fname mtype = elim (is_exception mtype) [
      | true ↦ do
        x ← prot.read exception
        end_message prot
        recv_commit
        throw (application x.0 x.1)
      | false ↦ do
        if is_reply mtype then return tt else drop_message prot
        elim (same_text fname name) [
          | false ↦ do drop_message prot; throw (protocol invalid_data)
          | true ↦ do
            result ← read_result
            end_message prot
            elim (success result) [
              | some a ↦ do recv_commit; return a
              | none ↦ throw (application missing_result (name ++ codes " failed: unknown result"))
            ]
        ]
    ]

    -- `while(true)` with fuel.
    unfoldable pub await_reply : ℕ → ℤ → M W A
    unfolding take_reply
    await_reply zero seqid = out_of_fuel
    await_reply (suc fuel) seqid = do
      pending ← get_pending
      head ← elim pending [ none ↦ prot.read message_begin | some head ↦ return head ]
      elim (eq_ℤ seqid head.2) [
        | true ↦ take_reply head.0 head.1
        | false ↦ do update_pending head; wait_for_work seqid; await_reply fuel seqid
      ]

    unfoldable pub recv_concurrent : ℕ → ℤ → M W A
    unfolding await_reply
    recv_concurrent fuel seqid = do recv_enter seqid; finally recv_leave (await_reply fuel seqid)
