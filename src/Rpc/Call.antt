-- ===== src/Rpc/Call.antt =====
-- What the generated clients and processors have in common: a client sends a call and receives its
-- answer, a processor finds the method and replies. The code repeats it for each method; the lines are
-- those of DSBUniqueIDService/tthreadedserver/gen-cpp/UniqueID.cpp, and for calls without a reply those of
-- DSBUniqueIDAsyncService/tthreadedserver/gen-cpp/UniqueIDAsync.cpp.

pub mod Messages
pub mod Concurrent
pub mod Processing
pub mod Exchanges
use Prim.Native.String.{String}
use apache_thrift_benchmarki.Prelude.{
  Bool, true, false, List, [], ◌∷◌, ◌++◌, Option, none, some, inl, inr, if◌then◌else◌,
}
use apache_thrift_benchmarki.Prelude.Int.{ℤ}
use apache_thrift_benchmarki.Format.{Text, codes, same_text}
use apache_thrift_benchmarki.Rpc.Wire.{
  M, ◌>>=◌, ◌>>◌, return, throw, try_catch, finally, Exception, application, unknown,
  unknown_method, missing_result, Protocol, Part, message_begin, message_end, exception, t_struct,
  TMessageType, t_call, t_reply, t_exception, t_oneway,
}

-- The calls of `TProcessorEventHandler`, and that of `TProcessorContextFreer` at the end of the scope.
pub data Event : Type 0 where
  pre_read post_read handler_error pre_write post_write async_complete free_context : Event

-- `TProcessorEventHandler`, with contexts of type C. The call's context and the numbers of bytes, which
-- it gets too, are left out.
pub record EventHandler (W C : Type 0) : Type 0 where
  pub get_context : Text → M W C
  pub on : Event → C → Text → M W (Unit {0})

module _ {W C : Type 0} (event_handler : Option (EventHandler W C)) where
  -- `ctx` stays null without an event handler.
  unfoldable pub context : Text → M W (Option C)
  context method = elim event_handler [
    | none ↦ return none
    | some handler ↦ do ctx ← handler.get_context method; return (some ctx)
  ]

  unfoldable pub fire : Event → Option C → Text → M W (Unit {0})
  fire event ctx method = elim event_handler [
    | none ↦ return tt
    | some handler ↦ elim ctx [ none ↦ return tt | some c ↦ handler.on event c method ]
  ]

abbrev pub is_exception : TMessageType → Bool
is_exception t_exception = true
is_exception _ = false

abbrev pub is_reply : TMessageType → Bool
is_reply t_reply = true
is_reply _ = false

module _ {W D : Type 0} (prot : Protocol W D) where
  open prot use {write, read, skip, read_end, write_end, flush}

  unfoldable pub end_message : M W (Unit {0})
  end_message = do read message_end; read_end

  unfoldable pub drop_message : M W (Unit {0})
  unfolding end_message
  drop_message = do skip t_struct; end_message

  unfoldable pub send : Text → TMessageType → ℤ → M W (Unit {0}) → M W (Unit {0})
  send name mtype seqid body = do
    write message_begin [] (name, mtype, seqid)
    body
    write message_end [] tt
    write_end
    flush

  -- A message of another type or name is dropped, and the result is read all the same. `success` gives
  -- what the call returns, if the result has it.
  unfoldable pub recv : {R A : Type 0} → Text → M W R → (R → Option A) → M W A
  unfolding end_message drop_message
  recv name read_result success = do
    head ← read message_begin
    elim (is_exception head.1) [
      | true ↦ do x ← read exception; end_message; throw (application x.0 x.1)
      | false ↦ do
        if is_reply head.1 then return tt else drop_message
        if same_text head.0 name then return tt else drop_message
        result ← read_result
        end_message
        elim (success result) [
          | some a ↦ return a
          | none ↦ throw (application missing_result (name ++ codes " failed: unknown result"))
        ]
    ]

-- `processMap_`
abbrev pub ProcessMap : Type 0 → Type 0
ProcessMap W = List (Text × (ℤ → M W (Unit {0})))

unfoldable pub find : {W : Type 0} → ProcessMap W → Text → Option (ℤ → M W (Unit {0}))
find [] fname = none
find (entry ∷ entries) fname = if same_text entry.0 fname then some entry.1 else find entries fname

module _ {W D : Type 0} (iprot oprot : Protocol W D) where
  unfoldable pub dispatch_call : ProcessMap W → Text → ℤ → M W Bool
  unfolding drop_message send find
  dispatch_call process_map fname seqid = elim (find process_map fname) [
    | none ↦ do
      drop_message iprot
      send oprot fname t_exception seqid (
          oprot.write exception []
            (unknown_method, codes "Invalid method name: '" ++ (fname ++ codes "'")))
      return true
    | some process ↦ do process seqid; return true
  ]

  module _ {C : Type 0} (event_handler : Option (EventHandler W C)) where
    -- `method` is the full name, `call` the handler's method.
    unfoldable pub process :
        {A R : Type 0}
        → Text
        → Text
        → M W A
        → (A → M W R)
        → (R → M W (Unit {0}))
        → ℤ
        → M W (Unit {0})
    unfolding context fire end_message send
    process method name read_args call write_result seqid = do
      ctx ← context event_handler method
      finally (fire event_handler free_context ctx method) do
        fire event_handler pre_read ctx method
        args ← read_args
        end_message iprot
        fire event_handler post_read ctx method
        answer ← try_catch (call args)
        elim answer [
          | inl result ↦ do
            fire event_handler pre_write ctx method
            send oprot name t_reply seqid (write_result result)
            fire event_handler post_write ctx method
          | inr e ↦ do
            fire event_handler handler_error ctx method
            send oprot name t_exception seqid (oprot.write exception [] (unknown, oprot.what e))
        ]

    -- For a call without a reply.
    unfoldable pub process_oneway :
        {A : Type 0} → Text → M W A → (A → M W (Unit {0})) → ℤ → M W (Unit {0})
    unfolding context fire end_message
    process_oneway method read_args call seqid = do
      ctx ← context event_handler method
      finally (fire event_handler free_context ctx method) do
        fire event_handler pre_read ctx method
        args ← read_args
        end_message iprot
        fire event_handler post_read ctx method
        answer ← try_catch (call args)
        elim answer [
          | inl _ ↦ fire event_handler async_complete ctx method
          | inr e ↦ fire event_handler handler_error ctx method
        ]
